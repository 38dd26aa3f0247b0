-- ===== src/Decision/Escalation.antt =====
-- The ladder of ban durations.
use mathlib.Core.Option
use sipreaper.Common.{
  ℕ, zero, suc, ◌-◌, ◌≤◌, ◌<◌, leb, if◌then◌else◌, ◌≡◌, List, [], ◌∷◌, arith, length, get_elem?,
  All,
}
use sipreaper.Decision.{duration_for_count}

-- The durations never fall.
abbrev pub IsLadder : List ℕ → Type 0
IsLadder [] = Unit
IsLadder (d ∷ ds) = All (λ e. d ≤ e) ds × IsLadder ds

abbrev at_or_zero : List ℕ → ℕ → ℕ
at_or_zero ds i = Option.get_or (get_elem? ds i) 0

All-at : (d : ℕ) (ds : List ℕ) (i : ℕ) → All (λ e. d ≤ e) ds → i < length ds → d ≤ at_or_zero ds i
All-at d [] i a h = absurd (omega arith)
All-at d (e ∷ ds) zero (le, a) h = le
All-at d (e ∷ ds) (suc i) (le, a) h = All-at d ds i a (omega arith)

ladder_mono :
    (ds : List ℕ) (i j : ℕ)
    → IsLadder ds
    → i ≤ j
    → j < length ds
    → at_or_zero ds i ≤ at_or_zero ds j
ladder_mono [] i j l le h = absurd (omega arith)
ladder_mono (d ∷ ds) zero zero l le h = omega arith
ladder_mono (d ∷ ds) zero (suc j) (a, l) le h = All-at d ds j a (omega arith)
ladder_mono (d ∷ ds) (suc i) zero l le h = absurd (omega arith)
ladder_mono (d ∷ ds) (suc i) (suc j) (a, l) le h = ladder_mono ds i j l (omega arith) (omega arith)

abbrev rung : List ℕ → ℕ → ℕ
rung ds n = if leb (length ds) n then length ds - 1 else n

duration_at :
    (d : ℕ) (ds : List ℕ) (n : ℕ)
    → duration_for_count (d ∷ ds) n ≡ at_or_zero (d ∷ ds) (rung (d ∷ ds) n)
unfolding duration_for_count
duration_at d ds n = ground arith

rung_mono :
    (d : ℕ) (ds : List ℕ) (m n : ℕ)
    → m ≤ n
    → (rung (d ∷ ds) m ≤ rung (d ∷ ds) n) × (rung (d ∷ ds) n < length (d ∷ ds))
rung_mono d ds m n le = ground arith

-- Where the configured durations do not fall, an offender with more prior bans is never banned
-- for less.
pub duration_for_count_mono :
    (ds : List ℕ) (m n : ℕ)
    → IsLadder ds
    → m ≤ n
    → duration_for_count ds m ≤ duration_for_count ds n
unfolding duration_for_count
duration_for_count_mono [] m n l le = omega arith
duration_for_count_mono (d ∷ ds) m n l le =
    let (up, below) = rung_mono d ds m n le in
    rw (duration_at d ds m, duration_at d ds n)
      (ladder_mono (d ∷ ds) (rung (d ∷ ds) m) (rung (d ∷ ds) n) l up below)
