-- ===== src/Dedup/Laws.antt =====
-- What a duplicate is, and that pruning is never seen.
use sipreaper.Common.{
  ℕ, ◌+◌, ◌≤◌, ◌<◌, if◌then◌else◌, Bool-cases, ◌≡◌, refl, ap, ◌∙◌, ◌⊎◌, inl, inr, Bool, true, false,
  List, [], ◌∷◌, Option, none, some, arith, Text, text_eq, text_eq_iff, text_eq_refl, All,
}
use sipreaper.Common.Dict.{
  lookup, insert, IsMap, IsMap-insert, IsMap-sweep, lookup-insert, lookup-sweep, and_then,
}
use sipreaper.Dedup.{
  Dedup, Call, check, tick, new_dedup, is_recent, is_dup, keep_recent, prune, step, run, answers,
}

abbrev pub time_of : Call → ℕ
time_of (check now key) = now
time_of (tick now) = now

-- A check that remembers every key for good: the last time each key was accepted.
abbrev pub remember : (Text → Option ℕ) → ℕ → Text → Text → Option ℕ
remember last now key j = if text_eq key j then some now else last j

pub ideal : ℕ → (Text → Option ℕ) → List Call → List Bool
ideal w last [] = []
ideal w last (check now key ∷ calls) =
    let old = is_recent now w (last key) in
    old ∷ (ideal w (if old then last else remember last now key) calls)
ideal w last (tick now ∷ calls) = ideal w last calls

abbrev pub InOrder : ℕ → List Call → Type 0
InOrder from [] = Unit
InOrder from (c ∷ calls) = (from ≤ time_of c) × InOrder (time_of c) calls

-- A key is held as it was last accepted, or is forgotten and was accepted a window ago.
abbrev Held : Option ℕ → Option ℕ → ℕ → ℕ → Type 0
Held held none w now = held ≡ none
Held held (some ts) w now = (held ≡ some ts) ⊎ ((held ≡ none) × (ts + w ≤ now))

record Tracks (d : Dedup) (now : ℕ) (last : Text → Option ℕ) : Type 0 where
  is_map : IsMap d.seen
  holds : (key : Text) → Held (lookup key d.seen) (last key) d.window now

Held-later :
    (held last : Option ℕ) (w now t : ℕ) → now ≤ t → Held held last w now → Held held last w t
Held-later held none w now t le h = h
Held-later held (some ts) w now t le h = ground arith

Held-recent :
    (held last : Option ℕ) (w now : ℕ)
    → Held held last w now
    → is_recent now w held ≡ is_recent now w last
Held-recent held none w now h = rw h
Held-recent held (some ts) w now h = ground arith

Held-keep :
    (held last : Option ℕ) (w now : ℕ)
    → Held held last w now
    → Held (and_then held (keep_recent now w)) last w now
unfolding keep_recent
Held-keep held none w now h = rw h
Held-keep held (some ts) w now h = ground arith

window-is_dup : (d : Dedup) (t : ℕ) (key : Text) → (is_dup d t key).0.window ≡ d.window
unfolding is_dup
window-is_dup d t key = ground arith

window-prune : (d : Dedup) (t : ℕ) → (prune d t).window ≡ d.window
unfolding prune
window-prune d t = refl

module _ (d : Dedup) (now : ℕ) (last : Text → Option ℕ) (tk : Tracks d now last) (t : ℕ)
    (le : now ≤ t) where
  Tracks-later : Tracks d t last
  Tracks-later = record {
    is_map = tk.is_map;
    holds = λ key. Held-later _ (last key) d.window now t le (tk.holds key);
  }

  is_dup-ideal : (key : Text) → (is_dup d t key).1 ≡ is_recent t d.window (last key)
  unfolding is_dup
  is_dup-ideal key = ground (arith, Held-recent _ (last key) d.window t (Tracks-later.holds key))

  Tracks-accept :
      (key : Text) → Tracks (record d { seen = insert key t d.seen }) t (remember last t key)
  Tracks-accept key = record {
    is_map = IsMap-insert key t d.seen tk.is_map;
    holds = λ j. elim (Bool-cases (text_eq key j)) [
      | inl same ↦ rw (lookup-insert, same) (inl refl)
      | inr other ↦ rw (lookup-insert, other) (Tracks-later.holds j)
    ];
  }

  Tracks-check :
      (key : Text)
      → Tracks
          (is_dup d t key).0
          t
          (if is_recent t d.window (last key) then last else remember last t key)
  unfolding is_dup
  Tracks-check key =
      rw (Held-recent _ (last key) d.window t (Tracks-later.holds key))
        (elim (Bool-cases (is_recent t d.window (last key))) [
          | inl old ↦ rw old Tracks-later
          | inr new ↦ rw new (Tracks-accept key)
        ])

  Tracks-tick : Tracks (prune d t) t last
  unfolding prune
  Tracks-tick = record {
    is_map = IsMap-sweep _ d.seen tk.is_map;
    holds = λ j.
        rw (lookup-sweep (keep_recent t d.window) j d.seen tk.is_map)
          (Held-keep _ (last j) d.window t (Tracks-later.holds j));
  }

answers-Tracks :
    (calls : List Call) (d : Dedup) (now : ℕ) (last : Text → Option ℕ)
    → Tracks d now last
    → InOrder now calls
    → answers d calls ≡ ideal d.window last calls
unfolding answers ideal
answers-Tracks [] d now last tk o = refl
answers-Tracks (check t key ∷ calls) d now last tk (le, o) =
    let old = is_recent t d.window (last key) in
    rw (is_dup-ideal d now last tk t le key) (
      ap (◌∷◌ old) (
        answers-Tracks calls _ t _ (Tracks-check d now last tk t le key) o
        ∙ ap (λ w. ideal w (if old then last else remember last t key) calls)
            (window-is_dup d t key)))
answers-Tracks (tick t ∷ calls) d now last tk (le, o) =
    answers-Tracks calls (prune d t) t last (Tracks-tick d now last tk t le) o
    ∙ ap (λ w. ideal w last calls) (window-prune d t)

-- Pruning is never seen: whenever it happens, over a clock that does not go back, the answers are
-- those of a check that remembers for good when it last accepted each key.
pub answers-ideal :
    (w from : ℕ) (calls : List Call)
    → InOrder from calls
    → answers (new_dedup w) calls ≡ ideal w (λ _. none) calls
unfolding new_dedup lookup
answers-ideal w from calls o =
    answers-Tracks calls (new_dedup w) from (λ _. none) (record { is_map = tt; holds = λ _. refl })
      o

IsMap-is_dup : (d : Dedup) (t : ℕ) (key : Text) → IsMap d.seen → IsMap (is_dup d t key).0.seen
unfolding is_dup
IsMap-is_dup d t key m =
    elim (is_recent t d.window (lookup key d.seen))
      as (λ b.
        let r : Dedup × Bool =
          if b then (d, true) else (record d { seen = insert key t d.seen }, false) in
        IsMap r.0.seen) [ true ↦ m | false ↦ IsMap-insert key t d.seen m ]

accepted :
    (d : Dedup) (ts : ℕ) (key : Text)
    → (is_dup d ts key).1 ≡ false
    → lookup key (is_dup d ts key).0.seen ≡ some ts
unfolding is_dup
accepted d ts key fresh = ground (arith, lookup-insert key key ts d.seen, text_eq_refl key)

duplicate :
    (d : Dedup) (t ts : ℕ) (key : Text)
    → lookup key d.seen ≡ some ts
    → t < ts + d.window
    → (is_dup d t key).1 ≡ true
unfolding is_dup
duplicate d t ts key h lt = ground arith

-- A key that was accepted is held until its window is over.
held-step :
    (c : Call) (d : Dedup) (key : Text) (ts : ℕ)
    → IsMap d.seen
    → lookup key d.seen ≡ some ts
    → time_of c < ts + d.window
    → IsMap (step d c).seen
      × (lookup key (step d c).seen ≡ some ts)
      × ((step d c).window ≡ d.window)
unfolding step is_dup prune keep_recent
held-step (check t j) d key ts m h lt = (
  IsMap-is_dup d t j m,
  ground (arith, lookup-insert j key t d.seen, text_eq_iff j key),
  ground arith,
)
held-step (tick t) d key ts m h lt = (
  IsMap-sweep _ d.seen m,
  lookup-sweep (keep_recent t d.window) key d.seen m ∙ ground arith,
  refl,
)

held-run :
    (calls : List Call) (d : Dedup) (key : Text) (ts : ℕ)
    → IsMap d.seen
    → lookup key d.seen ≡ some ts
    → All (λ c. time_of c < ts + d.window) calls
    → (lookup key (run d calls).seen ≡ some ts) × ((run d calls).window ≡ d.window)
unfolding run
held-run [] d key ts m h a = (h, refl)
held-run (c ∷ calls) d key ts m h (lt, a) =
    let (m', h', w) = held-step c d key ts m h lt in
    let (held, same) = held-run calls (step d c) key ts m' h' (rw w a) in (held, same ∙ w)

-- Once an event is accepted, every event of the same key within the window is a duplicate,
-- whatever is checked and pruned in between.
pub is_dup-run :
    (d : Dedup) (key : Text) (ts t : ℕ) (calls : List Call)
    → IsMap d.seen
    → (is_dup d ts key).1 ≡ false
    → All (λ c. time_of c < ts + d.window) calls
    → t < ts + d.window
    → (is_dup (run (is_dup d ts key).0 calls) t key).1 ≡ true
is_dup-run d key ts t calls m fresh before lt =
    let d' = (is_dup d ts key).0 in
    let w = window-is_dup d ts key in
    let (held, same) =
      held-run calls d' key ts (IsMap-is_dup d ts key m) (accepted d ts key fresh) (rw w before) in
    duplicate (run d' calls) t ts key held (rw (same, w) lt)
