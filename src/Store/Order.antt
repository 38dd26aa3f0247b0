-- ===== src/Store/Order.antt =====
-- The listing of bans: every row that matches, newest first.
use mathlib.Core.List.Perm
use mathlib.Core.List.{Perm}
use sipreaper.Common.{
  ℕ, ◌≤◌, ltb, Bool-cases, not-ltb→le, ◌≡◌, ◌≢◌, ◌↔◌, ◌⊎◌, Bool, codes, text_eq, text_eq_iff,
  is_empty, ◌&&◌, ◌||◌, if◌then◌else◌, false, refl, inl, inr, true, List, [], ◌∷◌, map, arith, Text,
  All, keep,
}
use sipreaper.Store.{
  Store, BanRow, ok, is_current, scan_ban, ban_filter, selected, insert_by_time, newest_first,
  list_bans_filtered,
}

abbrev pub IsNewestFirst : List BanRow → Type 0
IsNewestFirst [] = Unit
IsNewestFirst (r ∷ rows) = All (λ q. q.banned_at ≤ r.banned_at) rows × IsNewestFirst rows

insert-perm : (r : BanRow) (rows : List BanRow) → Perm (insert_by_time r rows) (r ∷ rows)
unfolding insert_by_time
insert-perm r [] = Perm.refl _
insert-perm r (q ∷ rows) = elim (Bool-cases (ltb r.banned_at q.banned_at)) [
  | inl older ↦ rw older (Perm.trans (Perm.cons q (insert-perm r rows)) (Perm.swap r q rows))
  | inr newer ↦ rw newer (Perm.refl _)
]

pub newest_first-perm : (rows : List BanRow) → Perm (newest_first rows) rows
unfolding newest_first
newest_first-perm [] = Perm.refl []
newest_first-perm (r ∷ rows) =
    Perm.trans (insert-perm r (newest_first rows)) (Perm.cons r (newest_first-perm rows))

All-insert :
    (n : ℕ) (r : BanRow) (rows : List BanRow)
    → r.banned_at ≤ n
    → All (λ q. q.banned_at ≤ n) rows
    → All (λ q. q.banned_at ≤ n) (insert_by_time r rows)
unfolding insert_by_time
All-insert n r [] h a = (h, tt)
All-insert n r (q ∷ rows) h (hq, a) = elim (Bool-cases (ltb r.banned_at q.banned_at)) [
  | inl older ↦ rw older (hq, All-insert n r rows h a)
  | inr newer ↦ rw newer (h, (hq, a))
]

All-weaken :
    (m n : ℕ) (rows : List BanRow)
    → m ≤ n
    → All (λ (q : BanRow). q.banned_at ≤ m) rows
    → All (λ (q : BanRow). q.banned_at ≤ n) rows
All-weaken m n [] le a = tt
All-weaken m n (q ∷ rows) le (h, a) = (omega arith, All-weaken m n rows le a)

insert-IsNewestFirst :
    (r : BanRow) (rows : List BanRow) → IsNewestFirst rows → IsNewestFirst (insert_by_time r rows)
unfolding insert_by_time
insert-IsNewestFirst r [] h = (tt, tt)
insert-IsNewestFirst r (q ∷ rows) (a, h) = elim (Bool-cases (ltb r.banned_at q.banned_at)) [
  | inl older ↦
      rw older (All-insert q.banned_at r rows (ground arith) a, insert-IsNewestFirst r rows h)
  | inr newer ↦ let le = not-ltb→le _ _ newer in rw newer ((le, All-weaken _ _ rows le a), (a, h))
]

newest_first-IsNewestFirst : (rows : List BanRow) → IsNewestFirst (newest_first rows)
unfolding newest_first
newest_first-IsNewestFirst [] = tt
newest_first-IsNewestFirst (r ∷ rows) = insert-IsNewestFirst r _ (newest_first-IsNewestFirst rows)

-- What a listing is asked for: a blank address or status stands for all, and the status `current`
-- for active and manual bans.
abbrev pub IsWanted : Text → Text → BanRow → Type 0
IsWanted status ip r =
    ((ip ≡ []) ⊎ (r.ip ≡ ip))
    × ((status ≡ [])
        ⊎ ((status ≡ codes "current") × ((r.status ≡ codes "active") ⊎ (r.status ≡ codes "manual")))
        ⊎ ((status ≢ codes "current") × (r.status ≡ status)))

and_both : (x y : Bool) → (x && y) ≡ true → (x ≡ true) × (y ≡ true)
and_both true y h = (refl, h)
and_both false y h = cc h

ip_test :
    (ip : Text) (r : BanRow) → ((is_empty ip || text_eq r.ip ip) ≡ true) ↔ ((ip ≡ []) ⊎ (r.ip ≡ ip))
ip_test [] r = ((λ _. inl refl), (λ _. refl))
ip_test (c ∷ ip) r = (
  (λ h. inr ((text_eq_iff r.ip (c ∷ ip)).0 h)),
  (λ w. elim w [ inl e ↦ cc e | inr e ↦ (text_eq_iff r.ip (c ∷ ip)).1 e ]),
)

abbrev status_test : Text → BanRow → Bool
status_test status r =
    if is_empty status
    then true
    else if text_eq status (codes "current")
    then is_current r.status
    else text_eq r.status status

current_test : (t : Text) → (is_current t ≡ true) ↔ ((t ≡ codes "active") ⊎ (t ≡ codes "manual"))
current_test t = (
  (λ h. elim (Bool-cases (text_eq t (codes "active"))) [
    | inl a ↦ inl ((text_eq_iff t (codes "active")).0 a)
    | inr b ↦ inr ((text_eq_iff t (codes "manual")).0 (ground (arith, h, b)))
  ]),
  (λ w. elim w [
    | inl e ↦ ground (arith, (text_eq_iff t (codes "active")).1 e)
    | inr e ↦ ground (arith, (text_eq_iff t (codes "manual")).1 e)
  ]),
)

abbrev IsStatus : Text → BanRow → Type 0
IsStatus status r =
    (status ≡ [])
    ⊎ ((status ≡ codes "current") × ((r.status ≡ codes "active") ⊎ (r.status ≡ codes "manual")))
    ⊎ ((status ≢ codes "current") × (r.status ≡ status))

test-IsStatus : (status : Text) (r : BanRow) → status_test status r ≡ true → IsStatus status r
test-IsStatus [] r h = inl refl
test-IsStatus (c ∷ s) r h = elim (Bool-cases (text_eq (c ∷ s) (codes "current"))) [
  | inl now ↦ inr (
      inl (
        (text_eq_iff (c ∷ s) (codes "current")).0 now,
        (current_test r.status).0 (ground (arith, h, now)),
      ))
  | inr not_now ↦ inr (
      inr (
        (λ e. cc ((text_eq_iff (c ∷ s) (codes "current")).1 e, not_now)),
        (text_eq_iff r.status (c ∷ s)).0 (ground (arith, h, not_now)),
      ))
]

IsStatus-test : (status : Text) (r : BanRow) → IsStatus status r → status_test status r ≡ true
IsStatus-test [] r w = refl
IsStatus-test (c ∷ s) r (inl e) = cc e
IsStatus-test (c ∷ s) r (inr (inl (e, w))) =
    rw ((text_eq_iff (c ∷ s) (codes "current")).1 e) ((current_test r.status).1 w)
IsStatus-test (c ∷ s) r (inr (inr (other, e))) =
    elim (Bool-cases (text_eq (c ∷ s) (codes "current"))) [
      | inl now ↦ absurd (other ((text_eq_iff (c ∷ s) (codes "current")).0 now))
      | inr not_now ↦ rw not_now ((text_eq_iff r.status (c ∷ s)).1 e)
    ]

IsWanted-ban_filter :
    (status ip : Text) (r : BanRow) → IsWanted status ip r → ban_filter status ip r ≡ true
IsWanted-ban_filter status ip r (i, w) = rw (IsStatus-test status r w) ((ip_test ip r).1 i)

ban_filter-IsWanted :
    (status ip : Text) (r : BanRow) → ban_filter status ip r ≡ true → IsWanted status ip r
ban_filter-IsWanted status ip r h =
    let (a, b) = and_both (status_test status r) (is_empty ip || text_eq r.ip ip) h in
    ((ip_test ip r).0 b, test-IsStatus status r a)

-- A listing holds exactly the rows of the asked status and address, each once, and newest first:
-- it is a permutation of those that a test keeps which is true of these rows alone.
pub list_bans_filtered-perm :
    (s : Store) (status ip : Text)
    → (rows : List BanRow) × (p : BanRow → Bool) × (list_bans_filtered true s status ip
        ≡ ok (map scan_ban rows))
      × Perm rows (keep p s.bans)
      × ((r : BanRow) → (p r ≡ true) ↔ IsWanted status ip r)
      × IsNewestFirst rows
unfolding list_bans_filtered
list_bans_filtered-perm s status ip = (
  selected s status ip,
  ban_filter status ip,
  refl,
  newest_first-perm _,
  (λ r. (ban_filter-IsWanted status ip r, IsWanted-ban_filter status ip r)),
  newest_first-IsNewestFirst _,
)
