-- ===== src/Store/Bans.antt =====
-- The open bans of an address: those that keep the decision engine from banning it again.
use sipreaper.Common.{
  ℕ, ◌+◌, ◌*◌, ◌/◌, ◌≤◌, ◌<◌, Option-cases, ◌≡◌, refl, ◌⊎◌, inl, inr, Bool, true, false, List, [],
  ◌∷◌, ◌++◌, map, Option, none, some, arith, Text, codes, text_eq, text_eq_iff, text_eq_refl,
  length, keep, keep-append, length-append, find, All, All-append, ==_refl,
}
use sipreaper.Models.{BanEntry}
use sipreaper.Store.{
  Store, BanRow, Result, ok, err, ban_row, second, is_open, has_open_ban, set_status, create_ban,
  get_active_ban_by_ip, update_ban_status,
}

abbrev pub open_bans : Text → Store → List BanRow
open_bans ip s = keep (has_open_ban ip) s.bans

-- The three outcomes of a look-up that may fail.
pub lookup_cases {ℓ} :
    {A : Type ℓ} (r : Result (Option A)) → (r ≡ err) ⊎ (r ≡ ok none) ⊎ ((a : A) × (r ≡ ok (some a)))
lookup_cases err = inl refl
lookup_cases (ok none) = inr (inl refl)
lookup_cases (ok (some a)) = inr (inr (a, refl))

pub answer_cases {ℓ} : {A : Type ℓ} (r : Result A) → (r ≡ err) ⊎ ((a : A) × (r ≡ ok a))
answer_cases err = inl refl
answer_cases (ok a) = inr (a, refl)

-- No address has two open bans, and the ids are below the next one.
pub record IsConsistent (s : Store) : Type 0 where
  pub one_open : (ip : Text) → length (open_bans ip s) ≤ 1
  pub ids_below : All (λ r. r.id < s.next_ban) s.bans

find-none : (p : BanRow → Bool) (rows : List BanRow) → find p rows ≡ none → length (keep p rows) ≡ 0
find-none p [] h = refl
find-none p (r ∷ rows) h = ground (arith, find-none p rows)

none-find : (p : BanRow → Bool) (rows : List BanRow) → length (keep p rows) ≡ 0 → find p rows ≡ none
none-find p [] h = refl
none-find p (r ∷ rows) h = ground (arith, none-find p rows)

find-some :
    (p : BanRow → Bool) (rows : List BanRow) (r : BanRow) → find p rows ≡ some r → p r ≡ true
find-some p [] r h = cc
find-some p (q ∷ rows) r h = ground (arith, find-some p rows r)

-- Where the database answers that an address has no open ban, it has none.
pub get_active_ban-none :
    (up : Bool) (s : Store) (ip : Text)
    → get_active_ban_by_ip up s ip ≡ ok none
    → length (open_bans ip s) ≡ 0
unfolding get_active_ban_by_ip
get_active_ban-none true s ip h = find-none (has_open_ban ip) s.bans (ground arith)
get_active_ban-none false s ip h = cc

-- And where it has none, the database answers so.
pub none-get_active_ban :
    (s : Store) (ip : Text) → length (open_bans ip s) ≡ 0 → get_active_ban_by_ip true s ip ≡ ok none
unfolding get_active_ban_by_ip
none-get_active_ban s ip free = rw (none-find (has_open_ban ip) s.bans free)

-- A new ban for an address with no open one keeps the store consistent.
pub create_ban-IsConsistent :
    (up : Bool) (s : Store) (e : BanEntry)
    → IsConsistent s
    → length (open_bans e.ip s) ≡ 0
    → IsConsistent (create_ban up s e).0
unfolding create_ban
create_ban-IsConsistent true s e c free = record {
  one_open = λ ip. ground (
    arith,
    keep-append (has_open_ban ip) s.bans (ban_row s.next_ban e ∷ []),
    length-append (open_bans ip s) (keep (has_open_ban ip) (ban_row s.next_ban e ∷ [])),
    text_eq_iff e.ip ip,
    c.one_open ip,
  );
  ids_below = All-append _ s.bans _ (All-suc s.next_ban s.bans c.ids_below) (omega arith, tt);
}
  where
    All-suc : (n : ℕ) (rows : List BanRow) → All (λ r. r.id < n) rows → All (λ r. r.id < n + 1) rows
    All-suc n [] a = tt
    All-suc n (r ∷ rows) (h, a) = (omega arith, All-suc n rows a)
create_ban-IsConsistent false s e c free = c

keep-set_status :
    (ip : Text) (id : ℕ) (status : Text) (rows : List BanRow)
    → is_open status ≡ false
    → length (keep (has_open_ban ip) (map (set_status id status) rows))
      ≤ length (keep (has_open_ban ip) rows)
keep-set_status ip id status [] h = omega arith
keep-set_status ip id status (r ∷ rows) h = ground (arith, keep-set_status ip id status rows h)

All-set_status :
    (n id : ℕ) (status : Text) (rows : List BanRow)
    → All (λ r. r.id < n) rows
    → All (λ r. r.id < n) (map (set_status id status) rows)
All-set_status n id status [] a = tt
All-set_status n id status (r ∷ rows) (h, a) = (ground arith, All-set_status n id status rows a)

-- So does closing a ban.
pub update_ban_status-IsConsistent :
    (up : Bool) (s : Store) (id : ℕ) (status : Text)
    → is_open status ≡ false
    → IsConsistent s
    → IsConsistent (update_ban_status up s id status).0
unfolding update_ban_status
update_ban_status-IsConsistent true s id status h c = record {
  one_open = λ ip. omega (arith, keep-set_status ip id status s.bans h, c.one_open ip);
  ids_below = All-set_status s.next_ban id status s.bans c.ids_below;
}
update_ban_status-IsConsistent false s id status h c = c

find-append :
    (p : BanRow → Bool) (rows : List BanRow) (r : BanRow)
    → length (keep p rows) ≡ 0
    → p r ≡ true
    → find p (rows ++ r ∷ []) ≡ some r
find-append p [] r h e = ground arith
find-append p (q ∷ rows) r h e = ground (arith, find-append p rows r)

-- Where an address has no open ban, one of an open status (active, manual or of a dry run) that is
-- written for it is read back: with the next id, and its duration cut to whole seconds.
pub get_active_ban-create_ban :
    (s : Store) (e : BanEntry)
    → length (open_bans e.ip s) ≡ 0
    → is_open e.status ≡ true
    → get_active_ban_by_ip true (create_ban true s e).0 e.ip
      ≡ ok (some (record e { id = s.next_ban; duration = e.duration / second * second }))
unfolding get_active_ban_by_ip create_ban
get_active_ban-create_ban s e free opened = rw (
    find-append (has_open_ban e.ip) s.bans (ban_row s.next_ban e) free
      (ground (arith, text_eq_refl e.ip)))

closed-set_status :
    (ip : Text) (rows : List BanRow) (r : BanRow)
    → length (keep (has_open_ban ip) rows) ≤ 1
    → find (has_open_ban ip) rows ≡ some r
    → length (keep (has_open_ban ip) (map (set_status r.id (codes "expired")) rows)) ≡ 0
unfolding text_eq
closed-set_status ip [] r le h = absurd (ground (arith, h))
closed-set_status ip (q ∷ rows) r le h = ground (
  arith,
  closed-set_status ip rows r,
  keep-set_status ip r.id (codes "expired") rows refl,
  ==_refl r.id,
)

-- Closing the ban that the look-up finds leaves the address with none, in a consistent store.
pub get_active_ban-update :
    (up : Bool) (s : Store) (ip : Text) (b : BanEntry)
    → IsConsistent s
    → get_active_ban_by_ip up s ip ≡ ok (some b)
    → get_active_ban_by_ip true (update_ban_status true s b.id (codes "expired")).0 ip ≡ ok none
unfolding get_active_ban_by_ip update_ban_status
get_active_ban-update up s ip b k h = elim (Option-cases (find (has_open_ban ip) s.bans)) [
  | inl nothing ↦ ground (arith, nothing)
  | inr (r, found) ↦ ground (
    arith,
    found,
    none-find (has_open_ban ip) (map (set_status r.id (codes "expired")) s.bans)
        (closed-set_status ip s.bans r (k.one_open ip) found),
  )
]

-- The ban that the look-up finds is one of the address.
pub get_active_ban-ip :
    (up : Bool) (s : Store) (ip : Text) (b : BanEntry)
    → get_active_ban_by_ip up s ip ≡ ok (some b)
    → b.ip ≡ ip
unfolding get_active_ban_by_ip
get_active_ban-ip up s ip b h = elim (Option-cases (find (has_open_ban ip) s.bans)) [
  | inl nothing ↦ ground (arith, nothing)
  | inr (r, found) ↦
      ground (arith, found, find-some (has_open_ban ip) s.bans r found, text_eq_iff r.ip ip)
]
