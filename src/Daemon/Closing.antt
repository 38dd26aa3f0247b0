-- ===== src/Daemon/Closing.antt =====
-- What a tick of the ban expiry closes.
use sipreaper.Common.{
  ℕ, ◌==◌, if◌then◌else◌, Bool-cases, ◌≡◌, refl, sym, ap, ◌∙◌, ◌⊎◌, ◌≤◌, some, inl, inr, Bool, true,
  false, ◌||◌, List, [], ◌∷◌, arith, codes, map, keep, text_eq, All, ==_refl,
}
use sipreaper.Daemon.Bans.{expire_ban, expire_bans, expiry_tick}
use sipreaper.Daemon.{Daemon, Host}
use sipreaper.Models.{BanEntry}
use sipreaper.Store.{
  BanRow, get_expired_bans, is_expired, scan_ban, set_status, update_ban_status,
  prune_events_older_than,
}

-- A row after the updates of a list of bans.
close_row : List BanEntry → BanRow → BanRow
close_row [] r = r
close_row (b ∷ bans) r = close_row bans (set_status b.id (codes "expired") r)

any_id : ℕ → List BanEntry → Bool
any_id id [] = false
any_id id (b ∷ bans) = id == b.id || any_id id bans

map-map :
    (f g : BanRow → BanRow) (rows : List BanRow) → map f (map g rows) ≡ map (λ r. f (g r)) rows
map-map f g [] = refl
map-map f g (r ∷ rows) = ap (λ q. f (g r) ∷ q) (map-map f g rows)

map_id : (rows : List BanRow) → map (λ r. r) rows ≡ rows
map_id [] = refl
map_id (r ∷ rows) = ap (λ q. r ∷ q) (map_id rows)

module _ {W : Type 0} (d : Daemon W) where
  bans-expire_bans :
      (now : ℕ) (h : Host W) (bans : List BanEntry)
      → (expire_bans d (λ _. true) now h bans).store.bans ≡ map (close_row bans) h.store.bans
  unfolding expire_bans close_row update_ban_status
  bans-expire_bans now h [] = sym (map_id h.store.bans)
  bans-expire_bans now h (b ∷ bans) =
      bans-expire_bans now (expire_ban d (λ _. true) now h b) bans
      ∙ map-map (close_row bans) (set_status b.id (codes "expired")) h.store.bans

module _ (now : ℕ) where
  close_row-closed :
      (bans : List BanEntry) (r : BanRow)
      → is_expired now r ≡ false
      → is_expired now (close_row bans r) ≡ false
  unfolding close_row text_eq
  close_row-closed [] r h = h
  close_row-closed (b ∷ bans) r h =
      close_row-closed bans (set_status b.id (codes "expired") r) (ground (arith, h))

  close_row-closes :
      (bans : List BanEntry) (r : BanRow)
      → any_id r.id bans ≡ true
      → is_expired now (close_row bans r) ≡ false
  unfolding close_row any_id text_eq
  close_row-closes [] r h = cc h
  close_row-closes (b ∷ bans) r h = elim (Bool-cases (r.id == b.id)) [
    | inl same ↦ rw (close_row, same) (close_row-closed bans _ refl)
    | inr other ↦ rw (close_row, other) (close_row-closes bans r (ground (arith, h, other)))
  ]

  Covered : List BanEntry → BanRow → Type 0
  Covered bans r = is_expired now r ≡ true → any_id r.id bans ≡ true

  Covered-cons :
      (b : BanEntry) (bans : List BanEntry) (rows : List BanRow)
      → All (Covered bans) rows
      → All (Covered (b ∷ bans)) rows
  unfolding Covered any_id
  Covered-cons b bans [] a = tt
  Covered-cons b bans (r ∷ rows) (c, a) = ((λ h. ground (arith, c h)), Covered-cons b bans rows a)

  Covered-row :
      (r : BanRow) (rows over : List BanRow) (x : Bool)
      → All (Covered (map scan_ban over)) rows
      → (x ≡ true → any_id r.id (map scan_ban (if x then r ∷ over else over)) ≡ true)
        × All (Covered (map scan_ban (if x then r ∷ over else over))) rows
  unfolding any_id
  Covered-row r rows over true a =
      ((λ h. rw (==_refl r.id) refl), Covered-cons (scan_ban r) (map scan_ban over) rows a)
  Covered-row r rows over false a = ((λ h. cc h), a)

  Covered-expired :
      (rows : List BanRow) → All (Covered (map scan_ban (keep (is_expired now) rows))) rows
  unfolding Covered any_id
  Covered-expired [] = tt
  Covered-expired (r ∷ rows) =
      Covered-row r rows (keep (is_expired now) rows) (is_expired now r) (Covered-expired rows)

  none_left :
      (bans : List BanEntry) (rows : List BanRow)
      → All (Covered bans) rows
      → keep (is_expired now) (map (close_row bans) rows) ≡ []
  unfolding Covered
  none_left bans [] a = refl
  none_left bans (r ∷ rows) (c, a) =
      let gone : is_expired now (close_row bans r) ≡ false = elim (Bool-cases (is_expired now r)) [
        | inl over ↦ close_row-closes bans r (c over)
        | inr still ↦ close_row-closed bans r still
      ] in
      rw gone (none_left bans rows a)

-- The row is an open ban, and its time has come.
abbrev pub IsOver : ℕ → BanRow → Type 0
IsOver now r =
    ((r.status ≡ codes "active") ⊎ (r.status ≡ codes "manual") ⊎ (r.status ≡ codes "dry_run"))
    × (t : ℕ) × (r.expires_at ≡ some t)
    × (t ≤ now)

IsOver-is_expired : (now : ℕ) (r : BanRow) → IsOver now r → is_expired now r ≡ true
unfolding text_eq
IsOver-is_expired now r (inl s, t, e, le) = rw (s, e) (ground arith)
IsOver-is_expired now r (inr (inl s), t, e, le) = rw (s, e) (ground arith)
IsOver-is_expired now r (inr (inr s), t, e, le) = rw (s, e) (ground arith)

none-IsOver :
    (now : ℕ) (rows : List BanRow)
    → keep (is_expired now) rows ≡ []
    → All (λ r. ¬ IsOver now r) rows
none-IsOver now [] h = tt
none-IsOver now (r ∷ rows) h = elim (Bool-cases (is_expired now r)) [
  | inl over ↦ absurd (ground (arith, h, over))
  | inr still ↦ (
    (λ o. cc (IsOver-is_expired now r o, still)),
    none-IsOver now rows (ground (arith, h, still)),
  )
]

module _ {W : Type 0} (d : Daemon W) where
  -- After a tick of the ban expiry, where the database answers the query and takes the updates, no
  -- row is left that is active, manual or of a dry run and whose time to expire is not after the
  -- tick's, whether or not the enforcer lifts the bans and old events are pruned.
  pub expiry_tick-closes :
      (prune_up : Bool) (retention now pruned : ℕ) (h : Host W)
      → All
          (λ r. ¬ IsOver now r)
          (expiry_tick d true (λ _. true) prune_up retention now pruned h).store.bans
  unfolding expiry_tick get_expired_bans prune_events_older_than
  expiry_tick-closes prune_up retention now pruned h =
      let bans = map scan_ban (keep (is_expired now) h.store.bans) in
      let rows = bans-expire_bans d now h bans in
      let left = none_left now bans h.store.bans (Covered-expired now h.store.bans) in
      none-IsOver now _ (ground (arith, rows, left))
