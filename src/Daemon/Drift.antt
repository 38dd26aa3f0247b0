-- ===== src/Daemon/Drift.antt =====
-- What reconciling takes out of the map of the XDP enforcer.
use sipreaper.Common.{
  if◌then◌else◌, Bool-cases, Option-cases, ◌≡◌, refl, sym, ap, ◌∙◌, inl, inr, Bool, true, false,
  not, ◌&&◌, ◌||◌, List, [], ◌∷◌, map, none, some, arith, Text, codes, keep, any, text_eq,
  text_eq_iff, mem_text,
}
use sipreaper.Action.{Enforcer, Banned}
use sipreaper.Daemon.Reconcile.{wanted, evict, reconcile_xdp}
use sipreaper.Daemon.{Daemon, Host, Xdp}
use sipreaper.Models.{BanEntry}
use sipreaper.Net.Parse.{parse_ip}
use sipreaper.Net.{Ip, ip_string}
use sipreaper.Store.{
  BanRow, scan_ban, ban_filter, insert_by_time, newest_first, list_bans_filtered,
  list_enforced_bans,
}
use sipreaper.Whitelist.{Whitelist, contains}

-- A ban of this text's address that is not whitelisted.
abbrev bans_address : Whitelist → Text → Text → Bool
bans_address wl t banned = elim (parse_ip banned) [
  | none ↦ false
  | some ip ↦ not (contains wl ip) && text_eq (ip_string ip) t
]

-- Some row is an active or manual ban of the address, and the whitelist does not cover it.
abbrev pub is_due : Whitelist → List BanRow → Text → Bool
is_due wl rows t =
    any
      (λ r.
        (text_eq r.status (codes "active") || text_eq r.status (codes "manual"))
        && bans_address wl t r.ip)
      rows

-- The addresses of the entries that nothing asks for, in the order of the entries.
pub stale : Whitelist → List BanRow → List Banned → List Ip
stale wl rows [] = []
stale wl rows (e ∷ entries) =
    let rest = stale wl rows entries in
    elim (parse_ip e.ip) [ none ↦ rest | some ip ↦ if is_due wl rows e.ip then rest else ip ∷ rest ]

pub unban_each : {W : Type 0} → Enforcer W → W → List Ip → W
unban_each xe w [] = w
unban_each xe w (ip ∷ ips) = unban_each xe (xe.unban w ip).0 ips

mem-wanted :
    (wl : Whitelist) (bans : List BanEntry) (t : Text)
    → mem_text t (wanted wl bans) ≡ any (λ b. bans_address wl t b.ip) bans
unfolding wanted
mem-wanted wl [] t = refl
mem-wanted wl (b ∷ bans) t = elim (Option-cases (parse_ip b.ip)) [
  | inl bad ↦ ground (arith, bad, mem-wanted wl bans t)
  | inr (ip, parsed) ↦ ground (
    arith,
    parsed,
    mem-wanted wl bans t,
    text_eq_iff (ip_string ip) t,
    text_eq_iff t (ip_string ip),
  )
]

module _ (p : BanRow → Bool) where
  any-insert : (r : BanRow) (rows : List BanRow) → any p (insert_by_time r rows) ≡ any p (r ∷ rows)
  unfolding insert_by_time
  any-insert r [] = refl
  any-insert r (q ∷ rows) = ground (arith, any-insert r rows)

  any-newest_first : (rows : List BanRow) → any p (newest_first rows) ≡ any p rows
  unfolding newest_first
  any-newest_first [] = refl
  any-newest_first (r ∷ rows) =
      any-insert r (newest_first rows) ∙ ap (λ b. p r || b) (any-newest_first rows)

  any-keep :
      (q : BanRow → Bool) (rows : List BanRow) → any p (keep q rows) ≡ any (λ r. q r && p r) rows
  any-keep q [] = refl
  any-keep q (r ∷ rows) = ground (arith, any-keep q rows)

any-scan :
    (p : Text → Bool) (rows : List BanRow)
    → any (λ b. p b.ip) (map scan_ban rows) ≡ any (λ r. p r.ip) rows
any-scan p [] = refl
any-scan p (r ∷ rows) = ap (λ b. p r.ip || b) (any-scan p rows)

due-current :
    (wl : Whitelist) (t : Text) (rows : List BanRow)
    → any (λ r. ban_filter (codes "current") [] r && bans_address wl t r.ip) rows ≡ is_due wl rows t
unfolding text_eq
due-current wl t [] = refl
due-current wl t (r ∷ rows) = ground (arith, due-current wl t rows)

-- What the map should hold, in terms of the rows of the store.
wanted-due :
    (wl : Whitelist) (rows : List BanRow) (t : Text)
    → mem_text t
        (wanted wl (map scan_ban (newest_first (keep (ban_filter (codes "current") []) rows))))
      ≡ is_due wl rows t
wanted-due wl rows t =
    let p = λ (r : BanRow). bans_address wl t r.ip in
    mem-wanted wl (map scan_ban (newest_first (keep (ban_filter (codes "current") []) rows))) t
    ∙ any-scan (bans_address wl t) (newest_first (keep (ban_filter (codes "current") []) rows))
    ∙ any-newest_first p (keep (ban_filter (codes "current") []) rows)
    ∙ any-keep p (ban_filter (codes "current") []) rows
    ∙ due-current wl t rows

module _ {W : Type 0} (xe : Enforcer W) (wl : Whitelist) (rows : List BanRow) (want : List Text)
    (same : (t : Text) → mem_text t want ≡ is_due wl rows t) where
  evict-stale :
      (entries : List Banned) (w : W)
      → (evict xe want w entries).0 ≡ unban_each xe w (stale wl rows entries)
  unfolding evict stale unban_each
  evict-stale [] w = refl
  evict-stale (e ∷ entries) w = elim (Option-cases (parse_ip e.ip)) [
    | inl bad ↦ elim (Bool-cases (mem_text e.ip want)) [
      | inl due ↦ rw (evict, stale, due, bad) (evict-stale entries w)
      | inr drop ↦ rw (evict, stale, drop, bad) (evict-stale entries w)
    ]
    | inr (ip, parsed) ↦ elim (Bool-cases (mem_text e.ip want)) [
      | inl due ↦ rw (evict, stale, due, parsed, sym (same e.ip) ∙ due) (evict-stale entries w)
      | inr drop ↦
          rw (evict, stale, drop, parsed, sym (same e.ip) ∙ drop)
            (evict-stale entries (xe.unban w ip).0)
    ]
  ]

module _ {W : Type 0} (d : Daemon W) (x : Xdp W) where
  -- Reconciling, where XDP is on, the database answers and the map can be read, calls the unban of
  -- the XDP enforcer for exactly those entries of the map that are addresses and have no ban that
  -- is active or manual and of an address that is not whitelisted, in the order of the entries. It
  -- does nothing else to the world, and goes on whether or not an unban fails.
  pub reconcile_xdp-stale :
      (h : Host W) (entries : List Banned)
      → d.xdp ≡ some x
      → x.enforcer.list h.world ≡ some entries
      → (reconcile_xdp d true h).world
        ≡ unban_each x.enforcer h.world (stale d.whitelist h.store.bans entries)
  unfolding reconcile_xdp list_enforced_bans list_bans_filtered
  reconcile_xdp-stale h entries on readable =
      rw (reconcile_xdp, on, readable)
        (evict-stale x.enforcer d.whitelist h.store.bans _ (wanted-due d.whitelist h.store.bans)
          entries h.world)
