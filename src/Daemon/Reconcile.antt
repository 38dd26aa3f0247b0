-- ===== src/Daemon/Reconcile.antt =====
-- `reconcileXdp` and `detachXDP`. The number of entries removed, which only the status and the
-- metrics show, is computed and not kept.
use sipreaper.Common.{
  ℕ, suc, if◌then◌else◌, Bool, List, [], ◌∷◌, ◌++◌, none, some, Text, codes, mem_text,
}
use sipreaper.Action.{Enforcer, Banned}
use sipreaper.Daemon.{Daemon, Host}
use sipreaper.Models.{BanEntry}
use sipreaper.Net.Parse.{parse_ip}
use sipreaper.Net.{ip_string}
use sipreaper.Store.{ok, err, list_enforced_bans}
use sipreaper.Whitelist.{Whitelist, contains}

-- The addresses that the map should hold, as `want` has them.
unfoldable pub wanted : Whitelist → List BanEntry → List Text
unfolding contains
wanted wl [] = []
wanted wl (b ∷ bans) =
    let rest = wanted wl bans in
    elim (parse_ip b.ip) [
      | none ↦ rest
      | some ip ↦ if contains wl ip then rest else ip_string ip ∷ rest
    ]

module _ {W : Type 0} where
  -- The loop over the entries of the map: the new state and the number that it removed.
  unfoldable pub evict : Enforcer W → List Text → W → List Banned → W × ℕ
  evict xe want w [] = (w, 0)
  evict xe want w (e ∷ entries) =
      let kept = evict xe want w entries in
      if mem_text e.ip want then kept else elim (parse_ip e.ip) [
        | none ↦ kept
        | some ip ↦ let (w', removed) = evict xe want (xe.unban w ip).0 entries in (w', suc removed)
      ]

  unfoldable pub reconcile_xdp : Daemon W → Bool → Host W → Host W
  unfolding evict wanted list_enforced_bans
  reconcile_xdp d listed h = elim d.xdp [
    | none ↦ h
    | some x ↦ elim (list_enforced_bans listed h.store) [
      | err ↦ h
      | ok active ↦ elim (x.enforcer.list h.world) [
        | none ↦ h
        | some have ↦ record h {
          world = (evict x.enforcer (wanted d.whitelist active) h.world have).0;
        }
      ]
    ]
  ]

  -- `detachXDP`, with its message.
  unfoldable pub detach_xdp : Daemon W → W → Daemon W × (W × Text)
  detach_xdp d w = elim d.xdp [
    | none ↦ (d, (w, codes "xdp not attached"))
    | some x ↦ (
      record d { xdp = none; enforcer = some d.base },
      ((x.close w).0, codes "xdp detached; now on " ++ d.base.name),
    )
  ]
