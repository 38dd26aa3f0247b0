-- ===== src/Daemon/Expiry.antt =====
-- What a tick of the ban expiry, and the daemon's steps in any order, leave in the store.
use sipreaper.Common.{
  ℕ, ◌-◌, ltb, Bool-cases, refl, inl, inr, Bool, true, false, List, [], ◌∷◌, codes, Option-cases,
  text_eq, Text, Option,
}
use sipreaper.Api.Clearing.{
  handle_add_whitelist-IsConsistent, handle_delete_ban-IsConsistent,
  handle_remove_whitelist-IsConsistent,
}
use sipreaper.Api.Consistency.{handle_create_ban-IsConsistent}
use sipreaper.Api.Whitelist.{AddWhitelistRequest, handle_add_whitelist, handle_remove_whitelist}
use sipreaper.Api.{
  Server, Site, Answers, Clock, CreateBanRequest, handle_create_ban, handle_delete_ban,
}
use sipreaper.Daemon.Bans.{handle_threat, expire_ban, expire_bans, expiry_tick}
use sipreaper.Daemon.Restore.{restore_ban, restore_rounds, restore_bans}
use sipreaper.Daemon.{Daemon, Host}
use sipreaper.Decision.Bans.{evaluate-IsConsistent}
use sipreaper.Decision.{Readings}
use sipreaper.Models.{Threat, BanEntry}
use sipreaper.Net.Parse.{parse_ip}
use sipreaper.Store.Bans.{IsConsistent, update_ban_status-IsConsistent, answer_cases}
use sipreaper.Store.{Store, list_enforced_bans, get_expired_bans, prune_events_older_than}
use sipreaper.Whitelist.{contains}

prune-IsConsistent :
    (up : Bool) (s : Store) (cutoff : ℕ)
    → IsConsistent s
    → IsConsistent (prune_events_older_than up s cutoff).0
unfolding prune_events_older_than
prune-IsConsistent true s cutoff c = record { one_open = c.one_open; ids_below = c.ids_below }
prune-IsConsistent false s cutoff c = c

module _ {W : Type 0} (d : Daemon W) where
  expire_bans-IsConsistent :
      (written : ℕ → Bool) (now : ℕ) (h : Host W) (bans : List BanEntry)
      → IsConsistent h.store
      → IsConsistent (expire_bans d written now h bans).store
  unfolding expire_bans text_eq
  expire_bans-IsConsistent written now h [] c = c
  expire_bans-IsConsistent written now h (b ∷ bans) c =
      expire_bans-IsConsistent written now (expire_ban d written now h b) bans
        (update_ban_status-IsConsistent (written b.id) h.store b.id (codes "expired") refl c)

  expiry_tick-IsConsistent :
      (listed : Bool) (written : ℕ → Bool) (prune_up : Bool) (retention now pruned : ℕ) (h : Host W)
      → IsConsistent h.store
      → IsConsistent (expiry_tick d listed written prune_up retention now pruned h).store
  unfolding expiry_tick
  expiry_tick-IsConsistent listed written prune_up retention now pruned h c =
      elim (answer_cases (get_expired_bans listed h.store now)) [
        | inl down ↦ rw (expiry_tick, down) c
        | inr (bans, found) ↦
            let c' = expire_bans-IsConsistent written now h bans c in
            rw (expiry_tick, found)
              (elim (Bool-cases (ltb 0 retention)) [
                | inl on ↦ rw on (prune-IsConsistent prune_up _ (pruned - retention) c')
                | inr off ↦ rw off c'
              ])
      ]

  restore_ban-IsConsistent :
      (written : ℕ → Bool) (h : Host W) (b : BanEntry)
      → IsConsistent h.store
      → IsConsistent (restore_ban d written h b).store
  unfolding restore_ban text_eq
  restore_ban-IsConsistent written h b c = elim (Option-cases (parse_ip b.ip)) [
    | inl bad ↦ rw (restore_ban, bad) c
    | inr (ip, parsed) ↦
        rw (restore_ban, parsed)
          (elim (Bool-cases (contains d.whitelist ip)) [
            | inl white ↦ rw white (
                update_ban_status-IsConsistent (written b.id) h.store b.id (codes "expired") refl c)
            | inr black ↦ rw black c
          ])
  ]

  restore_rounds-IsConsistent :
      (written : ℕ → Bool) (h : Host W) (bans : List BanEntry)
      → IsConsistent h.store
      → IsConsistent (restore_rounds d written h bans).store
  unfolding restore_rounds
  restore_rounds-IsConsistent written h [] c = c
  restore_rounds-IsConsistent written h (b ∷ bans) c =
      restore_rounds-IsConsistent written (restore_ban d written h b) bans
        (restore_ban-IsConsistent written h b c)

  restore_bans-IsConsistent :
      (listed : Bool) (written : ℕ → Bool) (h : Host W)
      → IsConsistent h.store
      → IsConsistent (restore_bans d listed written h).store
  unfolding restore_bans
  restore_bans-IsConsistent listed written h c =
      elim (answer_cases (list_enforced_bans listed h.store)) [
        | inl down ↦ rw (restore_bans, down) c
        | inr (bans, found) ↦
            rw (restore_bans, found) (restore_rounds-IsConsistent written h bans c)
      ]

  abbrev site : Host W → Site W
  site h = record { world = h.world; store = h.store }

  abbrev host : Site W → Host W
  host st = record { world = st.world; store = st.store }

  -- The steps of the daemon and of the API that touch the bans or the whitelist's table, each at
  -- any reading of the clock and with any answers of the database.
  pub data Step : Host W → Host W → Type 0 where
    threat : (r : Readings) (now : ℕ) (h : Host W) (t : Threat) → Step h (handle_threat d r now h t)
    expire :
        (listed : Bool) (written : ℕ → Bool) (prune_up : Bool) (retention now pruned : ℕ)
        (h : Host W)
        → Step h (expiry_tick d listed written prune_up retention now pruned h)
    restore :
        (listed : Bool) (written : ℕ → Bool) (h : Host W) → Step h (restore_bans d listed written h)
    create_ban :
        (srv : Server W) (a : Answers) (c : Clock) (h : Host W) (body : Option CreateBanRequest)
        → Step h (host (handle_create_ban srv a c (site h) body).0)
    delete_ban :
        (srv : Server W) (a : Answers) (h : Host W) (ip : Text)
        → Step h (host (handle_delete_ban srv a (site h) ip).0)
    add_whitelist :
        (srv : Server W) (covered_up : Bool) (updates : ℕ → Bool) (up : Bool) (now : ℕ) (h : Host W)
        (body : Option AddWhitelistRequest)
        → Step h (host (handle_add_whitelist srv covered_up updates up now (site h) body).0)
    remove_whitelist :
        (up : Bool) (h : Host W) (ip : Text)
        → Step h (host (handle_remove_whitelist up (site h) ip).0)

  -- Any number of steps, one after the other.
  pub data Steps : Host W → Host W → Type 0 where
    rest : (h : Host W) → Steps h h
    next : (h h' h'' : Host W) → Steps h h' → Step h' h'' → Steps h h''

  Step-IsConsistent : (h h' : Host W) → Step h h' → IsConsistent h.store → IsConsistent h'.store
  unfolding handle_threat
  Step-IsConsistent _ _ (threat r now h t) c =
      evaluate-IsConsistent d.engine d.whitelist r h.store t c
  Step-IsConsistent _ _ (expire listed written prune_up retention now pruned h) c =
      expiry_tick-IsConsistent listed written prune_up retention now pruned h c
  Step-IsConsistent _ _ (restore listed written h) c = restore_bans-IsConsistent listed written h c
  Step-IsConsistent _ _ (create_ban srv a at h body) c =
      handle_create_ban-IsConsistent srv a at (site h) body c
  Step-IsConsistent _ _ (delete_ban srv a h ip) c =
      handle_delete_ban-IsConsistent srv a (site h) ip c
  Step-IsConsistent _ _ (add_whitelist srv covered_up updates up now h body) c =
      handle_add_whitelist-IsConsistent srv updates up now covered_up (site h) body c
  Step-IsConsistent _ _ (remove_whitelist up h ip) c =
      handle_remove_whitelist-IsConsistent up (site h) ip c

  -- However threats, expiry ticks, restores and the API's requests to ban, unban, and edit the
  -- whitelist follow one another, each as one step, whatever the database answers and the clock
  -- shows: from a store in which no address has two open bans, the program reaches only such stores.
  pub Steps-IsConsistent :
      (h h' : Host W) → Steps h h' → IsConsistent h.store → IsConsistent h'.store
  Steps-IsConsistent _ _ (rest h) c = c
  Steps-IsConsistent _ _ (next h h' h'' before last) c =
      Step-IsConsistent h' h'' last (Steps-IsConsistent h h' before c)
