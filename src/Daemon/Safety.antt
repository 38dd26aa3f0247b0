-- ===== src/Daemon/Safety.antt =====
-- What the daemon never asks of the firewall.
use sipreaper.Common.{
  ℕ, Bool-cases, ◌≡◌, refl, inl, inr, Bool, false, List, [], ◌∷◌, Option, none, some, Text,
  Option-cases,
}
use sipreaper.Action.{Enforcer}
use sipreaper.Daemon.Bans.{notify_all, enforce, apply_action, handle_threat}
use sipreaper.Daemon.Restore.{restore_ban, restore_rounds, restore_bans, reapply}
use sipreaper.Daemon.{Daemon, Host, Notifier}
use sipreaper.Decision.Bans.{evaluate-Recorded}
use sipreaper.Decision.{Readings}
use sipreaper.Models.{Threat, BanAction, BanEntry, NotifyEvent}
use sipreaper.Net.Parse.{parse_ip}
use sipreaper.Net.{Ip}
use sipreaper.Store.Bans.{answer_cases}
use sipreaper.Store.{list_enforced_bans}
use sipreaper.Whitelist.{contains}

-- The notifications of a list of notifiers keep a property of the outside.
abbrev pub Unnoticed : {W : Type 0} → (W → Type 0) → List (Notifier W) → Type 0
Unnoticed P [] = Unit
Unnoticed P (n ∷ ns) =
    ((w : _) (event : NotifyEvent) → P w → P (n.notify w event).0) × Unnoticed P ns

-- A property of the outside that the daemon's notifiers keep, and its enforcer's bans of the
-- addresses that are not whitelisted, if the daemon is not in dry-run mode.
pub record Spares {W : Type 0} (d : Daemon W) (P : W → Type 0) : Type 0 where
  pub noticed : Unnoticed P d.notifiers
  pub banned :
      (e : Enforcer W) (w : W) (ip : Ip) (duration : ℕ) (reason : Text)
      → d.enforcer ≡ some e
      → d.engine.dry_run ≡ false
      → contains d.whitelist ip ≡ false
      → P w
      → P (e.ban w ip duration reason).0

module _ {W : Type 0} (d : Daemon W) (P : W → Type 0) (spares : Spares d P) where
  notify_all-keeps :
      (ns : List (Notifier W)) (w : W) (event : NotifyEvent)
      → Unnoticed P ns
      → P w
      → P (notify_all ns w event)
  unfolding notify_all
  notify_all-keeps [] w event u p = p
  notify_all-keeps (n ∷ ns) w event (k, u) p =
      notify_all-keeps ns (n.notify w event).0 event u (k w event p)

  enforce-keeps :
      (o : Option (Enforcer W)) (w : W) (a : BanAction)
      → d.enforcer ≡ o
      → d.engine.dry_run ≡ false
      → contains d.whitelist a.ip ≡ false
      → P w
      → P (enforce o w a)
  enforce-keeps none w a is live black p = p
  enforce-keeps (some e) w a is live black p =
      spares.banned e w a.ip a.duration a.reason is live black p

  apply_action-keeps :
      (now : ℕ) (w : W) (a : BanAction)
      → contains d.whitelist a.ip ≡ false
      → P w
      → P (apply_action d now w a)
  unfolding apply_action
  apply_action-keeps now w a black p = elim (Bool-cases d.engine.dry_run) [
    | inl dry ↦ rw dry (notify_all-keeps d.notifiers w _ spares.noticed p)
    | inr live ↦ rw live (
        notify_all-keeps d.notifiers _ _ spares.noticed
          (enforce-keeps d.enforcer w a refl live black p))
  ]

  -- Handling a threat never asks an enforcer to ban a whitelisted address, nor to ban anything in
  -- dry-run mode: what all other calls of the enforcers and notifiers keep true stays true.
  pub handle_threat-keeps :
      (r : Readings) (now : ℕ) (h : Host W) (t : Threat)
      → P h.world
      → P (handle_threat d r now h t).world
  unfolding handle_threat
  handle_threat-keeps r now h t p = elim (evaluate-Recorded d.engine d.whitelist r h.store t) [
    | inl idle ↦ rw (handle_threat, idle) p
    | inr done ↦
        rw (handle_threat, done.action) (apply_action-keeps now h.world _ done.not_whitelisted p)
  ]

module _ {W : Type 0} (d : Daemon W) (P : W → Type 0) (spares : Spares d P)
    (live : d.engine.dry_run ≡ false) where
  reapply-keeps :
      (o : Option (Enforcer W)) (w : W) (ip : Ip) (duration : ℕ) (reason : Text)
      → d.enforcer ≡ o
      → contains d.whitelist ip ≡ false
      → P w
      → P (reapply o w ip duration reason)
  reapply-keeps none w ip duration reason is black p = p
  reapply-keeps (some e) w ip duration reason is black p =
      spares.banned e w ip duration reason is live black p

  restore_ban-keeps :
      (written : ℕ → Bool) (h : Host W) (b : BanEntry)
      → P h.world
      → P (restore_ban d written h b).world
  unfolding restore_ban
  restore_ban-keeps written h b p = elim (Option-cases (parse_ip b.ip)) [
    | inl bad ↦ rw (restore_ban, bad) p
    | inr (ip, parsed) ↦
        rw (restore_ban, parsed)
          (elim (Bool-cases (contains d.whitelist ip)) [
            | inl white ↦ rw white p
            | inr black ↦
                rw black (reapply-keeps d.enforcer h.world ip b.duration b.reason refl black p)
          ])
  ]

  restore_rounds-keeps :
      (written : ℕ → Bool) (h : Host W) (bans : List BanEntry)
      → P h.world
      → P (restore_rounds d written h bans).world
  unfolding restore_rounds
  restore_rounds-keeps written h [] p = p
  restore_rounds-keeps written h (b ∷ bans) p =
      restore_rounds-keeps written (restore_ban d written h b) bans
        (restore_ban-keeps written h b p)

  -- Restoring the bans at the start never asks the enforcer to ban a whitelisted address, also
  -- one that was banned before it was whitelisted.
  pub restore_bans-keeps :
      (listed : Bool) (written : ℕ → Bool) (h : Host W)
      → P h.world
      → P (restore_bans d listed written h).world
  unfolding restore_bans
  restore_bans-keeps listed written h p = elim (answer_cases (list_enforced_bans listed h.store)) [
    | inl down ↦ rw (restore_bans, down) p
    | inr (bans, found) ↦ rw (restore_bans, found) (restore_rounds-keeps written h bans p)
  ]
