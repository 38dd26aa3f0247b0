-- ===== src/Daemon/Restore.antt =====
-- `restoreBans`.
use sipreaper.Common.{ℕ, if◌then◌else◌, Bool, List, [], ◌∷◌, Option, none, some, Text, codes}
use sipreaper.Action.{Enforcer}
use sipreaper.Daemon.{Daemon, Host}
use sipreaper.Models.{BanEntry}
use sipreaper.Net.Parse.{parse_ip}
use sipreaper.Net.{Ip}
use sipreaper.Store.{ok, err, update_ban_status, list_enforced_bans}
use sipreaper.Whitelist.{contains}

module _ {W : Type 0} where
  abbrev pub reapply : Option (Enforcer W) → W → Ip → ℕ → Text → W
  reapply none w ip duration reason = w
  reapply (some e) w ip duration reason = (e.ban w ip duration reason).0

  -- One round of the loop.
  unfoldable pub restore_ban : Daemon W → (ℕ → Bool) → Host W → BanEntry → Host W
  unfolding update_ban_status contains
  restore_ban d written h b = elim (parse_ip b.ip) [
    | none ↦ h
    | some ip ↦
        if contains d.whitelist ip
        then record h {
          store = (update_ban_status (written b.id) h.store b.id (codes "expired")).0;
        }
        else record h { world = reapply d.enforcer h.world ip b.duration b.reason }
  ]

  unfoldable pub restore_rounds : Daemon W → (ℕ → Bool) → Host W → List BanEntry → Host W
  unfolding restore_ban
  restore_rounds d written h [] = h
  restore_rounds d written h (b ∷ bans) = restore_rounds d written (restore_ban d written h b) bans

  unfoldable pub restore_bans : Daemon W → Bool → (ℕ → Bool) → Host W → Host W
  unfolding restore_rounds list_enforced_bans
  restore_bans d listed written h = elim (list_enforced_bans listed h.store) [
    | err ↦ h
    | ok bans ↦ restore_rounds d written h bans
  ]
