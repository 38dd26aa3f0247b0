-- ===== src/Daemon/Bans.antt =====
-- `handleThreat`, and the loop body of `runBanExpiry`.
use mathlib.Core.Option
use sipreaper.Common.{
  ℕ, ◌-◌, ltb, if◌then◌else◌, Bool, List, [], ◌∷◌, Option, none, some, Text, codes, text_eq,
}
use sipreaper.Action.{Enforcer}
use sipreaper.Daemon.{Daemon, Host, Notifier}
use sipreaper.Decision.{Readings, evaluate}
use sipreaper.Models.{Threat, BanAction, BanEntry, NotifyEvent}
use sipreaper.Net.Parse.{parse_ip}
use sipreaper.Net.{Ip, ip_string}
use sipreaper.Store.{ok, err, update_ban_status, get_expired_bans, prune_events_older_than}

-- `net.ParseIP`: nil where the text is no address.
abbrev pub address : Text → Ip
address t = Option.get_or (parse_ip t) []

abbrev pub ban_notice : BanAction → ℕ → NotifyEvent
ban_notice a now = record {
  type = codes "ban";
  ip = ip_string a.ip;
  detector = a.detector;
  severity = a.severity;
  duration = a.duration;
  reason = a.reason;
  timestamp = now;
}

abbrev pub unban_notice : BanEntry → ℕ → NotifyEvent
unban_notice b now = record {
  type = codes "unban";
  ip = b.ip;
  detector = b.detector;
  severity = b.severity;
  duration = 0;
  reason = [];
  timestamp = now;
}

module _ {W : Type 0} where
  -- Each notifier in turn; an error is only logged.
  unfoldable pub notify_all : List (Notifier W) → W → NotifyEvent → W
  notify_all [] w event = w
  notify_all (n ∷ ns) w event = notify_all ns (n.notify w event).0 event

  abbrev pub enforce : Option (Enforcer W) → W → BanAction → W
  enforce none w a = w
  enforce (some e) w a = (e.ban w a.ip a.duration a.reason).0

  abbrev pub lift : Option (Enforcer W) → W → Ip → W
  lift none w ip = w
  lift (some e) w ip = (e.unban w ip).0

  -- What the outside sees of an action.
  unfoldable pub apply_action : Daemon W → ℕ → W → BanAction → W
  unfolding notify_all
  apply_action d now w a =
      notify_all d.notifiers (if d.engine.dry_run then w else enforce d.enforcer w a)
        (ban_notice a now)

  unfoldable pub handle_threat : Daemon W → Readings → ℕ → Host W → Threat → Host W
  unfolding apply_action evaluate
  handle_threat d r now h t =
      let (store', action) = evaluate d.engine d.whitelist r h.store t in
      record {
        store = store';
        world = elim action [ none ↦ h.world | some a ↦ apply_action d now h.world a ];
      }

  -- One round of the loop over the expired bans; `written` says whether the update of the row
  -- succeeds, which the code does not ask.
  unfoldable pub expire_ban : Daemon W → (ℕ → Bool) → ℕ → Host W → BanEntry → Host W
  unfolding notify_all text_eq update_ban_status
  expire_ban d written now h b = record {
    store = (update_ban_status (written b.id) h.store b.id (codes "expired")).0;
    world =
        notify_all d.notifiers
          (if text_eq b.status (codes "dry_run")
            then h.world
            else lift d.enforcer h.world (address b.ip))
          (unban_notice b now);
  }

  unfoldable pub expire_bans : Daemon W → (ℕ → Bool) → ℕ → Host W → List BanEntry → Host W
  unfolding expire_ban
  expire_bans d written now h [] = h
  expire_bans d written now h (b ∷ bans) =
      expire_bans d written now (expire_ban d written now h b) bans

  -- A tick: `retention` is `Storage.EventRetention`, and `pruned` the time at which the cutoff is
  -- computed.
  unfoldable pub expiry_tick : Daemon W → Bool → (ℕ → Bool) → Bool → ℕ → ℕ → ℕ → Host W → Host W
  unfolding expire_bans get_expired_bans prune_events_older_than
  expiry_tick d listed written prune_up retention now pruned h =
      elim (get_expired_bans listed h.store now) [
        | err ↦ h
        | ok bans ↦
            let h' = expire_bans d written now h bans in
            if ltb 0 retention
            then record h' {
              store = (prune_events_older_than prune_up h'.store (pruned - retention)).0;
            }
            else h'
      ]
