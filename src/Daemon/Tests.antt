-- ===== src/Daemon/Tests.antt =====
-- A daemon with one enforcer that keeps a list of addresses, and the theorems at inputs that meet
-- their hypotheses.
use sipreaper.Common.{
  ◌+◌, ◌≡◌, refl, Bool, true, false, not, ◌&&◌, List, [], ◌∷◌, ◌++◌, none, some, arith, Text, codes,
  ℕ, All, keep, take, text_eq, subst, if◌then◌else◌,
}
use sipreaper.Action.{Enforcer, Banned}
use sipreaper.Daemon.Backlog.{found, threats-on_event}
use sipreaper.Daemon.Bans.{handle_threat, expiry_tick}
use sipreaper.Daemon.Closing.{IsOver, expiry_tick-closes}
use sipreaper.Daemon.Drift.{reconcile_xdp-stale, stale, unban_each}
use sipreaper.Daemon.Expiry.{threat, expire, rest, next, Steps-IsConsistent}
use sipreaper.Daemon.Pipeline.{Detector, Stages, on_event}
use sipreaper.Daemon.Reconcile.{reconcile_xdp}
use sipreaper.Daemon.Safety.{Spares, handle_threat-keeps}
use sipreaper.Daemon.{Daemon, Host, Notifier}
use sipreaper.Decision.{Engine, Readings}
use sipreaper.Dedup.{new_dedup}
use sipreaper.Models.{SipEvent, Threat}
use sipreaper.Net.{Ip, ip_string}
use sipreaper.Store.Bans.{IsConsistent}
use sipreaper.Store.{empty_store}
use sipreaper.Whitelist.{Whitelist, empty_whitelist, contains}

abbrev ips : Enforcer (List Ip)
ips = record {
  name = codes "ips";
  ban = λ w ip d reason. (ip ∷ w, none);
  unban = λ w ip. (keep (λ i. not (text_eq i ip)) w, none);
  list = λ w. some [];
}

abbrev mail : Notifier (List Ip)
mail = record { name = codes "mail"; notify = λ w event. (w, none) }

abbrev engine : Engine
engine = record { durations = 60_000_000_000 ∷ []; cooldown = 100; dry_run = false }

abbrev own : Ip
own = 192 ∷ 0 ∷ 2 ∷ 9 ∷ []

abbrev whitelist : Whitelist
whitelist = record empty_whitelist { local = some (λ ip. text_eq ip own) }

abbrev daemon : Daemon (List Ip)
daemon = record {
  engine = engine;
  whitelist = whitelist;
  enforcer = some ips;
  base = ips;
  xdp = none;
  notifiers = mail ∷ [];
}

abbrev started : Host (List Ip)
started = record { world = []; store = empty_store }

abbrev at_time : ℕ → Readings
at_time now = record {
  counted = now;
  expiry_from = now;
  banned = now;
  lookup_up = true;
  count_up = true;
  create_up = true;
}

abbrev flood : Threat
flood = record {
  timestamp = 5;
  source_ip = 192 ∷ 0 ∷ 2 ∷ 1 ∷ [];
  detector = codes "scanner";
  severity = codes "high";
  description = codes "known scanner user-agent: friendly-scanner";
  event_count = 1;
  window = 10;
}

abbrev AllForeign : List Ip → Type 0
AllForeign = All (λ ip. contains whitelist ip ≡ false)

spares : Spares daemon AllForeign
spares = record {
  noticed = ((λ w event p. p), tt);
  banned = λ e w ip d reason on live black p.
      subst (λ o. elim o [ none ↦ Unit | some e' ↦ AllForeign (e'.ban w ip d reason).0 ]) on
        (black, p);
}

abbrev banned : Host (List Ip)
banned = handle_threat daemon (at_time 7) 8 started flood

handle_threat-keeps_example : AllForeign banned.world
handle_threat-keeps_example =
    handle_threat-keeps daemon AllForeign spares (at_time 7) 8 started flood tt

abbrev later : Host (List Ip)
later = expiry_tick daemon true (λ _. true) true 0 90_000_000_000 90_000_000_000 banned

Steps-IsConsistent_example : IsConsistent later.store
Steps-IsConsistent_example =
    Steps-IsConsistent daemon started later
      (next started banned later
        (next started started banned (rest started) (threat (at_time 7) 8 started flood))
        (expire true (λ _. true) true 0 90_000_000_000 90_000_000_000 banned))
      (record { one_open = λ ip. omega arith; ids_below = tt })

expiry_tick-closes_example : All (λ r. ¬ IsOver 90_000_000_000 r) later.store.bans
expiry_tick-closes_example = expiry_tick-closes daemon true 0 90_000_000_000 90_000_000_000 banned

-- A map that may hold two addresses.
abbrev entry : Text → Banned
entry ip = record { ip = ip; duration = 0 }

abbrev two : Bool × Bool → List Banned
two (a, b) =
    (if a then entry (codes "192.0.2.1") ∷ [] else [])
    ++ (if b then entry (codes "192.0.2.9") ∷ [] else [])

abbrev pair : Enforcer (Bool × Bool)
pair = record {
  name = codes "xdp";
  ban = λ w ip d reason. (w, none);
  unban = λ w ip. (
    (
      w.0 && not (text_eq (codes "192.0.2.1") (ip_string ip)),
      w.1 && not (text_eq (codes "192.0.2.9") (ip_string ip)),
    ),
    none,
  );
  list = λ w. some (two w);
}

abbrev guarded : Daemon (Bool × Bool)
guarded = record {
  engine = engine;
  whitelist = whitelist;
  enforcer = some pair;
  base = pair;
  xdp = some (record { enforcer = pair; close = λ w. (w, none) });
  notifiers = [];
}

reconcile_xdp-stale_example :
    (reconcile_xdp guarded true (record { world = (true, true); store = banned.store })).world
    ≡ unban_each pair (true, true) (stale whitelist banned.store.bans (two (true, true)))
reconcile_xdp-stale_example =
    reconcile_xdp-stale guarded (record { enforcer = pair; close = λ w. (w, none) })
      (record { world = (true, true); store = banned.store }) (two (true, true)) refl refl

abbrev event : SipEvent
event = record {
  timestamp = 1;
  source_ip = 192 ∷ 0 ∷ 2 ∷ 1 ∷ [];
  method = codes "INVITE";
  user_agent = codes "friendly";
  from_user = codes "100";
  to_user = codes "200";
  call_id = [];
  response_code = 0;
  source = codes "log";
  is_response = false;
  rejected = false;
  reject_reason = [];
}

abbrev alarms : List (Detector ℕ)
alarms = (λ n e. (n + 1, some flood)) ∷ (λ n e. (n, none)) ∷ []

abbrev quiet : Stages ℕ
quiet = record { dedup = new_dedup 5; store = empty_store; detectors = 0; threats = [] }

threats-on_event_example :
    (on_event alarms 3 true quiet event).threats ≡ take 100 ([] ++ found alarms event 0)
threats-on_event_example = threats-on_event event alarms 3 true quiet (omega arith) refl
