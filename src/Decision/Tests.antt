-- ===== src/Decision/Tests.antt =====
-- Evaluations of threats, and the theorems at inputs that meet their hypotheses.
use sipreaper.Common.{◌+◌, ◌≡◌, ◌⊎◌, refl, true, false, List, [], ◌∷◌, none, some, arith, codes, ℕ}
use sipreaper.Decision.Bans.{Recorded, evaluate-Recorded, ban_count_by_ip-evaluate}
use sipreaper.Decision.{Engine, Readings, evaluate, ban_action}
use sipreaper.Models.{Threat}
use sipreaper.Net.{ip_string}
use sipreaper.Store.{Store, ok, ban_count_by_ip, empty_store, update_ban_status, store_run}
use sipreaper.Whitelist.{empty_whitelist, contains}

abbrev ladder : List ℕ
ladder = 60_000_000_000 ∷ 3600_000_000_000 ∷ 86400_000_000_000 ∷ []

abbrev engine : Engine
engine = record { durations = ladder; cooldown = 100; dry_run = false }

abbrev at_time : ℕ → Readings
at_time now = record {
  counted = now;
  expiry_from = now;
  banned = now;
  lookup_up = true;
  count_up = true;
  create_up = true;
}

abbrev threat : Threat
threat = record {
  timestamp = 5;
  source_ip = 192 ∷ 0 ∷ 2 ∷ 1 ∷ [];
  detector = codes "scanner";
  severity = codes "high";
  description = codes "known scanner user-agent: friendly-scanner";
  event_count = 1;
  window = 10;
}

abbrev once : Store
once = (evaluate engine empty_whitelist (at_time 7) empty_store threat).0

acted :
    (evaluate engine empty_whitelist (at_time 7) empty_store threat).1
    ≡ some (ban_action engine threat 0)
unfolding evaluate store_run contains
acted = refl

evaluate-Recorded_example :
    (evaluate engine empty_whitelist (at_time 7) empty_store threat ≡ (empty_store, none))
    ⊎ Recorded engine empty_whitelist
        (at_time 7)
        empty_store
        threat
        (evaluate engine empty_whitelist (at_time 7) empty_store threat)
evaluate-Recorded_example = evaluate-Recorded engine empty_whitelist (at_time 7) empty_store threat

ban_count_by_ip-evaluate_example :
    ban_count_by_ip true
      (update_ban_status true once 1 (codes "expired")).0
      (ip_string threat.source_ip)
      5
    ≡ ok (0 + 1)
unfolding ban_count_by_ip
ban_count_by_ip-evaluate_example =
    ban_count_by_ip-evaluate engine empty_whitelist (at_time 7) empty_store threat
      (ban_action engine threat 0) true 1 (codes "expired") 5 0 acted (omega arith) refl
