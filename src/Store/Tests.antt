-- ===== src/Store/Tests.antt =====
-- A store with three bans, and the theorems at inputs that meet their hypotheses.
use mathlib.Core.List.{Perm}
use sipreaper.Common.{
  ◌↔◌, Bool, ◌+◌, ◌*◌, ◌/◌, ◌≡◌, refl, true, List, [], some, Text, codes, ℕ, map, keep,
}
use sipreaper.Models.{BanEntry}
use sipreaper.Store.Bans.{get_active_ban-create_ban}
use sipreaper.Store.Order.{IsNewestFirst, IsWanted, list_bans_filtered-perm}
use sipreaper.Store.{
  Store, BanRow, ok, empty_store, create_ban, list_bans_filtered, get_active_ban_by_ip, scan_ban,
  second, store_run,
}

abbrev ban : Text → ℕ → Text → BanEntry
ban ip at status = record {
  id = 0;
  ip = ip;
  detector = codes "scanner";
  reason = [];
  severity = codes "high";
  banned_at = at;
  duration = 60_500_000_000;
  expires_at = some (at + 60_500_000_000);
  ban_count = 1;
  status = status;
}

abbrev two : Store
two =
    (create_ban true (create_ban true empty_store (ban (codes "192.0.2.1") 5 (codes "active"))).0
      (ban (codes "192.0.2.2") 7 (codes "expired"))).0

abbrev three : Store
three = (create_ban true two (ban (codes "192.0.2.3") 6 (codes "manual"))).0

list_bans_filtered-perm_example :
    (rows : List BanRow) × (p : BanRow → Bool) × (list_bans_filtered true three (codes "current") []
      ≡ ok (map scan_ban rows))
    × Perm rows (keep p three.bans)
    × ((r : BanRow) → (p r ≡ true) ↔ IsWanted (codes "current") [] r)
    × IsNewestFirst rows
list_bans_filtered-perm_example = list_bans_filtered-perm three (codes "current") []

get_active_ban-create_ban_example :
    get_active_ban_by_ip true
      (create_ban true two (ban (codes "192.0.2.3") 6 (codes "manual"))).0
      (codes "192.0.2.3")
    ≡ ok (
        some (record (ban (codes "192.0.2.3") 6 (codes "manual")) {
          id = two.next_ban;
          duration = 60_500_000_000 / second * second;
        }))
unfolding store_run
get_active_ban-create_ban_example =
    get_active_ban-create_ban two (ban (codes "192.0.2.3") 6 (codes "manual")) refl refl
