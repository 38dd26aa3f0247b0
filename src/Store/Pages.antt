-- ===== src/Store/Pages.antt =====
-- A page of the bans, of a size that is positive.
use sipreaper.Common.{ℕ, ◌<◌, ◌≡◌, true, map, arith, Text, take, drop}
use sipreaper.Common.Int.{pos}
use sipreaper.Store.{Store, ok, scan_ban, selected, list_bans_filtered_page}

pub page_rows :
    (s : Store) (status ip : Text) (limit offset : ℕ)
    → 0 < limit
    → list_bans_filtered_page true s status ip (pos limit) (pos offset)
      ≡ ok (map scan_ban (take limit (drop offset (selected s status ip))))
unfolding list_bans_filtered_page
page_rows s status ip limit offset h = ground arith
