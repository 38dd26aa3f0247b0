-- ===== src/Store.antt =====
-- internal/store/store.go: the tables, and the SQL statements as functions on their rows, in the
-- order of their row ids. SQLite itself is not modelled: that a statement can fail is the
-- argument `up` of each operation, false when the database answers with an error, which leaves
-- the tables as they are.
pub mod Order
pub mod Bans
pub mod Pages
mod Tests
use mathlib.Core.Option
use sipreaper.Common.{
  ℕ, suc, ◌+◌, ◌-◌, ◌*◌, ◌/◌, ltb, leb, ◌==◌, if◌then◌else◌, Bool, true, false, not, ◌&&◌, ◌||◌,
  List, [], ◌∷◌, ◌++◌, map, Option, none, some, Text, codes, text_eq, is_empty, mem_text, length,
  keep, any, find, take, drop,
}
use sipreaper.Common.Int.{ℤ, pos, pos_part, ltb_ℤ, leb_ℤ}
use sipreaper.Models.{SipEvent, BanEntry, WhitelistEntry}
use sipreaper.Net.Parse.{parse_ip}
use sipreaper.Net.{ip_string}

-- The result of a database call.
pub data Result {ℓ} (A : Type ℓ) : Type ℓ where
  ok : A → Result A
  err : Result A

abbrev pub answer {ℓ} : {A : Type ℓ} → Bool → A → Result A
answer true a = ok a
answer false a = err

abbrev pub second : ℕ
second = 1_000_000_000

-- A row of `bans`: the duration is in seconds.
pub record BanRow : Type 0 where
  pub id : ℕ
  pub ip : Text
  pub detector : Text
  pub reason : Text
  pub severity : Text
  pub banned_at : ℕ
  pub duration : ℕ
  pub expires_at : Option ℕ
  pub ban_count : ℕ
  pub status : Text

-- A row of `events`; the JSON text in `raw_data` stands as the event that it decodes to.
pub record EventRow : Type 0 where
  pub ip : Text
  pub method : Text
  pub detector : Text
  pub timestamp : ℕ
  pub raw : SipEvent

-- The next ids are those of AUTOINCREMENT, which are never used again.
pub record Store : Type 0 where
  pub bans : List BanRow
  pub next_ban : ℕ
  pub events : List EventRow
  pub whitelist : List WhitelistEntry
  pub next_whitelist : ℕ

abbrev pub empty_store : Store
empty_store = record { bans = []; next_ban = 1; events = []; whitelist = []; next_whitelist = 1 }

-- `int64(e.Duration.Seconds())` is taken as exact. It goes through a float: of a duration of months
-- that ends less than some nanoseconds before a whole second, the row can have that second.
abbrev pub ban_row : ℕ → BanEntry → BanRow
ban_row id e = record {
  id = id;
  ip = e.ip;
  detector = e.detector;
  reason = e.reason;
  severity = e.severity;
  banned_at = e.banned_at;
  duration = e.duration / second;
  expires_at = e.expires_at;
  ban_count = e.ban_count;
  status = e.status;
}

-- A row as the `Scan` loops read it back.
abbrev pub scan_ban : BanRow → BanEntry
scan_ban r = record {
  id = r.id;
  ip = r.ip;
  detector = r.detector;
  reason = r.reason;
  severity = r.severity;
  banned_at = r.banned_at;
  duration = r.duration * second;
  expires_at = r.expires_at;
  ban_count = r.ban_count;
  status = r.status;
}

unfoldable pub create_ban : Bool → Store → BanEntry → Store × Result ℕ
create_ban up s e =
    if up
    then (
      record s { bans = s.bans ++ ban_row s.next_ban e ∷ []; next_ban = s.next_ban + 1 },
      ok s.next_ban,
    )
    else (s, err)

-- `status IN ('active','manual')`, and the three states that `GetActiveBanByIP` looks for.
abbrev pub is_current : Text → Bool
is_current status = text_eq status (codes "active") || text_eq status (codes "manual")

abbrev pub is_open : Text → Bool
is_open status = is_current status || text_eq status (codes "dry_run")

-- The WHERE clause of `banFilters`.
abbrev pub ban_filter : Text → Text → BanRow → Bool
ban_filter status ip r =
    (if is_empty status
      then true
      else if text_eq status (codes "current")
      then is_current r.status
      else text_eq r.status status)
    && (is_empty ip || text_eq r.ip ip)

-- ORDER BY banned_at DESC, among equal times in the order of the rows.
unfoldable pub insert_by_time : BanRow → List BanRow → List BanRow
insert_by_time r [] = r ∷ []
insert_by_time r (q ∷ rows) =
    let later = q ∷ insert_by_time r rows in
    if ltb r.banned_at q.banned_at then later else r ∷ q ∷ rows

unfoldable pub newest_first : List BanRow → List BanRow
newest_first [] = []
newest_first (r ∷ rows) = insert_by_time r (newest_first rows)

abbrev pub selected : Store → Text → Text → List BanRow
selected s status ip = newest_first (keep (ban_filter status ip) s.bans)

unfoldable pub list_bans_filtered : Bool → Store → Text → Text → Result (List BanEntry)
list_bans_filtered up s status ip = answer up (map scan_ban (selected s status ip))

unfoldable pub list_bans : Bool → Store → Text → Result (List BanEntry)
list_bans up s status = list_bans_filtered up s status []

-- LIMIT and OFFSET.
abbrev pub page {ℓ} : {A : Type ℓ} → ℕ → ℕ → List A → List A
page limit offset rows = take limit (drop offset rows)

unfoldable pub list_bans_filtered_page : Bool → Store → Text → Text → ℤ → ℤ → Result (List BanEntry)
list_bans_filtered_page up s status ip limit offset =
    if leb_ℤ limit (pos 0)
    then list_bans_filtered up s status ip
    else answer up (
        map scan_ban (
          page (pos_part limit) (if ltb_ℤ offset (pos 0) then 0 else pos_part offset)
            (selected s status ip)))

unfoldable pub count_bans_filtered : Bool → Store → Text → Text → Result ℕ
count_bans_filtered up s status ip = answer up (length (keep (ban_filter status ip) s.bans))

unfoldable pub list_enforced_bans : Bool → Store → Result (List BanEntry)
list_enforced_bans up s = list_bans_filtered up s (codes "current") []

abbrev pub has_open_ban : Text → BanRow → Bool
has_open_ban ip r = text_eq r.ip ip && is_open r.status

-- Of several open bans SQL may give any; here it is the first.
unfoldable pub get_active_ban_by_ip : Bool → Store → Text → Result (Option BanEntry)
get_active_ban_by_ip up s ip = answer up (Option.map scan_ban (find (has_open_ban ip) s.bans))

abbrev pub set_status : ℕ → Text → BanRow → BanRow
set_status id status r = if r.id == id then record r { status = status } else r

unfoldable pub update_ban_status : Bool → Store → ℕ → Text → Store × Bool
update_ban_status up s id status =
    if up then (record s { bans = map (set_status id status) s.bans }, true) else (s, false)

abbrev pub banned_since : Text → ℕ → BanRow → Bool
banned_since ip since r = text_eq r.ip ip && leb since r.banned_at

unfoldable pub ban_count_by_ip : Bool → Store → Text → ℕ → Result ℕ
ban_count_by_ip up s ip since = answer up (length (keep (banned_since ip since) s.bans))

abbrev pub is_expired : ℕ → BanRow → Bool
is_expired now r = is_open r.status && elim r.expires_at [ none ↦ false | some t ↦ leb t now ]

unfoldable pub get_expired_bans : Bool → Store → ℕ → Result (List BanEntry)
get_expired_bans up s now = answer up (map scan_ban (keep (is_expired now) s.bans))

unfoldable pub record_event : Bool → Store → SipEvent → Text → Store × Bool
record_event up s e detector =
    let row : EventRow = record {
      ip = ip_string e.source_ip;
      method = e.method;
      detector = detector;
      timestamp = e.timestamp;
      raw = e;
    } in
    if up then (record s { events = s.events ++ row ∷ [] }, true) else (s, false)

-- The rows that go, and those that stay, of `PruneEventsOlderThan`.
unfoldable pub prune_events_older_than : Bool → Store → ℕ → Store × Result ℕ
prune_events_older_than up s cutoff =
    let old = λ (r : EventRow). ltb r.timestamp cutoff in
    if up
    then (record s { events = keep (λ r. not (old r)) s.events }, ok (length (keep old s.events)))
    else (s, err)

-- The UNIQUE constraint refuses a second row of the same text.
unfoldable pub add_whitelist : Bool → Store → Text → Text → Text → ℕ → Store × Result WhitelistEntry
add_whitelist up s ip_cidr comment source now =
    let entry : WhitelistEntry = record {
      id = s.next_whitelist;
      ip_cidr = ip_cidr;
      comment = comment;
      source = source;
      created_at = now;
    } in
    if up && not (any (λ (w : WhitelistEntry). text_eq w.ip_cidr ip_cidr) s.whitelist)
    then (
      record s { whitelist = s.whitelist ++ entry ∷ []; next_whitelist = s.next_whitelist + 1 },
      ok entry,
    )
    else (s, err)

unfoldable pub remove_whitelist : Bool → Store → Text → Store × Bool
remove_whitelist up s ip_cidr =
    if up
    then (
      record s {
        whitelist = keep (λ (w : WhitelistEntry). not (text_eq w.ip_cidr ip_cidr)) s.whitelist;
      },
      true,
    )
    else (s, false)

-- ORDER BY created_at.
unfoldable pub insert_by_creation : WhitelistEntry → List WhitelistEntry → List WhitelistEntry
insert_by_creation w [] = w ∷ []
insert_by_creation w (v ∷ ws) =
    let later = v ∷ insert_by_creation w ws in
    if ltb v.created_at w.created_at then later else w ∷ v ∷ ws

unfoldable pub oldest_first : List WhitelistEntry → List WhitelistEntry
oldest_first [] = []
oldest_first (w ∷ ws) = insert_by_creation w (oldest_first ws)

unfoldable pub list_whitelist : Bool → Store → Result (List WhitelistEntry)
list_whitelist up s = answer up (oldest_first s.whitelist)

-- ORDER BY timestamp DESC.
unfoldable pub insert_event : EventRow → List EventRow → List EventRow
insert_event r [] = r ∷ []
insert_event r (q ∷ rows) =
    let later = q ∷ insert_event r rows in
    if ltb r.timestamp q.timestamp then later else r ∷ q ∷ rows

unfoldable pub newest_events : List EventRow → List EventRow
newest_events [] = []
newest_events (r ∷ rows) = insert_event r (newest_events rows)

-- The WHERE clause of `ListEvents`; the age test is `timestamp >= now - since`.
abbrev pub event_filter : Text → Text → ℕ → ℕ → EventRow → Bool
event_filter ip detector since now r =
    (is_empty ip || text_eq r.ip ip)
    && ((is_empty detector || text_eq r.detector detector)
        && (since == 0 || leb now (r.timestamp + since)))

abbrev pub scan_event : EventRow → SipEvent
scan_event r =
    if is_empty r.raw.source_ip
    then record r.raw { source_ip = Option.get_or (parse_ip r.ip) [] }
    else r.raw

unfoldable pub list_events : Bool → Store → Text → Text → ℕ → ℕ → ℕ → Result (List SipEvent)
list_events up s ip detector since limit now = answer up (
    map (λ r. scan_event r)
      (take limit (newest_events (keep (event_filter ip detector since now) s.events))))

unfoldable pub store_run : Unit {0}
unfolding create_ban list_bans_filtered list_bans list_bans_filtered_page count_bans_filtered
    list_enforced_bans get_active_ban_by_ip update_ban_status ban_count_by_ip get_expired_bans
    record_event prune_events_older_than add_whitelist remove_whitelist list_whitelist list_events
    insert_by_time newest_first insert_by_creation oldest_first insert_event newest_events text_eq
store_run = tt
