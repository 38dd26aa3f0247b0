-- ===== src/Api/Read.antt =====
-- internal/api/handlers.go: the handlers that read. The values of the query stand as texts, empty
-- where they are missing. Each answer of the database is an argument. The country of a ban, which
-- `enrichBanCountries` adds to the rows on their way out, is left out as in the model of a row.
use sipreaper.Common.{
  ℕ, ◌+◌, ltb, ◌==◌, if◌then◌else◌, Bool, true, false, ◌||◌, List, [], ◌∷◌, Option, none, some,
  Text, codes, is_empty, length,
}
use mathlib.Core.Option
use sipreaper.Api.{Reply, success, failure, store_failure}
use sipreaper.Common.Dict.{Dict, lookup, insert, erase}
use sipreaper.Common.Int.{pos, negsuc}
use sipreaper.Models.{BanEntry, SipEvent, WhitelistEntry}
use sipreaper.Store.{
  Store, Result, ok, err, list_bans, list_bans_filtered, list_bans_filtered_page,
  count_bans_filtered, list_enforced_bans, list_whitelist, list_events,
}
use sipreaper.Strings.{atoi}

-- `parseNonNegativeIntQuery`: the value and whether it was given, or none for its error.
unfoldable pub parse_non_negative_int_query : Text → Option (ℕ × Bool)
unfolding atoi
parse_non_negative_int_query raw = if is_empty raw then some (0, false) else elim (atoi raw) [
  | some (pos value) ↦ some (value, true)
  | some (negsuc n) ↦ none
  | none ↦ none
]

pub record BanQuery : Type 0 where
  pub status : Text
  pub ip : Text
  pub limit : Text
  pub offset : Text

-- A whole list, or a page of it.
pub data Listing : Type 0 where
  whole : List BanEntry → Listing
  paged : List BanEntry → ℕ → ℕ → ℕ → Listing

abbrev pub page_limit : ℕ → ℕ
page_limit limit =
    let some_limit = if limit == 0 then 50 else limit in
    if ltb 500 some_limit then 500 else some_limit

abbrev pub wanted_status : Text → Text
wanted_status status = if is_empty status then codes "current" else status

-- `handleListBans` with a limit or an offset: items, total, limit and offset.
unfoldable pub list_page : Bool → Bool → Store → Text → Text → ℕ → ℕ → Reply Listing
unfolding list_bans_filtered_page count_bans_filtered
list_page page_up count_up s status ip limit offset =
    elim (list_bans_filtered_page page_up s status ip (pos limit) (pos offset)) [
      | err ↦ store_failure
      | ok bans ↦ elim (count_bans_filtered count_up s status ip) [
        | err ↦ store_failure
        | ok total ↦ success 200 (Listing.paged bans total limit offset)
      ]
    ]

unfoldable pub handle_list_bans : Bool → Bool → Store → BanQuery → Reply Listing
unfolding list_page list_bans_filtered parse_non_negative_int_query
handle_list_bans list_up count_up s q =
    let status = wanted_status q.status in
    elim (parse_non_negative_int_query q.limit) [
      | none ↦ failure 400 (codes "invalid limit")
      | some l ↦ elim (parse_non_negative_int_query q.offset) [
        | none ↦ failure 400 (codes "invalid offset")
        | some o ↦
            if l.1 || o.1
            then list_page list_up count_up s status q.ip (page_limit l.0) o.0
            else elim (list_bans_filtered list_up s status q.ip) [
              | err ↦ store_failure
              | ok bans ↦ success 200 (Listing.whole bans)
            ]
      ]
    ]

unfoldable pub handle_list_whitelist : Bool → Store → Reply (List WhitelistEntry)
unfolding list_whitelist
handle_list_whitelist up s = elim (list_whitelist up s) [
  | err ↦ store_failure
  | ok entries ↦ success 200 entries
]

-- `parse_duration` is Go's `time.ParseDuration` on durations that are not negative.
unfoldable pub handle_list_events :
    (Text → Option ℕ) → Bool → Store → ℕ → Text → Text → Text → Reply (List SipEvent)
unfolding list_events
handle_list_events parse_duration up s now ip detector last =
    let since = if is_empty last then 0 else Option.get_or (parse_duration last) 0 in
    elim (list_events up s ip detector since 100 now) [
      | err ↦ store_failure
      | ok events ↦ success 200 events
    ]

abbrev pub answered {ℓ} : {A : Type ℓ} → Result (List A) → List A
answered err = []
answered (ok xs) = xs

-- `handleStatus`: the number of active bans.
unfoldable pub handle_status : Bool → Store → Reply ℕ
unfolding list_enforced_bans
handle_status up s = success 200 (length (answered (list_enforced_bans up s)))

-- `counts[k]++`.
unfoldable pub increment : Text → Dict ℕ → Dict ℕ
unfolding lookup insert erase
increment k m = insert k (Option.get_or (lookup k m) 0 + 1) m

unfoldable pub count_by : (BanEntry → Text) → Dict ℕ → List BanEntry → Dict ℕ
unfolding increment
count_by key m [] = m
count_by key m (b ∷ bans) = count_by key (increment (key b) m) bans

pub record Stats : Type 0 where
  pub total_bans : ℕ
  pub active_bans : ℕ
  pub bans_by_detector : Dict ℕ
  pub bans_by_ip : Dict ℕ
  pub log_tailer : Option (ℕ × ℕ)
  pub syslog_ingest : Option (ℕ × ℕ)

-- `handleStats`, with the counters of the ingests that are installed.
unfoldable pub handle_stats : Bool → Bool → Store → Option (ℕ × ℕ) → Option (ℕ × ℕ) → Reply Stats
unfolding list_bans list_enforced_bans count_by
handle_stats bans_up enforced_up s tailer syslog =
    let bans = answered (list_bans bans_up s []) in
    success 200 (record {
      total_bans = length bans;
      active_bans = length (answered (list_enforced_bans enforced_up s));
      bans_by_detector = count_by (λ b. b.detector) [] bans;
      bans_by_ip = count_by (λ b. b.ip) [] bans;
      log_tailer = tailer;
      syslog_ingest = syslog;
    })
