-- ===== src/Detect/Tests.antt =====
-- The detectors' theorems at three events of one source, and what they report.
use sipreaper.Common.{
  ◌≡◌, true, false, if◌then◌else◌, List, [], ◌∷◌, none, arith, codes, length, min,
}
use sipreaper.Common.Int.{pos}
use sipreaper.Detect.Counting.{when_reached, matching, feed, limit_or, five_minutes_or}
use sipreaper.Detect.Stream.{Seen, map_seen}
use sipreaper.Detect.BruteForce
use sipreaper.Detect.Together.{detect-feed_counting, detect-feed_defaults}
use sipreaper.Detect.DidScanner
use sipreaper.Detect.InvalidRequest
use sipreaper.Detect.InviteFlood
use sipreaper.Detect.Scanner
use sipreaper.Detect.ServerRejected
use sipreaper.Detect.UserEnum
use sipreaper.Models.{SipEvent}
use sipreaper.Window.Distinct.{distinct, named}
use sipreaper.Window.Live.{last_n}
use sipreaper.Window.{max_entries_per_ip}

abbrev invite : SipEvent
invite = record {
  timestamp = 1;
  source_ip = 192 ∷ 0 ∷ 2 ∷ 1 ∷ [];
  method = codes "INVITE";
  user_agent = codes "friendly";
  from_user = codes "100";
  to_user = codes "200";
  call_id = codes "c";
  response_code = 0;
  source = codes "log";
  is_response = false;
  rejected = false;
  reject_reason = [];
}

abbrev register_refused : SipEvent
register_refused = record invite { method = codes "REGISTER"; response_code = 401 }

abbrev nonsense : SipEvent
nonsense = record invite { method = codes "FOO" }

abbrev probe : SipEvent
probe = record invite { method = codes "OPTIONS" }

abbrev turned_away : SipEvent
turned_away = record invite { rejected = true }

abbrev before : SipEvent → List Seen
before e =
    record { event = e; added = 1; counted = 1; stamp = 1 }
    ∷ record { event = e; added = 3; counted = 4; stamp = 4 }
    ∷ []

abbrev last : SipEvent → Seen
last e = record { event = record e { to_user = codes "201" }; added = 5; counted = 6; stamp = 7 }

detect-feed_UserEnum_example :
    (UserEnum.detect
      (feed UserEnum.detect (UserEnum.new_user_enum 2 10 0) (before invite))
      (last invite)).1
    ≡ (if UserEnum.names_user (last invite).event
        then when_reached 2
            (λ n. UserEnum.distinct_extensions n 10 (last invite))
            (distinct (
              named (
                last_n max_entries_per_ip (
                  map_seen UserEnum.names_user UserEnum.to_user_key (
                    matching UserEnum.names_user UserEnum.to_user_key 10 0
                      (before invite)
                      (last invite))))))
        else none)
detect-feed_UserEnum_example =
    UserEnum.detect-feed_UserEnum 2 10 0 (before invite) (last invite) (omega arith)

detect-feed_Scanner_example :
    (Scanner.detect
      (feed Scanner.detect (Scanner.new_scanner 2 10 (codes "sipvicious" ∷ []) 0) (before probe))
      (last probe)).1
    ≡ Scanner.reported
        (codes "sipvicious" ∷ [])
        2
        10
        (min max_entries_per_ip (
          length (
            matching
              (Scanner.is_scan (codes "sipvicious" ∷ []))
              Scanner.no_key
              10
              0
              (before probe)
              (last probe))))
        (last probe)
detect-feed_Scanner_example =
    Scanner.detect-feed_Scanner 2 10 0 (codes "sipvicious" ∷ []) (before probe) (last probe)
      (omega arith)

detect-feed_counting_example :
    ((BruteForce.detect
        (feed BruteForce.detect (BruteForce.new_brute_force 2 10 0) (before register_refused))
        (last register_refused)).1
      ≡ (if BruteForce.is_failed_register (last register_refused).event
          then when_reached 2
              (λ n. BruteForce.failed_registers n 10 (last register_refused))
              (min max_entries_per_ip (
                length (
                  matching BruteForce.is_failed_register BruteForce.no_key 10 0
                    (before register_refused)
                    (last register_refused))))
          else none))
    × ((InviteFlood.detect
          (feed InviteFlood.detect (InviteFlood.new_invite_flood 2 10 0) (before register_refused))
          (last register_refused)).1
        ≡ (if InviteFlood.is_invite_request (last register_refused).event
            then when_reached 2
                (λ n. InviteFlood.invites n 10 (last register_refused))
                (min max_entries_per_ip (
                  length (
                    matching InviteFlood.is_invite_request InviteFlood.no_key 10 0
                      (before register_refused)
                      (last register_refused))))
            else none))
    × ((InvalidRequest.detect
          (feed InvalidRequest.detect
            (InvalidRequest.new_invalid_request 2 10 0)
            (before register_refused))
          (last register_refused)).1
        ≡ (if InvalidRequest.is_invalid (last register_refused).event
            then when_reached 2
                (λ n. InvalidRequest.invalid_requests n 10 (last register_refused))
                (min max_entries_per_ip (
                  length (
                    matching InvalidRequest.is_invalid InvalidRequest.no_key 10 0
                      (before register_refused)
                      (last register_refused))))
            else none))
detect-feed_counting_example =
    detect-feed_counting 2 10 0 (before register_refused) (last register_refused) (omega arith)

detect-feed_defaults_example :
    ((ServerRejected.detect
        (feed ServerRejected.detect
          (ServerRejected.new_server_rejected (pos 2) (pos 10) 0)
          (before turned_away))
        (last turned_away)).1
      ≡ (if ServerRejected.is_rejected (last turned_away).event
          then when_reached
              (limit_or 1 (pos 2))
              (λ n. ServerRejected.rejections n (five_minutes_or (pos 10)) (last turned_away))
              (min max_entries_per_ip (
                length (
                  matching ServerRejected.is_rejected ServerRejected.no_key
                    (five_minutes_or (pos 10))
                    0
                    (before turned_away)
                    (last turned_away))))
          else none))
    × ((DidScanner.detect
          (feed DidScanner.detect
            (DidScanner.new_did_scanner (pos 2) (pos 10) 0)
            (before turned_away))
          (last turned_away)).1
        ≡ (if DidScanner.names_did (last turned_away).event
            then when_reached
                (limit_or 20 (pos 2))
                (λ n. DidScanner.distinct_dids n (five_minutes_or (pos 10)) (last turned_away))
                (distinct (
                  named (
                    last_n max_entries_per_ip (
                      map_seen DidScanner.names_did DidScanner.to_user_key (
                        matching DidScanner.names_did DidScanner.to_user_key
                          (five_minutes_or (pos 10))
                          0
                          (before turned_away)
                          (last turned_away))))))
            else none))
detect-feed_defaults_example =
    detect-feed_defaults (pos 2) (pos 10) 0 (before turned_away) (last turned_away) (omega arith)
