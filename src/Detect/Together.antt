-- ===== src/Detect/Together.antt =====
-- What the detectors that count report, side by side.
use sipreaper.Common.{ℕ, ◌≡◌, min, if◌then◌else◌, List, [], ◌∷◌, ◌++◌, none, length}
use sipreaper.Common.Int.{ℤ}
use sipreaper.Detect.Counting.{when_reached, matching, feed, limit_or, five_minutes_or}
use sipreaper.Detect.Stream.{Seen, InTime, map_seen}
use sipreaper.Detect.BruteForce
use sipreaper.Detect.DidScanner
use sipreaper.Detect.InvalidRequest
use sipreaper.Detect.InviteFlood
use sipreaper.Detect.ServerRejected
use sipreaper.Window.Distinct.{distinct, named}
use sipreaper.Window.Live.{last_n}
use sipreaper.Window.{max_entries_per_ip}

-- After any events, read by a clock that does not go back, each of these detectors reports a further
-- event exactly if it is of its kind and at least `max` events of that kind from its source, itself
-- included, are younger than the window, counted up to 10,000; the report gives that number. The
-- kinds are: a REGISTER answered by 401 or 403, for brute force; an INVITE request, for floods;
-- a request of none of the fourteen methods, for invalid requests.
pub detect-feed_counting :
    (max w start : ℕ) (seen : List Seen) (s : Seen)
    → InTime start (seen ++ s ∷ []) s.counted
    → ((BruteForce.detect
          (feed BruteForce.detect (BruteForce.new_brute_force max w start) seen)
          s).1
        ≡ (if BruteForce.is_failed_register s.event
            then when_reached max
                (λ n. BruteForce.failed_registers n w s)
                (min max_entries_per_ip (
                  length (matching BruteForce.is_failed_register BruteForce.no_key w start seen s)))
            else none))
      × ((InviteFlood.detect
            (feed InviteFlood.detect (InviteFlood.new_invite_flood max w start) seen)
            s).1
          ≡ (if InviteFlood.is_invite_request s.event
              then when_reached max
                  (λ n. InviteFlood.invites n w s)
                  (min max_entries_per_ip (
                    length
                      (matching InviteFlood.is_invite_request InviteFlood.no_key w start seen s)))
              else none))
      × ((InvalidRequest.detect
            (feed InvalidRequest.detect (InvalidRequest.new_invalid_request max w start) seen)
            s).1
          ≡ (if InvalidRequest.is_invalid s.event
              then when_reached max
                  (λ n. InvalidRequest.invalid_requests n w s)
                  (min max_entries_per_ip (
                    length
                      (matching InvalidRequest.is_invalid InvalidRequest.no_key w start seen s)))
              else none))
detect-feed_counting max w start seen s o = (
  BruteForce.detect-feed_BruteForce max w start seen s o,
  InviteFlood.detect-feed_InviteFlood max w start seen s o,
  InvalidRequest.detect-feed_InvalidRequest max w start seen s o,
)

-- The same of two detectors that replace a threshold or a window that is not positive, by 1 and 20,
-- and by five minutes. One counts the events that are marked as rejected and have a source. The
-- other takes the last 10,000 recent INVITE requests with a source and a called number, and counts
-- the different numbers.
pub detect-feed_defaults :
    (max w : ℤ) (start : ℕ) (seen : List Seen) (s : Seen)
    → InTime start (seen ++ s ∷ []) s.counted
    → ((ServerRejected.detect
          (feed ServerRejected.detect (ServerRejected.new_server_rejected max w start) seen)
          s).1
        ≡ (if ServerRejected.is_rejected s.event
            then when_reached
                (limit_or 1 max)
                (λ n. ServerRejected.rejections n (five_minutes_or w) s)
                (min max_entries_per_ip (
                  length (
                    matching ServerRejected.is_rejected ServerRejected.no_key
                      (five_minutes_or w)
                      start
                      seen
                      s)))
            else none))
      × ((DidScanner.detect
            (feed DidScanner.detect (DidScanner.new_did_scanner max w start) seen)
            s).1
          ≡ (if DidScanner.names_did s.event
              then when_reached
                  (limit_or 20 max)
                  (λ n. DidScanner.distinct_dids n (five_minutes_or w) s)
                  (distinct (
                    named (
                      last_n max_entries_per_ip (
                        map_seen DidScanner.names_did DidScanner.to_user_key (
                          matching DidScanner.names_did DidScanner.to_user_key
                            (five_minutes_or w)
                            start
                            seen
                            s)))))
              else none))
unfolding ServerRejected.new_server_rejected DidScanner.new_did_scanner
detect-feed_defaults max w start seen s o = (
  ServerRejected.detect-feed_ServerRejected max w start seen s o,
  DidScanner.detect-feed_DidScanner max w start seen s o,
)
