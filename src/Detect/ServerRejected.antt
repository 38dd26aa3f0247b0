-- ===== src/Detect/ServerRejected.antt =====
-- internal/detect/server_rejected.go: requests that the SIP server itself has rejected.
use sipreaper.Common.{
  ℕ, ltb, if◌then◌else◌, Bool-cases, ◌≡◌, ◌∙◌, inl, inr, Bool, not, ◌&&◌, ◌||◌, List, is_empty, [],
  ◌∷◌, ◌++◌, Option, none, some, arith, Text, codes, length, min,
}
use sipreaper.Common.Int.{ℤ, pos, pos_part, ltb_ℤ, leb_ℤ}
use sipreaper.Detect.Counting.{when_reached, matching, count-fed_last, feed, feed_keeps, feed-run}
use sipreaper.Detect.Stream.{Seen, source_of, InTime}
use sipreaper.Fmt.{decimal, duration_string}
use sipreaper.Models.{SipEvent, Threat}
use sipreaper.Net.{ip_string, is_nil}
use sipreaper.Window.{SlidingWindow, new_sliding_window, add, count, add_keyed, max_entries_per_ip}

-- The reason, or the one that stands in for an empty reason.
abbrev reason_of : SipEvent → Text
reason_of e = if is_empty e.reject_reason then codes "rejected by sip server" else e.reject_reason

pub record ServerRejected : Type 0 where
  pub max_hits : ℕ
  pub window : ℕ
  pub sw : SlidingWindow

unfoldable pub new_server_rejected : ℤ → ℤ → ℕ → ServerRejected
new_server_rejected max window now =
    let hits = if ltb_ℤ max (pos 1) then 1 else pos_part max in
    let span = if leb_ℤ window (pos 0) then 300_000_000_000 else pos_part window in
    record { max_hits = hits; window = span; sw = new_sliding_window span now }

abbrev pub rejections : ℕ → ℕ → Seen → Threat
rejections count window s = record {
  timestamp = s.stamp;
  source_ip = s.event.source_ip;
  detector = codes "server_rejected";
  severity = codes "high";
  description =
      decimal count
      ++ (codes " "
          ++ (s.event.method
              ++ (codes " rejection(s) in "
                  ++ (duration_string window ++ (codes ": " ++ reason_of s.event)))));
  event_count = count;
  window = window;
}

-- `Detect`.
unfoldable pub detect : ServerRejected → Seen → ServerRejected × Option Threat
detect d s =
    if not s.event.rejected || is_nil s.event.source_ip
    then (d, none)
    else let ip = ip_string s.event.source_ip in
      let sw = add d.sw s.added ip in
      let n = count sw s.counted ip in
      (record d { sw = sw }, if ltb n d.max_hits then none else some (rejections n d.window s))

-- A rejected event with a source.
abbrev pub is_rejected : SipEvent → Bool
is_rejected e = e.rejected && not (is_nil e.source_ip)

abbrev pub no_key : SipEvent → Text
no_key _ = []

detect-sw :
    (d : ServerRejected) (s : Seen)
    → (detect d s).0.sw ≡ (
        if is_rejected s.event
        then add_keyed d.sw s.added (source_of s.event) (no_key s.event)
        else d.sw)
unfolding detect add
detect-sw d s = ground arith

detect_config :
    (d : ServerRejected) (s : Seen)
    → ((detect d s).0.max_hits ≡ d.max_hits) × ((detect d s).0.window ≡ d.window)
unfolding detect
detect_config d s = ground arith

detect-outcome :
    (d : ServerRejected) (s : Seen)
    → (detect d s).1 ≡ (
        if is_rejected s.event
        then when_reached d.max_hits
            (λ n. rejections n d.window s)
            (count
              (add_keyed d.sw s.added (source_of s.event) (no_key s.event))
              s.counted
              (source_of s.event))
        else none)
unfolding detect add
detect-outcome d s = ground arith

-- After any events, read by a clock that does not go back, a further event is reported exactly
-- if it is marked as rejected and has a source and at least `max` such events of its source, itself
-- included, are younger than the window, counted up to 10,000; the report gives that
-- number. A threshold or a window that is not positive is replaced by 1
-- and five minutes.
pub detect-feed_ServerRejected :
    (max w : ℤ) (start : ℕ) (seen : List Seen) (s : Seen)
    → InTime start (seen ++ s ∷ []) s.counted
    → (detect (feed detect (new_server_rejected max w start) seen) s).1 ≡ (
        if is_rejected s.event
        then when_reached
            (new_server_rejected max w start).max_hits
            (λ n. rejections n (new_server_rejected max w start).window s)
            (min max_entries_per_ip (
              length (
                matching is_rejected no_key (new_server_rejected max w start).window start seen s)))
        else none)
unfolding new_server_rejected
detect-feed_ServerRejected max w start seen s o =
    let d = new_server_rejected max w start in
    detect-outcome (feed detect d seen) s ∙ elim (Bool-cases (is_rejected s.event)) [
      | inl g ↦ rw (
        g,
        feed_keeps detect (λ d. d.max_hits) (λ d s. (detect_config d s).0) d seen,
        feed_keeps detect (λ d. d.window) (λ d s. (detect_config d s).1) d seen,
        feed-run detect (λ d. d.sw) is_rejected no_key detect-sw d seen,
        count-fed_last is_rejected no_key (new_server_rejected max w start).window start seen s g o,
      )
      | inr g ↦ rw g
    ]
