-- ===== src/Detect/InvalidRequest.antt =====
-- internal/detect/invalidrequest.go: too many requests of no known method from one source.
use sipreaper.Common.{
  ℕ, leb, if◌then◌else◌, Bool-cases, ◌≡◌, ◌∙◌, inl, inr, Bool, not, ◌&&◌, ◌||◌, List, is_empty, [],
  ◌∷◌, ◌++◌, Option, none, some, arith, Text, codes, mem_text, length, min,
}
use sipreaper.Detect.Counting.{when_reached, matching, count-fed_last, feed, feed_keeps, feed-run}
use sipreaper.Detect.Stream.{Seen, source_of, InTime}
use sipreaper.Fmt.{decimal, duration_string}
use sipreaper.Models.{SipEvent, Threat}
use sipreaper.Net.{ip_string}
use sipreaper.Window.{SlidingWindow, new_sliding_window, add, count, add_keyed, max_entries_per_ip}

abbrev pub valid_sip_methods : List Text
valid_sip_methods =
    codes "REGISTER"
    ∷ codes "INVITE"
    ∷ codes "ACK"
    ∷ codes "BYE"
    ∷ codes "CANCEL"
    ∷ codes "OPTIONS"
    ∷ codes "PRACK"
    ∷ codes "SUBSCRIBE"
    ∷ codes "NOTIFY"
    ∷ codes "PUBLISH"
    ∷ codes "INFO"
    ∷ codes "REFER"
    ∷ codes "MESSAGE"
    ∷ codes "UPDATE"
    ∷ []

pub record InvalidRequest : Type 0 where
  pub max_invalid : ℕ
  pub window : ℕ
  pub sw : SlidingWindow

unfoldable pub new_invalid_request : ℕ → ℕ → ℕ → InvalidRequest
new_invalid_request max window now = record {
  max_invalid = max;
  window = window;
  sw = new_sliding_window window now;
}

abbrev pub invalid_requests : ℕ → ℕ → Seen → Threat
invalid_requests count window s = record {
  timestamp = s.stamp;
  source_ip = s.event.source_ip;
  detector = codes "invalid_request";
  severity = codes "medium";
  description = decimal count ++ (codes " invalid requests in " ++ duration_string window);
  event_count = count;
  window = window;
}

-- `Detect`.
unfoldable pub detect : InvalidRequest → Seen → InvalidRequest × Option Threat
detect d s =
    if s.event.is_response
    then (d, none)
    else if not (is_empty s.event.method) && mem_text s.event.method valid_sip_methods
    then (d, none)
    else let ip = ip_string s.event.source_ip in
      let sw = add d.sw s.added ip in
      let n = count sw s.counted ip in
      (
        record d { sw = sw },
        if leb d.max_invalid n then some (invalid_requests n d.window s) else none,
      )

-- A request whose method is none of the known ones.
abbrev pub is_invalid : SipEvent → Bool
is_invalid e = not e.is_response && (is_empty e.method || not (mem_text e.method valid_sip_methods))

abbrev pub no_key : SipEvent → Text
no_key _ = []

detect-sw :
    (d : InvalidRequest) (s : Seen)
    → (detect d s).0.sw ≡ (
        if is_invalid s.event
        then add_keyed d.sw s.added (source_of s.event) (no_key s.event)
        else d.sw)
unfolding detect add
detect-sw d s = ground arith

detect_config :
    (d : InvalidRequest) (s : Seen)
    → ((detect d s).0.max_invalid ≡ d.max_invalid) × ((detect d s).0.window ≡ d.window)
unfolding detect
detect_config d s = ground arith

detect-outcome :
    (d : InvalidRequest) (s : Seen)
    → (detect d s).1 ≡ (
        if is_invalid s.event
        then when_reached d.max_invalid
            (λ n. invalid_requests n d.window s)
            (count
              (add_keyed d.sw s.added (source_of s.event) (no_key s.event))
              s.counted
              (source_of s.event))
        else none)
unfolding detect add
detect-outcome d s = ground arith

-- After any events, read by a clock that does not go back, a further event is reported exactly if
-- it is a request with a method that is not one of the fourteen known and at least `max` such
-- events of its source, itself included, are younger than the window, counted up to 10,000; the
-- report gives that number.
pub detect-feed_InvalidRequest :
    (max w start : ℕ) (seen : List Seen) (s : Seen)
    → InTime start (seen ++ s ∷ []) s.counted
    → (detect (feed detect (new_invalid_request max w start) seen) s).1 ≡ (
        if is_invalid s.event
        then when_reached max
            (λ n. invalid_requests n w s)
            (min max_entries_per_ip (length (matching is_invalid no_key w start seen s)))
        else none)
unfolding new_invalid_request
detect-feed_InvalidRequest max w start seen s o =
    let d = new_invalid_request max w start in
    detect-outcome (feed detect d seen) s ∙ elim (Bool-cases (is_invalid s.event)) [
      | inl g ↦ rw (
        g,
        feed_keeps detect (λ d. d.max_invalid) (λ d s. (detect_config d s).0) d seen,
        feed_keeps detect (λ d. d.window) (λ d s. (detect_config d s).1) d seen,
        feed-run detect (λ d. d.sw) is_invalid no_key detect-sw d seen,
        count-fed_last is_invalid no_key w start seen s g o,
      )
      | inr g ↦ rw g
    ]
