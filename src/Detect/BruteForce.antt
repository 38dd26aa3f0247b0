-- ===== src/Detect/BruteForce.antt =====
-- internal/detect/bruteforce.go: too many failed REGISTERs from one source.
use sipreaper.Common.{
  ℕ, leb, ◌==◌, if◌then◌else◌, Bool-cases, ◌≡◌, ◌∙◌, inl, inr, Bool, not, ◌&&◌, ◌||◌, List, [], ◌∷◌,
  ◌++◌, Option, none, some, arith, Text, codes, text_eq, length, min,
}
use sipreaper.Detect.Counting.{when_reached, matching, count-fed_last, feed, feed_keeps, feed-run}
use sipreaper.Detect.Stream.{Seen, source_of, InTime}
use sipreaper.Fmt.{decimal, duration_string}
use sipreaper.Models.{SipEvent, Threat}
use sipreaper.Net.{ip_string}
use sipreaper.Window.{SlidingWindow, new_sliding_window, add, count, add_keyed, max_entries_per_ip}

pub record BruteForce : Type 0 where
  pub max_attempts : ℕ
  pub window : ℕ
  pub sw : SlidingWindow

unfoldable pub new_brute_force : ℕ → ℕ → ℕ → BruteForce
new_brute_force max window now = record {
  max_attempts = max;
  window = window;
  sw = new_sliding_window window now;
}

abbrev pub failed_registers : ℕ → ℕ → Seen → Threat
failed_registers count window s = record {
  timestamp = s.stamp;
  source_ip = s.event.source_ip;
  detector = codes "brute_force";
  severity = codes "high";
  description = decimal count ++ (codes " failed REGISTER attempts in " ++ duration_string window);
  event_count = count;
  window = window;
}

-- `Detect`.
unfoldable pub detect : BruteForce → Seen → BruteForce × Option Threat
detect d s =
    if not (text_eq s.event.method (codes "REGISTER"))
    then (d, none)
    else if not (s.event.response_code == 401) && not (s.event.response_code == 403)
    then (d, none)
    else let ip = ip_string s.event.source_ip in
      let sw = add d.sw s.added ip in
      let n = count sw s.counted ip in
      (
        record d { sw = sw },
        if leb d.max_attempts n then some (failed_registers n d.window s) else none,
      )

-- A REGISTER that the server refused.
abbrev pub is_failed_register : SipEvent → Bool
is_failed_register e =
    text_eq e.method (codes "REGISTER") && (e.response_code == 401 || e.response_code == 403)

abbrev pub no_key : SipEvent → Text
no_key _ = []

detect-sw :
    (d : BruteForce) (s : Seen)
    → (detect d s).0.sw ≡ (
        if is_failed_register s.event
        then add_keyed d.sw s.added (source_of s.event) (no_key s.event)
        else d.sw)
unfolding detect add
detect-sw d s = ground arith

detect_config :
    (d : BruteForce) (s : Seen)
    → ((detect d s).0.max_attempts ≡ d.max_attempts) × ((detect d s).0.window ≡ d.window)
unfolding detect
detect_config d s = ground arith

detect-outcome :
    (d : BruteForce) (s : Seen)
    → (detect d s).1 ≡ (
        if is_failed_register s.event
        then when_reached d.max_attempts
            (λ n. failed_registers n d.window s)
            (count
              (add_keyed d.sw s.added (source_of s.event) (no_key s.event))
              s.counted
              (source_of s.event))
        else none)
unfolding detect add
detect-outcome d s = ground arith

-- After any events, read by a clock that does not go back, a further event is reported exactly
-- if it is a REGISTER answered by 401 or 403 and at least `max` such events of its source, itself
-- included, are younger than the window, counted up to 10,000; the report gives that
-- number.
pub detect-feed_BruteForce :
    (max w start : ℕ) (seen : List Seen) (s : Seen)
    → InTime start (seen ++ s ∷ []) s.counted
    → (detect (feed detect (new_brute_force max w start) seen) s).1 ≡ (
        if is_failed_register s.event
        then when_reached max
            (λ n. failed_registers n w s)
            (min max_entries_per_ip (length (matching is_failed_register no_key w start seen s)))
        else none)
unfolding new_brute_force
detect-feed_BruteForce max w start seen s o =
    let d = new_brute_force max w start in
    detect-outcome (feed detect d seen) s ∙ elim (Bool-cases (is_failed_register s.event)) [
      | inl g ↦ rw (
        g,
        feed_keeps detect (λ d. d.max_attempts) (λ d s. (detect_config d s).0) d seen,
        feed_keeps detect (λ d. d.window) (λ d s. (detect_config d s).1) d seen,
        feed-run detect (λ d. d.sw) is_failed_register no_key detect-sw d seen,
        count-fed_last is_failed_register no_key w start seen s g o,
      )
      | inr g ↦ rw g
    ]
