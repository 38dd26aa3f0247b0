-- ===== src/Detect/InviteFlood.antt =====
-- internal/detect/inviteflood.go: too many INVITEs from one source.
use sipreaper.Common.{
  ℕ, leb, if◌then◌else◌, Bool-cases, ◌≡◌, ◌∙◌, inl, inr, Bool, not, ◌&&◌, List, [], ◌∷◌, ◌++◌,
  Option, none, some, arith, Text, codes, text_eq, length, min,
}
use sipreaper.Detect.Counting.{when_reached, matching, count-fed_last, feed, feed_keeps, feed-run}
use sipreaper.Detect.Stream.{Seen, source_of, InTime}
use sipreaper.Fmt.{decimal, duration_string}
use sipreaper.Models.{SipEvent, Threat}
use sipreaper.Net.{ip_string}
use sipreaper.Window.{SlidingWindow, new_sliding_window, add, count, add_keyed, max_entries_per_ip}

pub record InviteFlood : Type 0 where
  pub max_requests : ℕ
  pub window : ℕ
  pub sw : SlidingWindow

unfoldable pub new_invite_flood : ℕ → ℕ → ℕ → InviteFlood
new_invite_flood max window now = record {
  max_requests = max;
  window = window;
  sw = new_sliding_window window now;
}

abbrev pub invites : ℕ → ℕ → Seen → Threat
invites count window s = record {
  timestamp = s.stamp;
  source_ip = s.event.source_ip;
  detector = codes "invite_flood";
  severity = codes "high";
  description = decimal count ++ (codes " INVITEs in " ++ duration_string window);
  event_count = count;
  window = window;
}

-- `Detect`.
unfoldable pub detect : InviteFlood → Seen → InviteFlood × Option Threat
detect d s =
    if s.event.is_response
    then (d, none)
    else if not (text_eq s.event.method (codes "INVITE"))
    then (d, none)
    else let ip = ip_string s.event.source_ip in
      let sw = add d.sw s.added ip in
      let n = count sw s.counted ip in
      (record d { sw = sw }, if leb d.max_requests n then some (invites n d.window s) else none)

-- An INVITE that is a request.
abbrev pub is_invite_request : SipEvent → Bool
is_invite_request e = not e.is_response && text_eq e.method (codes "INVITE")

abbrev pub no_key : SipEvent → Text
no_key _ = []

detect-sw :
    (d : InviteFlood) (s : Seen)
    → (detect d s).0.sw ≡ (
        if is_invite_request s.event
        then add_keyed d.sw s.added (source_of s.event) (no_key s.event)
        else d.sw)
unfolding detect add
detect-sw d s = ground arith

detect_config :
    (d : InviteFlood) (s : Seen)
    → ((detect d s).0.max_requests ≡ d.max_requests) × ((detect d s).0.window ≡ d.window)
unfolding detect
detect_config d s = ground arith

detect-outcome :
    (d : InviteFlood) (s : Seen)
    → (detect d s).1 ≡ (
        if is_invite_request s.event
        then when_reached d.max_requests
            (λ n. invites n d.window s)
            (count
              (add_keyed d.sw s.added (source_of s.event) (no_key s.event))
              s.counted
              (source_of s.event))
        else none)
unfolding detect add
detect-outcome d s = ground arith

-- After any events, read by a clock that does not go back, a further event is reported exactly
-- if it is an INVITE request and at least `max` such events of its source, itself
-- included, are younger than the window, counted up to 10,000; the report gives that
-- number.
pub detect-feed_InviteFlood :
    (max w start : ℕ) (seen : List Seen) (s : Seen)
    → InTime start (seen ++ s ∷ []) s.counted
    → (detect (feed detect (new_invite_flood max w start) seen) s).1 ≡ (
        if is_invite_request s.event
        then when_reached max
            (λ n. invites n w s)
            (min max_entries_per_ip (length (matching is_invite_request no_key w start seen s)))
        else none)
unfolding new_invite_flood
detect-feed_InviteFlood max w start seen s o =
    let d = new_invite_flood max w start in
    detect-outcome (feed detect d seen) s ∙ elim (Bool-cases (is_invite_request s.event)) [
      | inl g ↦ rw (
        g,
        feed_keeps detect (λ d. d.max_requests) (λ d s. (detect_config d s).0) d seen,
        feed_keeps detect (λ d. d.window) (λ d s. (detect_config d s).1) d seen,
        feed-run detect (λ d. d.sw) is_invite_request no_key detect-sw d seen,
        count-fed_last is_invite_request no_key w start seen s g o,
      )
      | inr g ↦ rw g
    ]
