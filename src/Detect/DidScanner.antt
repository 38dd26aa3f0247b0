-- ===== src/Detect/DidScanner.antt =====
-- internal/detect/did_scanner.go: one source that dials many numbers.
use sipreaper.Common.{
  ℕ, ltb, if◌then◌else◌, Bool-cases, ◌≡◌, ◌∙◌, inl, inr, Bool, not, ◌&&◌, ◌||◌, List, is_empty, [],
  ◌∷◌, ◌++◌, Option, none, some, arith, Text, codes, text_eq,
}
use sipreaper.Common.Int.{ℤ, pos, pos_part, ltb_ℤ, leb_ℤ}
use sipreaper.Detect.Counting.{
  when_reached, matching, distinct_count-fed_last, feed, feed_keeps, feed-run,
}
use sipreaper.Detect.Stream.{Seen, source_of, InTime, map_seen}
use sipreaper.Fmt.{decimal, duration_string}
use sipreaper.Models.{SipEvent, Threat}
use sipreaper.Net.{ip_string, is_nil}
use sipreaper.Window.{
  SlidingWindow, new_sliding_window, add, count, distinct_count, add_keyed, max_entries_per_ip,
}
use sipreaper.Window.Distinct.{distinct, named}
use sipreaper.Window.Live.{last_n}

pub record DidScanner : Type 0 where
  pub max_dids : ℕ
  pub window : ℕ
  pub sw : SlidingWindow

unfoldable pub new_did_scanner : ℤ → ℤ → ℕ → DidScanner
new_did_scanner max window now =
    let dids = if ltb_ℤ max (pos 1) then 20 else pos_part max in
    let span = if leb_ℤ window (pos 0) then 300_000_000_000 else pos_part window in
    record { max_dids = dids; window = span; sw = new_sliding_window span now }

abbrev pub distinct_dids : ℕ → ℕ → Seen → Threat
distinct_dids count window s = record {
  timestamp = s.stamp;
  source_ip = s.event.source_ip;
  detector = codes "did_scanner";
  severity = codes "high";
  description = decimal count ++ (codes " distinct DIDs targeted in " ++ duration_string window);
  event_count = count;
  window = window;
}

-- `Detect`.
unfoldable pub detect : DidScanner → Seen → DidScanner × Option Threat
detect d s =
    if s.event.is_response
    then (d, none)
    else if not (text_eq s.event.method (codes "INVITE"))
        || (is_nil s.event.source_ip || is_empty s.event.to_user)
    then (d, none)
    else let ip = ip_string s.event.source_ip in
      let sw = add_keyed d.sw s.added ip s.event.to_user in
      let n = distinct_count sw s.counted ip in
      (record d { sw = sw }, if ltb n d.max_dids then none else some (distinct_dids n d.window s))

-- An INVITE request with a source and a called number.
abbrev pub names_did : SipEvent → Bool
names_did e =
    not e.is_response
    && (text_eq e.method (codes "INVITE") && (not (is_nil e.source_ip) && not (is_empty e.to_user)))

abbrev pub to_user_key : SipEvent → Text
to_user_key e = e.to_user

detect-sw :
    (d : DidScanner) (s : Seen)
    → (detect d s).0.sw ≡ (
        if names_did s.event
        then add_keyed d.sw s.added (source_of s.event) (to_user_key s.event)
        else d.sw)
unfolding detect add
detect-sw d s = ground arith

detect_config :
    (d : DidScanner) (s : Seen)
    → ((detect d s).0.max_dids ≡ d.max_dids) × ((detect d s).0.window ≡ d.window)
unfolding detect
detect_config d s = ground arith

detect-outcome :
    (d : DidScanner) (s : Seen)
    → (detect d s).1 ≡ (
        if names_did s.event
        then when_reached d.max_dids
            (λ n. distinct_dids n d.window s)
            (distinct_count
              (add_keyed d.sw s.added (source_of s.event) (to_user_key s.event))
              s.counted
              (source_of s.event))
        else none)
unfolding detect add
detect-outcome d s = ground arith

-- After any events, read by a clock that does not go back, a further event is reported exactly if
-- it is an INVITE request with a source and a called number and the last 10,000 such events of its
-- source that are younger than the window, itself included, name at least `max` different users;
-- the report gives how many. A threshold or a window that is not positive is replaced by 20 and
-- five minutes.
pub detect-feed_DidScanner :
    (max w : ℤ) (start : ℕ) (seen : List Seen) (s : Seen)
    → InTime start (seen ++ s ∷ []) s.counted
    → (detect (feed detect (new_did_scanner max w start) seen) s).1 ≡ (
        if names_did s.event
        then when_reached
            (new_did_scanner max w start).max_dids
            (λ n. distinct_dids n (new_did_scanner max w start).window s)
            (distinct (
              named (
                last_n max_entries_per_ip (
                  map_seen names_did to_user_key (
                    matching names_did to_user_key
                      (new_did_scanner max w start).window
                      start
                      seen
                      s)))))
        else none)
unfolding new_did_scanner
detect-feed_DidScanner max w start seen s o =
    let d = new_did_scanner max w start in
    detect-outcome (feed detect d seen) s ∙ elim (Bool-cases (names_did s.event)) [
      | inl g ↦ rw (
        g,
        feed_keeps detect (λ d. d.max_dids) (λ d s. (detect_config d s).0) d seen,
        feed_keeps detect (λ d. d.window) (λ d s. (detect_config d s).1) d seen,
        feed-run detect (λ d. d.sw) names_did to_user_key detect-sw d seen,
        distinct_count-fed_last names_did to_user_key (new_did_scanner max w start).window start
            seen s g o,
      )
      | inr g ↦ rw g
    ]
