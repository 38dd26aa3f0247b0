-- ===== src/Detect/UserEnum.antt =====
-- internal/detect/userenum.go: one source that tries many users.
use sipreaper.Common.{
  ℕ, leb, if◌then◌else◌, Bool-cases, ◌≡◌, ◌∙◌, inl, inr, Bool, not, ◌&&◌, ◌||◌, List, is_empty, [],
  ◌∷◌, ◌++◌, Option, none, some, arith, Text, codes, text_eq,
}
use sipreaper.Detect.Counting.{
  when_reached, matching, distinct_count-fed_last, feed, feed_keeps, feed-run,
}
use sipreaper.Detect.Stream.{Seen, source_of, InTime, map_seen}
use sipreaper.Fmt.{decimal, duration_string}
use sipreaper.Models.{SipEvent, Threat}
use sipreaper.Net.{ip_string}
use sipreaper.Window.{
  SlidingWindow, new_sliding_window, add, count, distinct_count, add_keyed, max_entries_per_ip,
}
use sipreaper.Window.Distinct.{distinct, named}
use sipreaper.Window.Live.{last_n}

pub record UserEnum : Type 0 where
  pub max_extensions : ℕ
  pub window : ℕ
  pub sw : SlidingWindow

unfoldable pub new_user_enum : ℕ → ℕ → ℕ → UserEnum
new_user_enum max window now = record {
  max_extensions = max;
  window = window;
  sw = new_sliding_window window now;
}

abbrev pub distinct_extensions : ℕ → ℕ → Seen → Threat
distinct_extensions count window s = record {
  timestamp = s.stamp;
  source_ip = s.event.source_ip;
  detector = codes "user_enum";
  severity = codes "high";
  description =
      decimal count ++ (codes " distinct extensions targeted in " ++ duration_string window);
  event_count = count;
  window = window;
}

-- `Detect`.
unfoldable pub detect : UserEnum → Seen → UserEnum × Option Threat
detect d s =
    if s.event.is_response
    then (d, none)
    else if not (text_eq s.event.method (codes "REGISTER"))
        && not (text_eq s.event.method (codes "INVITE"))
    then (d, none)
    else if is_empty s.event.to_user
    then (d, none)
    else let ip = ip_string s.event.source_ip in
      let sw = add_keyed d.sw s.added ip s.event.to_user in
      let n = distinct_count sw s.counted ip in
      (
        record d { sw = sw },
        if leb d.max_extensions n then some (distinct_extensions n d.window s) else none,
      )

-- A REGISTER or INVITE request that names a user.
abbrev pub names_user : SipEvent → Bool
names_user e =
    not e.is_response
    && ((text_eq e.method (codes "REGISTER") || text_eq e.method (codes "INVITE"))
        && not (is_empty e.to_user))

abbrev pub to_user_key : SipEvent → Text
to_user_key e = e.to_user

detect-sw :
    (d : UserEnum) (s : Seen)
    → (detect d s).0.sw ≡ (
        if names_user s.event
        then add_keyed d.sw s.added (source_of s.event) (to_user_key s.event)
        else d.sw)
unfolding detect add
detect-sw d s = ground arith

detect_config :
    (d : UserEnum) (s : Seen)
    → ((detect d s).0.max_extensions ≡ d.max_extensions) × ((detect d s).0.window ≡ d.window)
unfolding detect
detect_config d s = ground arith

detect-outcome :
    (d : UserEnum) (s : Seen)
    → (detect d s).1 ≡ (
        if names_user s.event
        then when_reached d.max_extensions
            (λ n. distinct_extensions n d.window s)
            (distinct_count
              (add_keyed d.sw s.added (source_of s.event) (to_user_key s.event))
              s.counted
              (source_of s.event))
        else none)
unfolding detect add
detect-outcome d s = ground arith

-- After any events, read by a clock that does not go back, a further event is reported exactly if
-- it is a REGISTER or INVITE request that names a user and the last 10,000 such events of its
-- source that are younger than the window, itself included, name at least `max` different users;
-- the report gives how many.
pub detect-feed_UserEnum :
    (max w start : ℕ) (seen : List Seen) (s : Seen)
    → InTime start (seen ++ s ∷ []) s.counted
    → (detect (feed detect (new_user_enum max w start) seen) s).1 ≡ (
        if names_user s.event
        then when_reached max
            (λ n. distinct_extensions n w s)
            (distinct (
              named (
                last_n max_entries_per_ip (
                  map_seen names_user to_user_key
                    (matching names_user to_user_key w start seen s)))))
        else none)
unfolding new_user_enum
detect-feed_UserEnum max w start seen s o =
    let d = new_user_enum max w start in
    detect-outcome (feed detect d seen) s ∙ elim (Bool-cases (names_user s.event)) [
      | inl g ↦ rw (
        g,
        feed_keeps detect (λ d. d.max_extensions) (λ d s. (detect_config d s).0) d seen,
        feed_keeps detect (λ d. d.window) (λ d s. (detect_config d s).1) d seen,
        feed-run detect (λ d. d.sw) names_user to_user_key detect-sw d seen,
        distinct_count-fed_last names_user to_user_key w start seen s g o,
      )
      | inr g ↦ rw g
    ]
