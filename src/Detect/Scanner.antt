-- ===== src/Detect/Scanner.antt =====
-- internal/detect/scanner.go: known scanning agents, and too many OPTIONS probes from one source.
use sipreaper.Common.{
  refl, keep-ext, All-always, ℕ, leb, if◌then◌else◌, Bool-cases, ◌≡◌, ap, ◌∙◌, inl, inr, Bool, true,
  not, ◌&&◌, List, is_empty, any, [], ◌∷◌, ◌++◌, Option, none, some, arith, Text, codes, text_eq,
  length, min, contains, to_lower, map,
}
use sipreaper.Detect.Counting.{
  when_reached, matching, count-fed_last, feed, feed_keeps, feed-run_of,
}
use sipreaper.Detect.Stream.{Seen, source_of, InTime}
use sipreaper.Fmt.{decimal, duration_string}
use sipreaper.Models.{SipEvent, Threat}
use sipreaper.Net.{ip_string}
use sipreaper.Window.{SlidingWindow, new_sliding_window, add, count, add_keyed, max_entries_per_ip}

pub record Scanner : Type 0 where
  pub max_probes : ℕ
  pub window : ℕ
  pub known_agents : List Text
  pub sw : SlidingWindow

unfoldable pub new_scanner : ℕ → ℕ → List Text → ℕ → Scanner
new_scanner max window agents now = record {
  max_probes = max;
  window = window;
  known_agents = map to_lower agents;
  sw = new_sliding_window window now;
}

abbrev pub known_agent : ℕ → Seen → Threat
known_agent window s = record {
  timestamp = s.stamp;
  source_ip = s.event.source_ip;
  detector = codes "scanner";
  severity = codes "high";
  description = codes "known scanner user-agent: " ++ s.event.user_agent;
  event_count = 1;
  window = window;
}

abbrev pub probes : ℕ → ℕ → Seen → Threat
probes count window s = record {
  timestamp = s.stamp;
  source_ip = s.event.source_ip;
  detector = codes "scanner";
  severity = codes "medium";
  description = decimal count ++ (codes " OPTIONS probes in " ++ duration_string window);
  event_count = count;
  window = window;
}

-- The loop over the known agents.
abbrev pub uses_agent : List Text → SipEvent → Bool
uses_agent agents e = not (is_empty e.user_agent) && any (contains (to_lower e.user_agent)) agents

-- `Detect`.
unfoldable pub detect : Scanner → Seen → Scanner × Option Threat
detect d s =
    if s.event.is_response
    then (d, none)
    else if uses_agent d.known_agents s.event
    then (d, some (known_agent d.window s))
    else if not (text_eq s.event.method (codes "OPTIONS"))
    then (d, none)
    else let ip = ip_string s.event.source_ip in
      let sw = add d.sw s.added ip in
      let n = count sw s.counted ip in
      (record d { sw = sw }, if leb d.max_probes n then some (probes n d.window s) else none)

-- An OPTIONS request from an agent that is not known.
abbrev pub is_probe : List Text → SipEvent → Bool
is_probe agents e =
    not e.is_response && (not (uses_agent agents e) && text_eq e.method (codes "OPTIONS"))

abbrev pub no_key : SipEvent → Text
no_key _ = []

detect-sw :
    (d : Scanner) (s : Seen)
    → (detect d s).0.sw ≡ (
        if is_probe d.known_agents s.event
        then add_keyed d.sw s.added (source_of s.event) (no_key s.event)
        else d.sw)
unfolding detect add
detect-sw d s = ground arith

detect_config :
    (d : Scanner) (s : Seen)
    → ((detect d s).0.max_probes ≡ d.max_probes)
      × ((detect d s).0.window ≡ d.window)
      × ((detect d s).0.known_agents ≡ d.known_agents)
unfolding detect
detect_config d s = ground arith

-- What a call reports, from the parts of the detector.
abbrev pub verdict : List Text → ℕ → ℕ → ℕ → Seen → Option Threat
verdict agents max w n s =
    if s.event.is_response
    then none
    else if uses_agent agents s.event
    then some (known_agent w s)
    else if text_eq s.event.method (codes "OPTIONS")
    then when_reached max (λ n. probes n w s) n
    else none

detect-outcome :
    (d : Scanner) (s : Seen)
    → (detect d s).1
      ≡ verdict d.known_agents d.max_probes d.window
          (count
            (add_keyed d.sw s.added (source_of s.event) (no_key s.event))
            s.counted
            (source_of s.event))
          s
unfolding detect add
detect-outcome d s = ground arith

verdict-count :
    (agents : List Text) (max w m n : ℕ) (s : Seen)
    → (is_probe agents s.event ≡ true → m ≡ n)
    → verdict agents max w m s ≡ verdict agents max w n s
verdict-count agents max w m n s h = elim (Bool-cases (is_probe agents s.event)) [
  | inl g ↦ ap (λ k. verdict agents max w k s) (h g)
  | inr g ↦ ground arith
]

-- The event has an agent, and it contains one of the configured ones, both taken in lower case.
abbrev pub names_agent : List Text → SipEvent → Bool
names_agent agents e =
    not (is_empty e.user_agent) && any (λ a. contains (to_lower e.user_agent) (to_lower a)) agents

abbrev pub is_scan : List Text → SipEvent → Bool
is_scan agents e =
    not e.is_response && (not (names_agent agents e) && text_eq e.method (codes "OPTIONS"))

-- What is reported of an event when there are `n` recent probes.
abbrev pub reported : List Text → ℕ → ℕ → ℕ → Seen → Option Threat
reported agents max w n s =
    if s.event.is_response
    then none
    else if names_agent agents s.event
    then some (known_agent w s)
    else if text_eq s.event.method (codes "OPTIONS")
    then when_reached max (λ n. probes n w s) n
    else none

any-map :
    (p : Text → Bool) (f : Text → Text) (ts : List Text) → any p (map f ts) ≡ any (λ t. p (f t)) ts
any-map p f [] = refl
any-map p f (t ∷ ts) = ground (arith, any-map p f ts)

uses-names :
    (agents : List Text) (e : SipEvent) → uses_agent (map to_lower agents) e ≡ names_agent agents e
uses-names agents e =
    ap (λ b. not (is_empty e.user_agent) && b)
      (any-map (contains (to_lower e.user_agent)) to_lower agents)

matching-is_scan :
    (agents : List Text) (w start : ℕ) (seen : List Seen) (s : Seen)
    → length (matching (is_probe (map to_lower agents)) no_key w start seen s)
      ≡ length (matching (is_scan agents) no_key w start seen s)
matching-is_scan agents w start seen s = ap length (
    keep-ext _ _ (seen ++ s ∷ [])
      (All-always _ (seen ++ s ∷ []) (λ x. rw (uses-names agents x.event) refl)))

-- After any events, read by a clock that does not go back, a further event is reported exactly
-- if it is a request whose agent contains one of the configured agents, letters of either case
-- being the same, or else an OPTIONS request where at least `max` such requests of its source,
-- itself included, are younger than the window, counted up to 10,000.
pub detect-feed_Scanner :
    (max w start : ℕ) (agents : List Text) (seen : List Seen) (s : Seen)
    → InTime start (seen ++ s ∷ []) s.counted
    → (detect (feed detect (new_scanner max w agents start) seen) s).1
      ≡ reported agents max w
          (min max_entries_per_ip (length (matching (is_scan agents) no_key w start seen s)))
          s
unfolding new_scanner
detect-feed_Scanner max w start agents seen s o =
    let d = new_scanner max w agents start in
    let known = map to_lower agents in
    detect-outcome (feed detect d seen) s
    ∙ rw
        (
          feed_keeps detect (λ d. d.max_probes) (λ d s. (detect_config d s).0) d seen,
          feed_keeps detect (λ d. d.window) (λ d s. (detect_config d s).1) d seen,
          feed_keeps detect (λ d. d.known_agents) (λ d s. (detect_config d s).2) d seen,
          feed-run_of detect (λ d. d.sw) (λ d. is_probe d.known_agents) no_key
              (λ d s. ap is_probe (detect_config d s).2) detect-sw d seen,
        )
        (verdict-count known max w _ _ s
            (λ g. count-fed_last (is_probe known) no_key w start seen s g o)
          ∙ ap (λ n. verdict known max w (min max_entries_per_ip n) s)
              (matching-is_scan agents w start seen s)
          ∙ rw (uses-names agents s.event) refl)
