-- ===== src/Action/Tests.antt =====
-- A chain that holds rules of a single address, and the theorems at inputs that meet their
-- hypotheses.
use sipreaper.Common.{
  ◌≤◌, List, ◌++◌, length, ◌+◌, ◌-◌, ◌≡◌, ◌≢◌, ◌⊎◌, refl, Bool, true, false, ltb, if◌then◌else◌, [],
  ◌∷◌, none, some, arith, Text, codes, ℕ, text_eq,
}
use sipreaper.Action.Composite.{composite, composite-reaches}
use sipreaper.Action.Email.Queue.{Step, notified, turn, run, taken, accepted, taken-run}
use sipreaper.Action.Email.{EmailNotifier, email_queue_size}
use sipreaper.Action.Iptables.{unban-none, Run, Documented, ban, unban, unban_rounds}
use sipreaper.Action.Firewall.{Exec}
use sipreaper.Action.Prefilter
use sipreaper.Action.{Enforcer}
use sipreaper.Models.{NotifyEvent}
use sipreaper.Net.{Ip}

abbrev obey : Text → ℕ → ℕ × Bool
obey flag n =
    if text_eq flag (codes "-C")
    then (n, ltb 0 n)
    else if text_eq flag (codes "-A")
    then (n + 1, true)
    else (n - 1, ltb 0 n)

abbrev toy : Run ℕ
toy n (w ∷ ten ∷ flag ∷ rest) = obey flag n
toy n _ = (n, false)

abbrev chain : Text
chain = codes "SIPREAPER"

abbrev ip : Ip
ip = 192 ∷ 0 ∷ 2 ∷ 1 ∷ []

toy-Documented : Documented toy chain (λ w ip. w)
unfolding text_eq
toy-Documented = record {
  check_keeps = λ ip w. refl;
  check_finds = λ ip w. refl;
  add_effect = λ ip w. refl;
  delete_effect = λ ip w. ground arith;
}

banned : (ban toy chain 0 ip 60 []).1 ≡ none
unfolding ban text_eq
banned = refl

lifted : (unban toy chain 3 ip).1 ≡ none
unfolding unban unban_rounds text_eq
lifted = refl

-- An enforcer that always fails, and one that raises a flag.
abbrev broken : Enforcer Bool
broken = record {
  name = codes "broken";
  ban = λ w ip d reason. (w, some (codes "no such set"));
  unban = λ w ip. (w, none);
  list = λ w. none;
}

abbrev flagged : Enforcer Bool
flagged = record {
  name = codes "flag";
  ban = λ w ip d reason. (true, none);
  unban = λ w ip. (false, none);
  list = λ w. none;
}

composite-reaches_example :
    ((composite (broken ∷ flagged ∷ [])).ban false ip 60 []).0 ≡ true
    ⊎ (((flagged.ban ((composite (broken ∷ [])).ban false ip 60 []).0 ip 60 []).1 ≢ none)
        × (((composite (broken ∷ flagged ∷ [])).ban false ip 60 []).1 ≢ none))
composite-reaches_example =
    composite-reaches flagged (λ w. w ≡ true) ip 60 [] (λ w fine. refl) [] tt (broken ∷ []) false

-- A notifier for bans of high severity, and two of its events.
abbrev mailer : EmailNotifier
mailer = record { min_severity = codes "high"; stamp = λ t. codes "now"; queue = [] }

abbrev event : Text → NotifyEvent
event severity = record {
  type = codes "ban";
  ip = codes "192.0.2.1";
  detector = codes "scanner";
  severity = severity;
  duration = 60_000_000_000;
  reason = codes "probes";
  timestamp = 5;
}

abbrev steps : List Step
steps = notified (event (codes "high")) ∷ notified (event (codes "low")) ∷ turn ∷ turn ∷ []

taken-run_example :
    (taken mailer steps ++ (run mailer steps).queue ≡ [] ++ accepted mailer steps)
    × (length (run mailer steps).queue ≤ email_queue_size)
taken-run_example = taken-run mailer steps (omega arith)

-- The tool of the toy deletes what is there.
unban-none_example : ((unban toy chain 3 ip).1 ≡ none) × ((unban toy chain 3 ip).0 ≡ 0)
unfolding text_eq
unban-none_example =
    unban-none toy chain (λ w ip. w) toy-Documented ip 3 (λ v some_rule. ground arith) (omega arith)

-- A firewall with room for three rules, which refuses every check.
abbrev inserting : Exec ℕ
inserting n (w ∷ ten ∷ flag ∷ rest) =
    if text_eq flag (codes "-C") then (n, none) else if ltb n 3 then (n + 1, some []) else (n, none)
inserting n _ = (n, none)
