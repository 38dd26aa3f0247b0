-- ===== src/Action/Email/Queue.antt =====
-- The queue of mail between `Notify` and the worker.
use sipreaper.Common.{
  text_eq, text_eq_iff, codes, Text, Bool, true, ◌||◌, refl, ◌≤◌, if◌then◌else◌, ◌≡◌, sym, ap, ◌∙◌,
  List, [], ◌∷◌, ◌++◌, none, some, arith, length, length-append, append_assoc, append-nil,
}
use sipreaper.Action.Email.{
  Message, EmailNotifier, should_notify, format_message, email_queue_size, notify, take_message,
}
use sipreaper.Models.{NotifyEvent}

-- What happens to a notifier.
pub data Step : Type 0 where
  notified : NotifyEvent → Step
  turn : Step

-- The notifier after some steps.
unfoldable pub run : EmailNotifier → List Step → EmailNotifier
run n [] = n
run n (notified e ∷ steps) = run (notify n e).0 steps
run n (turn ∷ steps) = run (take_message n).0 steps

-- The messages that the worker took, in order.
unfoldable pub taken : EmailNotifier → List Step → List Message
taken n [] = []
taken n (notified e ∷ steps) = taken (notify n e).0 steps
taken n (turn ∷ steps) =
    let rest = taken (take_message n).0 steps in
    elim (take_message n).1 [ none ↦ rest | some m ↦ m ∷ rest ]

-- Whether an event of a severity is mailed that is to be at least of another; a blank minimum, or
-- one that is not known, lets every event pass.
abbrev pub at_least : Text → Text → Bool
at_least min_severity severity =
    if text_eq min_severity (codes "high")
    then text_eq severity (codes "high")
    else if text_eq min_severity (codes "medium")
    then text_eq severity (codes "medium") || text_eq severity (codes "high")
    else if text_eq min_severity (codes "low")
    then text_eq severity (codes "low")
      || (text_eq severity (codes "medium") || text_eq severity (codes "high"))
    else true

should_notify-at_least :
    (min_severity severity : Text)
    → should_notify min_severity severity ≡ at_least min_severity severity
unfolding text_eq
should_notify-at_least [] severity = refl
should_notify-at_least (c ∷ m) severity =
    let t = severity in
    ground (
      arith,
      text_eq_iff (c ∷ m) (codes "high"),
      text_eq_iff (c ∷ m) (codes "medium"),
      text_eq_iff (c ∷ m) (codes "low"),
      text_eq_iff t (codes "high"),
      text_eq_iff t (codes "medium"),
      text_eq_iff t (codes "low"),
    )

-- The messages of the events that are severe enough and for which `Notify` reports no error.
unfoldable pub accepted : EmailNotifier → List Step → List Message
accepted n [] = []
accepted n (notified e ∷ steps) =
    let rest = accepted (notify n e).0 steps in
    if at_least n.min_severity e.severity
    then elim (notify n e).1 [ none ↦ format_message n.stamp e ∷ rest | some error ↦ rest ]
    else rest
accepted n (turn ∷ steps) = accepted (take_message n).0 steps

queue-notify :
    (n : EmailNotifier) (e : NotifyEvent) (rest : List Message)
    → (notify n e).0.queue ++ rest
      ≡ n.queue
        ++ (if at_least n.min_severity e.severity
            then elim (notify n e).1 [ none ↦ format_message n.stamp e ∷ rest | some error ↦ rest ]
            else rest)
unfolding notify
queue-notify n e rest = ground (
  arith,
  should_notify-at_least n.min_severity e.severity,
  append_assoc n.queue (format_message n.stamp e ∷ []) rest,
)

length-notify :
    (n : EmailNotifier) (e : NotifyEvent)
    → length n.queue ≤ email_queue_size
    → length (notify n e).0.queue ≤ email_queue_size
unfolding notify
length-notify n e le = ground (arith, le, length-append n.queue (format_message n.stamp e ∷ []))

-- The claim for the steps that are left.
abbrev Kept : EmailNotifier → List Step → Type 0
Kept n steps =
    (taken n steps ++ (run n steps).queue ≡ n.queue ++ accepted n steps)
    × (length (run n steps).queue ≤ email_queue_size)

Kept-turn :
    (n : EmailNotifier) (q : List Message) (steps : List Step)
    → ((m : EmailNotifier) → length m.queue ≤ email_queue_size → Kept m steps)
    → length q ≤ email_queue_size
    → Kept (record n { queue = q }) (turn ∷ steps)
unfolding run taken accepted take_message
Kept-turn n [] steps next le = next (record n { queue = [] }) le
Kept-turn n (m ∷ q) steps next le =
    let (same, small) = next (record n { queue = q }) (omega arith) in
    (ap (λ ms. m ∷ ms) same, small)

-- Whatever events and turns of the worker follow one another: the messages that the worker takes
-- off the queue to send, and then those that still wait, are the ones that waited at first and
-- then those of the events that are at least of the configured severity and for which `Notify`
-- reports no error, in this order; and no more than 100 wait, if no more did at first. What becomes
-- of a message that was taken is not part of this.
pub taken-run :
    (n : EmailNotifier) (steps : List Step)
    → length n.queue ≤ email_queue_size
    → (taken n steps ++ (run n steps).queue ≡ n.queue ++ accepted n steps)
      × (length (run n steps).queue ≤ email_queue_size)
unfolding run taken accepted notify take_message
taken-run n [] le = (sym (append-nil n.queue), le)
taken-run n (notified e ∷ steps) le =
    let (same, small) = taken-run (notify n e).0 steps (length-notify n e le) in
    (same ∙ queue-notify n e (accepted (notify n e).0 steps), small)
taken-run n (turn ∷ steps) le = Kept-turn n n.queue steps (λ m. taken-run m steps) le
