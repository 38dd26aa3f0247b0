-- ===== src/Action/Email.antt =====
-- internal/action/email.go: which events become mail, and the queue between `Notify` and the
-- worker. The delivery itself is I/O: the worker's turn only takes a message off the queue. The
-- argument `stamp` is Go's `Time.Format` with the layout of the code.
pub mod Queue
use sipreaper.Common.{
  ℕ, ltb, leb, if◌then◌else◌, Bool, true, false, not, List, [], ◌∷◌, ◌++◌, Option, none, some, Text,
  codes, text_eq, is_empty, length,
}
use sipreaper.Fmt.{duration_string}
use sipreaper.Models.{NotifyEvent}

pub record Message : Type 0 where
  pub subject : Text
  pub body : Text

-- `severityLevels`: 0 for a severity that it does not have.
abbrev pub severity_level : Text → ℕ
severity_level s =
    if text_eq s (codes "low")
    then 1
    else if text_eq s (codes "medium")
    then 2
    else if text_eq s (codes "high")
    then 3
    else 0

abbrev pub should_notify : Text → Text → Bool
should_notify min_severity severity =
    if is_empty min_severity
    then true
    else leb (severity_level min_severity) (severity_level severity)

abbrev line : Text → Text → Text
line label value = label ++ (value ++ codes "\n")

unfoldable pub format_message : (ℕ → Text) → NotifyEvent → Message
unfolding duration_string
format_message stamp e = record {
  subject = codes "[SIPReaper] " ++ (e.type ++ (codes ": " ++ e.ip));
  body =
      line (codes "SIPReaper ") (e.type ++ codes " notification\n")
      ++ (line (codes "IP:       ") e.ip
          ++ (line (codes "Detector: ") e.detector
              ++ (line (codes "Severity: ") e.severity
                  ++ (line (codes "Duration: ") (duration_string e.duration)
                      ++ (line (codes "Reason:   ") e.reason
                          ++ line (codes "Time:     ") (stamp e.timestamp))))));
}

pub record EmailNotifier : Type 0 where
  pub min_severity : Text
  pub stamp : ℕ → Text
  pub queue : List Message

-- `emailQueueSize`.
abbrev pub email_queue_size : ℕ
email_queue_size = 100

-- `Notify`, with its error.
unfoldable pub notify : EmailNotifier → NotifyEvent → EmailNotifier × Option Text
notify n e =
    if not (should_notify n.min_severity e.severity)
    then (n, none)
    else if ltb (length n.queue) email_queue_size
    then (record n { queue = n.queue ++ format_message n.stamp e ∷ [] }, none)
    else (
      n,
      some (codes "email queue full, dropped " ++ (e.type ++ (codes " notification for " ++ e.ip))),
    )

-- A turn of `worker`: the message that it goes on to send.
unfoldable pub take_message : EmailNotifier → EmailNotifier × Option Message
take_message n = elim n.queue [ [] ↦ (n, none) | m ∷ ms ↦ (record n { queue = ms }, some m) ]
