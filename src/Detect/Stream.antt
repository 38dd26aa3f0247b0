-- ===== src/Detect/Stream.antt =====
-- The stream of events that a detector sees, each with the clock readings of its call, and what a
-- sliding window that is fed from it holds.
use sipreaper.Common.{
  ℕ, ◌+◌, ◌≤◌, ltb, if◌then◌else◌, ◌≡◌, refl, Bool, true, false, ◌&&◌, List, [], ◌∷◌, arith, Text,
  text_eq, length, keep,
}
use sipreaper.Models.{SipEvent}
use sipreaper.Net.{ip_string}
use sipreaper.Window.{Entry, live}
use sipreaper.Window.Runs.{Addition, history, InOrder}

-- An event, and the clock when its detector adds it, counts, and reports.
pub record Seen : Type 0 where
  pub event : SipEvent
  pub added : ℕ
  pub counted : ℕ
  pub stamp : ℕ

abbrev pub source_of : SipEvent → Text
source_of e = ip_string e.source_ip

-- The readings never go back.
abbrev pub InTime : ℕ → List Seen → ℕ → Type 0
InTime from [] until = from ≤ until
InTime from (s ∷ seen) until =
    (from ≤ s.added) × (s.added ≤ s.counted) × InTime s.counted seen until

InTime-earlier :
    (a b until : ℕ) (seen : List Seen) → a ≤ b → InTime b seen until → InTime a seen until
InTime-earlier a b until [] le h = omega arith
InTime-earlier a b until (s ∷ seen) le (h, later, rest) = (omega arith, later, rest)

pub InTime-until : (from until : ℕ) (seen : List Seen) → InTime from seen until → from ≤ until
InTime-until from until [] h = h
InTime-until from until (s ∷ seen) (le, le', h) = omega (arith, InTime-until s.counted until seen h)

-- What a detector adds that passes some events on, each under a key.
module _ (gate : SipEvent → Bool) (key : SipEvent → Text) where
  abbrev pub addition : Seen → Addition
  addition s = record { at = s.added; ip = source_of s.event; key = key s.event }

  abbrev pub additions : List Seen → List Addition
  additions [] = []
  additions (s ∷ seen) = if gate s.event then addition s ∷ additions seen else additions seen

  -- The events from a source that pass and are younger than a window.
  abbrev pub recent : ℕ → ℕ → Text → List Seen → List Seen
  recent now w ip =
      keep (λ s. gate s.event && text_eq (source_of s.event) ip && ltb now (s.added + w))

  abbrev pub entry_of : Seen → Entry
  entry_of s = record { time = s.added; key = key s.event }

  pub additions-InOrder :
      (from until : ℕ) (seen : List Seen)
      → InTime from seen until
      → InOrder from (additions seen) until
  additions-InOrder from until [] h = h
  additions-InOrder from until (s ∷ seen) (le, le', h) =
      elim (gate s.event)
        as (λ b. InOrder from (if b then addition s ∷ additions seen else additions seen) until) [
          | true ↦ (
            le,
            additions-InOrder s.added until seen
                (InTime-earlier s.added s.counted until seen le' h),
          )
          | false ↦
              additions-InOrder from until seen
                (InTime-earlier from s.counted until seen (omega arith) h)
        ]

  abbrev pub map_seen : List Seen → List Entry
  map_seen [] = []
  map_seen (s ∷ seen) = entry_of s ∷ map_seen seen

  pub live-additions :
      (now w : ℕ) (ip : Text) (seen : List Seen)
      → keep (live now w) (history ip (additions seen)) ≡ map_seen (recent now w ip seen)
  live-additions now w ip [] = refl
  live-additions now w ip (s ∷ seen) = ground (arith, live-additions now w ip seen)

  pub length-live-additions :
      (now w : ℕ) (ip : Text) (seen : List Seen)
      → length (keep (live now w) (history ip (additions seen))) ≡ length (recent now w ip seen)
  length-live-additions now w ip [] = refl
  length-live-additions now w ip (s ∷ seen) = ground (arith, length-live-additions now w ip seen)
