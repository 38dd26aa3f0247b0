-- ===== src/Detect/FailedCallRatio/Report.antt =====
-- When the detector reports.
use sipreaper.Common.{
  ◌||◌, ℕ, ◌≤◌, ltb, if◌then◌else◌, ◌≡◌, true, List, [], ◌∷◌, ◌++◌, Option, none, some, Text,
  length,
}
use sipreaper.Common.Int.{ℤ}
use sipreaper.Detect.Counting.{limit_or, five_minutes_or}
use sipreaper.Detect.FailedCallRatio.Calls.{
  Call, is_call, source, calls_from, recent, failures, history,
}
use sipreaper.Detect.FailedCallRatio.Stream.{Tracks}
use sipreaper.Detect.FailedCallRatio.{
  Floats, RatioEvent, FailedCallRatio, has_failed, forget, with_call, detect, failing_calls,
}
use sipreaper.Models.{Threat}
use sipreaper.Window.Live.{last_n}
use sipreaper.Window.{Entry, max_entries_per_ip}

-- The last 10,000 calls of a call's source that are younger than the window.
abbrev pub considered : ℕ → List Call → Call → List Call
considered w calls c =
    last_n max_entries_per_ip (recent c.at w (calls_from (source c) (calls ++ c ∷ [])))

module _ {F : Type 0} (o : Floats F) where
  -- The detector's calls, one after the other.
  unfoldable pub feed : FailedCallRatio F → List Call → FailedCallRatio F
  feed d [] = d
  feed d (c ∷ calls) = feed (detect o d c.at c.event).0 calls

  -- What the detector holds after the calls `h`, at a time.
  abbrev TracksCalls : FailedCallRatio F → ℕ → (Text → List Entry) → Type 0
  TracksCalls d now h = Tracks d.window now d.buckets h

  -- What the detector says of some calls, the last of which is at hand.
  abbrev pub judged : FailedCallRatio F → Call → List Call → Option Threat
  judged d c calls =
      if ltb (length calls) d.min_calls
      then none
      else if o.less (o.divide (failures calls) (length calls)) d.min_ratio
      then none
      else some (failing_calls o (failures calls) (length calls) d.window c.at c.event)

  module _ (d : FailedCallRatio F) (calls : List Call) (c : Call) (g : is_call c.event ≡ true)
      (before : ℕ) (le : before ≤ c.at) (tr : TracksCalls d before (λ j. history j calls)) where
    abbrev bucket_now : List RatioEvent
    bucket_now = with_call (forget d c.at) c.at (source c) (has_failed c.event)

  -- The detector of these arguments, those out of range replaced by 20, 0.8 and five minutes.
  abbrev pub configured : ℤ → F → ℤ → ℕ → FailedCallRatio F
  configured min_calls min_ratio window start = record {
    min_calls = limit_or 20 min_calls;
    min_ratio =
        if o.not_positive min_ratio || o.above_one min_ratio then o.four_fifths else min_ratio;
    window = five_minutes_or window;
    buckets = [];
    last_sweep = start;
  }
