-- ===== src/Detect/FailedCallRatio.antt =====
-- internal/detect/failed_call_ratio.go: the share of a source's calls that fail. The operations on
-- floats are arguments. `e.t.After(cutoff)` is written as in the sliding window.
pub mod Stream
pub mod Calls
pub mod Report
mod Tests
use sipreaper.Common.{
  ℕ, ◌+◌, ◌-◌, suc, ltb, leb, if◌then◌else◌, Bool, true, not, ◌&&◌, ◌||◌, List, [], ◌∷◌, ◌++◌,
  Option, none, some, Text, codes, text_eq, length, drop, keep,
}
use mathlib.Core.Option
use sipreaper.Common.Dict.{Dict, lookup, insert, sweep}
use sipreaper.Common.Int.{ℤ, pos, pos_part, ltb_ℤ, leb_ℤ}
use sipreaper.Fmt.{decimal, duration_string}
use sipreaper.Models.{SipEvent, Threat}
use sipreaper.Net.{ip_string, is_nil}
use sipreaper.Window.{max_entries_per_ip}

-- What the detector does with floats: the quotient of two integers, the comparisons, the constant
-- 0.8, and how `%.0f%%` prints a hundred times one.
pub record Floats (F : Type 0) : Type 0 where
  pub divide : ℕ → ℕ → F
  pub less : F → F → Bool
  pub not_positive : F → Bool
  pub above_one : F → Bool
  pub four_fifths : F
  pub percent : F → Text

pub record RatioEvent : Type 0 where
  pub t : ℕ
  pub failed : Bool

-- A bucket is its events.
pub record FailedCallRatio (F : Type 0) : Type 0 where
  pub min_calls : ℕ
  pub min_ratio : F
  pub window : ℕ
  pub buckets : Dict (List RatioEvent)
  pub last_sweep : ℕ

-- `e.t.After(cutoff)`.
abbrev pub after_cutoff : ℕ → ℕ → RatioEvent → Bool
after_cutoff now window e = ltb now (e.t + window)

abbrev pub events_of : Text → Dict (List RatioEvent) → List RatioEvent
events_of ip buckets = Option.get_or (lookup ip buckets) []

-- The bucket is empty, or its last event is old.
unfoldable pub is_quiet : ℕ → ℕ → List RatioEvent → Bool
is_quiet now window [] = true
is_quiet now window (e ∷ []) = not (after_cutoff now window e)
is_quiet now window (e ∷ f ∷ es) = is_quiet now window (f ∷ es)

unfoldable pub forget_quiet : ℕ → ℕ → List RatioEvent → Option (List RatioEvent)
unfolding is_quiet
forget_quiet now window es = if is_quiet now window es then none else some es

-- The events that are kept of a bucket to which one was appended.
abbrev pub kept_of : ℕ → ℕ → List RatioEvent → List RatioEvent
kept_of now window es =
    let kept = keep (after_cutoff now window) es in drop (length kept - max_entries_per_ip) kept

-- The loop that counts the failed ones.
abbrev pub failed_count : List RatioEvent → ℕ
failed_count [] = 0
failed_count (e ∷ es) = if e.failed then suc (failed_count es) else failed_count es

-- Whether an event counts as a failed call.
abbrev pub has_failed : SipEvent → Bool
has_failed e = e.rejected || (leb 400 e.response_code && ltb e.response_code 600)

module _ {F : Type 0} where
  -- Forgetting quiet sources, at most once per window.
  unfoldable pub forget : FailedCallRatio F → ℕ → FailedCallRatio F
  unfolding forget_quiet sweep
  forget d now =
      if leb (d.last_sweep + d.window) now
      then record d { buckets = sweep (forget_quiet now d.window) d.buckets; last_sweep = now }
      else d

  -- The events of the source with the one at hand.
  abbrev pub with_call : FailedCallRatio F → ℕ → Text → Bool → List RatioEvent
  with_call d now ip failed =
      kept_of now d.window (events_of ip d.buckets ++ (record { t = now; failed = failed } ∷ []))

module _ {F : Type 0} (o : Floats F) where
  unfoldable pub new_failed_call_ratio : ℤ → F → ℤ → ℕ → FailedCallRatio F
  new_failed_call_ratio min_calls min_ratio window now = record {
    min_calls = if ltb_ℤ min_calls (pos 1) then 20 else pos_part min_calls;
    min_ratio =
        if o.not_positive min_ratio || o.above_one min_ratio then o.four_fifths else min_ratio;
    window = if leb_ℤ window (pos 0) then 300_000_000_000 else pos_part window;
    buckets = [];
    last_sweep = now;
  }

  abbrev pub failing_calls : ℕ → ℕ → ℕ → ℕ → SipEvent → Threat
  failing_calls failed total window now e = record {
    timestamp = now;
    source_ip = e.source_ip;
    detector = codes "failed_call_ratio";
    severity = codes "high";
    description =
        decimal failed
        ++ (codes "/"
            ++ (decimal total
                ++ (codes " INVITEs failed ("
                    ++ (o.percent (o.divide failed total)
                        ++ (codes ") over " ++ duration_string window)))));
    event_count = total;
    window = window;
  }

  -- From the count of the calls on.
  abbrev pub judge : FailedCallRatio F → ℕ → SipEvent → ℕ → ℕ → Option Threat
  judge d now e failed total =
      if ltb total d.min_calls
      then none
      else if o.less (o.divide failed total) d.min_ratio
      then none
      else some (failing_calls failed total d.window now e)

  -- `Detect`; `now` is its one reading of the clock.
  unfoldable pub detect : FailedCallRatio F → ℕ → SipEvent → FailedCallRatio F × Option Threat
  unfolding forget insert
  detect d now e =
      if not (text_eq e.method (codes "INVITE")) || is_nil e.source_ip
      then (d, none)
      else let ip = ip_string e.source_ip in
        let swept = forget d now in
        let es = with_call swept now ip (has_failed e) in
        (
          record swept { buckets = insert ip es swept.buckets },
          judge d now e (failed_count es) (length es),
        )
