-- ===== src/Dedup.antt =====
-- internal/ingest/dedup.go: the events seen a moment ago. The clock is the argument `now`;
-- `now.Sub(ts) < window` is written `now < ts + window`. Each call holds the mutex, so calls of
-- the pipeline and ticks of `pruneLoop` are a sequence of steps.
pub mod Laws
mod Tests
use sipreaper.Common.{
  ℕ, ◌+◌, ltb, if◌then◌else◌, Bool, true, false, List, [], ◌∷◌, ◌++◌, Option, none, some, Text,
  text_eq,
}
use sipreaper.Common.Dict.{Dict, lookup, insert, erase, sweep}
use sipreaper.Fmt.{decimal}

pub record Dedup : Type 0 where
  pub seen : Dict ℕ
  pub window : ℕ

unfoldable pub new_dedup : ℕ → Dedup
new_dedup window = record { seen = []; window = window }

-- `if ts, ok := d.seen[key]; ok && now.Sub(ts) < d.window`.
abbrev pub is_recent : ℕ → ℕ → Option ℕ → Bool
is_recent now window none = false
is_recent now window (some ts) = ltb now (ts + window)

-- `isDup`.
unfoldable pub is_dup : Dedup → ℕ → Text → Dedup × Bool
is_dup d now key =
    if is_recent now d.window (lookup key d.seen)
    then (d, true)
    else (record d { seen = insert key now d.seen }, false)

abbrev pub is_duplicate : Dedup → ℕ → Text → Text → Dedup × Bool
is_duplicate d now call_id method = is_dup d now (call_id ++ (b'|' ∷ method))

abbrev pub event_key : Text → Text → ℕ → Text
event_key call_id method code = call_id ++ (b'|' ∷ (method ++ (b'|' ∷ decimal code)))

abbrev pub is_duplicate_event : Dedup → ℕ → Text → Text → ℕ → Dedup × Bool
is_duplicate_event d now call_id method code = is_dup d now (event_key call_id method code)

pub keep_recent : ℕ → ℕ → ℕ → Option ℕ
keep_recent now window ts = if ltb now (ts + window) then some ts else none

unfoldable pub prune : Dedup → ℕ → Dedup
unfolding keep_recent
prune d now = record d { seen = sweep (keep_recent now d.window) d.seen }

pub data Call : Type 0 where
  check : ℕ → Text → Call
  tick : ℕ → Call

-- The answers to the checks of a sequence of steps, and the state behind it.
unfoldable pub step : Dedup → Call → Dedup
step d (check now key) = (is_dup d now key).0
step d (tick now) = prune d now

unfoldable pub run : Dedup → List Call → Dedup
run d [] = d
run d (c ∷ calls) = run (step d c) calls

unfoldable pub answers : Dedup → List Call → List Bool
answers d [] = []
answers d (check now key ∷ calls) = (is_dup d now key).1 ∷ answers (is_dup d now key).0 calls
answers d (tick now ∷ calls) = answers (prune d now) calls

unfoldable pub dedup_run : Unit {0}
unfolding new_dedup is_dup prune step run answers lookup insert erase sweep text_eq decimal
dedup_run = tt
