-- ===== src/Window.antt =====
-- internal/detect/detector.go: the sliding window of events per address. The clock that a call
-- reads is its argument `now`. `e.time.After(now.Add(-window))` is written as
-- `now < e.time + window`, so that no time before the epoch is needed.
pub mod Live
pub mod Runs
pub mod Distinct
pub mod Bounds
mod Tests
use mathlib.Core.Option
use sipreaper.Common.{
  ℕ, suc, ◌+◌, ◌-◌, ltb, leb, if◌then◌else◌, Bool, not, ◌&&◌, List, [], ◌∷◌, ◌++◌, Option, none,
  some, Text, length, drop, keep, is_empty, mem_text, text_eq,
}
use sipreaper.Common.Dict.{Dict, lookup, erase, insert, sweep}

abbrev pub max_entries_per_ip : ℕ
max_entries_per_ip = 10_000

pub record Entry : Type 0 where
  pub time : ℕ
  pub key : Text

pub record SlidingWindow : Type 0 where
  pub window : ℕ
  pub entries : Dict (List Entry)
  pub last_sweep : ℕ

unfoldable pub new_sliding_window : ℕ → ℕ → SlidingWindow
new_sliding_window window now = record { window = window; entries = []; last_sweep = now }

-- The entry is later than the cutoff.
abbrev pub live : ℕ → ℕ → Entry → Bool
live now window e = ltb now (e.time + window)

abbrev pub entries_of : Text → Dict (List Entry) → List Entry
entries_of ip m = Option.get_or (lookup ip m) []

-- The loop that finds the prefix to drop.
unfoldable pub count_expired : ℕ → ℕ → List Entry → ℕ
count_expired now window [] = 0
count_expired now window (e ∷ es) =
    let more = suc (count_expired now window es) in if live now window e then 0 else more

unfoldable pub trim : ℕ → ℕ → List Entry → List Entry
trim now window es =
    let expired = count_expired now window es in
    drop (expired + (length es - expired - max_entries_per_ip)) es

unfoldable pub prune_entries : ℕ → ℕ → List Entry → Option (List Entry)
prune_entries now window es = elim (keep (live now window) es) [
  | [] ↦ none
  | k ∷ ks ↦ some (k ∷ ks)
]

unfoldable pub prune_locked : SlidingWindow → ℕ → SlidingWindow
prune_locked sw now = record sw { entries = sweep (prune_entries now sw.window) sw.entries }

-- `Prune`.
unfoldable pub prune : SlidingWindow → ℕ → SlidingWindow
unfolding prune_locked
prune sw now = prune_locked sw now

unfoldable pub add_keyed : SlidingWindow → ℕ → Text → Text → SlidingWindow
add_keyed sw now ip key =
    let es = entries_of ip sw.entries ++ (record { time = now; key = key } ∷ []) in
    let added = record sw { entries = insert ip (trim now sw.window es) sw.entries } in
    if leb (sw.last_sweep + sw.window) now
    then record (prune_locked added now) { last_sweep = now }
    else added

unfoldable pub add : SlidingWindow → ℕ → Text → SlidingWindow
add sw now ip = add_keyed sw now ip []

unfoldable pub count : SlidingWindow → ℕ → Text → ℕ
count sw now ip = length (keep (live now sw.window) (entries_of ip sw.entries))

-- The keys put into the set `seen` by the loop of `DistinctCount`.
unfoldable pub collect_keys : ℕ → ℕ → List Text → List Entry → List Text
collect_keys now window seen [] = seen
collect_keys now window seen (e ∷ es) =
    collect_keys now window
      (if live now window e && not (is_empty e.key) && not (mem_text e.key seen)
        then e.key ∷ seen
        else seen)
      es

unfoldable pub distinct_count : SlidingWindow → ℕ → Text → ℕ
distinct_count sw now ip = length (collect_keys now sw.window [] (entries_of ip sw.entries))

-- Everything that a run of the window computes with.
unfoldable pub window_run : Unit {0}
unfolding add add_keyed count distinct_count trim count_expired collect_keys prune_locked
    prune_entries new_sliding_window lookup insert erase sweep text_eq
window_run = tt
