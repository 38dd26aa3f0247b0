-- ===== src/Window/Tests.antt =====
-- Runs of the window, and the theorems at inputs that meet their hypotheses.
use sipreaper.Common.{◌≡◌, refl, [], ◌∷◌, List, arith, codes, Text, min, length, keep}
use sipreaper.Window.{
  Entry, SlidingWindow, new_sliding_window, live, count, distinct_count, window_run,
  max_entries_per_ip,
}
use sipreaper.Window.Distinct.{distinct, named, distinct_count-run}
use sipreaper.Window.Live.{last_n}
use sipreaper.Window.Runs.{Addition, run, history, count-run}

abbrev a : Text
a = codes "192.0.2.1"

abbrev b : Text
b = codes "192.0.2.2"

abbrev additions : List Addition
additions =
    record { at = 10; ip = a; key = codes "100" }
    ∷ record { at = 12; ip = b; key = codes "100" }
    ∷ record { at = 15; ip = a; key = codes "101" }
    ∷ record { at = 16; ip = a; key = codes "101" }
    ∷ record { at = 22; ip = a; key = [] }
    ∷ []

abbrev ran : SlidingWindow
ran = run (new_sliding_window 10 5) additions

counts : (count ran 22 a ≡ 3) × (count ran 26 a ≡ 1) × (count ran 21 b ≡ 1)
unfolding window_run run
counts = (refl, refl, refl)

distinct_counts : distinct_count ran 22 a ≡ 1
unfolding window_run run
distinct_counts = refl

count-run_example :
    count ran 25 a ≡ min max_entries_per_ip (length (keep (live 25 10) (history a additions)))
count-run_example = count-run 10 5 additions 25 a (omega arith)

distinct_count-run_example :
    distinct_count ran 24 a
    ≡ distinct (named (last_n max_entries_per_ip (keep (live 24 10) (history a additions))))
distinct_count-run_example = distinct_count-run 10 5 additions 24 a (omega arith)

abbrev fresh : SlidingWindow
fresh = new_sliding_window 10 5

abbrev first : Entry
first = record { time = 20; key = codes "7" }
