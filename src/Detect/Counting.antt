-- ===== src/Detect/Counting.antt =====
-- What the detectors share that add some events to a sliding window and compare a count with a
-- threshold. A detector is any state with one window, which its step feeds from a gate.
use sipreaper.Common.{
  ℕ, leb, true, if◌then◌else◌, ◌≡◌, refl, sym, ap, ◌∙◌, Bool, List, [], ◌∷◌, ◌++◌, Option, none,
  some, arith, Text, length, min,
}
use sipreaper.Common.Int.{ℤ, pos, pos_part, ltb_ℤ, leb_ℤ}
use sipreaper.Detect.Stream.{
  Seen, source_of, InTime, addition, additions, recent, map_seen, additions-InOrder, live-additions,
  length-live-additions,
}
use sipreaper.Models.{SipEvent, Threat}
use sipreaper.Window.{
  SlidingWindow, new_sliding_window, add_keyed, count, distinct_count, max_entries_per_ip,
}
use sipreaper.Window.Distinct.{distinct, named, distinct_count-run}
use sipreaper.Window.Live.{last_n}
use sipreaper.Window.Runs.{Addition, run, count-run}

-- The report, if a count reaches the threshold.
abbrev pub when_reached : ℕ → (ℕ → Threat) → ℕ → Option Threat
when_reached max report n = if leb max n then some (report n) else none

-- A limit that is at least 1, or its replacement.
abbrev pub limit_or : ℕ → ℤ → ℕ
limit_or n max = if ltb_ℤ max (pos 1) then n else pos_part max

-- A window that is positive, or five minutes in nanoseconds.
abbrev pub five_minutes_or : ℤ → ℕ
five_minutes_or w = if leb_ℤ w (pos 0) then 300_000_000_000 else pos_part w

run-append : (sw : SlidingWindow) (xs ys : List Addition) → run sw (xs ++ ys) ≡ run (run sw xs) ys
unfolding run
run-append sw [] ys = refl
run-append sw (a ∷ xs) ys = run-append (add_keyed sw a.at a.ip a.key) xs ys

module _ (gate : SipEvent → Bool) (key : SipEvent → Text) where
  additions-append :
      (xs ys : List Seen)
      → additions gate key (xs ++ ys) ≡ additions gate key xs ++ additions gate key ys
  additions-append [] ys = refl
  additions-append (s ∷ xs) ys = ground (arith, additions-append xs ys)

  module _ (w start : ℕ) (seen : List Seen) (s : Seen) where
    -- The window after the events before, and then with the last one added.
    abbrev pub fed : SlidingWindow
    fed = run (new_sliding_window w start) (additions gate key seen)

    abbrev pub fed_last : SlidingWindow
    fed_last = add_keyed fed s.added (source_of s.event) (key s.event)

    -- The matching events from the last event's source, itself included, that are recent.
    abbrev pub matching : List Seen
    matching = recent gate key s.counted w (source_of s.event) (seen ++ s ∷ [])

    fed_last-run :
        gate s.event ≡ true
        → fed_last ≡ run (new_sliding_window w start) (additions gate key (seen ++ s ∷ []))
    unfolding run
    fed_last-run g =
        sym (
          run-append (new_sliding_window w start) (additions gate key seen)
            (addition gate key s ∷ []))
        ∙ ap (run (new_sliding_window w start)) (sym last)
      where
        last :
            additions gate key (seen ++ s ∷ [])
            ≡ additions gate key seen ++ addition gate key s ∷ []
        last = additions-append seen (s ∷ []) ∙ rw g

    module _ (g : gate s.event ≡ true) (o : InTime start (seen ++ s ∷ []) s.counted) where
      pub count-fed_last :
          count fed_last s.counted (source_of s.event) ≡ min max_entries_per_ip (length matching)
      count-fed_last =
          ap (λ sw. count sw s.counted (source_of s.event)) (fed_last-run g)
          ∙ count-run w start (additions gate key (seen ++ s ∷ [])) s.counted (source_of s.event)
              (additions-InOrder gate key start s.counted (seen ++ s ∷ []) o)
          ∙ ap (min max_entries_per_ip)
              (length-live-additions gate key s.counted w (source_of s.event) (seen ++ s ∷ []))

      pub distinct_count-fed_last :
          distinct_count fed_last s.counted (source_of s.event)
          ≡ distinct (named (last_n max_entries_per_ip (map_seen gate key matching)))
      distinct_count-fed_last =
          ap (λ sw. distinct_count sw s.counted (source_of s.event)) (fed_last-run g)
          ∙ distinct_count-run w start (additions gate key (seen ++ s ∷ [])) s.counted
              (source_of s.event) (additions-InOrder gate key start s.counted (seen ++ s ∷ []) o)
          ∙ ap (λ es. distinct (named (last_n max_entries_per_ip es)))
              (live-additions gate key s.counted w (source_of s.event) (seen ++ s ∷ []))

-- A detector's calls, one after the other.
module _ {D : Type 0} (detect : D → Seen → D × Option Threat) where
  pub feed : D → List Seen → D
  feed d [] = d
  feed d (s ∷ seen) = feed (detect d s).0 seen

  pub feed_keeps {ℓ} :
      {A : Type ℓ} (f : D → A)
      → ((d : D) (s : Seen) → f (detect d s).0 ≡ f d)
      → (d : D) (seen : List Seen) → f (feed d seen) ≡ f d
  unfolding feed
  feed_keeps f h d [] = refl
  feed_keeps f h d (s ∷ seen) = feed_keeps f h (detect d s).0 seen ∙ h d s

  pub feed-run :
      (window_of : D → SlidingWindow) (gate : SipEvent → Bool) (key : SipEvent → Text)
      → ((d : D) (s : Seen)
          → window_of (detect d s).0 ≡ (
              if gate s.event
              then add_keyed (window_of d) s.added (source_of s.event) (key s.event)
              else window_of d))
      → (d : D) (seen : List Seen)
      → window_of (feed d seen) ≡ run (window_of d) (additions gate key seen)
  unfolding feed run
  feed-run window_of gate key h d [] = refl
  feed-run window_of gate key h d (s ∷ seen) =
      ground (arith, feed-run window_of gate key h (detect d s).0 seen, h d s)

-- The same for a gate that depends on a part of the detector which its calls keep.
module _ {D : Type 0} (detect : D → Seen → D × Option Threat) (window_of : D → SlidingWindow)
    (gate : D → SipEvent → Bool) (key : SipEvent → Text) where
  pub feed-run_of :
      ((d : D) (s : Seen) → gate (detect d s).0 ≡ gate d)
      → ((d : D) (s : Seen)
          → window_of (detect d s).0 ≡ (
              if gate d s.event
              then add_keyed (window_of d) s.added (source_of s.event) (key s.event)
              else window_of d))
      → (d : D) (seen : List Seen)
      → window_of (feed detect d seen) ≡ run (window_of d) (additions (gate d) key seen)
  unfolding feed run
  feed-run_of keeps h d [] = refl
  feed-run_of keeps h d (s ∷ seen) =
      let g = keeps d s in
      let ih = feed-run_of keeps h (detect d s).0 seen in
      ih ∙ ap (λ p. run (window_of (detect d s).0) (additions p key seen)) g ∙ ground (arith, h d s)
