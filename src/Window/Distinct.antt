-- ===== src/Window/Distinct.antt =====
-- The distinct keys of an address's live entries, against a count by last occurrences.
use sipreaper.Common.{
  ℕ, ◌+◌, if◌then◌else◌, ◌≡◌, refl, sym, ap, ◌∙◌, List, [], ◌∷◌, ◌++◌, arith, Text, text_eq,
  text_eq_iff, is_empty, mem_text, length, keep, any-append, append-nil,
}
use sipreaper.Window.{
  Entry, new_sliding_window, live, entries_of, collect_keys, distinct_count, max_entries_per_ip,
}
use sipreaper.Window.Live.{last_n}
use sipreaper.Window.Runs.{Addition, run, history, InOrder, live-run}

-- How many different texts a list has.
pub distinct : List Text → ℕ
distinct [] = 0
distinct (k ∷ ks) = (if mem_text k ks then 0 else 1) + distinct ks

-- The keys of the entries that have one.
unfoldable pub named : List Entry → List Text
named [] = []
named (e ∷ es) = if is_empty e.key then named es else e.key ∷ named es

distinct_middle :
    (k : Text) (xs ys : List Text) → distinct (xs ++ k ∷ ys) ≡ distinct (k ∷ (xs ++ ys))
unfolding distinct
distinct_middle k [] ys = refl
distinct_middle k (x ∷ xs) ys = ground (
  arith,
  distinct_middle k xs ys,
  any-append (text_eq x) xs (k ∷ ys),
  any-append (text_eq x) xs ys,
  any-append (text_eq k) xs ys,
  text_eq_iff x k,
  text_eq_iff k x,
)

collect-distinct :
    (now w : ℕ) (es : List Entry) (seen : List Text)
    → distinct seen ≡ length seen
    → length (collect_keys now w seen es) ≡ distinct (named (keep (live now w) es) ++ seen)
unfolding collect_keys distinct named
collect-distinct now w [] seen h = sym h
collect-distinct now w (e ∷ es) seen h =
    let rest = named (keep (live now w) es) in
    ground (
      arith,
      collect-distinct now w es seen h,
      collect-distinct now w es (e.key ∷ seen),
      distinct_middle e.key rest seen,
      any-append (text_eq e.key) rest seen,
    )

module _ (w start : ℕ) (adds : List Addition) (t : ℕ) (ip : Text) (o : InOrder start adds t) where
  -- Whatever was added in between, a distinct count at a time not before the last addition is the
  -- number of different non-empty keys among the address's last 10,000 additions that are younger
  -- than the window.
  pub distinct_count-run :
      distinct_count (run (new_sliding_window w start) adds) t ip
      ≡ distinct (named (last_n max_entries_per_ip (keep (live t w) (history ip adds))))
  unfolding distinct_count distinct
  distinct_count-run =
      let sw = run (new_sliding_window w start) adds in
      collect-distinct t sw.window (entries_of ip sw.entries) [] refl
      ∙ ap distinct (append-nil _)
      ∙ ap (λ es. distinct (named es)) (live-run w start adds t ip o)
