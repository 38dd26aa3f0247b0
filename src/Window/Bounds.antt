-- ===== src/Window/Bounds.antt =====
-- The memory of a sliding window: the cap on one address, and what a sweep forgets.
use sipreaper.Common.{
  ℕ, ◌+◌, ◌≤◌, le→leb, Bool-cases, ◌≡◌, ◌≢◌, refl, sym, ◌∙◌, inl, inr, List, [], ◌∷◌, ◌++◌, some,
  arith, Text, text_eq, length, keep, length-drop, length-keep-le,
}
use sipreaper.Common.Dict.{lookup, insert, IsMap, IsMap-insert, lookup-sweep, and_then-eq-some}
use sipreaper.Window.{
  Entry, SlidingWindow, new_sliding_window, live, entries_of, trim, prune_entries, prune_locked,
  add_keyed, max_entries_per_ip,
}
use sipreaper.Window.Runs.{Addition, run, added_by, kept_entries, IsMap-add_keyed}

length-trim-le : (now w : ℕ) (es : List Entry) → length (trim now w es) ≤ max_entries_per_ip
unfolding trim
length-trim-le now w es = omega (arith, length-drop {0})

record IsBounded (sw : SlidingWindow) : Type 0 where
  is_map : IsMap sw.entries
  capped : (ip : Text) → length (entries_of ip sw.entries) ≤ max_entries_per_ip

add_keyed-IsBounded :
    (sw : SlidingWindow) (now : ℕ) (ip key : Text)
    → IsBounded sw
    → IsBounded (add_keyed sw now ip key)
add_keyed-IsBounded sw now ip key b = record {
  is_map = IsMap-add_keyed sw now ip key b.is_map;
  capped = λ j.
      added_by sw now ip key b.is_map j (λ es. length es ≤ max_entries_per_ip)
        (λ es h. omega (arith, length-keep-le (live now sw.window) es)) (kept-le j);
}
  where
    kept-le : (j : Text) → length (kept_entries sw now ip key j) ≤ max_entries_per_ip
    kept-le j = elim (Bool-cases (text_eq ip j)) [
      | inl same ↦ rw same (length-trim-le now sw.window _)
      | inr other ↦ rw other (b.capped j)
    ]

run-IsBounded : (adds : List Addition) (sw : SlidingWindow) → IsBounded sw → IsBounded (run sw adds)
unfolding run
run-IsBounded [] sw b = b
run-IsBounded (a ∷ adds) sw b = run-IsBounded adds _ (add_keyed-IsBounded sw a.at a.ip a.key b)

-- No address ever holds more than 10,000 entries, whatever is added and however the clock moves.
pub entries_of-run-le :
    (w start : ℕ) (adds : List Addition) (ip : Text)
    → length (entries_of ip (run (new_sliding_window w start) adds).entries) ≤ max_entries_per_ip
unfolding new_sliding_window lookup
entries_of-run-le w start adds =
    (run-IsBounded adds (new_sliding_window w start)
      (record { is_map = tt; capped = λ _. omega arith })).capped

keep_again :
    (now w : ℕ) (es : List Entry) → keep (live now w) (keep (live now w) es) ≡ keep (live now w) es
keep_again now w [] = refl
keep_again now w (e ∷ es) = ground (arith, keep_again now w es)

prune_entries-some :
    (now w : ℕ) (es ks : List Entry)
    → prune_entries now w es ≡ some ks
    → (ks ≢ []) × (keep (live now w) ks ≡ ks)
unfolding prune_entries
prune_entries-some now w es ks h = ground (arith, keep_again now w es)

-- An addition that comes a whole window after the last sweep forgets every quiet address: all
-- that is held after it is live, and no address is held without an entry.
pub add_keyed-sweeps :
    (sw : SlidingWindow) (now : ℕ) (ip key j : Text) (es : List Entry)
    → IsMap sw.entries
    → sw.last_sweep + sw.window ≤ now
    → lookup j (add_keyed sw now ip key).entries ≡ some es
    → (es ≢ []) × (keep (live now sw.window) es ≡ es)
unfolding add_keyed prune_locked
add_keyed-sweeps sw now ip key j es m due h =
    let old = entries_of ip sw.entries ++ record { time = now; key = key } ∷ [] in
    let added = insert ip (trim now sw.window old) sw.entries in
    let swept = rw (le→leb _ _ due) at h in
    let found = sym (lookup-sweep _ j _ (IsMap-insert ip _ sw.entries m)) ∙ swept in
    let (ks, _, pruned) = and_then-eq-some (lookup j added) (prune_entries now sw.window) found in
    prune_entries-some now sw.window ks es pruned
