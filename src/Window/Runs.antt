-- ===== src/Window/Runs.antt =====
-- A sliding window against the history of all that was ever added to it.
use sipreaper.Common.{
  ℕ, ◌+◌, ◌≤◌, leb, if◌then◌else◌, Bool-cases, ◌≡◌, refl, sym, ap, ◌∙◌, ◌⊎◌, inl, inr, List, [],
  ◌∷◌, ◌++◌, arith, Text, text_eq, text_eq_iff, subst, length, keep, All, All-append, All-keep,
  All-drop, keep-append, append_assoc, append-nil, min, length-drop,
}
use sipreaper.Common.Dict.{
  Dict, lookup, insert, sweep, IsMap, IsMap-insert, IsMap-sweep, lookup-insert, lookup-sweep,
}
use sipreaper.Window.{
  Entry, SlidingWindow, new_sliding_window, live, entries_of, trim, prune_entries, prune_locked,
  add_keyed, count, max_entries_per_ip,
}
use sipreaper.Window.Live.{
  last_n, last_n-append, IsSorted, IsSorted-keep, IsSorted-drop, IsSorted-concat, keep-trim,
  keep-keep,
}

pub record Addition : Type 0 where
  pub at : ℕ
  pub ip : Text
  pub key : Text

abbrev pub entry : Addition → Entry
entry a = record { time = a.at; key = a.key }

unfoldable pub run : SlidingWindow → List Addition → SlidingWindow
run sw [] = sw
run sw (a ∷ adds) = run (add_keyed sw a.at a.ip a.key) adds

-- All that was added for an address, in order.
abbrev pub history : Text → List Addition → List Entry
history ip [] = []
history ip (a ∷ adds) = if text_eq a.ip ip then entry a ∷ history ip adds else history ip adds

-- The clock never goes back, from a time to another.
abbrev pub InOrder : ℕ → List Addition → ℕ → Type 0
InOrder from [] until = from ≤ until
InOrder from (a ∷ adds) until = (from ≤ a.at) × InOrder a.at adds until

entries_of-insert :
    (k j : Text) (es : List Entry) (m : Dict (List Entry))
    → entries_of j (insert k es m) ≡ (if text_eq k j then es else entries_of j m)
entries_of-insert k j es m = ground (arith, lookup-insert k j es m)

entries_of-sweep :
    (now w : ℕ) (j : Text) (m : Dict (List Entry))
    → IsMap m
    → entries_of j (sweep (prune_entries now w) m) ≡ keep (live now w) (entries_of j m)
unfolding prune_entries
entries_of-sweep now w j m h = ground (arith, lookup-sweep (prune_entries now w) j m h)

-- The entries of `j` before the sweep of a call that adds an entry for `ip`.
abbrev pub kept_entries : SlidingWindow → ℕ → Text → Text → Text → List Entry
kept_entries sw now ip key j =
    if text_eq ip j
    then trim now sw.window (entries_of ip sw.entries ++ (record { time = now; key = key } ∷ []))
    else entries_of j sw.entries

entries_of-add_keyed :
    (sw : SlidingWindow) (now : ℕ) (ip key j : Text)
    → IsMap sw.entries
    → (entries_of j (add_keyed sw now ip key).entries ≡ kept_entries sw now ip key j)
      ⊎ (entries_of j (add_keyed sw now ip key).entries
          ≡ keep (live now sw.window) (kept_entries sw now ip key j))
unfolding add_keyed prune_locked
entries_of-add_keyed sw now ip key j h = elim (Bool-cases (leb (sw.last_sweep + sw.window) now)) [
  | inl due ↦ inr (
      rw due (
        entries_of-sweep now sw.window j _ (IsMap-insert ip _ sw.entries h)
        ∙ ap (keep (live now sw.window)) (entries_of-insert ip j _ sw.entries)))
  | inr not_due ↦ inl (rw not_due (entries_of-insert ip j _ sw.entries))
]

pub window-add_keyed :
    (sw : SlidingWindow) (now : ℕ) (ip key : Text) → (add_keyed sw now ip key).window ≡ sw.window
unfolding add_keyed prune_locked
window-add_keyed sw now ip key = ground arith

pub IsMap-add_keyed :
    (sw : SlidingWindow) (now : ℕ) (ip key : Text)
    → IsMap sw.entries
    → IsMap (add_keyed sw now ip key).entries
unfolding add_keyed prune_locked
IsMap-add_keyed sw now ip key h = elim (Bool-cases (leb (sw.last_sweep + sw.window) now)) [
  | inl due ↦ rw due (IsMap-sweep _ _ (IsMap-insert ip _ sw.entries h))
  | inr not_due ↦ rw not_due (IsMap-insert ip _ sw.entries h)
]

-- The window holds, of each address, enough of its history `h` to answer every question about
-- `now` or later.
pub record Tracks (sw : SlidingWindow) (now : ℕ) (h : Text → List Entry) : Type 0 where
  pub is_map : IsMap sw.entries
  pub sorted : (ip : Text) → IsSorted (entries_of ip sw.entries)
  pub past : (ip : Text) → All (λ e. e.time ≤ now) (entries_of ip sw.entries)
  pub agrees :
      (ip : Text) (t : ℕ)
      → now ≤ t
      → keep (live t sw.window) (entries_of ip sw.entries)
        ≡ last_n max_entries_per_ip (keep (live t sw.window) (h ip))

pub All-weaken :
    (a b : ℕ) (es : List Entry)
    → a ≤ b
    → All (λ (e : Entry). e.time ≤ a) es
    → All (λ (e : Entry). e.time ≤ b) es
All-weaken a b [] h k = tt
All-weaken a b (e ∷ es) h (p, k) = (omega arith, All-weaken a b es h k)

-- A property of lists of entries that keeping and trimming preserve.
module _ (sw : SlidingWindow) (now : ℕ) (ip key : Text) (m : IsMap sw.entries) (j : Text) where
  pub added_by :
      (P : List Entry → Type 0)
      → ((es : List Entry) → P es → P (keep (live now sw.window) es))
      → P (kept_entries sw now ip key j)
      → P (entries_of j (add_keyed sw now ip key).entries)
  added_by P kept h = elim (entries_of-add_keyed sw now ip key j m) [
    | inl e ↦ subst P (sym e) h
    | inr e ↦ subst P (sym e) (kept _ h)
  ]

  added-agrees :
      (t : ℕ)
      → now ≤ t
      → keep (live t sw.window) (entries_of j (add_keyed sw now ip key).entries)
        ≡ keep (live t sw.window) (kept_entries sw now ip key j)
  added-agrees t h = elim (entries_of-add_keyed sw now ip key j m) [
    | inl e ↦ ap (keep (live t sw.window)) e
    | inr e ↦ ap (keep (live t sw.window)) e ∙ keep-keep now t sw.window _ h
  ]

-- The history of one more addition.
abbrev extend : (Text → List Entry) → Addition → Text → List Entry
extend h a j = if text_eq a.ip j then h j ++ entry a ∷ [] else h j

module _ (sw : SlidingWindow) (now : ℕ) (h : Text → List Entry) (tr : Tracks sw now h)
    (a : Addition) (le : now ≤ a.at) where
  concat-IsSorted : (j : Text) → IsSorted (entries_of j sw.entries ++ entry a ∷ [])
  concat-IsSorted j =
      IsSorted-concat _ (entry a) (tr.sorted j) (All-weaken now a.at _ le (tr.past j))

  kept-IsSorted : (j : Text) → IsSorted (kept_entries sw a.at a.ip a.key j)
  unfolding trim
  kept-IsSorted j = elim (Bool-cases (text_eq a.ip j)) [
    | inl same ↦ rw same (IsSorted-drop _ _ (concat-IsSorted a.ip))
    | inr other ↦ rw other (tr.sorted j)
  ]

  kept-past : (j : Text) → All (λ e. e.time ≤ a.at) (kept_entries sw a.at a.ip a.key j)
  unfolding trim
  kept-past j = elim (Bool-cases (text_eq a.ip j)) [
    | inl same ↦ rw same (
        All-drop _ _ _ (
          All-append _ _ (entry a ∷ []) (All-weaken now a.at _ le (tr.past a.ip))
            (omega arith, tt)))
    | inr other ↦ rw other (All-weaken now a.at _ le (tr.past j))
  ]

  own-agrees :
      (t : ℕ)
      → a.at ≤ t
      → keep (live t sw.window) (trim a.at sw.window (entries_of a.ip sw.entries ++ entry a ∷ []))
        ≡ last_n max_entries_per_ip (keep (live t sw.window) (h a.ip ++ entry a ∷ []))
  own-agrees t late =
      let alive = live t sw.window in
      let cap = max_entries_per_ip in
      keep-trim a.at t sw.window _ late (concat-IsSorted a.ip)
      ∙ ap (last_n cap) (keep-append alive (entries_of a.ip sw.entries) (entry a ∷ []))
      ∙ ap (λ es. last_n cap (es ++ keep alive (entry a ∷ []))) (tr.agrees a.ip t (omega arith))
      ∙ last_n-append cap (keep alive (h a.ip)) (keep alive (entry a ∷ []))
      ∙ ap (last_n cap) (sym (keep-append alive (h a.ip) (entry a ∷ [])))

  kept-agrees :
      (j : Text) (t : ℕ)
      → a.at ≤ t
      → keep (live t sw.window) (kept_entries sw a.at a.ip a.key j)
        ≡ last_n max_entries_per_ip (keep (live t sw.window) (extend h a j))
  kept-agrees j t late = elim (Bool-cases (text_eq a.ip j)) [
    | inl same ↦ rw (same, ← (text_eq_iff a.ip j).0 same) (own-agrees t late)
    | inr other ↦ rw other (tr.agrees j t (omega arith))
  ]

  Tracks-add_keyed : Tracks (add_keyed sw a.at a.ip a.key) a.at (extend h a)
  Tracks-add_keyed = record {
    is_map = IsMap-add_keyed sw a.at a.ip a.key tr.is_map;
    sorted =
        λ j. added_by sw a.at a.ip a.key tr.is_map j IsSorted (IsSorted-keep _) (kept-IsSorted j);
    past = λ j.
        added_by sw a.at a.ip a.key tr.is_map j (All (λ e. e.time ≤ a.at)) (λ es. All-keep _ _ es)
          (kept-past j);
    agrees = λ j t late.
        rw (window-add_keyed sw a.at a.ip a.key)
          (added-agrees sw a.at a.ip a.key tr.is_map j t late ∙ kept-agrees j t late);
  }

module _ (sw : SlidingWindow) (now : ℕ) (h : Text → List Entry) where
  Tracks-later : (until : ℕ) → now ≤ until → Tracks sw now h → Tracks sw until h
  Tracks-later until le tr = record {
    is_map = tr.is_map;
    sorted = tr.sorted;
    past = λ j. All-weaken now until _ le (tr.past j);
    agrees = λ j t late. tr.agrees j t (omega arith);
  }

  Tracks-history :
      (h' : Text → List Entry) → ((j : Text) → h j ≡ h' j) → Tracks sw now h → Tracks sw now h'
  Tracks-history h' e tr = record {
    is_map = tr.is_map;
    sorted = tr.sorted;
    past = tr.past;
    agrees = λ j t late.
        tr.agrees j t late
        ∙ ap (λ es. last_n max_entries_per_ip (keep (live t sw.window) es)) (e j);
  }

extend-history :
    (h : Text → List Entry) (a : Addition) (adds : List Addition) (j : Text)
    → extend h a j ++ history j adds ≡ h j ++ history j (a ∷ adds)
extend-history h a adds j = elim (Bool-cases (text_eq a.ip j)) [
  | inl same ↦ rw same (append_assoc (h j) (entry a ∷ []) (history j adds))
  | inr other ↦ rw other
]

Tracks-run :
    (adds : List Addition) (sw : SlidingWindow) (now until : ℕ) (h : Text → List Entry)
    → Tracks sw now h
    → InOrder now adds until
    → Tracks (run sw adds) until (λ j. h j ++ history j adds)
unfolding run
Tracks-run [] sw now until h tr o =
    Tracks-history sw until h _ (λ j. sym (append-nil (h j))) (Tracks-later sw now h until o tr)
Tracks-run (a ∷ adds) sw now until h tr (le, o) =
    Tracks-history _ until _ _ (extend-history h a adds) (
      Tracks-run adds (add_keyed sw a.at a.ip a.key) a.at until (extend h a)
        (Tracks-add_keyed sw now h tr a le) o)

pub window-run : (adds : List Addition) (sw : SlidingWindow) → (run sw adds).window ≡ sw.window
unfolding run
window-run [] sw = refl
window-run (a ∷ adds) sw =
    window-run adds (add_keyed sw a.at a.ip a.key) ∙ window-add_keyed sw a.at a.ip a.key

module _ (w start : ℕ) (adds : List Addition) (t : ℕ) (ip : Text) (o : InOrder start adds t) where
  abbrev after : SlidingWindow
  after = run (new_sliding_window w start) adds

  -- The live entries that are held are the last of the live ones ever added.
  pub live-run :
      keep (live t after.window) (entries_of ip after.entries)
      ≡ last_n max_entries_per_ip (keep (live t w) (history ip adds))
  unfolding new_sliding_window lookup
  live-run =
      (Tracks-run adds (new_sliding_window w start) start t (λ _. [])
          (record { is_map = tt; sorted = λ _. tt; past = λ _. tt; agrees = λ _ _ _. refl })
          o).agrees
        ip t (omega arith)
      ∙ rw (window-run adds (new_sliding_window w start))

  -- Whatever was added for whichever addresses, with sweeps in between, a count at a time not
  -- before the last addition is the number of the address's own additions that are younger than
  -- the window, or 10,000 if there are more.
  pub count-run :
      count after t ip ≡ min max_entries_per_ip (length (keep (live t w) (history ip adds)))
  unfolding count
  count-run = ap length live-run ∙ omega (arith, length-drop {0})
