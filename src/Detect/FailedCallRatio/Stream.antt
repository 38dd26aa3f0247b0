-- ===== src/Detect/FailedCallRatio/Stream.antt =====
-- The buckets of the detector against all the calls that it saw.
use sipreaper.Common.{
  ℕ, ◌+◌, ◌-◌, ◌≤◌, zero, suc, leb, if◌then◌else◌, Bool-cases, ◌≡◌, refl, sym, ap, ◌∙◌, ◌⊎◌, inl,
  inr, Bool, true, List, [], ◌∷◌, ◌++◌, arith, Text, codes, text_eq, text_eq_iff, subst, length,
  drop, keep, keep-append, All, All-append, All-keep, All-drop,
}
use sipreaper.Common.Dict.{
  Dict, insert, sweep, IsMap, IsMap-insert, IsMap-sweep, lookup-insert, lookup-sweep,
}
use sipreaper.Detect.FailedCallRatio.{
  RatioEvent, FailedCallRatio, after_cutoff, events_of, is_quiet, forget_quiet, kept_of,
  failed_count, forget,
}
use sipreaper.Window.Distinct.{named}
use sipreaper.Window.Live.{
  last_n, last_n-append, IsSorted, IsSorted-keep, IsSorted-drop, IsSorted-concat, keep-last_n,
  keep-keep,
}
use sipreaper.Window.Runs.{All-weaken}
use sipreaper.Window.{Entry, live, max_entries_per_ip}

-- A bucket's events as entries of a sliding window, the failed ones with a key.
abbrev pub as_entry : ℕ → Bool → Entry
as_entry t failed = record { time = t; key = if failed then codes "failed" else [] }

abbrev pub entries : List RatioEvent → List Entry
entries [] = []
entries (e ∷ es) = as_entry e.t e.failed ∷ entries es

entries-keep :
    (now w : ℕ) (es : List RatioEvent)
    → entries (keep (after_cutoff now w) es) ≡ keep (live now w) (entries es)
entries-keep now w [] = refl
entries-keep now w (e ∷ es) = ground (arith, entries-keep now w es)

entries-drop : (n : ℕ) (es : List RatioEvent) → entries (drop n es) ≡ drop n (entries es)
entries-drop zero es = refl
entries-drop (suc n) [] = refl
entries-drop (suc n) (e ∷ es) = entries-drop n es

pub length-entries : (es : List RatioEvent) → length (entries es) ≡ length es
length-entries [] = refl
length-entries (e ∷ es) = ap suc (length-entries es)

entries-append : (es fs : List RatioEvent) → entries (es ++ fs) ≡ entries es ++ entries fs
entries-append [] fs = refl
entries-append (e ∷ es) fs = ap (λ r. as_entry e.t e.failed ∷ r) (entries-append es fs)

pub failed_count-entries : (es : List RatioEvent) → failed_count es ≡ length (named (entries es))
unfolding named
failed_count-entries [] = refl
failed_count-entries (e ∷ es) = elim (Bool-cases e.failed) [
  | inl f ↦ rw f (ap suc (failed_count-entries es))
  | inr s ↦ rw s (failed_count-entries es)
]

entries-kept_of :
    (now w : ℕ) (es : List RatioEvent)
    → entries (kept_of now w es) ≡ last_n max_entries_per_ip (keep (live now w) (entries es))
entries-kept_of now w es =
    let kept = keep (after_cutoff now w) es in
    entries-drop (length kept - max_entries_per_ip) kept
    ∙ ap (λ n. drop (n - max_entries_per_ip) (entries kept)) (sym (length-entries kept))
    ∙ ap (last_n max_entries_per_ip) (entries-keep now w es)

-- Nothing in a quiet bucket is live, now or later.
is_quiet-live :
    (now t w : ℕ) (es : List RatioEvent)
    → now ≤ t
    → IsSorted (entries es)
    → is_quiet now w es ≡ true
    → keep (live t w) (entries es) ≡ []
unfolding is_quiet
is_quiet-live now t w [] le s q = refl
is_quiet-live now t w (e ∷ []) le s q = ground (arith, q)
is_quiet-live now t w (e ∷ f ∷ es) le ((early, rest), s) q =
    ground (arith, early, is_quiet-live now t w (f ∷ es) le s q)

abbrev pub bucket : Dict (List RatioEvent) → Text → List Entry
bucket m j = entries (events_of j m)

-- Forgetting quiet sources touches nothing that a later call can count.
pub record Similar (w now : ℕ) (m n : Dict (List RatioEvent)) : Type 0 where
  is_map : IsMap n
  emptied : (j : Text) → (bucket n j ≡ bucket m j) ⊎ (bucket n j ≡ [])
  alike : (j : Text) (t : ℕ) → now ≤ t → keep (live t w) (bucket n j) ≡ keep (live t w) (bucket m j)

events_of-insert :
    (k j : Text) (es : List RatioEvent) (m : Dict (List RatioEvent))
    → events_of j (insert k es m) ≡ (if text_eq k j then es else events_of j m)
events_of-insert k j es m = ground (arith, lookup-insert k j es m)

bucket-sweep :
    (now w : ℕ) (m : Dict (List RatioEvent)) (j : Text)
    → IsMap m
    → bucket (sweep (forget_quiet now w) m) j
      ≡ (if is_quiet now w (events_of j m) then [] else bucket m j)
unfolding forget_quiet is_quiet
bucket-sweep now w m j h = ground (arith, lookup-sweep (forget_quiet now w) j m h)

Similar-sweep :
    (now w : ℕ) (m : Dict (List RatioEvent))
    → IsMap m
    → ((j : Text) → IsSorted (bucket m j))
    → Similar w now m (sweep (forget_quiet now w) m)
Similar-sweep now w m h s = record {
  is_map = IsMap-sweep (forget_quiet now w) m h;
  emptied = λ j. elim (Bool-cases (is_quiet now w (events_of j m))) [
    | inl q ↦ inr (bucket-sweep now w m j h ∙ rw q)
    | inr q ↦ inl (bucket-sweep now w m j h ∙ rw q)
  ];
  alike = λ j t le. elim (Bool-cases (is_quiet now w (events_of j m))) [
    | inl q ↦
        rw (bucket-sweep now w m j h, q) (sym (is_quiet-live now t w (events_of j m) le (s j) q))
    | inr q ↦ rw (bucket-sweep now w m j h, q) refl
  ];
}

module _ {F : Type 0} (d : FailedCallRatio F) (now : ℕ) where
  pub Similar-forget :
      IsMap d.buckets
      → ((j : Text) → IsSorted (bucket d.buckets j))
      → Similar d.window now d.buckets (forget d now).buckets
  unfolding forget
  Similar-forget h s = elim (Bool-cases (leb (d.last_sweep + d.window) now)) [
    | inl due ↦ rw (forget, due) (Similar-sweep now d.window d.buckets h s)
    | inr early ↦
        rw (forget, early) (record { is_map = h; emptied = λ j. inl refl; alike = λ j t le. refl })
  ]

-- The buckets hold, of each source, enough of its calls `h` to judge any call at `now` or later.
pub record Tracks (w now : ℕ) (m : Dict (List RatioEvent)) (h : Text → List Entry) : Type 0 where
  pub is_map : IsMap m
  pub sorted : (j : Text) → IsSorted (bucket m j)
  pub past : (j : Text) → All (λ e. e.time ≤ now) (bucket m j)
  pub agrees :
      (j : Text) (t : ℕ)
      → now ≤ t
      → keep (live t w) (bucket m j) ≡ last_n max_entries_per_ip (keep (live t w) (h j))

module _ (w before now : ℕ) (le : before ≤ now) (m : Dict (List RatioEvent)) (h : Text → List Entry)
    (tr : Tracks w before m h) where
  pub Tracks-Similar : (n : Dict (List RatioEvent)) → Similar w now m n → Tracks w now n h
  Tracks-Similar n s = record {
    is_map = s.is_map;
    sorted = λ j. elim (s.emptied j) [
      | inl e ↦ subst IsSorted (sym e) (tr.sorted j)
      | inr e ↦ subst IsSorted (sym e) tt
    ];
    past = λ j. elim (s.emptied j) [
      | inl e ↦ subst (All (λ e. e.time ≤ now)) (sym e) (All-weaken before now _ le (tr.past j))
      | inr e ↦ subst (All (λ e. e.time ≤ now)) (sym e) tt
    ];
    agrees = λ j t late. s.alike j t late ∙ tr.agrees j t (omega arith);
  }

  pub Tracks-later : Tracks w now m h
  Tracks-later =
      Tracks-Similar m
        (record { is_map = tr.is_map; emptied = λ j. inl refl; alike = λ j t late. refl })

-- The history with one more call.
abbrev pub extend : (Text → List Entry) → Text → Entry → Text → List Entry
extend h ip e j = if text_eq ip j then h j ++ e ∷ [] else h j

module _ (w now : ℕ) (m : Dict (List RatioEvent)) (h : Text → List Entry) (tr : Tracks w now m h)
    (ip : Text) (failed : Bool) where
  abbrev pub held : List RatioEvent
  held = events_of ip m ++ record { t = now; failed = failed } ∷ []

  abbrev pub shown : List Entry
  shown = bucket m ip ++ as_entry now failed ∷ []

  pub shown_lem : entries (kept_of now w held) ≡ last_n max_entries_per_ip (keep (live now w) shown)
  shown_lem =
      entries-kept_of now w held
      ∙ ap (λ es. last_n max_entries_per_ip (keep (live now w) es))
          (entries-append (events_of ip m) (record { t = now; failed = failed } ∷ []))

  shown-IsSorted : IsSorted shown
  shown-IsSorted = IsSorted-concat _ (as_entry now failed) (tr.sorted ip) (tr.past ip)

  shown-past : All (λ e. e.time ≤ now) shown
  shown-past = All-append _ _ (as_entry now failed ∷ []) (tr.past ip) (omega arith, tt)

  pub shown-last :
      (t : ℕ)
      → now ≤ t
      → last_n max_entries_per_ip (keep (live t w) shown)
        ≡ last_n max_entries_per_ip (keep (live t w) (h ip ++ as_entry now failed ∷ []))
  shown-last t late =
      let alive = live t w in
      let cap = max_entries_per_ip in
      let one = as_entry now failed ∷ [] in
      ap (last_n cap) (keep-append alive (bucket m ip) one)
      ∙ ap (λ es. last_n cap (es ++ keep alive one)) (tr.agrees ip t late)
      ∙ last_n-append cap (keep alive (h ip)) (keep alive one)
      ∙ ap (last_n cap) (sym (keep-append alive (h ip) one))

  shown-agrees :
      (t : ℕ)
      → now ≤ t
      → keep (live t w) (last_n max_entries_per_ip (keep (live now w) shown))
        ≡ last_n max_entries_per_ip (keep (live t w) (h ip ++ as_entry now failed ∷ []))
  shown-agrees t late =
      keep-last_n max_entries_per_ip t w _ (IsSorted-keep _ shown shown-IsSorted)
      ∙ ap (last_n max_entries_per_ip) (keep-keep now t w shown late)
      ∙ shown-last t late

  bucket-after :
      (j : Text)
      → bucket (insert ip (kept_of now w held) m) j
        ≡ (if text_eq ip j then last_n max_entries_per_ip (keep (live now w) shown) else bucket m j)
  bucket-after j = elim (Bool-cases (text_eq ip j)) [
    | inl same ↦ rw (events_of-insert ip j (kept_of now w held) m, same) shown_lem
    | inr other ↦ rw (events_of-insert ip j (kept_of now w held) m, other) refl
  ]

  pub Tracks-insert :
      Tracks w now (insert ip (kept_of now w held) m) (extend h ip (as_entry now failed))
  Tracks-insert = record {
    is_map = IsMap-insert ip _ m tr.is_map;
    sorted = λ j. elim (Bool-cases (text_eq ip j)) [
      | inl same ↦
          rw (bucket-after j, same) (IsSorted-drop _ _ (IsSorted-keep _ shown shown-IsSorted))
      | inr other ↦ rw (bucket-after j, other) (tr.sorted j)
    ];
    past = λ j. elim (Bool-cases (text_eq ip j)) [
      | inl same ↦ rw (bucket-after j, same) (All-drop _ _ _ (All-keep _ _ shown shown-past))
      | inr other ↦ rw (bucket-after j, other) (tr.past j)
    ];
    agrees = λ j t late. elim (Bool-cases (text_eq ip j)) [
      | inl same ↦ rw (bucket-after j, same, ← (text_eq_iff ip j).0 same) (shown-agrees t late)
      | inr other ↦ rw (bucket-after j, other) (tr.agrees j t late)
    ];
  }
