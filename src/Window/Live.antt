-- ===== src/Window/Live.antt =====
-- The last `n` elements of a list, and what trimming and pruning leave of the live entries.
use sipreaper.Common.{
  ℕ, zero, suc, ◌-◌, ◌≤◌, leb, leb→le, if◌then◌else◌, Bool-cases, ◌≡◌, refl, sym, ap, ◌∙◌, inl, inr,
  true, false, List, [], ◌∷◌, ◌++◌, arith, length, drop, drop-drop, keep, All, length-append,
  length-drop, length-keep-le, All-append, All-keep, Bool,
}
use sipreaper.Window.{Entry, live, count_expired, trim, max_entries_per_ip}

module _ {ℓ} {A : Type ℓ} where
  abbrev pub last_n : ℕ → List A → List A
  last_n n xs = drop (length xs - n) xs

  pub last_n_all : (n : ℕ) (xs : List A) → length xs ≤ n → last_n n xs ≡ xs
  last_n_all n xs h = let e : length xs - n ≡ 0 = omega arith in rw e

  pub last_n-cons : (n : ℕ) (x : A) (xs : List A) → n ≤ length xs → last_n n (x ∷ xs) ≡ last_n n xs
  last_n-cons n x xs h = let e : suc (length xs) - n ≡ suc (length xs - n) = omega arith in rw e

  pub last_n-append : (n : ℕ) (xs ys : List A) → last_n n (last_n n xs ++ ys) ≡ last_n n (xs ++ ys)
  last_n-append n [] ys = rw (last_n_all n [] (omega arith))
  last_n-append n (x ∷ xs) ys = elim (Bool-cases (leb n (length xs))) [
    | inl deep ↦ rw (last_n-cons n x xs (ground arith)) (
        last_n-append n xs ys
        ∙ sym (last_n-cons n x (xs ++ ys) (ground (arith, length-append xs ys))))
    | inr short ↦ rw (last_n_all n (x ∷ xs) (ground arith))
  ]

-- In order of time.
abbrev pub IsSorted : List Entry → Type 0
IsSorted [] = Unit
IsSorted (e ∷ es) = All (λ f. e.time ≤ f.time) es × IsSorted es

-- What is live at a time stays live along a sorted list.
keep_all :
    (t w : ℕ) (e : Entry) (es : List Entry)
    → live t w e ≡ true
    → All (λ f. e.time ≤ f.time) es
    → keep (live t w) es ≡ es
keep_all t w e [] l h = refl
keep_all t w e (f ∷ es) l (le, h) = ground (arith, keep_all t w e es l h)

pub keep-last_n :
    (n t w : ℕ) (es : List Entry)
    → IsSorted es
    → keep (live t w) (last_n n es) ≡ last_n n (keep (live t w) es)
keep-last_n n t w [] s =
    ap (keep (live t w)) (last_n_all n [] (omega arith)) ∙ sym (last_n_all n [] (omega arith))
keep-last_n n t w (e ∷ es) (le, s) = elim (Bool-cases (leb n (length es))) [
  | inl deep ↦
      let cut = last_n-cons n e es (leb→le n (length es) deep) in
      rw cut (
        keep-last_n n t w es s ∙ elim (Bool-cases (live t w e)) [
          | inl alive ↦ rw (alive, keep_all t w e es alive le) (sym cut)
          | inr dead ↦ rw dead
        ])
  | inr short ↦ ground (
    arith,
    last_n_all n (e ∷ es),
    last_n_all n (keep (live t w) (e ∷ es)),
    length-keep-le (live t w) (e ∷ es),
  )
]

pub keep-drop_expired :
    (now t w : ℕ) (es : List Entry)
    → now ≤ t
    → keep (live t w) (drop (count_expired now w es) es) ≡ keep (live t w) es
unfolding count_expired
keep-drop_expired now t w [] h = refl
keep-drop_expired now t w (e ∷ es) h = ground (arith, keep-drop_expired now t w es h)

pub keep-keep :
    (now t w : ℕ) (es : List Entry)
    → now ≤ t
    → keep (live t w) (keep (live now w) es) ≡ keep (live t w) es
keep-keep now t w [] h = refl
keep-keep now t w (e ∷ es) h = ground (arith, keep-keep now t w es h)

-- Trimming is dropping the expired prefix, then all but the last entries.
trim_lem :
    (now w : ℕ) (es : List Entry)
    → trim now w es ≡ last_n max_entries_per_ip (drop (count_expired now w es) es)
unfolding trim
trim_lem now w es = drop-drop (count_expired now w es) _ es ∙ rw length-drop

-- Every operation on the entries of an address keeps their order.
pub IsSorted-keep : (p : Entry → Bool) (es : List Entry) → IsSorted es → IsSorted (keep p es)
IsSorted-keep p [] s = tt
IsSorted-keep p (e ∷ es) (le, s) =
    elim (p e) as (λ b. IsSorted (if b then e ∷ keep p es else keep p es)) [
      | true ↦ (All-keep (λ f. e.time ≤ f.time) p es le, IsSorted-keep p es s)
      | false ↦ IsSorted-keep p es s
    ]

pub IsSorted-drop : (n : ℕ) (es : List Entry) → IsSorted es → IsSorted (drop n es)
IsSorted-drop zero es s = s
IsSorted-drop (suc n) [] s = tt
IsSorted-drop (suc n) (e ∷ es) (le, s) = IsSorted-drop n es s

pub IsSorted-concat :
    (es : List Entry) (e : Entry)
    → IsSorted es
    → All (λ f. f.time ≤ e.time) es
    → IsSorted (es ++ e ∷ [])
IsSorted-concat [] e s h = (tt, tt)
IsSorted-concat (f ∷ es) e (le, s) (fe, h) =
    (All-append (λ g. f.time ≤ g.time) es (e ∷ []) le (fe, tt), IsSorted-concat es e s h)

-- What a call that adds an entry leaves live, at any later time.
pub keep-trim :
    (now t w : ℕ) (es : List Entry)
    → now ≤ t
    → IsSorted es
    → keep (live t w) (trim now w es) ≡ last_n max_entries_per_ip (keep (live t w) es)
keep-trim now t w es h s =
    ap (keep (live t w)) (trim_lem now w es)
    ∙ keep-last_n max_entries_per_ip t w _ (IsSorted-drop (count_expired now w es) es s)
    ∙ ap (last_n max_entries_per_ip) (keep-drop_expired now t w es h)
