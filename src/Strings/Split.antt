-- ===== src/Strings/Split.antt =====
-- Splitting undoes joining.
use sipreaper.Common.{
  ℕ, zero, ◌-◌, ◌==◌, append-nil, ◌≡◌, ◌≢◌, refl, ap, ◌∙◌, true, false, List, [], ◌∷◌, ◌++◌, arith,
  Text, has_prefix, All, length,
}
use sipreaper.Strings.{split, split_at, onto_first}

-- `strings.Join`.
unfoldable pub join_by : Text → List Text → Text
join_by sep [] = []
join_by sep (t ∷ []) = t
join_by sep (t ∷ u ∷ ts) = t ++ (sep ++ join_by sep (u ∷ ts))

-- A text without a byte.
abbrev pub Lacks : ℕ → Text → Type 0
Lacks b = All (λ c. (c == b) ≡ false)

has_prefix-append : (p s : Text) → has_prefix (p ++ s) p ≡ true
unfolding has_prefix
has_prefix-append [] s = refl
has_prefix-append (c ∷ p) s = ground (arith, has_prefix-append p s)

-- A text in front of the first piece.
onto_text : Text → List Text → List Text
onto_text [] ts = ts
onto_text (c ∷ t) ts = onto_first c (onto_text t ts)

onto_text-piece : (t u : Text) (ts : List Text) → onto_text t (u ∷ ts) ≡ (t ++ u) ∷ ts
unfolding onto_text
onto_text-piece [] u ts = refl
onto_text-piece (c ∷ t) u ts = rw (onto_text-piece t u ts)

split_at-skip : (sep p s : Text) → split_at (length p) sep (p ++ s) ≡ split_at zero sep s
unfolding split_at
split_at-skip sep [] s = refl
split_at-skip sep (c ∷ p) s = split_at-skip sep p s

module _ (b : ℕ) (rest : Text) where
  -- A text without the first byte of the separator is one piece.
  pub split_at-Lacks : (t : Text) → Lacks b t → split_at zero (b ∷ rest) t ≡ t ∷ []
  unfolding split_at has_prefix
  split_at-Lacks [] h = refl
  split_at-Lacks (c ∷ t) (other, h) = ground (arith, other, split_at-Lacks t h)

  split_at-append :
      (t s : Text)
      → Lacks b t
      → split_at zero (b ∷ rest) (t ++ s) ≡ onto_text t (split_at zero (b ∷ rest) s)
  unfolding split_at has_prefix onto_text
  split_at-append [] s h = refl
  split_at-append (c ∷ t) s (other, h) = ground (arith, other, split_at-append t s h)

  split_at-separator :
      (s : Text) → split_at zero (b ∷ rest) ((b ∷ rest) ++ s) ≡ [] ∷ split_at zero (b ∷ rest) s
  unfolding split_at
  split_at-separator s =
      let minus : length (b ∷ rest) - 1 ≡ length rest = omega arith in
      rw (has_prefix-append (b ∷ rest) s, minus, split_at-skip (b ∷ rest) rest s)

  -- Texts that are joined by a separator, and do not have its first byte, are split again.
  pub split-join_by :
      (ts : List Text) → ts ≢ [] → All (Lacks b) ts → split (join_by (b ∷ rest) ts) (b ∷ rest) ≡ ts
  unfolding split join_by
  split-join_by [] some_text h = absurd (some_text refl)
  split-join_by (t ∷ []) some_text (h, _) = split_at-Lacks t h
  split-join_by (t ∷ u ∷ ts) some_text (h, hs) =
      let more = join_by (b ∷ rest) (u ∷ ts) in
      let tail : split_at zero (b ∷ rest) more ≡ u ∷ ts = split-join_by (u ∷ ts) (λ e. cc e) hs in
      split_at-append t ((b ∷ rest) ++ more) h
      ∙ (ap (onto_text t) (split_at-separator more)
          ∙ (onto_text-piece t [] (split_at zero (b ∷ rest) more) ∙ rw (append-nil t, tail)))
