-- ===== src/Common/Dict.antt =====
-- Go maps with string keys, as association lists. A delete or an update touches every entry of
-- the key, so the laws need no condition that keys are distinct.
use mathlib.Core.Path.{◌≡◌, refl, ◌∙◌}
use mathlib.Core.List.{List, [], ◌∷◌}
use mathlib.Core.Option.{Option, none, some}
use native.Mathlib.Omega.{arith}
use mathlib.Core.Logic.{inl, inr}
use sipreaper.Common.Tests.{if◌then◌else◌, Bool-cases}
use sipreaper.Common.Texts.{Text, text_eq, text_eq_iff, text_eq_refl}

abbrev pub Dict {ℓ} : Type ℓ → Type ℓ
Dict V = List (Text × V)

module _ {ℓ} {V : Type ℓ} where
  unfoldable pub lookup : Text → Dict V → Option V
  lookup k [] = none
  lookup k ((j, v) ∷ m) = if text_eq j k then some v else lookup k m

  -- `delete(m, k)`.
  unfoldable pub erase : Text → Dict V → Dict V
  erase k [] = []
  erase k ((j, v) ∷ m) = if text_eq j k then erase k m else (j, v) ∷ erase k m

  -- `m[k] = v`.
  unfoldable pub insert : Text → V → Dict V → Dict V
  insert k v m = (k, v) ∷ erase k m

  pub lookup-erase :
      (k j : Text) (m : Dict V) → lookup j (erase k m) ≡ (if text_eq k j then none else lookup j m)
  unfolding lookup erase
  lookup-erase k j [] = ground arith
  lookup-erase k j ((i, w) ∷ m) =
      ground (arith, text_eq_iff k j, text_eq_iff i k, text_eq_iff i j, lookup-erase k j m)

  pub lookup-insert :
      (k j : Text) (v : V) (m : Dict V)
      → lookup j (insert k v m) ≡ (if text_eq k j then some v else lookup j m)
  unfolding lookup insert
  lookup-insert k j v m = ground (arith, lookup-erase k j m)

module _ {ℓ} {V : Type ℓ} where
  -- No key twice: what a Go map is.
  abbrev pub IsMap : Dict V → Type ℓ
  IsMap [] = Unit
  IsMap ((k, v) ∷ m) = (lookup k m ≡ none) × IsMap m

  -- A loop `for k, v := range m` that replaces the value of each entry, or deletes it.
  unfoldable pub sweep : (V → Option V) → Dict V → Dict V
  sweep f [] = []
  sweep f ((k, v) ∷ m) = elim (f v) [ none ↦ sweep f m | some w ↦ (k, w) ∷ sweep f m ]

  abbrev pub and_then {κ} : {B : Type κ} → Option V → (V → Option B) → Option B
  and_then none f = none
  and_then (some v) f = f v

  pub IsMap-erase : (k : Text) (m : Dict V) → IsMap m → IsMap (erase k m)
  unfolding erase
  IsMap-erase k [] h = tt
  IsMap-erase k ((j, v) ∷ m) (fresh, h) = elim (Bool-cases (text_eq j k)) [
    | inl same ↦ rw same (IsMap-erase k m h)
    | inr other ↦ rw other (ground (arith, lookup-erase k j m), IsMap-erase k m h)
  ]

  pub IsMap-insert : (k : Text) (v : V) (m : Dict V) → IsMap m → IsMap (insert k v m)
  unfolding insert
  IsMap-insert k v m h = (ground (arith, lookup-erase k k m, text_eq_refl k), IsMap-erase k m h)

  pub lookup-sweep :
      (f : V → Option V) (k : Text) (m : Dict V)
      → IsMap m
      → lookup k (sweep f m) ≡ and_then (lookup k m) f
  unfolding lookup sweep
  lookup-sweep f k [] h = refl
  lookup-sweep f k ((j, v) ∷ m) (fresh, h) = ground (arith, text_eq_iff j k, lookup-sweep f k m h)

  pub IsMap-sweep : (f : V → Option V) (m : Dict V) → IsMap m → IsMap (sweep f m)
  unfolding sweep
  IsMap-sweep f [] h = tt
  IsMap-sweep f ((j, v) ∷ m) (fresh, h) =
      elim (f v) as (λ o. IsMap (elim o [ none ↦ sweep f m | some w ↦ (j, w) ∷ sweep f m ])) [
        | none ↦ IsMap-sweep f m h
        | some w ↦ (lookup-sweep f j m h ∙ rw fresh, IsMap-sweep f m h)
      ]

pub and_then-eq-some {ℓ κ} :
    {V : Type ℓ} {B : Type κ} (o : Option V) (f : V → Option B) {b : B}
    → and_then o f ≡ some b
    → (v : V) × (o ≡ some v) × (f v ≡ some b)
and_then-eq-some none f h = cc
and_then-eq-some (some v) f h = (v, refl, h)
