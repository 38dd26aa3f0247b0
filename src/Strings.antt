-- ===== src/Strings.antt =====
-- What the program uses of Go's `strings` and `strconv`, on bytes; letters beyond ASCII stay as
-- they are.
pub mod Split
mod Tests
use mathlib.Core.Option
use mathlib.Core.List.{reverse}
use sipreaper.Common.{
  ℕ, zero, suc, ◌+◌, ◌-◌, ◌*◌, ◌^◌, ltb, leb, ◌==◌, if◌then◌else◌, Bool, true, false, ◌&&◌, ◌||◌,
  not, List, [], ◌∷◌, ◌++◌, Option, none, some, Text, codes, text_eq, to_lower, has_prefix,
  is_empty, is_space, length,
}
use sipreaper.Common.Int.{ℤ, pos, negsuc}

-- `strings.ToUpper`.
unfoldable pub to_upper : Text → Text
to_upper [] = []
to_upper (c ∷ s) = (if leb b'a' c && leb c b'z' then c - 32 else c) ∷ to_upper s

-- `strings.EqualFold`.
unfoldable pub equal_fold : Text → Text → Bool
unfolding text_eq to_lower
equal_fold a b = text_eq (to_lower a) (to_lower b)

-- A byte in front of the first piece.
abbrev pub onto_first : ℕ → List Text → List Text
onto_first c [] = (c ∷ []) ∷ []
onto_first c (t ∷ ts) = (c ∷ t) ∷ ts

-- `strings.Split` by a separator that is not empty. The first argument is the number of bytes left
-- of a separator that has been found.
unfoldable pub split_at : ℕ → Text → Text → List Text
unfolding has_prefix
split_at skip sep [] = [] ∷ []
split_at (suc skip) sep (c ∷ s) = split_at skip sep s
split_at zero sep (c ∷ s) =
    let after = split_at (length sep - 1) sep s in
    let on = split_at zero sep s in if has_prefix (c ∷ s) sep then [] ∷ after else onto_first c on

unfoldable pub split : Text → Text → List Text
unfolding split_at
split s sep = split_at zero sep s

-- The parts of a text before and after the first occurrence of a byte, or none.
unfoldable pub cut : ℕ → Text → Option (Text × Text)
cut b [] = none
cut b (c ∷ s) =
    let rest = cut b s in
    if c == b then some ([], s) else elim rest [ none ↦ none | some p ↦ some (c ∷ p.0, p.1) ]

-- `s[strings.IndexByte(s, b)+1:]`: all of `s` where the byte is not in it.
abbrev pub after_byte : ℕ → Text → Text
after_byte b s = elim (cut b s) [ none ↦ s | some p ↦ p.1 ]

-- `s[:strings.IndexByte(s, b)]`, where the byte is in `s`.
abbrev pub before_byte : ℕ → Text → Text
before_byte b s = elim (cut b s) [ none ↦ [] | some p ↦ p.0 ]

-- `strings.TrimRight(s, "\n\r")`.
pub drop_newlines : Text → Text
drop_newlines [] = []
drop_newlines (c ∷ s) =
    let rest = drop_newlines s in if c == b'\n' || c == b'\r' then rest else c ∷ s

unfoldable pub trim_newlines : Text → Text
unfolding drop_newlines
trim_newlines s = reverse (drop_newlines (reverse s))

abbrev pub is_digit : ℕ → Bool
is_digit c = leb b'0' c && leb c b'9'

-- The value of decimal digits, or none at another byte.
pub digits_value : ℕ → Text → Option ℕ
digits_value v [] = some v
digits_value v (c ∷ s) =
    let rest = digits_value (v * 10 + (c - b'0')) s in if is_digit c then rest else none

pub unsigned : Text → Option ℕ
unfolding digits_value
unsigned [] = none
unsigned (c ∷ s) = digits_value 0 (c ∷ s)

abbrev pub negated : ℕ → ℤ
negated zero = pos zero
negated (suc n) = negsuc n

-- `strconv.Atoi`: none for its errors, those of numbers beyond 64 bits included.
unfoldable pub atoi : Text → Option ℤ
unfolding unsigned digits_value
atoi [] = none
atoi (c ∷ s) =
    if c == b'-'
    then elim (unsigned s) [
      | none ↦ none
      | some n ↦ if leb n (2 ^ 63) then some (negated n) else none
    ]
    else elim (unsigned (if c == b'+' then s else c ∷ s)) [
      | none ↦ none
      | some n ↦ if ltb n (2 ^ 63) then some (pos n) else none
    ]

-- The value that `strconv.Atoi` gives on digits, whether or not it reports an error.
unfoldable pub atoi_clamped : Text → ℕ
unfolding unsigned digits_value
atoi_clamped s = elim (unsigned s) [ none ↦ 0 | some n ↦ if ltb n (2 ^ 63) then n else 2 ^ 63 - 1 ]

-- The parts of a text around white space.
abbrev pub onto_field : ℕ → Bool × List Text → List Text
onto_field c (glued, fs) = if glued then onto_first c fs else (c ∷ []) ∷ fs

-- Whether the text starts within a field, and its fields.
pub fields_from : Text → Bool × List Text
fields_from [] = (false, [])
fields_from (c ∷ s) =
    let rest = fields_from s in if is_space c then (false, rest.1) else (true, onto_field c rest)

-- `strings.Fields`.
unfoldable pub fields : Text → List Text
unfolding fields_from
fields s = (fields_from s).1
