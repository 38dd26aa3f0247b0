-- ===== src/Config/Scan.antt =====
-- `fmt.Sscanf(s, "%d", &code)`: white space but no line end, a sign, and the digits up to
-- the first other byte. A number beyond 64 bits, which is an error there, is out of the range that
-- its one caller takes.
use sipreaper.Common.{
  ℕ, ◌*◌, ◌+◌, ◌-◌, ◌==◌, if◌then◌else◌, ◌||◌, [], ◌∷◌, Option, none, some, Text,
}
use sipreaper.Common.Int.{ℤ, pos}
use sipreaper.Strings.{is_digit, negated}

pub skip_blanks : Text → Text
skip_blanks [] = []
skip_blanks (c ∷ s) =
    let rest = skip_blanks s in
    if c == b' ' || c == b'\t' || c == b'\r' || c == 11 || c == 12 then rest else c ∷ s

pub leading_value : ℕ → Text → ℕ
leading_value v [] = v
leading_value v (c ∷ s) =
    let more = leading_value (v * 10 + (c - b'0')) s in if is_digit c then more else v

pub leading_digits : Text → Option ℕ
unfolding leading_value
leading_digits [] = none
leading_digits (c ∷ s) = if is_digit c then some (leading_value 0 (c ∷ s)) else none

pub signed : Text → Option ℤ
unfolding leading_digits
signed [] = none
signed (c ∷ s) =
    if c == b'-'
    then elim (leading_digits s) [ none ↦ none | some n ↦ some (negated n) ]
    else elim (leading_digits (if c == b'+' then s else c ∷ s)) [
      | none ↦ none
      | some n ↦ some (pos n)
    ]

unfoldable pub scan_int : Text → Option ℤ
unfolding skip_blanks signed
scan_int s = signed (skip_blanks s)
