-- ===== src/Fmt.antt =====
-- The formatting verbs that the program uses: numbers, durations and quoted strings. A byte from
-- 128 on is quoted as an invalid one is.
mod Tests
use sipreaper.Common.{
  ℕ, zero, suc, ◌+◌, ◌*◌, ◌/◌, ◌%◌, ◌^◌, ltb, leb, ◌==◌, if◌then◌else◌, ◌&&◌, ◌||◌, List, [], ◌∷◌,
  ◌++◌, Text, codes, is_empty,
}

-- Each round takes a digit off the end; the fuel is more than the number of digits.
digits_from : ℕ → ℕ → Text → Text
digits_from zero n out = out
digits_from (suc fuel) n out =
    let rest = digits_from fuel (n / 10) ((n % 10 + b'0') ∷ out) in
    if ltb n 10 then (n + b'0') ∷ out else rest

-- `%d`.
unfoldable pub decimal : ℕ → Text
unfolding digits_from
decimal n = digits_from (suc n) n []

-- `fmtFrac` of package `time`: the last digits of a number, without trailing zeros.
fraction : ℕ → ℕ → Text → Text
fraction zero v out = if is_empty out then [] else b'.' ∷ out
fraction (suc p) v out =
    fraction p (v / 10) (if is_empty out && v % 10 == 0 then [] else (v % 10 + b'0') ∷ out)

abbrev scaled : ℕ → ℕ → Text
scaled u p = decimal (u / 10 ^ p) ++ fraction p u []

-- `d.String()` on a number of nanoseconds; the unit of microseconds is the bytes of `µs`.
unfoldable pub duration_string : ℕ → Text
unfolding decimal digits_from fraction
duration_string u =
    if u == 0
    then codes "0s"
    else if ltb u 1_000
    then scaled u 0 ++ codes "ns"
    else if ltb u 1_000_000
    then scaled u 3 ++ (0xc2 ∷ 0xb5 ∷ codes "s")
    else if ltb u 1_000_000_000
    then scaled u 6 ++ codes "ms"
    else let secs = u / 1_000_000_000 in
      let mins = secs / 60 in
      let hours = mins / 60 in
      (if hours == 0 then [] else decimal hours ++ codes "h")
      ++ ((if mins == 0 then [] else decimal (mins % 60) ++ codes "m")
          ++ (decimal (secs % 60) ++ (fraction 9 u [] ++ codes "s")))

abbrev hex_digit : ℕ → ℕ
hex_digit d = if ltb d 10 then d + b'0' else d + 87

-- One byte within `%q`.
abbrev quote_byte : ℕ → Text
quote_byte c =
    if c == 34 || c == 92
    then 92 ∷ c ∷ []
    else if leb 32 c && ltb c 127
    then c ∷ []
    else if c == 7
    then codes "\\a"
    else if c == 8
    then codes "\\b"
    else if c == 9
    then codes "\\t"
    else if c == 10
    then codes "\\n"
    else if c == 11
    then codes "\\v"
    else if c == 12
    then codes "\\f"
    else if c == 13
    then codes "\\r"
    else codes "\\x" ++ (hex_digit (c / 16) ∷ hex_digit (c % 16) ∷ [])

quote_bytes : Text → Text
quote_bytes [] = []
quote_bytes (c ∷ s) = quote_byte c ++ quote_bytes s

-- `%q`.
unfoldable pub quote : Text → Text
unfolding quote_bytes
quote s = 34 ∷ (quote_bytes s ++ 34 ∷ [])
