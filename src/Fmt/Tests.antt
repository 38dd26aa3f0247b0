-- ===== src/Fmt/Tests.antt =====
-- Runs of the formatting verbs.
use sipreaper.Common.{◌≡◌, refl, codes}
use sipreaper.Fmt.{decimal, duration_string, quote}

decimals : (decimal 0 ≡ codes "0") × (decimal 7 ≡ codes "7") × (decimal 10_203 ≡ codes "10203")
unfolding decimal
decimals = (refl, refl, refl)

durations :
    (duration_string 300_000_000_000 ≡ codes "5m0s")
    × (duration_string 172_800_000_000_000 ≡ codes "48h0m0s")
    × (duration_string 1_500_000_000 ≡ codes "1.5s")
    × (duration_string 2_050_000 ≡ codes "2.05ms")
unfolding duration_string
durations = (refl, refl, refl, refl)

quoted : quote (codes "a\n\"") ≡ codes "\"a\\n\\\"\""
unfolding quote
quoted = refl
