-- ===== src/Ingest/Log/Format.antt =====
-- internal/ingest/logtailer.go: what the configured format changes.
use mathlib.Core.Option
use sipreaper.Common.{
  ℕ, ◌≡◌, if◌then◌else◌, ◌↔◌, Bool, false, List, [], none, Option, Text, arith, codes, text_eq,
}
use sipreaper.Ingest.Log.{
  parse_line, parse_any_line, parse_kamailio_line, parse_opensips_line, match_custom_patterns,
  or_else,
}
use sipreaper.Ingest.Sip.{Find}
use sipreaper.Models.{SipEvent}

-- Who is asked first does not change whether anyone answers.
recognised :
    (k o c : Option SipEvent) (b d : Bool)
    → ((if b then or_else o (or_else k c) else or_else k (or_else o c)) ≡ none)
      ↔ ((if d then or_else o (or_else k c) else or_else k (or_else o c)) ≡ none)
recognised k o c b d = ground arith

module _ (find : Find) (now : ℕ) (line : Text) where
  -- Whether a line is recognised does not depend on the configured format: under any format it
  -- is exactly when it is under another than "opensips", since the format only says which parser
  -- is asked first. And with no custom patterns the tailer of that other format makes of a line
  -- the very event that `test-line` and the syslog ingest make of it.
  pub parse_line-format :
      (patterns : List Text) (format other : Text)
      → text_eq other (codes "opensips") ≡ false
      → ((parse_line find now format patterns line ≡ none)
          ↔ (parse_line find now other patterns line ≡ none))
        × (parse_line find now other [] line ≡ Option.map (λ p. p.1) (parse_any_line find now line))
  unfolding parse_line parse_any_line match_custom_patterns
  parse_line-format patterns format other plain = (
    recognised (parse_kamailio_line find now line) (parse_opensips_line find now line)
        (match_custom_patterns find now patterns line) _ _,
    rw plain (ground arith),
  )
