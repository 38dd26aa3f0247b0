-- ===== src/Ingest/Log/Tests.antt =====
-- A regular expression engine that knows one pattern, and the theorem with it.
use mathlib.Core.Option
use sipreaper.Common.{◌≡◌, ◌↔◌, refl, [], ◌∷◌, none, some, codes, if◌then◌else◌, text_eq}
use sipreaper.Ingest.Log.Format.{parse_line-format}
use sipreaper.Ingest.Log.{parse_line, parse_any_line, kamailio_received_re}
use sipreaper.Ingest.Sip.{Find}

abbrev pub received_only : Find
unfolding text_eq
received_only p line =
    if text_eq p kamailio_received_re
    then some (line ∷ codes "INVITE" ∷ codes "203.0.113.5" ∷ [])
    else none

parse_line-format_example :
    ((parse_line received_only 7 (codes "opensips") [] (codes "received") ≡ none)
      ↔ (parse_line received_only 7 (codes "kamailio") [] (codes "received") ≡ none))
    × (parse_line received_only 7 (codes "kamailio") [] (codes "received")
        ≡ Option.map (λ p. p.1) (parse_any_line received_only 7 (codes "received")))
unfolding text_eq
parse_line-format_example =
    parse_line-format received_only 7 (codes "received") [] (codes "opensips") (codes "kamailio")
      refl
