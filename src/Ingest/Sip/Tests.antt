-- ===== src/Ingest/Sip/Tests.antt =====
-- A regular expression engine for the four patterns of internal/ingest/sipparser.go on plain
-- messages, and the theorems at such a message.
use sipreaper.Common.{
  ◌≡◌, any, ◌==◌, ◌||◌, arith, refl, true, false, List, [], ◌∷◌, none, some, Text, codes,
  if◌then◌else◌, text_eq, has_prefix, Option, drop, ℕ,
}
use sipreaper.Ingest.Sip.Lines.{IsLine, parse_sip_message-join_by}
use sipreaper.Ingest.Sip.{
  Find, request_line_re, response_line_re, user_re, empty_message, parse_sip_message, parse_lines,
}
use sipreaper.Strings.Split.{join_by}
use sipreaper.Strings.{cut}

abbrev pub find_word : ℕ → Text → Text → Option (List Text)
unfolding cut
find_word stop t rest = elim (cut stop rest) [ none ↦ none | some p ↦ some (t ∷ p.0 ∷ p.1 ∷ []) ]

abbrev pub plain : Find
unfolding text_eq has_prefix
plain p t =
    if text_eq p response_line_re
    then if has_prefix t (codes "SIP/2.0 ") then find_word b' ' t (drop 8 t) else none
    else if text_eq p request_line_re
    then find_word b' ' t t
    else if text_eq p user_re
    then find_word b'@' t (drop 5 t)
    else none

abbrev headers : List Text
headers = codes "Call-ID: 1" ∷ codes "From: sip:eve@example.com" ∷ codes "Authorization: x" ∷ []

abbrev register : Text
register = codes "REGISTER sip:example.com SIP/2.0"

parsed :
    parse_lines plain (register ∷ headers)
    ≡ some (record empty_message {
      method = codes "REGISTER";
      call_id = codes "1";
      from_user = codes "eve";
      has_auth = true;
    })
unfolding parse_lines find_word
parsed = refl

plain-IsLine : (t : Text) → any (λ c. c == b'\r' || c == b'\n') t ≡ false → IsLine t
plain-IsLine [] h = (tt, tt)
plain-IsLine (c ∷ t) h = ground (arith, h, plain-IsLine t)

parse_sip_message-join_by_example :
    (parse_sip_message plain (join_by (codes "\r\n") (register ∷ headers))
      ≡ parse_lines plain (register ∷ headers))
    × (parse_sip_message plain (join_by (codes "\n") (register ∷ headers))
        ≡ parse_lines plain (register ∷ headers))
parse_sip_message-join_by_example =
    parse_sip_message-join_by register (codes "Call-ID: 1")
      (codes "From: sip:eve@example.com" ∷ codes "Authorization: x" ∷ [])
      (
        plain-IsLine register refl,
        (
          plain-IsLine (codes "Call-ID: 1") refl,
          (
            plain-IsLine (codes "From: sip:eve@example.com") refl,
            (plain-IsLine (codes "Authorization: x") refl, tt),
          ),
        ),
      )
      plain
