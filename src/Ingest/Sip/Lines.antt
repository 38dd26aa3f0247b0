-- ===== src/Ingest/Sip/Lines.antt =====
-- What the parser makes of line ends, and of what follows the headers.
use sipreaper.Common.{
  ℕ, ltb, ◌≡◌, refl, false, List, [], ◌∷◌, ◌++◌, arith, Text, codes, All, length, is_empty,
}
use sipreaper.Ingest.Sip.{
  Find, SipMessage, parse_header, parse_headers, parse_lines, message_lines, parse_sip_message,
}
use sipreaper.Strings.Split.{join_by, Lacks, split-join_by, split_at-Lacks}
use sipreaper.Strings.{split}

-- No byte of a line ends a line.
abbrev pub IsLine : Text → Type 0
IsLine t = Lacks b'\r' t × Lacks b'\n' t

lines-Lacks : (ts : List Text) → All IsLine ts → All (Lacks b'\r') ts × All (Lacks b'\n') ts
lines-Lacks [] h = (tt, tt)
lines-Lacks (t ∷ ts) ((cr, lf), h) = let (crs, lfs) = lines-Lacks ts h in ((cr, crs), (lf, lfs))

Lacks-append : (b : ℕ) (t u : Text) → Lacks b t → Lacks b u → Lacks b (t ++ u)
Lacks-append b [] u h k = k
Lacks-append b (c ∷ t) u (e, h) k = (e, Lacks-append b t u h k)

-- Lines that are joined by line feeds have no carriage return.
Lacks-join_by : (ts : List Text) → All (Lacks b'\r') ts → Lacks b'\r' (join_by (codes "\n") ts)
unfolding join_by
Lacks-join_by [] h = tt
Lacks-join_by (t ∷ []) (h, _) = h
Lacks-join_by (t ∷ u ∷ ts) (h, hs) =
    Lacks-append b'\r' t (codes "\n" ++ join_by (codes "\n") (u ∷ ts)) h
      (refl, Lacks-join_by (u ∷ ts) hs)

module _ (first second : Text) (ts : List Text) (h : All IsLine (first ∷ second ∷ ts)) where
  abbrev lines : List Text
  lines = first ∷ second ∷ ts

  two_lines : ltb (length lines) 2 ≡ false
  two_lines = ground arith

  message_lines_crlf : message_lines (join_by (codes "\r\n") lines) ≡ lines
  message_lines_crlf =
      let (crs, _) = lines-Lacks lines h in
      let e : split (join_by (codes "\r\n") lines) (codes "\r\n") ≡ lines =
        split-join_by b'\r' (codes "\n") lines (λ e. cc e) crs in
      ground (arith, e, two_lines)

  message_lines_lf : message_lines (join_by (codes "\n") lines) ≡ lines
  unfolding split
  message_lines_lf =
      let (crs, lfs) = lines-Lacks lines h in
      let text = join_by (codes "\n") lines in
      let whole : split text (codes "\r\n") ≡ text ∷ [] =
        split_at-Lacks b'\r' (codes "\n") text (Lacks-join_by lines crs) in
      let parts : split text (codes "\n") ≡ lines = split-join_by b'\n' [] lines (λ e. cc e) lfs in
      ground (arith, whole, parts)

  -- A message of at least two lines, none with a line end inside, parses the same whether its lines
  -- end by CR LF or by LF alone: as its lines do.
  pub parse_sip_message-join_by :
      (find : Find)
      → (parse_sip_message find (join_by (codes "\r\n") lines) ≡ parse_lines find lines)
        × (parse_sip_message find (join_by (codes "\n") lines) ≡ parse_lines find lines)
  unfolding parse_sip_message
  parse_sip_message-join_by find =
      (rw (message_lines_crlf, two_lines) refl, rw (message_lines_lf, two_lines) refl)

-- What follows the first empty line is not read: no header comes from the body of a message.
pub parse_headers-append :
    (find : Find) (msg : SipMessage) (hs body : List Text)
    → All (λ h. is_empty h ≡ false) hs
    → parse_headers find msg (hs ++ [] ∷ body) ≡ parse_headers find msg hs
unfolding parse_headers
parse_headers-append find msg [] body a = refl
parse_headers-append find msg (h ∷ hs) body (full, a) =
    rw (full, parse_headers-append find (parse_header find msg h) hs body a)
