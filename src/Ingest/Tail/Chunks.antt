-- ===== src/Ingest/Tail/Chunks.antt =====
-- internal/ingest/logtailer.go: the lines the tailer handles, however the log's writer and the
-- reads of the tailer cut them up.
use sipreaper.Common.{
  ℕ, suc, ◌≤◌, ◌≡◌, refl, ◌∙◌, subst, sym, ap, ltb, ◌==◌, if◌then◌else◌, List, [], ◌∷◌, ◌++◌, Text,
  length, length-append, append_assoc, append-nil, arith, Bool-cases, inl, inr,
}
use sipreaper.Ingest.Sip.{Find}
use sipreaper.Ingest.Tail.{
  Tail, LogTailer, Read, Rotation, max_log_line_len, hold, idle, handle_line, on_read, on_reads,
}
use sipreaper.Strings.{trim_newlines}

-- `ReadString('\n')` of a bufio.Reader over a text, called until the end of the file: `acc` is what
-- stands since the last line end. The checks of rotation find nothing.
unfoldable pub reads : ℕ → Text → Text → List Read
reads now acc [] = Read.ended acc now Rotation.kept ∷ []
reads now acc (c ∷ text) =
    let further = reads now (acc ++ c ∷ []) text in
    let after = reads now [] text in
    if c == b'\n' then Read.whole (acc ++ c ∷ []) ∷ after else further

-- The unfinished line stays within the limit, wherever the text may be cut.
abbrev pub Fits : ℕ → Text → Type 0
Fits n [] = n ≤ max_log_line_len
Fits n (c ∷ text) = (n ≤ max_log_line_len) × Fits (if c == b'\n' then 0 else suc n) text

bound : (n : ℕ) (text : Text) → Fits n text → n ≤ max_log_line_len
bound n [] fits = fits
bound n (c ∷ text) (le, fits) = le

abbrev pub contents : List (ℕ × Text) → Text
contents [] = []
contents ((now, text) ∷ pieces) = text ++ contents pieces

module _ (find : Find) (clock : ℕ → ℕ) where
  -- The independent description: the log byte by byte.
  unfoldable pub feed : LogTailer × Text → Text → LogTailer × Text
  feed s [] = s
  feed s (c ∷ text) =
      let handled = handle_line find clock s.0 (trim_newlines (s.1 ++ c ∷ [])) in
      let ended = feed (handled, []) text in
      let further = feed (s.0, s.1 ++ c ∷ []) text in if c == b'\n' then ended else further

  -- The reads of pieces of the log that arrive one after the other.
  unfoldable pub tail_pieces : Tail → List (ℕ × Text) → Tail
  unfolding reads on_reads
  tail_pieces t [] = t
  tail_pieces t ((now, text) ∷ pieces) =
      tail_pieces (on_reads find clock t (reads now [] text)) pieces

  abbrev view : Tail → LogTailer × Text
  view t = (t.tailer, t.partial)

  view-idle : (now : ℕ) (t : Tail) → view (idle now Rotation.kept t) ≡ view t
  unfolding idle
  view-idle now t = ground arith

  view-on_read-ended :
      (now : ℕ) (t : Tail) (acc : Text)
      → view (on_read find clock t (Read.ended acc now Rotation.kept))
        ≡ (t.tailer, hold t.partial acc)
  unfolding on_read
  view-on_read-ended now t acc = view-idle now (record t { partial = hold t.partial acc })

  hold_fits : (a b : Text) → length (a ++ b) ≤ max_log_line_len → hold a b ≡ a ++ b
  hold_fits a b fits = ground (arith, fits, length-append a b)

  joined : (p chunk : Text) → (if ltb 0 (length p) then p ++ chunk else chunk) ≡ p ++ chunk
  joined [] chunk = refl
  joined (c ∷ p) chunk = ground arith

  -- A whole line is handled with what was held before it.
  on_read-whole :
      (t : Tail) (chunk : Text)
      → on_read find clock t (Read.whole chunk) ≡ record t {
        partial = [];
        tailer = handle_line find clock t.tailer (trim_newlines (t.partial ++ chunk));
      }
  unfolding on_read
  on_read-whole t chunk = rw (on_read, joined t.partial chunk) refl

  abbrev after : Tail → Text → Tail
  after t line = record t {
    partial = [];
    tailer = handle_line find clock t.tailer (trim_newlines line);
  }

  view-on_reads :
      (now : ℕ) (t : Tail) (acc text : Text)
      → Fits (length (t.partial ++ acc)) text
      → view (on_reads find clock t (reads now acc text)) ≡ feed (t.tailer, t.partial ++ acc) text
  unfolding on_reads reads feed
  view-on_reads now t acc [] fits =
      view-on_read-ended now t acc ∙ ap (λ p. (t.tailer, p)) (hold_fits t.partial acc fits)
  view-on_reads now t acc (c ∷ text) (_, fits) = elim (Bool-cases (c == b'\n')) [
    | inl end ↦
        let line : t.partial ++ (acc ++ c ∷ []) ≡ (t.partial ++ acc) ++ c ∷ [] =
          sym (append_assoc t.partial acc (c ∷ [])) in
        let handled : on_read find clock t (Read.whole (acc ++ c ∷ []))
            ≡ after t ((t.partial ++ acc) ++ c ∷ []) =
          on_read-whole t (acc ++ c ∷ []) ∙ ap (after t) line in
        let fits' : Fits 0 text =
          subst (λ b. Fits (if b then 0 else suc (length (t.partial ++ acc))) text) end fits in
        rw end (
          ap (λ u. view (on_reads find clock u (reads now [] text))) handled
          ∙ view-on_reads now (after t ((t.partial ++ acc) ++ c ∷ [])) [] text fits')
    | inr inside ↦
        let fits' : Fits (suc (length (t.partial ++ acc))) text =
          subst (λ b. Fits (if b then 0 else suc (length (t.partial ++ acc))) text) inside fits in
        let long : length (t.partial ++ (acc ++ c ∷ [])) ≡ suc (length (t.partial ++ acc)) = omega (
          arith,
          length-append t.partial acc,
          length-append acc (c ∷ []),
          length-append t.partial (acc ++ c ∷ []),
        ) in
        rw inside (
          view-on_reads now t (acc ++ c ∷ []) text (subst (λ n. Fits n text) (sym long) fits')
          ∙ ap (λ p. feed (t.tailer, p) text) (sym (append_assoc t.partial acc (c ∷ []))))
  ]

  -- A text that fits can be cut anywhere.
  Fits-append :
      (s : LogTailer × Text) (a b : Text)
      → Fits (length s.1) (a ++ b)
      → Fits (length s.1) a × Fits (length (feed s a).1) b
  unfolding feed
  Fits-append s [] b fits = (bound (length s.1) b fits, fits)
  Fits-append s (c ∷ a) b (now, fits) = elim (Bool-cases (c == b'\n')) [
    | inl end ↦
        let after : LogTailer × Text =
          (handle_line find clock s.0 (trim_newlines (s.1 ++ c ∷ [])), []) in
        let rest =
          Fits-append after a b
            (subst (λ e. Fits (if e then 0 else suc (length s.1)) (a ++ b)) end fits) in
        rw end ((now, rest.0), rest.1)
    | inr inside ↦
        let long : length (s.1 ++ c ∷ []) ≡ suc (length s.1) =
          omega (arith, length-append s.1 (c ∷ [])) in
        let f = subst (λ e. Fits (if e then 0 else suc (length s.1)) (a ++ b)) inside fits in
        let rest =
          Fits-append (s.0, s.1 ++ c ∷ []) a b (subst (λ n. Fits n (a ++ b)) (sym long) f) in
        rw inside ((now, subst (λ n. Fits n a) long rest.0), rest.1)
  ]

  feed-append : (s : LogTailer × Text) (a b : Text) → feed s (a ++ b) ≡ feed (feed s a) b
  unfolding feed
  feed-append s [] b = refl
  feed-append s (c ∷ a) b = elim (Bool-cases (c == b'\n')) [
    | inl end ↦
        rw end (feed-append (handle_line find clock s.0 (trim_newlines (s.1 ++ c ∷ [])), []) a b)
    | inr inside ↦ rw inside (feed-append (s.0, s.1 ++ c ∷ []) a b)
  ]

  view-tail_pieces :
      (t : Tail) (pieces : List (ℕ × Text))
      → Fits (length t.partial) (contents pieces)
      → view (tail_pieces t pieces) ≡ feed (t.tailer, t.partial) (contents pieces)
  unfolding tail_pieces feed
  view-tail_pieces t [] fits = refl
  view-tail_pieces t ((now, text) ∷ pieces) fits =
      let (here, later) = Fits-append (t.tailer, t.partial) text (contents pieces) fits in
      let read = on_reads find clock t (reads now [] text) in
      let e : view read ≡ feed (t.tailer, t.partial) text =
        subst (λ p. Fits (length p) text → view read ≡ feed (t.tailer, p) text)
          (append-nil t.partial) (view-on_reads now t [] text) here in
      view-tail_pieces read pieces (subst (λ s. Fits (length s.1) (contents pieces)) (sym e) later)
      ∙ ap (λ s. feed s (contents pieces)) e
      ∙ sym (feed-append (t.tailer, t.partial) text (contents pieces))

  -- Let no line of the log, with what is held, be longer than 64 KiB. Then the lines that the
  -- tailer handles, and what it holds at the end, are those of the log read byte by byte, into
  -- whatever pieces the writer and the reads have cut it: every line is handled once, whole, in
  -- order, and with the line end trimmed.
  pub tail_pieces-feed :
      (t : Tail) (pieces : List (ℕ × Text))
      → Fits (length t.partial) (contents pieces)
      → (tail_pieces t pieces).tailer ≡ (feed (t.tailer, t.partial) (contents pieces)).0
        × (tail_pieces t pieces).partial ≡ (feed (t.tailer, t.partial) (contents pieces)).1
  unfolding tail_pieces
  tail_pieces-feed t pieces fits =
      let e = view-tail_pieces t pieces fits in (ap (λ s. s.0) e, ap (λ s. s.1) e)
