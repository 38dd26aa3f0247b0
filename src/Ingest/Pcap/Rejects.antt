-- ===== src/Ingest/Pcap/Rejects.antt =====
-- internal/ingest/pcap.go: what a list of reject responses matches, entry by entry.
use sipreaper.Common.{
  ℕ, ◌≡◌, refl, Bool, false, List, [], ◌∷◌, none, some, Text, arith, Bool-cases, inl, inr, is_empty,
  text_eq, to_lower, trim_space, any, ◌&&◌, ◌||◌, Option-cases,
}
use sipreaper.Common.Int.{pos}
use sipreaper.Ingest.Pcap.{
  RejectMatcher, first_field, second_field, add_entry, add_entries, new_reject_matcher, matches,
  eq_ℤ,
}
use sipreaper.Strings.{atoi}

-- One entry of `reject_responses`: a code, for every reason, or a code and its reason, whatever
-- the case of either's letters. An entry whose first word is no number matches nothing.
unfoldable pub entry_matches : ℕ → Text → Text → Bool
unfolding atoi trim_space to_lower text_eq
entry_matches code reason entry =
    let trimmed = trim_space entry in
    let phrase = trim_space (second_field trimmed) in
    elim (atoi (first_field trimmed)) [
      | none ↦ false
      | some c ↦
          eq_ℤ c (pos code) && (is_empty phrase || text_eq (to_lower phrase) (to_lower reason))
    ]

matches-add_entry :
    (m : RejectMatcher) (code : ℕ) (reason entry : Text)
    → matches (add_entry m entry) code reason
      ≡ (entry_matches code reason entry || matches m code reason)
unfolding matches add_entry entry_matches
matches-add_entry m code reason entry =
    let trimmed = trim_space entry in
    let phrase = trim_space (second_field trimmed) in
    elim (Option-cases (atoi (first_field trimmed))) [
      | inl bad ↦ rw (add_entry, entry_matches, bad) refl
      | inr (c, parsed) ↦ elim (Bool-cases (is_empty phrase)) [
        | inl bare ↦ rw (add_entry, entry_matches, parsed, bare) (ground arith)
        | inr worded ↦ rw (add_entry, entry_matches, parsed, worded) (ground arith)
      ]
    ]

matches-add_entries :
    (m : RejectMatcher) (code : ℕ) (reason : Text) (entries : List Text)
    → matches (add_entries m entries) code reason
      ≡ (any (entry_matches code reason) entries || matches m code reason)
unfolding add_entries
matches-add_entries m code reason [] = refl
matches-add_entries m code reason (e ∷ entries) = ground (
  arith,
  matches-add_entries (add_entry m e) code reason entries,
  matches-add_entry m code reason e,
)

-- The matcher that the configured list builds says yes to a response exactly when some entry of
-- the list does, whatever the order of the entries and the other entries on the same code.
pub matches-new_reject_matcher :
    (entries : List Text) (code : ℕ) (reason : Text)
    → matches (new_reject_matcher entries) code reason ≡ any (entry_matches code reason) entries
unfolding new_reject_matcher matches
matches-new_reject_matcher entries code reason =
    ground (arith, matches-add_entries (record { codes = []; phrases = [] }) code reason entries)
