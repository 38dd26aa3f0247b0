-- ===== src/Strings/Tests.antt =====
-- Runs of the functions on texts.
use sipreaper.Common.{◌≡◌, refl, [], ◌∷◌, codes, some, none}
use sipreaper.Common.Int.{pos, negsuc}
use sipreaper.Strings.{split, trim_newlines, atoi, fields, to_upper, after_byte, before_byte, cut}

splits : split (codes "a\r\nb\r\n\r\n") (codes "\r\n") ≡ codes "a" ∷ codes "b" ∷ [] ∷ [] ∷ []
unfolding split
splits = refl

numbers :
    (atoi (codes "403") ≡ some (pos 403))
    × (atoi (codes "-7") ≡ some (negsuc 6))
    × (atoi (codes "4x") ≡ none)
unfolding atoi
numbers = (refl, refl, refl)

words : fields (codes " 1  DROP\tall ") ≡ codes "1" ∷ codes "DROP" ∷ codes "all" ∷ []
unfolding fields
words = refl

trimmed : trim_newlines (codes "line\r\n") ≡ codes "line"
unfolding trim_newlines
trimmed = refl

cut_at :
    (after_byte b':' (codes "To: x:y") ≡ codes " x:y")
    × (before_byte b':' (codes "To: x:y") ≡ codes "To")
unfolding cut
cut_at = (refl, refl)

upper : to_upper (codes "Invite") ≡ codes "INVITE"
unfolding to_upper
upper = refl
