-- ===== src/Detect/Honeypot.antt =====
-- internal/detect/honeypot.go: events for a decoy extension. The set of extensions is the list of
-- its members.
use sipreaper.Common.{
  if◌then◌else◌, ◌≡◌, refl, Bool, false, not, ◌&&◌, ◌||◌, List, [], ◌∷◌, ◌++◌, Option, none, some,
  arith, Text, codes, text_eq, is_empty, mem_text, any, to_lower, trim_space,
}
use sipreaper.Detect.Stream.{Seen}
use sipreaper.Fmt.{quote}
use sipreaper.Models.{Threat}
use sipreaper.Net.{is_nil}

pub record Honeypot : Type 0 where
  pub extensions : List Text

-- The loop of `NewHoneypot`.
unfoldable pub extension_set : List Text → List Text
extension_set [] = []
extension_set (e ∷ es) =
    let trimmed = trim_space e in
    let rest = extension_set es in if is_empty trimmed then rest else to_lower trimmed ∷ rest

unfoldable pub new_honeypot : List Text → Honeypot
new_honeypot es = record { extensions = extension_set es }

abbrev pub decoy_hit : Seen → Threat
decoy_hit s = record {
  timestamp = s.stamp;
  source_ip = s.event.source_ip;
  detector = codes "honeypot";
  severity = codes "high";
  description =
      codes "traffic to honeypot extension "
      ++ (quote s.event.to_user ++ (codes " (method=" ++ (s.event.method ++ codes ")")));
  event_count = 1;
  window = 3_600_000_000_000;
}

-- `Detect`.
unfoldable pub detect : Honeypot → Seen → Honeypot × Option Threat
detect d s =
    if s.event.is_response
    then (d, none)
    else if is_empty d.extensions || is_nil s.event.source_ip
    then (d, none)
    else let target = to_lower s.event.to_user in
      if is_empty target
      then (d, none)
      else if not (mem_text target d.extensions)
      then (d, none)
      else (d, some (decoy_hit s))

-- A configured extension is the target, once it is trimmed and both are in lower case.
abbrev pub names : Text → Text → Bool
names target e = not (is_empty (trim_space e)) && text_eq target (to_lower (trim_space e))

mem-extension_set :
    (target : Text) (es : List Text) → mem_text target (extension_set es) ≡ any (names target) es
unfolding extension_set
mem-extension_set target [] = refl
mem-extension_set target (e ∷ es) = ground (arith, mem-extension_set target es)

names_nothing : (e : Text) → names [] e ≡ false
unfolding text_eq to_lower
names_nothing e = ground arith

any-names_nothing : (es : List Text) → any (names []) es ≡ false
any-names_nothing [] = refl
any-names_nothing (e ∷ es) = ground (arith, names_nothing e, any-names_nothing es)

-- An event is reported exactly if it is a request with a source, for a user that is one of the
-- configured extensions, compared in lower case and trimmed as configured; blank ones count for
-- nothing.
pub detect-new_honeypot :
    (es : List Text) (s : Seen)
    → (detect (new_honeypot es) s).1 ≡ (
        if not s.event.is_response
          && (not (is_nil s.event.source_ip) && any (names (to_lower s.event.to_user)) es)
        then some (decoy_hit s)
        else none)
unfolding detect new_honeypot
detect-new_honeypot es s =
    ground (arith, mem-extension_set (to_lower s.event.to_user) es, any-names_nothing es)
