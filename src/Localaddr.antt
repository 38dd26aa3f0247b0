-- ===== src/Localaddr.antt =====
-- internal/localaddr: the addresses of this host. `net.InterfaceAddrs` is an argument, what it
-- returned: none for an error, else the addresses, nil where an interface has one of another kind.
use sipreaper.Common.{
  ◌≡◌, refl, ◌||◌, ◌&&◌, not, if◌then◌else◌, Bool, true, false, List, [], ◌∷◌, Option, none, some,
  Text, mem_text, text_eq, arith, any, Bool-cases, inl, inr,
}
use sipreaper.Net.{Ip, is_nil, is_loopback, ip_string}

-- The map's keys.
pub record Set : Type 0 where
  pub ips : List Text

abbrev pub new : Set
new = record { ips = [] }

-- The loop of `Refresh`.
unfoldable pub strings_of : List Ip → List Text
strings_of [] = []
strings_of (ip ∷ addrs) =
    let rest = strings_of addrs in if is_nil ip then rest else ip_string ip ∷ rest

-- `Refresh`, and whether it reports an error.
unfoldable pub refresh : Set → Option (List Ip) → Set × Bool
unfolding strings_of
refresh s none = (s, true)
refresh s (some addrs) = (record { ips = strings_of addrs }, false)

unfoldable pub contains : Set → Ip → Bool
contains s ip =
    if is_nil ip then false else if is_loopback ip then true else mem_text (ip_string ip) s.ips

-- The refreshes of the ticker, one after the other.
unfoldable pub refreshes : Set → List (Option (List Ip)) → Set
unfolding refresh
refreshes s [] = s
refreshes s (r ∷ rs) = refreshes (refresh s r).0 rs

abbrev pub Failures : List (Option (List Ip)) → Type 0
Failures [] = Unit
Failures (r ∷ rs) = (r ≡ none) × Failures rs

refreshes-Failures : (s : Set) (rs : List (Option (List Ip))) → Failures rs → refreshes s rs ≡ s
unfolding refreshes
refreshes-Failures s [] h = refl
refreshes-Failures s (r ∷ rs) (bad, h) = rw bad (refreshes-Failures s rs h)

mem_text-strings_of :
    (ip : Ip) (addrs : List Ip)
    → is_nil ip ≡ false
    → mem_text (ip_string ip) (strings_of addrs)
      ≡ any (λ a. not (is_nil a) && text_eq (ip_string ip) (ip_string a)) addrs
unfolding strings_of
mem_text-strings_of ip [] h = refl
mem_text-strings_of ip (a ∷ addrs) h = ground (arith, mem_text-strings_of ip addrs h)

contained :
    (addrs : List Ip) (ip : Ip)
    → contains (record { ips = strings_of addrs }) ip ≡ (
        not (is_nil ip)
        && (is_loopback ip
            || any (λ a. not (is_nil a) && text_eq (ip_string ip) (ip_string a)) addrs))
unfolding contains
contained addrs ip = elim (Bool-cases (is_nil ip)) [
  | inl nil ↦ rw (contains, nil) refl
  | inr valid ↦ elim (Bool-cases (is_loopback ip)) [
    | inl home ↦ rw (contains, valid, home) refl
    | inr away ↦ rw (contains, valid, away) (mem_text-strings_of ip addrs valid)
  ]
]

-- After a refresh that worked, and any number that failed since, the set contains exactly the
-- loopback addresses and those that the interfaces had, compared as they print, so that the two
-- forms of an IPv4 address are one; never nil.
pub contains-refreshes :
    (s : Set) (addrs : List Ip) (rs : List (Option (List Ip))) (ip : Ip)
    → Failures rs
    → contains (refreshes (refresh s (some addrs)).0 rs) ip ≡ (
        not (is_nil ip)
        && (is_loopback ip
            || any (λ a. not (is_nil a) && text_eq (ip_string ip) (ip_string a)) addrs))
unfolding refresh
contains-refreshes s addrs rs ip h =
    rw (refreshes-Failures (record { ips = strings_of addrs }) rs h) (contained addrs ip)
