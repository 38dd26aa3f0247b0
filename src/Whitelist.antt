-- ===== src/Whitelist.antt =====
-- internal/whitelist/whitelist.go. The mutex makes each call one step. The host's own addresses
-- are the argument `local` of package localaddr, none until it is installed.
pub mod Laws
mod Tests
use mathlib.Core.Option
use sipreaper.Common.{
  ℕ, if◌then◌else◌, ◌==◌, Bool, true, false, not, ◌||◌, List, [], ◌∷◌, ◌++◌, map, Option, none,
  some, Text, codes, any,
}
use sipreaper.Models.{WhitelistEntry}
use sipreaper.Net.Parse.{parse_ip, parse_cidr}
use sipreaper.Net.{Ip, IpNet, net_contains, to4, is_nil}
use sipreaper.Store.{Store, Result, ok, err, list_whitelist}

pub record StaticEntry : Type 0 where
  pub ip : Text
  pub comment : Text

pub record Whitelist : Type 0 where
  pub static : List IpNet
  pub dynamic : List IpNet
  pub local : Option (Ip → Bool)

-- `parseCIDR`: a bare address is its own network.
abbrev pub has_slash : Text → Bool
has_slash = any (λ c. c == b'/')

unfoldable pub parse_entry : Text → Option IpNet
parse_entry s = if has_slash s then parse_cidr s else elim (parse_ip s) [
  | none ↦ none
  | some ip ↦ parse_cidr (s ++ (if is_nil (to4 ip) then codes "/128" else codes "/32"))
]

infixl 5 ◌>>=◌
abbrev ◌>>=◌ : {A B : Type 0} → Option A → (A → Option B) → Option B
none >>= f = none
some a >>= f = f a

-- `parseEntries`, and the loop of `ReloadDynamic`: one bad entry spoils the list.
unfoldable pub parse_entries : List Text → Option (List IpNet)
parse_entries [] = some []
parse_entries (t ∷ ts) = do n ← parse_entry t; ns ← parse_entries ts; some (n ∷ ns)

abbrev pub in_any : Ip → List IpNet → Bool
in_any ip = any (λ n. net_contains n ip)

abbrev pub is_local : Option (Ip → Bool) → Ip → Bool
is_local none ip = false
is_local (some f) ip = f ip

-- `Contains`.
unfoldable pub contains : Whitelist → Ip → Bool
contains wl ip =
    if is_local wl.local ip
    then true
    else if in_any ip wl.static
    then true
    else in_any ip wl.dynamic

-- `ReloadStatic`: the new whitelist, and whether it succeeded.
unfoldable pub reload_static : Whitelist → List StaticEntry → Whitelist × Bool
reload_static wl entries = elim (parse_entries (map (λ (e : StaticEntry). e.ip) entries)) [
  | none ↦ (wl, false)
  | some nets ↦ (record wl { static = nets }, true)
]

-- `ReloadDynamic`, with the answer of the database.
unfoldable pub reload_dynamic : Bool → Store → Whitelist → Whitelist × Bool
reload_dynamic up s wl = elim (list_whitelist up s) [
  | err ↦ (wl, false)
  | ok entries ↦ elim (parse_entries (map (λ (e : WhitelistEntry). e.ip_cidr) entries)) [
    | none ↦ (wl, false)
    | some nets ↦ (record wl { dynamic = nets }, true)
  ]
]

abbrev pub empty_whitelist : Whitelist
empty_whitelist = record { static = []; dynamic = []; local = none }

-- `New`.
unfoldable pub new_whitelist : Bool → Store → List StaticEntry → Option Whitelist
new_whitelist up s entries =
    let (wl, parsed) = reload_static empty_whitelist entries in
    let (wl', loaded) = reload_dynamic up s wl in
    if not parsed then none else if not loaded then none else some wl'

abbrev pub set_local : Whitelist → (Ip → Bool) → Whitelist
set_local wl f = record wl { local = some f }
