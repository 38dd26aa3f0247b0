-- ===== src/Whitelist/Laws.antt =====
-- What a whitelist covers, in the words of its entries.
use sipreaper.Common.{
  if◌then◌else◌, ◌≡◌, refl, inl, inr, Bool, true, false, ◌||◌, List, [], ◌∷◌, map, none, some,
  arith, Text, any, Option-cases,
}
use sipreaper.Models.{WhitelistEntry}
use sipreaper.Net.{Ip, IpNet, net_contains}
use sipreaper.Store.{Store, insert_by_creation, oldest_first, list_whitelist}
use sipreaper.Whitelist.{
  Whitelist, StaticEntry, parse_entry, parse_entries, in_any, is_local, contains, reload_static,
  reload_dynamic, empty_whitelist, new_whitelist,
}

-- The network that an entry writes holds the address.
abbrev pub covers : Ip → Text → Bool
covers ip t = elim (parse_entry t) [ none ↦ false | some n ↦ net_contains n ip ]

parse_entries-covers :
    (ip : Ip) (ts : List Text) (ns : List IpNet)
    → parse_entries ts ≡ some ns
    → in_any ip ns ≡ any (covers ip) ts
unfolding parse_entries
parse_entries-covers ip [] ns h = ground arith
parse_entries-covers ip (t ∷ ts) [] h = ground arith
parse_entries-covers ip (t ∷ ts) (n ∷ ns) h = ground (arith, parse_entries-covers ip ts ns)

any-insert :
    (p : WhitelistEntry → Bool) (w : WhitelistEntry) (ws : List WhitelistEntry)
    → any p (insert_by_creation w ws) ≡ (p w || any p ws)
unfolding insert_by_creation
any-insert p w [] = refl
any-insert p w (v ∷ ws) = ground (arith, any-insert p w ws)

any-oldest_first :
    (p : WhitelistEntry → Bool) (ws : List WhitelistEntry) → any p (oldest_first ws) ≡ any p ws
unfolding oldest_first
any-oldest_first p [] = refl
any-oldest_first p (w ∷ ws) =
    ground (arith, any-insert p w (oldest_first ws), any-oldest_first p ws)

any-map {ℓ κ} :
    {A : Type ℓ} {B : Type κ} (p : B → Bool) (f : A → B) (xs : List A)
    → any p (map f xs) ≡ any (λ x. p (f x)) xs
any-map p f [] = refl
any-map p f (x ∷ xs) = ground (arith, any-map p f xs)

-- A reload of the dynamic entries that succeeds covers exactly what the table's entries cover,
-- beside the static networks and the host's own addresses; one that fails changes nothing.
pub contains-reload_dynamic :
    (up : Bool) (s : Store) (wl : Whitelist) (ip : Ip)
    → contains (reload_dynamic up s wl).0 ip ≡ (
        if (reload_dynamic up s wl).1
        then is_local wl.local ip
          || (in_any ip wl.static || any (λ (e : WhitelistEntry). covers ip e.ip_cidr) s.whitelist)
        else contains wl ip)
unfolding contains reload_dynamic list_whitelist
contains-reload_dynamic false s wl ip = refl
contains-reload_dynamic true s wl ip =
    let text = λ (e : WhitelistEntry). e.ip_cidr in
    let texts = map text (oldest_first s.whitelist) in
    elim (Option-cases (parse_entries texts)) [
      | inl failed ↦ ground arith
      | inr (ns, parsed) ↦ ground (
        arith,
        parsed,
        parse_entries-covers ip texts ns parsed,
        any-map (covers ip) text (oldest_first s.whitelist),
        any-oldest_first (λ (e : WhitelistEntry). covers ip e.ip_cidr) s.whitelist,
      )
    ]

-- A whitelist that could be built covers exactly what the configured entries and the table's
-- entries cover, for whichever address.
pub contains-new_whitelist :
    (up : Bool) (s : Store) (entries : List StaticEntry) (wl : Whitelist) (ip : Ip)
    → new_whitelist up s entries ≡ some wl
    → contains wl ip ≡ (
        any (λ (e : StaticEntry). covers ip e.ip) entries
        || any (λ (e : WhitelistEntry). covers ip e.ip_cidr) s.whitelist)
unfolding new_whitelist reload_static
contains-new_whitelist up s entries wl ip h =
    let text = λ (e : StaticEntry). e.ip in
    let texts = map text entries in
    elim (Option-cases (parse_entries texts)) [
      | inl failed ↦ ground arith
      | inr (ns, parsed) ↦ ground (
        arith,
        parsed,
        parse_entries-covers ip texts ns parsed,
        any-map (covers ip) text entries,
        contains-reload_dynamic up s (record empty_whitelist { static = ns }) ip,
      )
    ]
