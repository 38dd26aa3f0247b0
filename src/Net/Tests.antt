-- ===== src/Net/Tests.antt =====
-- Runs of the text forms of addresses and networks.
use sipreaper.Common.{◌≡◌, refl, [], ◌∷◌, codes, some, none, true, false}
use mathlib.Core.Option
use sipreaper.Net.{ip_string, net_contains, is_loopback, IpNet}
use sipreaper.Net.Parse.{parse_ip, parse_cidr}

print_v4 : ip_string (192 ∷ 0 ∷ 2 ∷ 10 ∷ []) ≡ codes "192.0.2.10"
unfolding ip_string
print_v4 = refl

print_v6 :
    Option.map ip_string (parse_ip (codes "2001:db8:0:0:1:0:0:1"))
    ≡ some (codes "2001:db8::1:0:0:1")
unfolding ip_string parse_ip
print_v6 = refl

print_mapped : Option.map ip_string (parse_ip (codes "::ffff:10.0.0.1")) ≡ some (codes "10.0.0.1")
unfolding ip_string parse_ip
print_mapped = refl

refused :
    (parse_ip (codes "1.2.3.256") ≡ none)
    × (parse_ip (codes "1::2::3") ≡ none)
    × (parse_ip (codes "01.2.3.4") ≡ none)
    × (parse_ip (codes "::1%eth0") ≡ none)
unfolding parse_ip
refused = (refl, refl, refl, refl)

in_network :
    Option.map
      (λ (n : IpNet). net_contains n (10 ∷ 1 ∷ 2 ∷ 3 ∷ []))
      (parse_cidr (codes "10.0.0.0/8"))
    ≡ some true
unfolding net_contains parse_cidr
in_network = refl

outside_network :
    Option.map
      (λ (n : IpNet). net_contains n (192 ∷ 168 ∷ 2 ∷ 1 ∷ []))
      (parse_cidr (codes "192.168.1.77/24"))
    ≡ some false
unfolding net_contains parse_cidr
outside_network = refl

loopback : is_loopback (127 ∷ 0 ∷ 0 ∷ 1 ∷ []) ≡ true
unfolding is_loopback
loopback = refl
