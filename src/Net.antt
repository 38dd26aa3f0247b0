-- ===== src/Net.antt =====
-- The parts of Go's package `net` that the program uses: addresses as byte slices, their text
-- form, and networks. A nil address is the empty list.
pub mod Parse
mod Tests
use Prim.Native.Nat.{bit_and}
use sipreaper.Common.{
  ℕ, suc, ◌+◌, ◌-◌, ◌*◌, ◌/◌, ◌%◌, ltb, leb, ◌==◌, if◌then◌else◌, Bool, true, false, ◌&&◌, ◌||◌,
  not, List, [], ◌∷◌, ◌++◌, map, Text, codes, length, take, drop, text_eq, is_empty,
}

abbrev pub Ip : Type 0
Ip = List ℕ

abbrev pub is_nil : Ip → Bool
is_nil = is_empty

abbrev v4_in_v6_prefix : List ℕ
v4_in_v6_prefix = 0 ∷ 0 ∷ 0 ∷ 0 ∷ 0 ∷ 0 ∷ 0 ∷ 0 ∷ 0 ∷ 0 ∷ 255 ∷ 255 ∷ []

-- `ip.To4()`: the four bytes of an IPv4 address in either form, or nil.
unfoldable pub to4 : Ip → Ip
unfolding text_eq
to4 ip =
    if length ip == 4
    then ip
    else if length ip == 16 && text_eq (take 12 ip) v4_in_v6_prefix
    then drop 12 ip
    else []

-- `ip.To16()`.
unfoldable pub to16 : Ip → Ip
to16 ip = if length ip == 4 then v4_in_v6_prefix ++ ip else if length ip == 16 then ip else []

-- `ip.IsLoopback()`.
unfoldable pub is_loopback : Ip → Bool
unfolding to4 text_eq
is_loopback ip =
    if is_nil (to4 ip)
    then text_eq ip (0 ∷ 0 ∷ 0 ∷ 0 ∷ 0 ∷ 0 ∷ 0 ∷ 0 ∷ 0 ∷ 0 ∷ 0 ∷ 0 ∷ 0 ∷ 0 ∷ 0 ∷ 1 ∷ [])
    else text_eq (take 1 (to4 ip)) (127 ∷ [])

abbrev digit : ℕ → ℕ
digit d = if ltb d 10 then d + b'0' else d + 87

-- A byte in decimal.
abbrev decimal : ℕ → Text
decimal b =
    if ltb b 10
    then digit b ∷ []
    else if ltb b 100
    then digit (b / 10) ∷ digit (b % 10) ∷ []
    else digit (b / 100) ∷ digit (b / 10 % 10) ∷ digit (b % 10) ∷ []

-- A 16-bit group in hexadecimal, without leading zeros.
abbrev hex : ℕ → Text
hex g =
    if ltb g 16
    then digit g ∷ []
    else if ltb g 256
    then digit (g / 16) ∷ digit (g % 16) ∷ []
    else if ltb g 4096
    then digit (g / 256) ∷ digit (g / 16 % 16) ∷ digit (g % 16) ∷ []
    else digit (g / 4096) ∷ digit (g / 256 % 16) ∷ digit (g / 16 % 16) ∷ digit (g % 16) ∷ []

unfoldable pub join : ℕ → List Text → Text
join sep [] = []
join sep (t ∷ []) = t
join sep (t ∷ u ∷ ts) = t ++ (sep ∷ join sep (u ∷ ts))

groups : List ℕ → List ℕ
groups (a ∷ b ∷ bs) = (a * 256 + b) ∷ groups bs
groups _ = []

zero_run : List ℕ → ℕ
zero_run [] = 0
zero_run (g ∷ gs) = let rest = zero_run gs in if g == 0 then suc rest else 0

-- The first longest run of at least two zero groups, as its start and its length.
best_run : ℕ → ℕ → ℕ → List ℕ → ℕ × ℕ
unfolding zero_run
best_run i start len [] = (start, len)
best_run i start len (g ∷ gs) =
    let run = zero_run (g ∷ gs) in
    let longer = leb 2 run && ltb len run in
    best_run (suc i) (if longer then i else start) (if longer then run else len) gs

v6_string : List ℕ → Text
unfolding best_run join
v6_string gs =
    let (start, len) = best_run 0 0 0 gs in
    if len == 0
    then join b':' (map hex gs)
    else join b':' (map hex (take start gs))
      ++ (b':' ∷ b':' ∷ join b':' (map hex (drop (start + len) gs)))

hex_bytes : List ℕ → Text
hex_bytes [] = []
hex_bytes (b ∷ bs) = digit (b / 16) ∷ digit (b % 16) ∷ hex_bytes bs

-- `ip.String()`.
unfoldable pub ip_string : Ip → Text
unfolding to4 v6_string groups hex_bytes join
ip_string ip =
    if is_nil ip
    then codes "<nil>"
    else if not (is_nil (to4 ip))
    then join b'.' (map decimal (to4 ip))
    else if length ip == 16
    then v6_string (groups ip)
    else b'?' ∷ hex_bytes ip

-- `net.IPNet`.
pub record IpNet : Type 0 where
  pub ip : Ip
  pub mask : List ℕ

-- The comparison loop of `IPNet.Contains`.
pub masked_eq : List ℕ → List ℕ → List ℕ → Bool
masked_eq [] m b = true
masked_eq (x ∷ xs) m [] = true
masked_eq (x ∷ xs) [] (y ∷ ys) = true
masked_eq (x ∷ xs) (m ∷ ms) (y ∷ ys) = (bit_and x m == bit_and y m) && masked_eq xs ms ys

-- `n.Contains(ip)`.
unfoldable pub net_contains : IpNet → Ip → Bool
unfolding to4 masked_eq
net_contains n ip =
    let nn = if is_nil (to4 n.ip) then n.ip else to4 n.ip in
    let m = if length nn == 4 && length n.mask == 16 then drop 12 n.mask else n.mask in
    let x = if is_nil (to4 ip) then ip else to4 ip in length x == length nn && masked_eq nn m x
