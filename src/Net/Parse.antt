-- ===== src/Net/Parse.antt =====
-- `net.ParseIP` and `net.ParseCIDR`.
use Prim.Native.Nat.{bit_and}
use mathlib.Core.Option
use sipreaper.Common.{
  ℕ, zero, suc, ◌+◌, ◌-◌, ◌*◌, ◌/◌, ◌%◌, ◌^◌, ltb, leb, ◌==◌, if◌then◌else◌, Bool, true, false,
  ◌&&◌, ◌||◌, List, [], ◌∷◌, ◌++◌, Option, none, some, Text, length,
}
use sipreaper.Net.{Ip, IpNet, to16}

infixl 5 ◌>>=◌
abbrev ◌>>=◌ : {A B : Type 0} → Option A → (A → Option B) → Option B
none >>= f = none
some a >>= f = f a

-- The pieces of a text between the separators.
pub split_from : ℕ → Text → Text → List Text
split_from sep cur [] = cur ∷ []
split_from sep cur (c ∷ s) =
    let closed = cur ∷ split_from sep [] s in
    let longer = split_from sep (cur ++ c ∷ []) s in if c == sep then closed else longer

abbrev is_digit : ℕ → Bool
is_digit c = leb b'0' c && leb c b'9'

dec_value : ℕ → Text → Option ℕ
dec_value acc [] = some acc
dec_value acc (c ∷ s) =
    let rest = dec_value (acc * 10 + (c - b'0')) s in if is_digit c then rest else none

-- No leading zero, and at most 255.
v4_field : Text → Option ℕ
unfolding dec_value
v4_field [] = none
v4_field (c ∷ s) =
    if (c == b'0' && ltb 0 (length s)) || ltb 2 (length s)
    then none
    else (do v ← dec_value 0 (c ∷ s); if leb v 255 then some v else none)

v4_fields : List Text → Option (List ℕ)
v4_fields [] = some []
v4_fields (t ∷ ts) = do v ← v4_field t; vs ← v4_fields ts; some (v ∷ vs)

pub parse_v4 : Text → Option Ip
unfolding split_from v4_field v4_fields
parse_v4 s =
    let fields = split_from b'.' [] s in if length fields == 4 then v4_fields fields else none

abbrev hex_digit : ℕ → Option ℕ
hex_digit c =
    if is_digit c
    then some (c - b'0')
    else if leb b'a' c && leb c b'f'
    then some (c - 87)
    else if leb b'A' c && leb c b'F'
    then some (c - 55)
    else none

hex_value : ℕ → Text → Option ℕ
hex_value acc [] = some acc
hex_value acc (c ∷ s) = do d ← hex_digit c; hex_value (acc * 16 + d) s

hex_group : Text → Option (List ℕ)
unfolding hex_value
hex_group [] = none
hex_group (c ∷ s) =
    if ltb 3 (length s) then none else (do v ← hex_value 0 (c ∷ s); some (v / 256 ∷ v % 256 ∷ []))

has_dot : Text → Bool
has_dot [] = false
has_dot (c ∷ s) = c == b'.' || has_dot s

-- The last field may be an IPv4 address, if `v4_end`.
v6_fields : Bool → List Text → Option (List ℕ)
v6_fields v4_end [] = some []
v6_fields v4_end (t ∷ []) = if v4_end && has_dot t then parse_v4 t else hex_group t
v6_fields v4_end (t ∷ u ∷ ts) = do g ← hex_group t; gs ← v6_fields v4_end (u ∷ ts); some (g ++ gs)

v6_side : Bool → Text → Option (List ℕ)
unfolding v6_fields split_from has_dot hex_group
v6_side v4_end [] = some []
v6_side v4_end (c ∷ s) = v6_fields v4_end (split_from b':' [] (c ∷ s))

-- The text before and after the first `::`.
cut_ellipsis : Text → Option (Text × Text)
cut_ellipsis (a ∷ b ∷ s) =
    let later = Option.map (λ (p : Text × Text). (a ∷ p.0, p.1)) (cut_ellipsis (b ∷ s)) in
    if a == b':' && b == b':' then some ([], s) else later
cut_ellipsis _ = none

zeros : ℕ → List ℕ
zeros zero = []
zeros (suc n) = 0 ∷ zeros n

parse_v6 : Text → Option Ip
unfolding cut_ellipsis v6_side hex_group v6_fields split_from zeros
parse_v6 s = elim (cut_ellipsis s) [
  | none ↦ do bs ← v6_fields true (split_from b':' [] s); if length bs == 16 then some bs else none
  | some (left, right) ↦ do
    l ← v6_side false left
    r ← v6_side true right
    if ltb (length l + length r) 16
        then some (l ++ (zeros (16 - (length l + length r)) ++ r))
        else none
]

-- `netip.ParseAddr`, on the text from its first separator on; a zone is refused.
parse_by : Text → Text → Option Ip
parse_by s [] = none
parse_by s (c ∷ rest) =
    let later = parse_by s rest in
    if c == b'.'
    then parse_v4 s
    else if c == b':'
    then parse_v6 s
    else if c == b'%'
    then none
    else later

parse_addr : Text → Option Ip
unfolding parse_by parse_v4 parse_v6
parse_addr s = parse_by s s

-- `net.ParseIP`: the sixteen-byte form, or `none` for nil.
unfoldable pub parse_ip : Text → Option Ip
unfolding parse_addr to16
parse_ip s = Option.map to16 (parse_addr s)

-- `net.CIDRMask`, over the bytes that are left.
cidr_mask : ℕ → ℕ → List ℕ
cidr_mask zero ones = []
cidr_mask (suc k) ones = (if leb 8 ones then 255 else 256 - 2 ^ (8 - ones)) ∷ cidr_mask k (ones - 8)

mask_bytes : List ℕ → List ℕ → List ℕ
mask_bytes (b ∷ bs) (m ∷ ms) = bit_and b m ∷ mask_bytes bs ms
mask_bytes _ _ = []

cut_slash : Text → Option (Text × Text)
cut_slash [] = none
cut_slash (c ∷ s) =
    let later = Option.map (λ (p : Text × Text). (c ∷ p.0, p.1)) (cut_slash s) in
    if c == b'/' then some ([], s) else later

abbrev mask_size : Text → Option ℕ
mask_size [] = none
mask_size (c ∷ s) = dec_value 0 (c ∷ s)

-- The network of `net.ParseCIDR`.
unfoldable pub parse_cidr : Text → Option IpNet
unfolding parse_addr cut_slash cidr_mask mask_bytes dec_value
parse_cidr s = do
  (addr, size) ← cut_slash s
  ip ← parse_addr addr
  n ← mask_size size
  if leb n (8 * length ip)
      then some
          (record { ip = mask_bytes ip (cidr_mask (length ip) n); mask = cidr_mask (length ip) n })
      else none
