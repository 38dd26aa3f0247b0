-- ===== src/Banner/Senders.antt =====
-- Whole frames of IPv4 and IPv6 packets, and who sent them.
use sipreaper.Common.{
  ℕ, zero, suc, ◌+◌, ◌*◌, ◌≤◌, ◌≡◌, refl, ap, ◌∙◌, inl, inr, Bool-cases, ltb, if◌then◌else◌, Bool,
  false, not, ◌&&◌, ◌||◌, List, [], ◌∷◌, ◌++◌, none, some, Text, arith, length, length-append,
  drop-drop, drop-append, take-append, take, drop, text_eq,
}
use sipreaper.Banner.Bans.{Sender, sender, is_sender, sender_of, IsHash, xdp_ban_func-ban}
use sipreaper.Banner.Frame.{XdpAction, u16, walk, xdp_ban_func, is_vlan, vlan_max_depth}
use sipreaper.Banner.Keys.{mapped_prefix, is_sender-v4, is_sender-v6}
use sipreaper.Banner.{Maps, ban, unban}
use sipreaper.Net.{Ip}

-- A VLAN tag: of 802.1ad or of 802.1Q, and its two bytes.
pub record Tag : Type 0 where
  pub ad : Bool
  pub high : ℕ
  pub low : ℕ

-- What a frame carries: the bytes before the source address, that address, and those after it.
pub data Packet : Type 0 where
  ipv4 : Text → Ip → Text → Packet
  ipv6 : Text → Ip → Text → Packet

abbrev pub packet_bytes : Packet → Text
packet_bytes (Packet.ipv4 head k rest) = 8 ∷ 0 ∷ (head ++ (k ++ rest))
packet_bytes (Packet.ipv6 head k rest) = 134 ∷ 221 ∷ (head ++ (k ++ rest))

abbrev pub tagged : List Tag → Text → Text
tagged [] t = t
tagged (tag ∷ tags) t =
    (if tag.ad then 136 else 129) ∷ (if tag.ad then 168 else 0) ∷ tag.high ∷ tag.low ∷ tagged tags t

-- Both hardware addresses, the tags, and the packet behind its type.
abbrev pub frame_of : Text → List Tag → Packet → Text
frame_of macs tags p = macs ++ tagged tags (packet_bytes p)

-- The header is there as a whole: 20 bytes for IPv4, with the source at the 12th, and 40 for IPv6,
-- with the source at the 8th.
abbrev pub IsWhole : Packet → Type 0
IsWhole (Packet.ipv4 head k rest) = (length head ≡ 12) × (length k ≡ 4) × (4 ≤ length rest)
IsWhole (Packet.ipv6 head k rest) = (length head ≡ 8) × (length k ≡ 16) × (16 ≤ length rest)

-- Whether an address is that of the packet's source. An IPv4 address has two forms; the long one
-- is no IPv6 address.
abbrev pub is_from : Ip → Packet → Bool
is_from ip (Packet.ipv4 head k rest) = text_eq ip k || text_eq ip (mapped_prefix ++ k)
is_from ip (Packet.ipv6 head k rest) = text_eq ip k && not (text_eq (take 12 ip) mapped_prefix)

-- The walk over as many tags as it goes through comes to the type of the packet.
walk-tagged :
    (n : ℕ) (tags : List Tag) (a b : ℕ) (t : Text)
    → length tags ≤ n
    → is_vlan (a * 256 + b) ≡ false
    → walk n (u16 (tagged tags (a ∷ b ∷ t))) (drop 2 (tagged tags (a ∷ b ∷ t)))
      ≡ some (a * 256 + b, t)
unfolding walk
walk-tagged zero [] a b t le h = refl
walk-tagged (suc n) [] a b t le h = rw (walk, h) refl
walk-tagged zero (tag ∷ tags) a b t le h = absurd (omega (arith, le))
walk-tagged (suc n) (tag ∷ tags) a b t le h =
    let long : ltb (suc (suc (length (tagged tags (a ∷ b ∷ t))))) 4 ≡ false =
      ground (arith, long_enough tags) in
    let rest = walk-tagged n tags a b t (omega (arith, le)) h in
    elim (Bool-cases tag.ad) [ inl ad ↦ rw (walk, ad, long) rest | inr q ↦ rw (walk, q, long) rest ]
  where
    long_enough : (tags : List Tag) → 2 ≤ length (tagged tags (a ∷ b ∷ t))
    long_enough [] = omega arith
    long_enough (tag ∷ tags) = omega (arith, long_enough tags)

-- What the program of the kernel takes for the sender of a frame is the source of its packet.
abbrev source_of : Packet → Sender
source_of (Packet.ipv4 head k rest) = Sender.v4 k
source_of (Packet.ipv6 head k rest) = Sender.v6 k

sender_of-ipv4 :
    (head : Text) (k : Ip) (rest : Text)
    → IsWhole (Packet.ipv4 head k rest)
    → sender_of (8 * 256 + 0) (head ++ (k ++ rest)) ≡ some (Sender.v4 k)
sender_of-ipv4 head k rest (h, n, r) =
    let long : ltb (length (head ++ (k ++ rest))) 20 ≡ false =
      ground (arith, length-append head (k ++ rest), length-append k rest, h, n, r) in
    let at : take 4 (drop 12 (head ++ (k ++ rest))) ≡ k =
      ap (take 4) (drop-append head (k ++ rest) 12 h) ∙ take-append k rest 4 n in
    ground (arith, long, at)

sender_of-ipv6 :
    (head : Text) (k : Ip) (rest : Text)
    → IsWhole (Packet.ipv6 head k rest)
    → sender_of (134 * 256 + 221) (head ++ (k ++ rest)) ≡ some (Sender.v6 k)
sender_of-ipv6 head k rest (h, n, r) =
    let long : ltb (length (head ++ (k ++ rest))) 40 ≡ false =
      ground (arith, length-append head (k ++ rest), length-append k rest, h, n, r) in
    let at : take 16 (drop 8 (head ++ (k ++ rest))) ≡ k =
      ap (take 16) (drop-append head (k ++ rest) 8 h) ∙ take-append k rest 16 n in
    ground (arith, long, at)

sender-tagged :
    (macs : Text) (tags : List Tag) (a b : ℕ) (t : Text) (q : Sender)
    → length macs ≡ 12
    → length tags ≤ 2
    → is_vlan (a * 256 + b) ≡ false
    → sender_of (a * 256 + b) t ≡ some q
    → sender (macs ++ tagged tags (a ∷ b ∷ t)) ≡ some q
unfolding sender
sender-tagged macs tags a b t q m few plain found =
    let after = tagged tags (a ∷ b ∷ t) in
    let frame = macs ++ after in
    let long : ltb (length frame) 14 ≡ false =
      ground (arith, length-append macs after, m, two_more tags) in
    let at : drop 12 frame ≡ after = drop-append macs after 12 m in
    let past : drop 14 frame ≡ drop 2 after = drop-drop 12 2 frame ∙ ap (drop 2) at in
    rw (sender, long, at, past, walk-tagged vlan_max_depth tags a b t few plain) found
  where
    two_more : (tags : List Tag) → 2 ≤ length (tagged tags (a ∷ b ∷ t))
    two_more [] = omega arith
    two_more (tag ∷ tags) = omega (arith, two_more tags)

is_sender-frame_of :
    (ip : Ip) (macs : Text) (tags : List Tag) (p : Packet)
    → length macs ≡ 12
    → length tags ≤ 2
    → IsWhole p
    → is_sender ip (sender (frame_of macs tags p)) ≡ is_from ip p
is_sender-frame_of ip macs tags (Packet.ipv4 head k rest) m few (h, n, r) =
    ap (is_sender ip) (
      sender-tagged macs tags 8 0 (head ++ (k ++ rest)) (Sender.v4 k) m few refl
        (sender_of-ipv4 head k rest (h, n, r)))
    ∙ is_sender-v4 ip k n
is_sender-frame_of ip macs tags (Packet.ipv6 head k rest) m few (h, n, r) =
    ap (is_sender ip) (
      sender-tagged macs tags 134 221 (head ++ (k ++ rest)) (Sender.v6 k) m few refl
        (sender_of-ipv6 head k rest (h, n, r)))
    ∙ is_sender-v6 ip k n

module _ {W : Type 0} (maps : Maps W) (h4 : IsHash maps.banned_v4 maps.banned_v6)
    (h6 : IsHash maps.banned_v6 maps.banned_v4) where
  -- Of a frame with up to two VLAN tags and a whole IPv4 or IPv6 header, a ban of an address that
  -- reports no error makes the program of the kernel drop it exactly if it was sent from that
  -- address, on top of what it dropped before, and an unban that reports none makes it pass it
  -- exactly if it was, and else fare as before. An IPv4 address may be in either of Go's forms. The
  -- maps keep what is put in them, until it is deleted.
  pub xdp_ban_func-frame_of :
      (before later : W) (ip : Ip) (macs : Text) (tags : List Tag) (p : Packet)
      → (ban maps before ip).1 ≡ none
      → (unban maps later ip).1 ≡ none
      → length macs ≡ 12
      → length tags ≤ 2
      → IsWhole p
      → (xdp_ban_func maps (ban maps before ip).0 (frame_of macs tags p) ≡ (
          if is_from ip p
          then XdpAction.dropped
          else xdp_ban_func maps before (frame_of macs tags p)))
        × (xdp_ban_func maps (unban maps later ip).0 (frame_of macs tags p) ≡ (
            if is_from ip p
            then XdpAction.pass
            else xdp_ban_func maps later (frame_of macs tags p)))
  xdp_ban_func-frame_of before later ip macs tags p banned freed m few whole =
      let frame = frame_of macs tags p in
      let (drops, passes) = xdp_ban_func-ban maps h4 h6 before later ip frame banned freed in
      let same = is_sender-frame_of ip macs tags p m few whole in
      (
        drops ∙ ap (λ b. if b then XdpAction.dropped else xdp_ban_func maps before frame) same,
        passes ∙ ap (λ b. if b then XdpAction.pass else xdp_ban_func maps later frame) same,
      )
