-- ===== src/Banner/Frame.antt =====
-- internal/banner/bpf/xdp_ban.c: the program that the kernel runs on each frame.
use sipreaper.Common.{
  ℕ, zero, suc, ◌+◌, ◌*◌, ltb, ◌==◌, if◌then◌else◌, Bool, true, false, ◌||◌, ◌∷◌, Option, none,
  some, Text, length, take, drop,
}
use sipreaper.Banner.{Maps}

pub data XdpAction : Type 0 where
  pass : XdpAction
  dropped : XdpAction

-- A field of two bytes on the wire.
abbrev pub u16 : Text → ℕ
u16 (a ∷ b ∷ _) = a * 256 + b
u16 _ = 0

abbrev pub eth_p_ip : ℕ
eth_p_ip = 2_048

abbrev pub eth_p_ipv6 : ℕ
eth_p_ipv6 = 34_525

abbrev pub is_vlan : ℕ → Bool
is_vlan proto = proto == 33_024 || proto == 34_984

abbrev pub vlan_max_depth : ℕ
vlan_max_depth = 2

-- The loop over the VLAN tags: the inner type and what follows, or none at a tag that is cut off.
unfoldable pub walk : ℕ → ℕ → Text → Option (ℕ × Text)
walk zero proto cur = some (proto, cur)
walk (suc n) proto cur =
    let inner = walk n (u16 (drop 2 cur)) (drop 4 cur) in
    if is_vlan proto then if ltb (length cur) 4 then none else inner else some (proto, cur)

abbrev pub verdict : Bool → XdpAction
verdict true = XdpAction.dropped
verdict false = XdpAction.pass

-- By the type of what the frame carries.
unfoldable pub on_packet : {W : Type 0} → Maps W → W → ℕ → Text → XdpAction
on_packet m w proto cur =
    if proto == eth_p_ip
    then if ltb (length cur) 20
      then XdpAction.pass
      else verdict (m.banned_v4.has w (take 4 (drop 12 cur)))
    else if proto == eth_p_ipv6
    then if ltb (length cur) 40
      then XdpAction.pass
      else verdict (m.banned_v6.has w (take 16 (drop 8 cur)))
    else XdpAction.pass

-- `xdp_ban_func`.
unfoldable pub xdp_ban_func : {W : Type 0} → Maps W → W → Text → XdpAction
unfolding walk on_packet
xdp_ban_func m w frame =
    if ltb (length frame) 14
    then XdpAction.pass
    else elim (walk vlan_max_depth (u16 (drop 12 frame)) (drop 14 frame)) [
      | none ↦ XdpAction.pass
      | some p ↦ on_packet m w p.0 p.1
    ]
