-- ===== src/Banner/Bans.antt =====
-- What a ban and an unban by the XDP enforcer change for each frame that comes in.
use sipreaper.Common.{
  ◌≡◌, refl, ◌∙◌, sym, ap, ltb, ◌==◌, if◌then◌else◌, Bool, true, false, ◌&&◌, ◌||◌, not, Option,
  none, some, Text, arith, text_eq, length, take, drop, Bool-cases, Option-cases, inl, inr, ℕ,
  codes,
}
use sipreaper.Banner.Frame.{
  XdpAction, u16, walk, on_packet, xdp_ban_func, vlan_max_depth, eth_p_ip, eth_p_ipv6, verdict,
}
use sipreaper.Banner.{BpfMap, Maps, MapError, v4_key, v6_key, ban, unban, put_text, delete_text}
use sipreaper.Net.{Ip}

-- The key of a delete with this result is not in the map any more.
abbrev pub is_gone : Option MapError → Bool
is_gone (some (MapError.failed e)) = false
is_gone _ = true

delete_text-none :
    (what : Text) (ip : Ip) (e : Option MapError) → delete_text what ip e ≡ none → is_gone e ≡ true
unfolding delete_text
delete_text-none what ip none h = refl
delete_text-none what ip (some MapError.key_not_exist) h = refl
delete_text-none what ip (some (MapError.failed e)) h = cc h

put_text-none : (what : Text) (ip : Ip) (e : Option MapError) → put_text what ip e ≡ none → e ≡ none
unfolding put_text
put_text-none what ip none h = refl
put_text-none what ip (some e) h = cc h

-- A hash map beside another: a put that succeeds adds its key, a delete that succeeds or finds
-- nothing takes it out, one that fails changes nothing, and neither touches the other map.
pub record IsHash {W : Type 0} (a b : BpfMap W) : Type 0 where
  pub put_has :
      (w : W) (k q : Ip) → (a.put w k).1 ≡ none → a.has (a.put w k).0 q ≡ (text_eq q k || a.has w q)
  pub put_other : (w : W) (k q : Ip) → b.has (a.put w k).0 q ≡ b.has w q
  pub delete_has :
      (w : W) (k q : Ip)
      → is_gone (a.delete w k).1 ≡ true
      → a.has (a.delete w k).0 q ≡ (not (text_eq q k) && a.has w q)
  pub delete_other : (w : W) (k q : Ip) → b.has (a.delete w k).0 q ≡ b.has w q

pub data Sender : Type 0 where
  v4 : Ip → Sender
  v6 : Ip → Sender

-- The address that the frame's packet came from, if the frame is long enough for one.
abbrev pub sender_of : ℕ → Text → Option Sender
sender_of proto cur =
    if proto == eth_p_ip
    then if ltb (length cur) 20 then none else some (Sender.v4 (take 4 (drop 12 cur)))
    else if proto == eth_p_ipv6
    then if ltb (length cur) 40 then none else some (Sender.v6 (take 16 (drop 8 cur)))
    else none

unfoldable pub sender : Text → Option Sender
unfolding walk
sender frame =
    if ltb (length frame) 14
    then none
    else elim (walk vlan_max_depth (u16 (drop 12 frame)) (drop 14 frame)) [
      | none ↦ none
      | some p ↦ sender_of p.0 p.1
    ]

-- Whether an address, in whichever form the program has it, is the sender's.
abbrev pub is_sender : Ip → Option Sender → Bool
is_sender ip none = false
is_sender ip (some (Sender.v4 k)) = elim (v4_key ip) [ none ↦ false | some j ↦ text_eq k j ]
is_sender ip (some (Sender.v6 k)) = elim (v6_key ip) [ none ↦ false | some j ↦ text_eq k j ]

-- An address has a key of one family at most.
v6_key-none : (ip : Ip) {k : Ip} → v4_key ip ≡ some k → v6_key ip ≡ none
unfolding v4_key v6_key
v6_key-none ip h = ground (arith, h)

module _ {W : Type 0} (m : Maps W) where
  abbrev fate : W → Option Sender → XdpAction
  fate w none = XdpAction.pass
  fate w (some (Sender.v4 k)) = verdict (m.banned_v4.has w k)
  fate w (some (Sender.v6 k)) = verdict (m.banned_v6.has w k)

  fate-sender_of :
      (w : W) (proto : ℕ) (cur : Text) → on_packet m w proto cur ≡ fate w (sender_of proto cur)
  unfolding on_packet
  fate-sender_of w proto cur = ground arith

  fate-sender : (w : W) (frame : Text) → xdp_ban_func m w frame ≡ fate w (sender frame)
  unfolding xdp_ban_func sender
  fate-sender w frame = elim (Bool-cases (ltb (length frame) 14)) [
    | inl runt ↦ rw (xdp_ban_func, sender, runt) refl
    | inr full ↦ elim (Option-cases (walk vlan_max_depth (u16 (drop 12 frame)) (drop 14 frame))) [
      | inl cut ↦ rw (xdp_ban_func, sender, full, cut) refl
      | inr (p, there) ↦ rw (xdp_ban_func, sender, full, there) (fate-sender_of w p.0 p.1)
    ]
  ]

  ban-v4 :
      (w : W) (ip : Ip) {k : Ip}
      → v4_key ip ≡ some k
      → ban m w ip
        ≡ ((m.banned_v4.put w k).0, put_text (codes "xdp: ban v4 ") ip (m.banned_v4.put w k).1)
  unfolding ban
  ban-v4 w ip e4 = rw (ban, e4) refl

  ban-v6 :
      (w : W) (ip : Ip) {k : Ip}
      → v4_key ip ≡ none
      → v6_key ip ≡ some k
      → ban m w ip
        ≡ ((m.banned_v6.put w k).0, put_text (codes "xdp: ban v6 ") ip (m.banned_v6.put w k).1)
  unfolding ban
  ban-v6 w ip no4 e6 = rw (ban, no4, e6) refl

  ban-invalid :
      (w : W) (ip : Ip)
      → v4_key ip ≡ none
      → v6_key ip ≡ none
      → (ban m w ip).1 ≡ some (codes "xdp: ban: not a valid IP")
  unfolding ban
  ban-invalid w ip no4 no6 = rw (ban, no4, no6) refl

  unban-v4 :
      (w : W) (ip : Ip) {k : Ip}
      → v4_key ip ≡ some k
      → unban m w ip ≡ (
        (m.banned_v4.delete w k).0,
        delete_text (codes "xdp: unban v4 ") ip (m.banned_v4.delete w k).1,
      )
  unfolding unban
  unban-v4 w ip e4 = rw (unban, e4) refl

  unban-v6 :
      (w : W) (ip : Ip) {k : Ip}
      → v4_key ip ≡ none
      → v6_key ip ≡ some k
      → unban m w ip ≡ (
        (m.banned_v6.delete w k).0,
        delete_text (codes "xdp: unban v6 ") ip (m.banned_v6.delete w k).1,
      )
  unfolding unban
  unban-v6 w ip no4 e6 = rw (unban, no4, e6) refl

  unban-invalid :
      (w : W) (ip : Ip)
      → v4_key ip ≡ none
      → v6_key ip ≡ none
      → (unban m w ip).1 ≡ some (codes "xdp: unban: not a valid IP")
  unfolding unban
  unban-invalid w ip no4 no6 = rw (unban, no4, no6) refl

  module _ (h4 : IsHash m.banned_v4 m.banned_v6) (h6 : IsHash m.banned_v6 m.banned_v4) where
    fate-ban :
        (w : W) (ip : Ip) (s : Option Sender)
        → (ban m w ip).1 ≡ none
        → fate (ban m w ip).0 s ≡ (if is_sender ip s then XdpAction.dropped else fate w s)
    fate-ban w ip none done = refl
    fate-ban w ip (some (Sender.v4 q)) done = elim (Option-cases (v4_key ip)) [
      | inr (k, e4) ↦
          let r = ban-v4 w ip e4 in
          let took = put_text-none _ ip (m.banned_v4.put w k).1 (sym (ap (λ x. x.1) r) ∙ done) in
          ground (arith, e4, r, h4.put_has w k q took)
      | inl no4 ↦ elim (Option-cases (v6_key ip)) [
        | inl no6 ↦ cc (ban-invalid w ip no4 no6, done)
        | inr (k, e6) ↦
            let pieces = ban-v6 w ip no4 e6 in ground (arith, no4, pieces, h6.put_other w k q)
      ]
    ]
    fate-ban w ip (some (Sender.v6 q)) done = elim (Option-cases (v4_key ip)) [
      | inr (k, e4) ↦
          let pieces = ban-v4 w ip e4 in
          ground (arith, pieces, v6_key-none ip e4, h4.put_other w k q)
      | inl no4 ↦ elim (Option-cases (v6_key ip)) [
        | inl no6 ↦ cc (ban-invalid w ip no4 no6, done)
        | inr (k, e6) ↦
            let r = ban-v6 w ip no4 e6 in
            let took = put_text-none _ ip (m.banned_v6.put w k).1 (sym (ap (λ x. x.1) r) ∙ done) in
            ground (arith, e6, r, h6.put_has w k q took)
      ]
    ]

    fate-unban :
        (w : W) (ip : Ip) (s : Option Sender)
        → (unban m w ip).1 ≡ none
        → fate (unban m w ip).0 s ≡ (if is_sender ip s then XdpAction.pass else fate w s)
    fate-unban w ip none done = refl
    fate-unban w ip (some (Sender.v4 q)) done = elim (Option-cases (v4_key ip)) [
      | inr (k, e4) ↦
          let r = unban-v4 w ip e4 in
          let took =
            delete_text-none _ ip (m.banned_v4.delete w k).1 (sym (ap (λ x. x.1) r) ∙ done) in
          ground (arith, e4, r, h4.delete_has w k q took)
      | inl no4 ↦ elim (Option-cases (v6_key ip)) [
        | inl no6 ↦ cc (unban-invalid w ip no4 no6, done)
        | inr (k, e6) ↦
            let pieces = unban-v6 w ip no4 e6 in ground (arith, no4, pieces, h6.delete_other w k q)
      ]
    ]
    fate-unban w ip (some (Sender.v6 q)) done = elim (Option-cases (v4_key ip)) [
      | inr (k, e4) ↦
          let pieces = unban-v4 w ip e4 in
          ground (arith, pieces, v6_key-none ip e4, h4.delete_other w k q)
      | inl no4 ↦ elim (Option-cases (v6_key ip)) [
        | inl no6 ↦ cc (unban-invalid w ip no4 no6, done)
        | inr (k, e6) ↦
            let r = unban-v6 w ip no4 e6 in
            let took =
              delete_text-none _ ip (m.banned_v6.delete w k).1 (sym (ap (λ x. x.1) r) ∙ done) in
            ground (arith, e6, r, h6.delete_has w k q took)
      ]
    ]

    -- A ban that reports no error makes the kernel's program drop exactly the frames from that
    -- address, VLAN-tagged or not, on top of what it dropped before; an unban that reports none
    -- makes it pass them. Every other frame fares as before: of the other family, of another
    -- sender, cut short, or of no sender. The address may be in either of Go's forms.
    pub xdp_ban_func-ban :
        (before later : W) (ip : Ip) (frame : Text)
        → (ban m before ip).1 ≡ none
        → (unban m later ip).1 ≡ none
        → (xdp_ban_func m (ban m before ip).0 frame ≡ (
            if is_sender ip (sender frame) then XdpAction.dropped else xdp_ban_func m before frame))
          × (xdp_ban_func m (unban m later ip).0 frame ≡ (
              if is_sender ip (sender frame) then XdpAction.pass else xdp_ban_func m later frame))
    xdp_ban_func-ban before later ip frame banned freed = (
      fate-sender (ban m before ip).0 frame
          ∙ fate-ban before ip (sender frame) banned
          ∙ ap (λ x. if is_sender ip (sender frame) then XdpAction.dropped else x)
              (sym (fate-sender before frame)),
      fate-sender (unban m later ip).0 frame
          ∙ fate-unban later ip (sender frame) freed
          ∙ ap (λ x. if is_sender ip (sender frame) then XdpAction.pass else x)
              (sym (fate-sender later frame)),
    )
