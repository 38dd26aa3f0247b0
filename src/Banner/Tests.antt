-- ===== src/Banner/Tests.antt =====
-- Kernel maps that are lists, a tagged frame, and a network card without native XDP.
use sipreaper.Common.{
  ◌≡◌, refl, ℕ, false, not, ◌&&◌, List, [], ◌∷◌, none, some, Text, codes, arith, if◌then◌else◌,
  keep, text_eq, text_eq_iff, mem_text,
}
use sipreaper.Banner.Attach.{AttachFlag, AttachError, Mode, Kernel, XdpEnforcer, init}
use sipreaper.Banner.Bans.{IsHash}
use sipreaper.Banner.Frame.{XdpAction, xdp_ban_func}
use sipreaper.Banner.Outcome.{Outcome, init-Outcome}
use sipreaper.Banner.Senders.{Tag, Packet, frame_of, is_from, xdp_ban_func-frame_of}
use sipreaper.Banner.{Maps, ban, unban}
use sipreaper.Net.{Ip}

abbrev Lists : Type 0
Lists = List Ip × List Ip

abbrev maps : Maps Lists
unfolding text_eq
maps = record {
  banned_v4 = record {
    put = λ w k. ((k ∷ w.0, w.1), none);
    delete = λ w k. ((keep (λ j. not (text_eq j k)) w.0, w.1), none);
    iterate = λ w. (w.0, none);
    has = λ w q. mem_text q w.0;
  };
  banned_v6 = record {
    put = λ w k. ((w.0, k ∷ w.1), none);
    delete = λ w k. ((w.0, keep (λ j. not (text_eq j k)) w.1), none);
    iterate = λ w. (w.1, none);
    has = λ w q. mem_text q w.1;
  };
  stats = λ w i. some [];
}

mem_text-keep :
    (q k : Ip) (l : List Ip)
    → mem_text q (keep (λ j. not (text_eq j k)) l) ≡ (not (text_eq q k) && mem_text q l)
mem_text-keep q k [] = ground arith
mem_text-keep q k (j ∷ l) =
    ground (arith, mem_text-keep q k l, text_eq_iff j k, text_eq_iff q k, text_eq_iff q j)

maps_v4 : IsHash maps.banned_v4 maps.banned_v6
unfolding maps
maps_v4 = record {
  put_has = λ w k q done. refl;
  put_other = λ w k q. refl;
  delete_has = λ w k q gone. mem_text-keep q k w.0;
  delete_other = λ w k q. refl;
}

maps_v6 : IsHash maps.banned_v6 maps.banned_v4
unfolding maps
maps_v6 = record {
  put_has = λ w k q done. refl;
  put_other = λ w k q. refl;
  delete_has = λ w k q gone. mem_text-keep q k w.1;
  delete_other = λ w k q. refl;
}

abbrev attacker : Ip
attacker = 203 ∷ 0 ∷ 113 ∷ 5 ∷ []

abbrev macs : Text
macs = 0 ∷ 0 ∷ 0 ∷ 0 ∷ 0 ∷ 0 ∷ 0 ∷ 0 ∷ 0 ∷ 0 ∷ 0 ∷ 0 ∷ []

abbrev tag : Tag
tag = record { ad = false; high = 0; low = 5 }

abbrev packet : Packet
packet =
    Packet.ipv4 (69 ∷ 0 ∷ 0 ∷ 0 ∷ 0 ∷ 0 ∷ 0 ∷ 0 ∷ 64 ∷ 17 ∷ 0 ∷ 0 ∷ []) attacker
      (192 ∷ 0 ∷ 2 ∷ 9 ∷ [])

xdp_ban_func-frame_of_example :
    (xdp_ban_func maps (ban maps ([], []) attacker).0 (frame_of macs (tag ∷ []) packet) ≡ (
      if is_from attacker packet
      then XdpAction.dropped
      else xdp_ban_func maps ([], []) (frame_of macs (tag ∷ []) packet)))
    × (xdp_ban_func maps
          (unban maps (attacker ∷ [], []) attacker).0
          (frame_of macs (tag ∷ []) packet)
        ≡ (if is_from attacker packet
            then XdpAction.pass
            else xdp_ban_func maps (attacker ∷ [], []) (frame_of macs (tag ∷ []) packet)))
unfolding maps ban unban
xdp_ban_func-frame_of_example =
    xdp_ban_func-frame_of maps maps_v4 maps_v6 ([], []) (attacker ∷ [], []) attacker macs (tag ∷ [])
      packet refl refl (omega arith) (omega arith) (omega arith, omega arith, omega arith)

-- The state counts the attachments tried.
abbrev old_card : Kernel ℕ
old_card = record {
  write_probe = λ w. (w, none);
  remove_memlock = λ w. (w, none);
  mkdir = λ w. (w, none);
  load = λ w. (w, none);
  close_objects = λ w. w;
  read_dir = λ w. ([], none);
  remove = λ w name. (w, none);
  schema_version = λ w. some 1;
  put_schema_version = λ w v. w;
  attach = λ w flag. elim flag [
    | AttachFlag.driver_mode ↦ (1, some (AttachError.attach_failed (codes "not supported")))
    | AttachFlag.generic_mode ↦ (2, none)
  ];
}

abbrev detached : XdpEnforcer
detached = record { mode = Mode.auto; attached = false; cur_mode = [] }

init-Outcome_example : Outcome old_card detached (init old_card 0 detached)
init-Outcome_example = init-Outcome old_card 0 detached
