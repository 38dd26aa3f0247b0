-- ===== src/Daemon/Setup.antt =====
-- `setupEnforcer` and `setupXDP`: which enforcer the daemon starts with. What the backends are and
-- how they start is an argument.
mod Tests
use sipreaper.Common.{
  ◌≡◌, refl, sym, ap, subst, ◌⊎◌, inl, inr, if◌then◌else◌, Bool, true, false, [], ◌∷◌, Option, none,
  some, Text, codes, text_eq, is_empty, Option-cases, Bool-cases, arith,
}
use sipreaper.Action.Composite.{composite}
use sipreaper.Action.{Enforcer}
use sipreaper.Banner.Attach.{XdpEnforcer}
use sipreaper.Config.Setup.{xdp_interface}
use sipreaper.Config.{EnforcerConfig, PcapIngestConfig, PreFilterConfig, XdpConfig}
use sipreaper.Daemon.{Daemon, Xdp}

-- The backends: iptables and ipset with their `Init`, the checks and the parts of XDP, and the
-- limits of the prefilter.
pub record Backends (W : Type 0) : Type 0 where
  pub iptables : Enforcer W
  pub init_iptables : W → W × Option Text
  pub ipset : Enforcer W
  pub init_ipset : W → W × Option Text
  pub preflight : W → Text → Option Text
  pub new_xdp : W → Text → Text → Option XdpEnforcer
  pub init_xdp : W → XdpEnforcer → (W × XdpEnforcer) × Option Text
  pub xdp : XdpEnforcer → Xdp W
  pub apply_prefilter : W → PreFilterConfig → W × Option Text

-- The base alone; or, where XDP is enabled and its checks, its interface and mode, and its start
-- all went well, what that start gave, on top of the base or in its place.
abbrev pub IsProtected :
    {W : Type 0} → Backends W → Bool → XdpConfig → PcapIngestConfig → Daemon W → Type 0
IsProtected {W = W} b enabled c pcap d =
    ((d.xdp ≡ none) × (d.enforcer ≡ some d.base))
    ⊎ ((w : W) × (xe : XdpEnforcer) × (enabled ≡ true)
        × (b.preflight w (xdp_interface c pcap) ≡ none)
        × (b.new_xdp w (xdp_interface c pcap) c.mode ≡ some xe)
        × ((b.init_xdp w xe).1 ≡ none)
        × (d.xdp ≡ some (b.xdp (b.init_xdp w xe).0.1))
        × (d.enforcer
            ≡ some (
                if c.standalone
                then (b.xdp (b.init_xdp w xe).0.1).enforcer
                else composite (d.base ∷ (b.xdp (b.init_xdp w xe).0.1).enforcer ∷ []))))

module _ {W : Type 0} (b : Backends W) where
  -- The base enforcer; an unknown type falls back to iptables, whose chain is not made then.
  unfoldable pub setup_base : Text → W → W × Enforcer W
  unfolding text_eq
  setup_base type w =
      if text_eq type (codes "ipset")
      then ((b.init_ipset w).0, b.ipset)
      else if text_eq type (codes "iptables")
      then ((b.init_iptables w).0, b.iptables)
      else if is_empty type
      then ((b.init_iptables w).0, b.iptables)
      else (w, b.iptables)

  unfoldable pub setup_xdp : XdpConfig → PcapIngestConfig → W → Daemon W → W × Daemon W
  setup_xdp c pcap w d =
      let interface = xdp_interface c pcap in
      elim (b.preflight w interface) [
        | some reason ↦ (w, d)
        | none ↦ elim (b.new_xdp w interface c.mode) [
          | none ↦ (w, d)
          | some xe ↦
              let (up, failed) = b.init_xdp w xe in
              let xdp = b.xdp up.1 in
              elim failed [
                | some e ↦ (up.0, d)
                | none ↦ (
                  up.0,
                  record d {
                    xdp = some xdp;
                    enforcer = some (
                        if c.standalone
                        then xdp.enforcer
                        else composite (d.base ∷ xdp.enforcer ∷ []));
                  },
                )
              ]
        ]
      ]

  unfoldable pub setup_enforcer : EnforcerConfig → PcapIngestConfig → W → Daemon W → W × Daemon W
  unfolding setup_base setup_xdp
  setup_enforcer c pcap w d =
      let (w1, base) = setup_base c.type w in
      let d1 = record d { base = base; enforcer = some base } in
      let (w2, d2) = if c.xdp.enabled then setup_xdp c.xdp pcap w1 d1 else (w1, d1) in
      let w3 = if c.prefilter.enabled then (b.apply_prefilter w2 c.prefilter).0 else w2 in (w3, d2)

  setup_xdp-IsProtected :
      (c : XdpConfig) (pcap : PcapIngestConfig) (w : W) (d : Daemon W)
      → d.xdp ≡ none
      → d.enforcer ≡ some d.base
      → IsProtected b true c pcap (setup_xdp c pcap w d).1
        × ((setup_xdp c pcap w d).1.base ≡ d.base)
  unfolding setup_xdp
  setup_xdp-IsProtected c pcap w d off alone =
      let interface = xdp_interface c pcap in
      elim (Option-cases (b.preflight w interface)) [
        | inr (reason, bad) ↦ rw (setup_xdp, bad) (inl (off, alone), refl)
        | inl fine ↦ elim (Option-cases (b.new_xdp w interface c.mode)) [
          | inl bad ↦ rw (setup_xdp, fine, bad) (inl (off, alone), refl)
          | inr (xe, made) ↦ elim (Option-cases (b.init_xdp w xe).1) [
            | inr (e, bad) ↦ rw (setup_xdp, fine, made, bad) (inl (off, alone), refl)
            | inl up ↦
                rw (setup_xdp, fine, made, up) (inr (w, xe, refl, fine, made, up, refl, refl), refl)
          ]
        ]
      ]

  setup_base-cases :
      (type : Text) (w : W)
      → ((setup_base type w).1 ≡ b.iptables) ⊎ ((setup_base type w).1 ≡ b.ipset)
  unfolding setup_base
  setup_base-cases type w = ground arith

  abbrev based : EnforcerConfig → W → Daemon W → Daemon W
  based c w d = record d { base = (setup_base c.type w).1; enforcer = some (setup_base c.type w).1 }

  setup_enforcer-if :
      (c : EnforcerConfig) (pcap : PcapIngestConfig) (w : W) (d : Daemon W) (on : Bool)
      → c.xdp.enabled ≡ on
      → (setup_enforcer c pcap w d).1 ≡ (
          if on
          then (setup_xdp c.xdp pcap (setup_base c.type w).0 (based c w d)).1
          else based c w d)
  unfolding setup_enforcer
  setup_enforcer-if c pcap w d true h =
      ap
        (λ e.
          (if e
            then setup_xdp c.xdp pcap (setup_base c.type w).0 (based c w d)
            else ((setup_base c.type w).0, based c w d)).1)
        h
  setup_enforcer-if c pcap w d false h =
      ap
        (λ e.
          (if e
            then setup_xdp c.xdp pcap (setup_base c.type w).0 (based c w d)
            else ((setup_base c.type w).0, based c w d)).1)
        h

  abbrev IsStarted : Bool → XdpConfig → PcapIngestConfig → Daemon W → Type 0
  IsStarted enabled c pcap d =
      IsProtected b enabled c pcap d × ((d.base ≡ b.iptables) ⊎ (d.base ≡ b.ipset))

  -- Whatever fails on the way, the daemon starts with an enforcer: iptables or ipset is its base.
  -- The enforcer is the base; or XDP is enabled, passed its checks and was brought up without an
  -- error, and the enforcer is that XDP alone where it is to stand alone, else the base and it.
  pub setup_enforcer-IsProtected :
      (c : EnforcerConfig) (pcap : PcapIngestConfig) (w : W) (d : Daemon W)
      → d.xdp ≡ none
      → IsProtected b c.xdp.enabled c.xdp pcap (setup_enforcer c pcap w d).1
        × (((setup_enforcer c pcap w d).1.base ≡ b.iptables)
            ⊎ ((setup_enforcer c pcap w d).1.base ≡ b.ipset))
  setup_enforcer-IsProtected c pcap w d off = elim (Bool-cases c.xdp.enabled) [
    | inr without ↦
        subst (IsStarted c.xdp.enabled c.xdp pcap)
          (sym (setup_enforcer-if c pcap w d false without))
          (inl (off, refl), setup_base-cases c.type w)
    | inl on ↦
        let (protected, same) =
          setup_xdp-IsProtected c.xdp pcap (setup_base c.type w).0 (based c w d) off refl in
        subst (IsStarted c.xdp.enabled c.xdp pcap) (sym (setup_enforcer-if c pcap w d true on)) (
          subst
              (λ x.
                IsProtected b x c.xdp pcap
                  (setup_xdp c.xdp pcap (setup_base c.type w).0 (based c w d)).1)
              (sym on) protected,
          ground (arith, same, setup_base-cases c.type w),
        )
  ]
