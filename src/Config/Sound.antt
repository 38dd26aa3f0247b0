-- ===== src/Config/Sound.antt =====
-- internal/config/config.go: what `Validate` promises the daemon that is built after it.
use sipreaper.Common.{
  ◌≤◌, ◌≡◌, refl, Bool, true, false, ◌&&◌, ◌||◌, not, List, [], ◌∷◌, Option, none, some, Text,
  is_empty, length, All, All-append, arith, mem_text, Bool-cases, inl, inr, codes,
}
use sipreaper.Banner.Attach.{parse_mode}
use sipreaper.Common.Int.{ℤ, pos, negsuc, ◌≤ℤ◌}
use sipreaper.Config.Setup.{setup_detectors, only_if, xdp_interface, IsUsable, Built}
use sipreaper.Config.Validate.{
  detector_checks, ban_checks, all_checks, enforcer_checks, first, guard, below_one, not_positive,
  check_counting, check_geo, check_ratio, check_detectors, check_durations, check_enforcer,
  xdp_modes, validate,
}
use sipreaper.Config.{
  HoneypotConfig, Config, DetectorsConfig, PcapIngestConfig, GeoAnomalyConfig,
  FailedCallRatioConfig, EnforcerConfig,
}

first-none : (checks : List (Option Text)) → first checks ≡ none → All (λ o. o ≡ none) checks
first-none [] h = tt
first-none (none ∷ checks) h = (refl, first-none checks h)
first-none (some e ∷ checks) h = cc h

below_one-le : (n : ℤ) → below_one n ≡ false → pos 1 ≤ℤ n
below_one-le (pos n) h = ground (arith, h)
below_one-le (negsuc n) h = ground (arith, h)

not_positive-le : (n : ℤ) → not_positive n ≡ false → pos 1 ≤ℤ n
not_positive-le (pos n) h = ground (arith, h)
not_positive-le (negsuc n) h = ground (arith, h)

counting :
    {F : Type 0} (P : Built F → Type 0) (b : Built F) (enabled : Bool) (limit window : ℤ)
    (e f : Text)
    → check_counting enabled limit window e f ≡ none
    → ((pos 1 ≤ℤ limit) × (pos 1 ≤ℤ window) → P b)
    → All P (only_if enabled b)
counting P b false limit window e f h good = tt
counting P b true limit window e f h good =
    (good (below_one-le limit (ground (arith, h)), not_positive-le window (ground (arith, h))), tt)

durations-le : (ds : List ℤ) → check_durations ds ≡ none → All (λ d. pos 0 ≤ℤ d) ds
unfolding check_durations
durations-le [] h = tt
durations-le (pos d ∷ ds) h = (omega arith, durations-le ds (ground (arith, h)))
durations-le (negsuc d ∷ ds) h = ground (arith, h)

-- Each mode that validates is one that the enforcer knows.
abbrev pub is_some {ℓ} : {A : Type ℓ} → Option A → Bool
is_some none = false
is_some (some a) = true

parse_mode-accepts :
    (mode : Text) → mem_text mode xdp_modes ≡ true → is_some (parse_mode mode) ≡ true
unfolding parse_mode
parse_mode-accepts mode h = ground (arith, h)

enforcer-modes :
    (c : EnforcerConfig) (pcap : PcapIngestConfig)
    → check_enforcer c pcap ≡ none
    → ((not c.xdp.enabled || is_some (parse_mode c.xdp.mode)) ≡ true)
      × ((not c.xdp.enabled || not (is_empty (xdp_interface c.xdp pcap))) ≡ true)
unfolding check_enforcer enforcer_checks
enforcer-modes c pcap h =
    let (type, (prefilter, (xdp, _))) = first-none (enforcer_checks c pcap) h in
    elim (Bool-cases c.xdp.enabled) [
      | inr off ↦ rw off (refl, refl)
      | inl on ↦
          let known : mem_text c.xdp.mode xdp_modes ≡ true = ground (arith, xdp, on) in
          rw on (parse_mode-accepts c.xdp.mode known, ground (arith, xdp, on))
    ]

module _ {F : Type 0} (nonpositive above_one : F → Bool) where
  abbrev P : Built F → Type 0
  P = IsUsable nonpositive above_one

  geo :
      (c : GeoAnomalyConfig) (opens : Bool)
      → check_geo c ≡ none
      → All P (
          only_if
            (c.enabled && not (is_empty c.geoip_db) && opens)
            (Built.geo_anomaly c.allowed_countries))
  geo c opens h = elim (Bool-cases (c.enabled && not (is_empty c.geoip_db) && opens)) [
    | inr off ↦ rw off tt
    | inl on ↦ rw on (ground (arith, h, on), tt)
  ]

  ratio :
      (c : FailedCallRatioConfig F)
      → check_ratio nonpositive above_one c ≡ none
      → All P (only_if c.enabled (Built.failed_call_ratio c.min_calls c.min_ratio c.window))
  ratio c h = elim (Bool-cases c.enabled) [
    | inr off ↦ rw off tt
    | inl on ↦
        let b : below_one c.min_calls ≡ false = ground (arith, h, on) in
        let w : not_positive c.window ≡ false = ground (arith, h, on) in
        rw on
          (((below_one-le c.min_calls b, not_positive-le c.window w), ground (arith, h, on)), tt)
  ]

  honeypot :
      (c : HoneypotConfig)
      → guard
          (c.enabled && is_empty c.extensions)
          (codes "detectors.honeypot.extensions must list at least one extension when enabled")
        ≡ none
      → All P (only_if c.enabled (Built.honeypot c.extensions))
  honeypot c h = elim (Bool-cases c.enabled) [
    | inr off ↦ rw off tt
    | inl on ↦ rw on (ground (arith, h, on), tt)
  ]

  detectors-IsUsable :
      (opens : Text → Bool) (d : DetectorsConfig F)
      → check_detectors nonpositive above_one d ≡ none
      → All P (setup_detectors opens d)
  unfolding check_detectors setup_detectors
  detectors-IsUsable opens d h =
      let (a, (b, (c, (e, (g, (u, (s, (hp, (r, (did, _)))))))))) =
        first-none (detector_checks nonpositive above_one d) h in
      All-append P _ _ (counting P _ d.brute_force.enabled _ _ _ _ a (λ x. x)) (
        All-append P _ _ (counting P _ d.invite_flood.enabled _ _ _ _ b (λ x. x)) (
          All-append P _ _ (counting P _ d.scanner.enabled _ _ _ _ c (λ x. x)) (
            All-append P _ _ (counting P _ d.invalid_request.enabled _ _ _ _ e (λ x. x)) (
              All-append P _ _ (geo d.geo_anomaly (opens d.geo_anomaly.geoip_db) g) (
                All-append P _ _ (counting P _ d.user_enum.enabled _ _ _ _ u (λ x. x)) (
                  All-append P _ _ (counting P _ d.server_rejected.enabled _ _ _ _ s (λ x. x)) (
                    All-append P _ _ (honeypot d.honeypot hp) (
                      All-append P _ _ (ratio d.failed_call_ratio r)
                        (counting P _ d.did_scanner.enabled _ _ _ _ did (λ x. x))))))))))

  -- A configuration that validates builds only detectors whose limits and windows are at least one,
  -- whose lists are not empty, and whose ratio is neither found to be at most 0 nor to be above 1,
  -- which of a float that is not a number neither is; whatever databases open. It has a ban
  -- duration, none negative; and if XDP is on, the enforcer knows its mode, and there is an
  -- interface to attach to.
  pub validate-IsUsable :
      (opens : Text → Bool) (c : Config F)
      → validate nonpositive above_one c ≡ none
      → All (IsUsable nonpositive above_one) (setup_detectors opens c.detectors)
        × (1 ≤ length c.bans.durations)
        × All (λ d. pos 0 ≤ℤ d) c.bans.durations
        × ((not c.enforcer.xdp.enabled || is_some (parse_mode c.enforcer.xdp.mode)) ≡ true)
        × ((not c.enforcer.xdp.enabled
              || not (is_empty (xdp_interface c.enforcer.xdp c.ingest.pcap)))
            ≡ true)
  unfolding validate all_checks
  validate-IsUsable opens c h =
      let (ingest, (detectors, (bans, (enforcer, _)))) =
        first-none (all_checks nonpositive above_one c) h in
      let (some_duration, (durations, _)) = first-none (ban_checks c.bans) bans in
      (
        detectors-IsUsable opens c.detectors detectors,
        ground (arith, some_duration),
        durations-le c.bans.durations durations,
        (enforcer-modes c.enforcer c.ingest.pcap enforcer).0,
        (enforcer-modes c.enforcer c.ingest.pcap enforcer).1,
      )
