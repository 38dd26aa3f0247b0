-- ===== src/Config/Validate.antt =====
-- internal/config/config.go: `Validate`. An error stands as the text of its format.
use sipreaper.Common.{
  if◌then◌else◌, Bool, false, ◌&&◌, ◌||◌, not, List, [], ◌∷◌, Option, none, some, Text, codes,
  text_eq, is_empty, mem_text,
}
use sipreaper.Common.Int.{ℤ, pos, ltb_ℤ, leb_ℤ}
use sipreaper.Config.Scan.{scan_int}
use sipreaper.Config.{
  Config, IngestConfig, LogIngestConfig, PcapIngestConfig, DetectorsConfig, FailedCallRatioConfig,
  BansConfig, EnforcerConfig, GeoAnomalyConfig,
}

-- The first error of the checks in turn.
abbrev pub first : List (Option Text) → Option Text
first [] = none
first (some e ∷ checks) = some e
first (none ∷ checks) = first checks

-- `if bad { return fmt.Errorf(..) }`.
abbrev pub guard : Bool → Text → Option Text
guard bad e = if bad then some e else none

-- `if enabled { .. }`.
abbrev pub when : Bool → List (Option Text) → Option Text
when enabled checks = if enabled then first checks else none

-- `n < 1` and `n <= 0`.
abbrev pub below_one : ℤ → Bool
below_one n = ltb_ℤ n (pos 1)

abbrev pub not_positive : ℤ → Bool
not_positive n = leb_ℤ n (pos 0)

-- Whether an entry of `reject_responses` starts with a code from 400 to 699.
abbrev pub is_reject_code : ℤ → Bool
is_reject_code code = not (ltb_ℤ code (pos 400) || ltb_ℤ (pos 699) code)

unfoldable pub is_reject_entry : Text → Bool
unfolding scan_int
is_reject_entry r = elim (scan_int r) [ none ↦ false | some code ↦ is_reject_code code ]

-- The loops over `reject_responses` and `durations`.
unfoldable pub check_responses : List Text → Option Text
unfolding is_reject_entry
check_responses [] = none
check_responses (r ∷ rs) =
    let rest = check_responses rs in
    if is_reject_entry r
    then rest
    else some (codes "ingest.pcap.reject_responses[%d] = %q: must start with a 4xx-6xx code")

unfoldable pub check_durations : List ℤ → Option Text
check_durations [] = none
check_durations (d ∷ ds) =
    let rest = check_durations ds in
    if ltb_ℤ d (pos 0)
    then some (codes "bans.durations[%d] = %s: must be >= 0 (0 = permanent)")
    else rest

abbrev pub check_log : LogIngestConfig → Option Text
check_log c = when c.enabled (
    guard (is_empty c.path) (codes "ingest.log.path is required when log ingest is enabled")
    ∷ guard (not (mem_text c.format (codes "kamailio" ∷ codes "opensips" ∷ [] ∷ [])))
        (codes "ingest.log.format %q: must be kamailio or opensips")
    ∷ [])

abbrev pub check_pcap : PcapIngestConfig → Option Text
check_pcap c = when c.enabled (
    guard (is_empty c.interface)
      (codes "ingest.pcap.interface is required when pcap ingest is enabled")
    ∷ guard (is_empty c.ports && is_empty c.bpf_filter)
        (codes "ingest.pcap: ports or bpf_filter required")
    ∷ check_responses c.reject_responses
    ∷ [])

unfoldable pub check_ingest : IngestConfig → Option Text
unfolding text_eq check_responses
check_ingest c = first (
    guard (not c.log.enabled && not c.pcap.enabled && not c.syslog.enabled)
      (codes "ingest: at least one of log/pcap/syslog must be enabled")
    ∷ check_log c.log
    ∷ guard (c.syslog.enabled && is_empty c.syslog.listen)
        (codes "ingest.syslog.listen is required when syslog ingest is enabled")
    ∷ check_pcap c.pcap
    ∷ [])

-- A detector that counts: its limit and its window.
abbrev pub check_counting : Bool → ℤ → ℤ → Text → Text → Option Text
check_counting enabled limit window e f =
    when enabled (guard (below_one limit) e ∷ guard (not_positive window) f ∷ [])

abbrev pub check_geo : GeoAnomalyConfig → Option Text
check_geo c = when c.enabled (
    guard (is_empty c.geoip_db) (codes "detectors.geo_anomaly.geoip_db is required when enabled")
    ∷ guard (is_empty c.allowed_countries)
        (codes "detectors.geo_anomaly.allowed_countries must list at least one country")
    ∷ [])

-- `nonpositive` and `above_one` are the tests `<= 0` and `> 1` of a float.
abbrev pub check_ratio :
    {F : Type 0} → (F → Bool) → (F → Bool) → FailedCallRatioConfig F → Option Text
check_ratio nonpositive above_one c = when c.enabled (
    guard (below_one c.min_calls) (codes "detectors.failed_call_ratio.min_calls must be >= 1")
    ∷ guard (nonpositive c.min_ratio || above_one c.min_ratio)
        (codes "detectors.failed_call_ratio.min_ratio must be in (0,1]")
    ∷ guard (not_positive c.window) (codes "detectors.failed_call_ratio.window must be > 0")
    ∷ [])

abbrev pub detector_checks :
    {F : Type 0} → (F → Bool) → (F → Bool) → DetectorsConfig F → List (Option Text)
detector_checks nonpositive above_one d =
    check_counting d.brute_force.enabled d.brute_force.max_attempts d.brute_force.window
      (codes "detectors.brute_force.max_attempts must be >= 1")
      (codes "detectors.brute_force.window must be > 0")
    ∷ check_counting d.invite_flood.enabled d.invite_flood.max_requests d.invite_flood.window
        (codes "detectors.invite_flood.max_requests must be >= 1")
        (codes "detectors.invite_flood.window must be > 0")
    ∷ check_counting d.scanner.enabled d.scanner.max_probes d.scanner.window
        (codes "detectors.scanner.max_probes must be >= 1")
        (codes "detectors.scanner.window must be > 0")
    ∷ check_counting d.invalid_request.enabled d.invalid_request.max_invalid
        d.invalid_request.window (codes "detectors.invalid_request.max_invalid must be >= 1")
        (codes "detectors.invalid_request.window must be > 0")
    ∷ check_geo d.geo_anomaly
    ∷ check_counting d.user_enum.enabled d.user_enum.max_extensions d.user_enum.window
        (codes "detectors.user_enum.max_extensions must be >= 1")
        (codes "detectors.user_enum.window must be > 0")
    ∷ check_counting d.server_rejected.enabled d.server_rejected.max_hits d.server_rejected.window
        (codes "detectors.server_rejected.max_hits must be >= 1")
        (codes "detectors.server_rejected.window must be > 0")
    ∷ guard (d.honeypot.enabled && is_empty d.honeypot.extensions)
        (codes "detectors.honeypot.extensions must list at least one extension when enabled")
    ∷ check_ratio nonpositive above_one d.failed_call_ratio
    ∷ check_counting d.did_scanner.enabled d.did_scanner.max_dids d.did_scanner.window
        (codes "detectors.did_scanner.max_dids must be >= 1")
        (codes "detectors.did_scanner.window must be > 0")
    ∷ []

unfoldable pub check_detectors :
    {F : Type 0} → (F → Bool) → (F → Bool) → DetectorsConfig F → Option Text
check_detectors nonpositive above_one d = first (detector_checks nonpositive above_one d)

abbrev pub ban_checks : BansConfig → List (Option Text)
ban_checks c =
    guard (is_empty c.durations) (codes "bans.durations must list at least one duration")
    ∷ check_durations c.durations
    ∷ []

abbrev pub check_bans : BansConfig → Option Text
check_bans c = first (ban_checks c)

abbrev pub xdp_modes : List Text
xdp_modes = [] ∷ codes "auto" ∷ codes "native" ∷ codes "driver" ∷ codes "generic" ∷ codes "skb" ∷ []

-- The interface of packet capture is the one that XDP falls back on.
unfoldable pub enforcer_checks : EnforcerConfig → PcapIngestConfig → List (Option Text)
unfolding text_eq
enforcer_checks c pcap =
    guard (not (mem_text c.type (codes "iptables" ∷ codes "ipset" ∷ [] ∷ [])))
      (codes "enforcer.type %q: must be iptables or ipset")
    ∷ when c.prefilter.enabled (
        guard (below_one c.prefilter.rate)
          (codes "enforcer.prefilter.rate must be >= 1 when enabled")
        ∷ guard (below_one c.prefilter.burst)
            (codes "enforcer.prefilter.burst must be >= 1 when enabled")
        ∷ [])
    ∷ when c.xdp.enabled (
        guard (not (mem_text c.xdp.mode xdp_modes))
          (codes "enforcer.xdp.mode %q: must be \"\", native or generic")
        ∷ guard (is_empty c.xdp.interface && is_empty pcap.interface)
            (codes "enforcer.xdp.enabled requires enforcer.xdp.interface or ingest.pcap.interface")
        ∷ [])
    ∷ []

unfoldable pub check_enforcer : EnforcerConfig → PcapIngestConfig → Option Text
unfolding enforcer_checks
check_enforcer c pcap = first (enforcer_checks c pcap)

unfoldable pub all_checks : {F : Type 0} → (F → Bool) → (F → Bool) → Config F → List (Option Text)
unfolding check_ingest check_detectors check_durations check_enforcer
all_checks nonpositive above_one c =
    check_ingest c.ingest
    ∷ check_detectors nonpositive above_one c.detectors
    ∷ check_bans c.bans
    ∷ check_enforcer c.enforcer c.ingest.pcap
    ∷ guard (is_empty c.api.listen) (codes "api.listen is required")
    ∷ guard (is_empty c.storage.path) (codes "storage.path is required")
    ∷ guard (ltb_ℤ c.storage.event_retention (pos 0)) (codes "storage.event_retention must be >= 0")
    ∷ []

unfoldable pub validate : {F : Type 0} → (F → Bool) → (F → Bool) → Config F → Option Text
unfolding all_checks
validate nonpositive above_one c = first (all_checks nonpositive above_one c)
