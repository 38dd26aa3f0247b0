-- ===== src/Config/Setup.antt =====
-- internal/daemon/daemon.go: what `setupDetectors` and `setupXDP` take from the configuration, and
-- what a configuration that validates gives them.
use sipreaper.Common.{
  ◌≡◌, if◌then◌else◌, Bool, false, ◌&&◌, ◌||◌, not, List, [], ◌∷◌, ◌++◌, Text, is_empty,
}
use sipreaper.Common.Int.{ℤ, pos, ◌≤ℤ◌}
use sipreaper.Config.{DetectorsConfig, PcapIngestConfig, XdpConfig}

-- A detector and the arguments of its constructor.
pub data Built (F : Type 0) : Type 0 where
  brute_force : ℤ → ℤ → Built F
  invite_flood : ℤ → ℤ → Built F
  scanner : ℤ → ℤ → List Text → Built F
  invalid_request : ℤ → ℤ → Built F
  geo_anomaly : List Text → Built F
  user_enum : ℤ → ℤ → Built F
  server_rejected : ℤ → ℤ → Built F
  honeypot : List Text → Built F
  failed_call_ratio : ℤ → F → ℤ → Built F
  did_scanner : ℤ → ℤ → Built F

abbrev pub only_if {ℓ} : {A : Type ℓ} → Bool → A → List A
only_if b x = if b then x ∷ [] else []

-- `setupDetectors`; `opens` says which databases of countries open.
unfoldable pub setup_detectors : {F : Type 0} → (Text → Bool) → DetectorsConfig F → List (Built F)
setup_detectors opens d =
    only_if d.brute_force.enabled
      (Built.brute_force d.brute_force.max_attempts d.brute_force.window)
    ++ (only_if d.invite_flood.enabled
          (Built.invite_flood d.invite_flood.max_requests d.invite_flood.window)
        ++ (only_if d.scanner.enabled
              (Built.scanner d.scanner.max_probes d.scanner.window d.scanner.known_agents)
            ++ (only_if d.invalid_request.enabled
                  (Built.invalid_request d.invalid_request.max_invalid d.invalid_request.window)
                ++ (only_if
                      (d.geo_anomaly.enabled
                        && not (is_empty d.geo_anomaly.geoip_db)
                        && opens d.geo_anomaly.geoip_db)
                      (Built.geo_anomaly d.geo_anomaly.allowed_countries)
                    ++ (only_if d.user_enum.enabled
                          (Built.user_enum d.user_enum.max_extensions d.user_enum.window)
                        ++ (only_if d.server_rejected.enabled (
                              Built.server_rejected d.server_rejected.max_hits
                                d.server_rejected.window)
                            ++ (only_if d.honeypot.enabled (Built.honeypot d.honeypot.extensions)
                                ++ (only_if d.failed_call_ratio.enabled (
                                      Built.failed_call_ratio d.failed_call_ratio.min_calls
                                        d.failed_call_ratio.min_ratio d.failed_call_ratio.window)
                                    ++ only_if d.did_scanner.enabled (
                                        Built.did_scanner d.did_scanner.max_dids
                                          d.did_scanner.window)))))))))

-- The interface of `setupXDP`.
abbrev pub xdp_interface : XdpConfig → PcapIngestConfig → Text
xdp_interface xdp pcap = if is_empty xdp.interface then pcap.interface else xdp.interface

module _ {F : Type 0} (nonpositive above_one : F → Bool) where
  abbrev pub IsCounting : ℤ → ℤ → Type 0
  IsCounting limit window = (pos 1 ≤ℤ limit) × (pos 1 ≤ℤ window)

  -- What a detector needs of its arguments: a limit and a window that are not zero or negative, a
  -- list that is not empty, a ratio that is not found to be at most 0 or above 1.
  abbrev pub IsUsable : Built F → Type 0
  IsUsable (Built.brute_force n w) = IsCounting n w
  IsUsable (Built.invite_flood n w) = IsCounting n w
  IsUsable (Built.scanner n w agents) = IsCounting n w
  IsUsable (Built.invalid_request n w) = IsCounting n w
  IsUsable (Built.geo_anomaly countries) = is_empty countries ≡ false
  IsUsable (Built.user_enum n w) = IsCounting n w
  IsUsable (Built.server_rejected n w) = IsCounting n w
  IsUsable (Built.honeypot extensions) = is_empty extensions ≡ false
  IsUsable (Built.failed_call_ratio n r w) =
      IsCounting n w × ((nonpositive r || above_one r) ≡ false)
  IsUsable (Built.did_scanner n w) = IsCounting n w
