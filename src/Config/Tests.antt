-- ===== src/Config/Tests.antt =====
-- A configuration that validates.
use sipreaper.Common.{
  ℕ, ◌==◌, ◌≤◌, ◌≡◌, refl, Bool, true, false, not, ◌||◌, [], ◌∷◌, none, codes, All, length, ltb,
  is_empty, text_eq,
}
use sipreaper.Banner.Attach.{parse_mode}
use sipreaper.Common.Int.{pos, ◌≤ℤ◌}
use sipreaper.Config.Setup.{setup_detectors, xdp_interface, IsUsable}
use sipreaper.Config.Sound.{validate-IsUsable, is_some}
use sipreaper.Config.Validate.{validate}
use sipreaper.Config.{Config}

-- Percent in place of a float.
abbrev nonpositive : ℕ → Bool
nonpositive r = r == 0

abbrev above_one : ℕ → Bool
above_one r = ltb 100 r

abbrev config : Config ℕ
config = record {
  ingest = record {
    log = record {
      enabled = true;
      path = codes "/var/log/kamailio.log";
      format = [];
      custom_patterns = [];
    };
    syslog = record { enabled = false; listen = [] };
    pcap = record {
      enabled = false;
      interface = codes "eth0";
      ports = [];
      bpf_filter = [];
      reject_responses = [];
    };
  };
  detectors = record {
    brute_force = record { enabled = true; max_attempts = pos 5; window = pos 60_000_000_000 };
    invite_flood = record { enabled = false; max_requests = pos 0; window = pos 0 };
    scanner = record { enabled = false; max_probes = pos 0; window = pos 0; known_agents = [] };
    invalid_request = record { enabled = false; max_invalid = pos 0; window = pos 0 };
    geo_anomaly = record { enabled = false; allowed_countries = []; geoip_db = [] };
    user_enum = record { enabled = false; max_extensions = pos 0; window = pos 0 };
    server_rejected = record { enabled = false; max_hits = pos 0; window = pos 0 };
    honeypot = record { enabled = true; extensions = codes "999" ∷ [] };
    failed_call_ratio = record {
      enabled = false;
      min_calls = pos 0;
      min_ratio = 0;
      window = pos 0;
    };
    did_scanner = record { enabled = false; max_dids = pos 0; window = pos 0 };
  };
  whitelist = record { static = [] };
  bans = record {
    durations = pos 300_000_000_000 ∷ pos 0 ∷ [];
    cooldown = pos 0;
    check_interval = pos 0;
  };
  enforcer = record {
    type = [];
    chain = [];
    set_name = [];
    dry_run = false;
    prefilter = record { enabled = false; rate = pos 0; burst = pos 0; ports = [] };
    xdp = record { enabled = true; interface = []; mode = codes "native"; standalone = false };
  };
  notifiers = record {
    syslog = record { enabled = false };
    email = record {
      enabled = false;
      smtp_host = [];
      smtp_port = pos 0;
      tls = false;
      from = [];
      to = [];
      username = [];
      password_env = [];
      min_severity = [];
    };
  };
  api = record { listen = codes ":8080"; token_env = [] };
  storage = record { path = codes "bans.db"; event_retention = pos 0 };
  logging = record { level = []; output = []; file = [] };
}

config_validates : validate nonpositive above_one config ≡ none
unfolding validate text_eq
config_validates = refl

validate-IsUsable_example :
    All (IsUsable nonpositive above_one) (setup_detectors (λ db. true) config.detectors)
    × (1 ≤ length config.bans.durations)
    × All (λ d. pos 0 ≤ℤ d) config.bans.durations
    × ((not config.enforcer.xdp.enabled || is_some (parse_mode config.enforcer.xdp.mode)) ≡ true)
    × ((not config.enforcer.xdp.enabled
          || not (is_empty (xdp_interface config.enforcer.xdp config.ingest.pcap)))
        ≡ true)
validate-IsUsable_example =
    validate-IsUsable nonpositive above_one (λ db. true) config config_validates
