-- ===== src/Daemon/Setup/Tests.antt =====
-- A daemon that starts with XDP on a network card that refuses it.
use sipreaper.Common.{◌≡◌, ◌⊎◌, refl, Bool, true, false, [], none, some, codes}
use sipreaper.Action.{Enforcer}
use sipreaper.Banner.Attach.{Mode}
use sipreaper.Common.Int.{pos}
use sipreaper.Config.{EnforcerConfig, PcapIngestConfig}
use sipreaper.Daemon.Setup.{Backends, IsProtected, setup_enforcer, setup_enforcer-IsProtected}
use sipreaper.Daemon.{Daemon}
use sipreaper.Whitelist.{empty_whitelist}

abbrev idle : Enforcer Bool
idle = record {
  name = codes "idle";
  ban = λ w ip d reason. (true, none);
  unban = λ w ip. (false, none);
  list = λ w. some [];
}

abbrev refusing : Backends Bool
refusing = record {
  iptables = idle;
  init_iptables = λ w. (w, none);
  ipset = idle;
  init_ipset = λ w. (w, some (codes "no ipset"));
  preflight = λ w interface. none;
  new_xdp = λ w interface mode. some (record { mode = Mode.auto; attached = false; cur_mode = [] });
  init_xdp = λ w e. ((w, e), some (codes "not supported"));
  xdp = λ e. record { enforcer = idle; close = λ w. (w, none) };
  apply_prefilter = λ w c. (w, none);
}

abbrev enforcer_config : EnforcerConfig
enforcer_config = record {
  type = codes "ipset";
  chain = codes "SIPREAPER";
  set_name = codes "sipreaper";
  dry_run = false;
  prefilter = record { enabled = false; rate = pos 0; burst = pos 0; ports = [] };
  xdp = record { enabled = true; interface = codes "eth0"; mode = []; standalone = true };
}

abbrev pcap_config : PcapIngestConfig
pcap_config = record {
  enabled = false;
  interface = [];
  ports = [];
  bpf_filter = [];
  reject_responses = [];
}

abbrev bare : Daemon Bool
bare = record {
  engine = record { durations = []; cooldown = 0; dry_run = false };
  whitelist = empty_whitelist;
  enforcer = none;
  base = idle;
  xdp = none;
  notifiers = [];
}

setup_enforcer-IsProtected_example :
    IsProtected refusing true enforcer_config.xdp pcap_config
      (setup_enforcer refusing enforcer_config pcap_config false bare).1
    × (((setup_enforcer refusing enforcer_config pcap_config false bare).1.base ≡ idle)
        ⊎ ((setup_enforcer refusing enforcer_config pcap_config false bare).1.base ≡ idle))
setup_enforcer-IsProtected_example =
    setup_enforcer-IsProtected refusing enforcer_config pcap_config false bare refl
