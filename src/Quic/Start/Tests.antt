-- ===== src/Quic/Start/Tests.antt =====
-- The start of a server of internal/quicx/server.go on a small configuration.
use chimera_core.Prelude.{ℕ, ◌≡◌, refl, true, false, List, [], ◌∷◌, none, some, ok, err, replicate}
use chimera_core.Prelude.Int.{pos, negsuc}
use chimera_core.Prelude.Text.{trim_space, to_lower}
use chimera_core.Quic.Config.{
  ServerConfig, ConfigError, Defaults, default_cert_path, default_server_quic,
  normalize_network_hooks, certificate_path_of, fill_quic_config, normalize_server_config,
  normalize_client_config,
}
use chimera_core.Quic.Start.{
  Host, already, fails, Handles, close_server, listen_server_with_config, addr,
}
use chimera_core.Quic.Start.Ready.{Started, listen_server_with_config-Started}

abbrev env : List ℕ → List ℕ
env name = []

abbrev defaults : Defaults
defaults = record {
  lookup_ip = λ host. none;
  dialer = λ timeout target. true;
  listen_packet = true;
}

-- " :1" and "S"; no limit is set.
abbrev config : ServerConfig
config = record {
  listen_addr = 32 ∷ 58 ∷ 49 ∷ [];
  server_name = 83 ∷ [];
  auth_keys = replicate 32 1 ∷ [];
  certificate_path = [];
  certificate_file = [];
  private_key_file = [];
  decoy_target = 104 ∷ [];
  decoy_options = record { fetch = false; http_client = none };
  decoy_refresh_interval = pos 0;
  limits = record {
    max_concurrent = pos 0;
    per_ip_burst = pos 0;
    per_ip_window = pos 0;
    max_tracked_ips = pos 0;
  };
  network = record { lookup_ip = none; dial_context = none; listen_packet = none };
  target_dial_timeout = negsuc 0;
  authentication_skew = pos 0;
  replay_capacity = pos 0;
  quic_config = none;
  enable_udp_relay = true;
  udp_max_packet_size = pos 0;
  udp_max_sessions = negsuc 3;
  udp_idle_timeout = pos 5;
}

abbrev filled : ServerConfig
filled = record config {
  listen_addr = 58 ∷ 49 ∷ [];
  server_name = 115 ∷ [];
  certificate_path = default_cert_path;
  decoy_refresh_interval = pos 600000000000;
  network = record {
    lookup_ip = some (λ host. none);
    dial_context = some (λ target. true);
    listen_packet = some true;
  };
  target_dial_timeout = pos 10000000000;
  authentication_skew = pos 60000000000;
  replay_capacity = pos 4096;
  quic_config = some (record default_server_quic { enable_datagrams = true });
  udp_max_packet_size = pos 16384;
  udp_max_sessions = pos 64;
}

normal : normalize_server_config env defaults config ≡ ok filled
unfolding normalize_server_config normalize_network_hooks certificate_path_of fill_quic_config
    trim_space to_lower
normal = refl

-- A client without a key.
keyless :
    normalize_client_config (record {
      server_addr = 58 ∷ [];
      server_name = 115 ∷ [];
      auth_key = [];
      cert_fingerprint = 1 ∷ [];
      enable_datagrams = false;
      udp_max_packet_size = pos 0;
      quic_config = none;
    })
    ≡ err ConfigError.bad_auth_key
unfolding normalize_client_config trim_space to_lower
keyless = refl

abbrev host : Host
host = record {
  env = env;
  defaults = defaults;
  certificate = λ cfg. some (7 ∷ []);
  page = 1 ∷ [];
  html = 2 ∷ [];
  fetch = λ o. none;
  listen_packet = λ a. true;
  listen_early = true;
  listener_addr = 58 ∷ 49 ∷ [];
}

listen_server_with_config-Started_example : Started 3 (listen_server_with_config host config 3)
listen_server_with_config-Started_example = listen_server_with_config-Started host config 3

-- The error of the listener is the one that counts, also the second time.
abbrev handles : Handles
handles = record {
  h3 = some already;
  listener = some (fails (1 ∷ []));
  packet_conn = some (fails (2 ∷ []));
  close_once = false;
  close_err = none;
}

closed_twice : (close_server (close_server handles).0).1 ≡ some (1 ∷ [])
unfolding close_server
closed_twice = refl

no_listener : addr none ≡ []
unfolding addr
no_listener = refl
