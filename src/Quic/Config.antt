-- ===== src/Quic/Config.antt =====
-- internal/quicx/config.go. The environment and the defaults of the network are parameters; a hook is the
-- answers that it gives, and a nil hook is `none`.
pub mod Normal
use chimera_core.Prelude.{
  ℕ, ◌*◌, ◌≡◌, Bool, true, false, not, ◌&&◌, ◌==◌, List, [], ◌∷◌, Option, none, some, Result, ok,
  err, if◌then◌else◌, length,
}
use chimera_core.Prelude.Int.{ℤ, pos, negsuc, or_default}
use chimera_core.Prelude.Text.{trim_space, to_lower}
use chimera_core.Chimera.Ip.{Ip}
use chimera_core.Udp.Frame.{default_udp_max_packet_size}
use chimera_core.Auth.Token.{auth_key_len, second}
use chimera_core.Limiter.{LimitConfig}

pub record NetworkHooks : Type 0 where
  pub lookup_ip : Option (List ℕ → Option (List Ip))
  pub dial_context : Option (List ℕ → Bool)
  pub listen_packet : Option Bool

-- The fields of quic.Config that the code sets.
pub record QuicConfig : Type 0 where
  pub handshake_idle_timeout : ℤ
  pub max_idle_timeout : ℤ
  pub keep_alive_period : ℤ
  pub max_incoming_streams : ℤ
  pub max_incoming_uni_streams : ℤ
  pub enable_datagrams : Bool

-- The client for the decoy's fetch: one that was given, or the guarded one.
pub data HttpClient : Type 0 where
  given guarded : HttpClient

pub record DecoyOptions : Type 0 where
  pub fetch : Bool
  pub http_client : Option HttpClient

pub record ServerConfig : Type 0 where
  pub listen_addr : List ℕ
  pub server_name : List ℕ
  pub auth_keys : List (List ℕ)
  pub certificate_path : List ℕ
  pub certificate_file : List ℕ
  pub private_key_file : List ℕ
  pub decoy_target : List ℕ
  pub decoy_options : DecoyOptions
  pub decoy_refresh_interval : ℤ
  pub limits : LimitConfig
  pub network : NetworkHooks
  pub target_dial_timeout : ℤ
  pub authentication_skew : ℤ
  pub replay_capacity : ℤ
  pub quic_config : Option QuicConfig
  pub enable_udp_relay : Bool
  pub udp_max_packet_size : ℤ
  pub udp_max_sessions : ℤ
  pub udp_idle_timeout : ℤ

pub record ClientConfig : Type 0 where
  pub server_addr : List ℕ
  pub server_name : List ℕ
  pub auth_key : List ℕ
  pub cert_fingerprint : List ℕ
  pub enable_datagrams : Bool
  pub udp_max_packet_size : ℤ
  pub quic_config : Option QuicConfig

pub data ConfigError : Type 0 where
  no_listen_addr no_server_name no_auth_keys half_certificate no_decoy_target : ConfigError
  no_server_addr bad_auth_key no_fingerprint : ConfigError

-- `s == ""`.
abbrev pub is_empty : List ℕ → Bool
is_empty s = length s == 0

-- Go's `!=` on truth values.
abbrev pub differ : Bool → Bool → Bool
differ a b = if a then not b else b

-- The value, or the default if it is not positive.
abbrev pub positive_or : ℤ → ℕ → ℤ
positive_or z d = pos (or_default z d)

-- The value of the option, or the default.
abbrev pub value_or {ℓ} : {A : Type ℓ} → Option A → A → A
value_or none d = d
value_or (some a) d = a

-- "CHIMERA_QUIC_CERT".
abbrev pub cert_variable : List ℕ
cert_variable =
    67 ∷ 72 ∷ 73 ∷ 77 ∷ 69 ∷ 82 ∷ 65 ∷ 95 ∷ 81 ∷ 85 ∷ 73 ∷ 67 ∷ 95 ∷ 67 ∷ 69 ∷ 82 ∷ 84 ∷ []

-- "quic-cert.pem".
abbrev pub default_cert_path : List ℕ
default_cert_path = 113 ∷ 117 ∷ 105 ∷ 99 ∷ 45 ∷ 99 ∷ 101 ∷ 114 ∷ 116 ∷ 46 ∷ 112 ∷ 101 ∷ 109 ∷ []

abbrev pub default_server_quic : QuicConfig
default_server_quic = record {
  handshake_idle_timeout = pos (5 * second);
  max_idle_timeout = pos (60 * second);
  keep_alive_period = pos (20 * second);
  max_incoming_streams = pos 128;
  max_incoming_uni_streams = pos 16;
  enable_datagrams = false;
}

abbrev pub default_client_quic : QuicConfig
default_client_quic = record {
  handshake_idle_timeout = pos (5 * second);
  max_idle_timeout = pos (60 * second);
  keep_alive_period = pos (20 * second);
  max_incoming_streams = negsuc 0;
  max_incoming_uni_streams = pos 0;
  enable_datagrams = false;
}

-- The copy of the given configuration, or the default, with datagrams if they are wanted.
unfoldable pub fill_quic_config : QuicConfig → Bool → Option QuicConfig → QuicConfig
fill_quic_config default datagrams asked =
    if datagrams
    then record (value_or asked default) { enable_datagrams = true }
    else value_or asked default

-- net.DefaultResolver, a net.Dialer by its timeout and net.ListenPacket.
pub record Defaults : Type 0 where
  pub lookup_ip : List ℕ → Option (List Ip)
  pub dialer : ℤ → List ℕ → Bool
  pub listen_packet : Bool

unfoldable pub normalize_network_hooks : Defaults → NetworkHooks → ℤ → NetworkHooks
normalize_network_hooks defaults hooks timeout = record {
  lookup_ip = some (value_or hooks.lookup_ip defaults.lookup_ip);
  dial_context = some (value_or hooks.dial_context (defaults.dialer timeout));
  listen_packet = some (value_or hooks.listen_packet defaults.listen_packet);
}

-- The path of the certificate; `env` is os.Getenv.
unfoldable pub certificate_path_of : (List ℕ → List ℕ) → ServerConfig → List ℕ
certificate_path_of env cfg =
    if is_empty cfg.certificate_path && is_empty cfg.certificate_file
    then (if is_empty (trim_space (env cert_variable))
        then default_cert_path
        else trim_space (env cert_variable))
    else cfg.certificate_path

-- The defaults of `normalizeServerConfig`, behind its tests.
unfoldable pub fill_server_config : (List ℕ → List ℕ) → Defaults → ServerConfig → ServerConfig
fill_server_config env defaults cfg = record cfg {
  listen_addr = trim_space cfg.listen_addr;
  server_name = to_lower (trim_space cfg.server_name);
  certificate_path = certificate_path_of env cfg;
  decoy_refresh_interval = positive_or cfg.decoy_refresh_interval (600 * second);
  target_dial_timeout = positive_or cfg.target_dial_timeout (10 * second);
  authentication_skew = positive_or cfg.authentication_skew (60 * second);
  replay_capacity = positive_or cfg.replay_capacity 4096;
  udp_max_packet_size =
      if cfg.enable_udp_relay
      then positive_or cfg.udp_max_packet_size default_udp_max_packet_size
      else cfg.udp_max_packet_size;
  udp_max_sessions =
      if cfg.enable_udp_relay then positive_or cfg.udp_max_sessions 64 else cfg.udp_max_sessions;
  udp_idle_timeout =
      if cfg.enable_udp_relay
      then positive_or cfg.udp_idle_timeout (60 * second)
      else cfg.udp_idle_timeout;
  network =
      normalize_network_hooks defaults cfg.network
        (positive_or cfg.target_dial_timeout (10 * second));
  quic_config = some (fill_quic_config default_server_quic cfg.enable_udp_relay cfg.quic_config);
}

unfoldable pub normalize_server_config :
    (List ℕ → List ℕ) → Defaults → ServerConfig → Result ConfigError ServerConfig
unfolding fill_server_config
normalize_server_config env defaults cfg =
    if is_empty (trim_space cfg.listen_addr)
    then err no_listen_addr
    else if is_empty (to_lower (trim_space cfg.server_name))
    then err no_server_name
    else if length cfg.auth_keys == 0
    then err no_auth_keys
    else if differ (is_empty cfg.certificate_file) (is_empty cfg.private_key_file)
    then err half_certificate
    else if is_empty (trim_space cfg.decoy_target)
    then err no_decoy_target
    else ok (fill_server_config env defaults cfg)

-- The defaults of `normalizeClientConfig`, behind its tests.
unfoldable pub fill_client_config : ClientConfig → ClientConfig
fill_client_config cfg = record cfg {
  server_addr = trim_space cfg.server_addr;
  server_name = to_lower (trim_space cfg.server_name);
  udp_max_packet_size =
      if cfg.enable_datagrams
      then positive_or cfg.udp_max_packet_size default_udp_max_packet_size
      else cfg.udp_max_packet_size;
  quic_config = some (fill_quic_config default_client_quic cfg.enable_datagrams cfg.quic_config);
}

unfoldable pub normalize_client_config : ClientConfig → Result ConfigError ClientConfig
unfolding fill_client_config
normalize_client_config cfg =
    if is_empty (trim_space cfg.server_addr)
    then err no_server_addr
    else if is_empty (to_lower (trim_space cfg.server_name))
    then err no_server_name
    else if not (length cfg.auth_key == auth_key_len)
    then err bad_auth_key
    else if is_empty (trim_space cfg.cert_fingerprint)
    then err no_fingerprint
    else ok (fill_client_config cfg)
