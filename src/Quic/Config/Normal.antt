-- ===== src/Quic/Config/Normal.antt =====
-- What `normalizeServerConfig` and `normalizeClientConfig` of internal/quicx/config.go give.
use chimera_core.Prelude.{
  ℕ, zero, suc, ◌*◌, ◌<◌, ◌≡◌, refl, Bool, true, false, ◌==◌, List, Option, some, ok, if◌then◌else◌,
  length, arith, ap, ◌∙◌, sym, subst,
}
use chimera_core.Prelude.Int.{ℤ, pos, negsuc, or_default}
use chimera_core.Prelude.Text.{trim_space, to_lower}
use chimera_core.Prelude.Text.Laws.{trim_space_twice, to_lower-trim_space_twice}
use chimera_core.Udp.Frame.{default_udp_max_packet_size}
use chimera_core.Auth.Token.{second}
use chimera_core.Quic.Config.{
  QuicConfig, ServerConfig, ClientConfig, is_empty, positive_or, default_server_quic,
  default_client_quic, fill_quic_config, Defaults, normalize_network_hooks, certificate_path_of,
  fill_server_config, normalize_server_config, fill_client_config, normalize_client_config, differ,
}

pub or_default-pos : (z : ℤ) (d : ℕ) → 0 < d → 0 < or_default z d
or_default-pos (pos zero) d h = h
or_default-pos (pos (suc n)) d h = omega arith
or_default-pos (negsuc n) d h = h

positive_or_twice : (z : ℤ) (d : ℕ) → 0 < d → positive_or (positive_or z d) d ≡ positive_or z d
positive_or_twice (pos zero) zero h = absurd (omega (arith, h))
positive_or_twice (pos zero) (suc d) h = refl
positive_or_twice (pos (suc n)) d h = refl
positive_or_twice (negsuc n) zero h = absurd (omega (arith, h))
positive_or_twice (negsuc n) (suc d) h = refl

fill_quic_config_twice :
    (default : QuicConfig) (datagrams : Bool) (asked : Option QuicConfig)
    → fill_quic_config default datagrams (some (fill_quic_config default datagrams asked))
      ≡ fill_quic_config default datagrams asked
unfolding fill_quic_config
fill_quic_config_twice default true asked = refl
fill_quic_config_twice default false asked = refl

if_twice :
    (b : Bool) (z : ℤ) (d : ℕ)
    → 0 < d
    → (if b
        then positive_or (if b then positive_or z d else z) d
        else (if b then positive_or z d else z))
      ≡ (if b then positive_or z d else z)
if_twice true z d h = positive_or_twice z d h
if_twice false z d h = refl

certificate_path_of_twice :
    (env env' : List ℕ → List ℕ) (defaults : Defaults) (cfg : ServerConfig)
    → certificate_path_of env' (fill_server_config env defaults cfg) ≡ certificate_path_of env cfg
unfolding certificate_path_of fill_server_config
certificate_path_of_twice env env' defaults cfg = ground arith

fill_client_config_twice :
    (cfg : ClientConfig) → fill_client_config (fill_client_config cfg) ≡ fill_client_config cfg
unfolding fill_client_config
fill_client_config_twice cfg = ground (
  arith,
  trim_space_twice cfg.server_addr,
  to_lower-trim_space_twice cfg.server_name,
  if_twice cfg.enable_datagrams cfg.udp_max_packet_size default_udp_max_packet_size (omega arith),
  fill_quic_config_twice default_client_quic cfg.enable_datagrams cfg.quic_config,
)

-- The fields that have defaults.
fill_server_config_twice :
    (env env' : List ℕ → List ℕ) (defaults defaults' : Defaults) (cfg : ServerConfig)
    → fill_server_config env' defaults' (fill_server_config env defaults cfg)
      ≡ fill_server_config env defaults cfg
unfolding fill_server_config normalize_network_hooks
fill_server_config_twice env env' defaults defaults' cfg = ground (
  arith,
  trim_space_twice cfg.listen_addr,
  to_lower-trim_space_twice cfg.server_name,
  certificate_path_of_twice env env' defaults cfg,
  positive_or_twice cfg.decoy_refresh_interval (600 * second) (omega arith),
  positive_or_twice cfg.target_dial_timeout (10 * second) (omega arith),
  positive_or_twice cfg.authentication_skew (60 * second) (omega arith),
  positive_or_twice cfg.replay_capacity 4096 (omega arith),
  if_twice cfg.enable_udp_relay cfg.udp_max_packet_size default_udp_max_packet_size (omega arith),
  if_twice cfg.enable_udp_relay cfg.udp_max_sessions 64 (omega arith),
  if_twice cfg.enable_udp_relay cfg.udp_idle_timeout (60 * second) (omega arith),
  fill_quic_config_twice default_server_quic cfg.enable_udp_relay cfg.quic_config,
)

-- What passes the tests.
pub record Passed (cfg : ServerConfig) : Type 0 where
  pub has_addr : is_empty (trim_space cfg.listen_addr) ≡ false
  pub has_name : is_empty (to_lower (trim_space cfg.server_name)) ≡ false
  pub has_key : (length cfg.auth_keys == 0) ≡ false
  pub whole_pair : differ (is_empty cfg.certificate_file) (is_empty cfg.private_key_file) ≡ false
  pub has_target : is_empty (trim_space cfg.decoy_target) ≡ false

pub normalize_server_config-Passed :
    (env : List ℕ → List ℕ) (defaults : Defaults) (cfg c : ServerConfig)
    → normalize_server_config env defaults cfg ≡ ok c
    → Passed cfg × (c ≡ fill_server_config env defaults cfg)
unfolding normalize_server_config
normalize_server_config-Passed env defaults cfg c e = (
  record {
    has_addr = ground arith;
    has_name = ground arith;
    has_key = ground arith;
    whole_pair = ground arith;
    has_target = ground arith;
  },
  ground arith,
)

Passed-normalize_server_config :
    (env : List ℕ → List ℕ) (defaults : Defaults) (cfg : ServerConfig)
    → Passed cfg
    → normalize_server_config env defaults cfg ≡ ok (fill_server_config env defaults cfg)
unfolding normalize_server_config
Passed-normalize_server_config env defaults cfg p =
    ground (arith, p.has_addr, p.has_name, p.has_key, p.whole_pair, p.has_target)

fill_server_config-Passed :
    (env : List ℕ → List ℕ) (defaults : Defaults) (cfg : ServerConfig)
    → Passed cfg
    → Passed (fill_server_config env defaults cfg)
unfolding fill_server_config
fill_server_config-Passed env defaults cfg p = record {
  has_addr = ap is_empty (trim_space_twice cfg.listen_addr) ∙ p.has_addr;
  has_name = ap is_empty (to_lower-trim_space_twice cfg.server_name) ∙ p.has_name;
  has_key = p.has_key;
  whole_pair = p.whole_pair;
  has_target = p.has_target;
}

-- A configuration that normalizeServerConfig gave is left as it is by a second call, under any
-- environment and with any defaults of the network.
pub normalize_server_config_twice :
    (env env' : List ℕ → List ℕ) (defaults defaults' : Defaults) (cfg c : ServerConfig)
    → normalize_server_config env defaults cfg ≡ ok c
    → normalize_server_config env' defaults' c ≡ ok c
normalize_server_config_twice env env' defaults defaults' cfg c e =
    let (passed, same) = normalize_server_config-Passed env defaults cfg c e in
    subst (λ (x : ServerConfig). normalize_server_config env' defaults' x ≡ ok x) (sym same)
      (Passed-normalize_server_config env' defaults' (fill_server_config env defaults cfg)
          (fill_server_config-Passed env defaults cfg passed)
        ∙ ap (λ (x : ServerConfig). ok x)
            (fill_server_config_twice env env' defaults defaults' cfg))

-- A client's configuration behind the tests.
client_tests :
    (cfg c : ClientConfig)
    → normalize_client_config cfg ≡ ok c
    → normalize_client_config (fill_client_config cfg)
      ≡ ok (fill_client_config (fill_client_config cfg))
unfolding normalize_client_config fill_client_config
client_tests cfg c e = ground (
  arith,
  ap is_empty (trim_space_twice cfg.server_addr),
  ap is_empty (to_lower-trim_space_twice cfg.server_name),
)

-- The same for the client.
pub normalize_client_config_twice :
    (cfg c : ClientConfig) → normalize_client_config cfg ≡ ok c → normalize_client_config c ≡ ok c
unfolding normalize_client_config
normalize_client_config_twice cfg c e =
    let same : c ≡ fill_client_config cfg = ground arith in
    subst (λ (x : ClientConfig). normalize_client_config x ≡ ok x) (sym same)
      (client_tests cfg c e ∙ ap (λ (x : ClientConfig). ok x) (fill_client_config_twice cfg))
