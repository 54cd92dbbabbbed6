-- ===== src/Quic/Start/Ready.antt =====
-- A server that `ListenServerWithConfig` of internal/quicx/server.go returns is fit to serve.
use chimera_core.Prelude.{
  ℕ, ◌+◌, ◌*◌, ◌<◌, ◌≡◌, refl, false, List, [], ◌∷◌, ◌⊎◌, inl, inr, none, some, Result, ok, err,
  length, All, arith, Bool-cases, Option-cases, Result-cases, subst, sym,
}
use chimera_core.Prelude.Int.{ℤ}
use chimera_core.Udp.Frame.{default_udp_max_packet_size}
use chimera_core.Auth.Replay.{new_replay_cache}
use chimera_core.Auth.Replay.Order.{IsOrder, cache_of}
use chimera_core.Auth.Token.{
  Authenticator, auth_key_len, second, new_authenticator, check_keys, size,
}
use chimera_core.Limiter.{LimitConfig, new_limiter}
use chimera_core.Limiter.Invariant.{IsValid as IsLimiter}
use chimera_core.Decoy.{Decoy, new_decoy, refresh}
use chimera_core.Quic.Config.{ServerConfig, fill_server_config, normalize_server_config}
use chimera_core.Quic.Config.Normal.{or_default-pos, normalize_server_config-Passed}
use chimera_core.Quic.Admission.{Slots, Server}
use chimera_core.Quic.Admission.System.{used_of}
use chimera_core.Quic.Start.{
  Host, ServerInfo, StartError, fill_decoy_options, new_server, listen_sockets, listen_decoy,
  listen_normal, listen_server_with_config,
}

abbrev pub IsKey : List ℕ → Type 0
IsKey key = length key ≡ auth_key_len

-- An authenticator with keys and a fresh cache that is valid.
pub record IsFresh (a : Authenticator) : Type 0 where
  pub capacity : ℕ
  pub has_keys : 0 < length a.keys
  pub keys : All IsKey a.keys
  pub order_valid : IsOrder capacity []
  pub replay_eq : a.replay ≡ cache_of capacity (2 * a.max_skew + second) []

-- Either no UDP relay, or one with slots and a positive packet limit.
abbrev pub HasRoom : Server → Type 0
HasRoom s =
    (s.udp_slots ≡ none)
    ⊎ ((c : Slots) × (s.udp_slots ≡ some c) × (0 < c.size) × (0 < s.udp_max_packet))

pub record IsReady (s : Server) : Type 0 where
  pub auth_fresh : IsFresh s.auth
  pub limiter_valid : IsLimiter s.limiter
  pub idle : s.limiter.in_use ≡ 0
  pub slots_free : used_of s.udp_slots ≡ 0
  pub room : HasRoom s

check_keys-All :
    (keys copied : List (List ℕ))
    → check_keys keys ≡ ok copied
    → All IsKey copied × (length copied ≡ length keys)
unfolding check_keys
check_keys-All [] copied e = ground arith
check_keys-All (key ∷ keys) copied e = elim (Result-cases (check_keys keys)) [
  | inr (x, bad) ↦ absurd (ground arith)
  | inl (rest, run) ↦ let (all, count) = check_keys-All keys rest run in ground (arith, all, count)
]

new_authenticator-IsFresh :
    (keys : List (List ℕ)) (skew capacity : ℤ) (a : Authenticator)
    → new_authenticator keys skew capacity ≡ ok a
    → IsFresh a
unfolding new_authenticator new_replay_cache
new_authenticator-IsFresh keys skew capacity a e = elim (Result-cases (check_keys keys)) [
  | inr (x, bad) ↦ absurd (ground arith)
  | inl (copied, run) ↦
      let (all, count) = check_keys-All keys copied run in
      let same : record {
        keys = copied;
        max_skew = size skew;
        replay = new_replay_cache (size capacity) (2 * size skew + second);
      }
          ≡ a =
        ground arith in
      let some_keys : 0 < length keys = ground arith in
      let some_room : 0 < size capacity = ground arith in
      subst IsFresh same (record {
        capacity = size capacity;
        has_keys = omega (arith, count, some_keys);
        keys = all;
        order_valid = record { positive = some_room; distinct = tt; bounded = omega arith };
        replay_eq = refl;
      })
]

new_limiter-IsLimiter :
    (cfg : LimitConfig) → IsLimiter (new_limiter cfg) × ((new_limiter cfg).in_use ≡ 0)
unfolding new_limiter
new_limiter-IsLimiter cfg = (
  record {
    in_use_le = omega arith;
    tracked_pos = or_default-pos cfg.max_tracked_ips 4096 (omega arith);
    tracked_le = omega arith;
    held = tt;
  },
  refl,
)

-- The limits of UDP in a configuration.
abbrev UdpLimits : ServerConfig → Type 0
UdpLimits cfg =
    (cfg.enable_udp_relay ≡ false)
    ⊎ ((0 < size cfg.udp_max_sessions) × (0 < size cfg.udp_max_packet_size))

fill_server_config-UdpLimits :
    (host : Host) (cfg : ServerConfig) → UdpLimits (fill_server_config host.env host.defaults cfg)
unfolding fill_server_config
fill_server_config-UdpLimits host cfg = elim (Bool-cases cfg.enable_udp_relay) [
  | inr off ↦ inl off
  | inl on ↦
      let sessions = or_default-pos cfg.udp_max_sessions 64 (omega arith) in
      let packet =
        or_default-pos cfg.udp_max_packet_size default_udp_max_packet_size (omega arith) in
      inr (ground arith, ground arith)
]

new_server-HasRoom :
    (cfg : ServerConfig) (a : Authenticator) (decoy : Decoy)
    → UdpLimits cfg
    → HasRoom (new_server cfg a decoy)
unfolding new_server
new_server-HasRoom cfg a decoy (inl off) = inl (ground (arith, off))
new_server-HasRoom cfg a decoy (inr (sessions, packet)) = elim (Bool-cases cfg.enable_udp_relay) [
  | inr off ↦ inl (ground arith)
  | inl on ↦
      inr (record { size = size cfg.udp_max_sessions; used = 0 }, ground arith, sessions, packet)
]

new_server-IsReady :
    (cfg : ServerConfig) (a : Authenticator) (decoy : Decoy)
    → UdpLimits cfg
    → IsFresh a
    → IsReady (new_server cfg a decoy)
unfolding new_server
new_server-IsReady cfg a decoy limits fresh =
    let (valid, idle) = new_limiter-IsLimiter cfg.limits in
    record {
      auth_fresh = fresh;
      limiter_valid = valid;
      idle = idle;
      slots_free = ground arith;
      room = new_server-HasRoom cfg a decoy limits;
    }

-- The start, from a number of open sockets.
abbrev pub Started : ℕ → ℕ × Result StartError (Server × ServerInfo) → Type 0
Started sockets (n, ok (server, info)) = (n ≡ sockets + 1) × IsReady server
Started sockets (n, err _) = n ≡ sockets

listen_sockets-Started :
    (host : Host) (cfg : ServerConfig) (fingerprint : List ℕ) (a : Authenticator) (decoy : Decoy)
    (sockets : ℕ)
    → UdpLimits cfg
    → IsFresh a
    → Started sockets (listen_sockets host cfg fingerprint a decoy sockets)
unfolding listen_sockets
listen_sockets-Started host cfg fingerprint a decoy sockets limits fresh =
    ground (arith, new_server-IsReady cfg a decoy limits fresh)

listen_normal-Started :
    (host : Host) (cfg : ServerConfig) (sockets : ℕ)
    → UdpLimits cfg
    → Started sockets (listen_normal host cfg sockets)
unfolding listen_normal listen_decoy
listen_normal-Started host cfg sockets limits = elim (Option-cases (host.certificate cfg)) [
  | inl bad ↦ ground arith
  | inr (fingerprint, loaded) ↦
      elim (Result-cases
        (new_authenticator cfg.auth_keys cfg.authentication_skew cfg.replay_capacity)) [
          | inr (x, bad) ↦ ground arith
          | inl (a, made) ↦
              let fresh =
                new_authenticator-IsFresh cfg.auth_keys cfg.authentication_skew cfg.replay_capacity
                  a made in
              elim (Option-cases (new_decoy host.page host.html cfg.decoy_target)) [
                | inl bad ↦ ground arith
                | inr (decoy, good) ↦
                    let page = refresh decoy (host.fetch (fill_decoy_options cfg.decoy_options)) in
                    ground (
                      arith,
                      listen_sockets-Started host cfg fingerprint a page sockets limits fresh,
                    )
              ]
        ]
]

-- Whatever the configuration and the host's answers: if ListenServerWithConfig returns an error, it leaves
-- no socket open; if it returns a server, it holds one socket, and the server has keys, each of 32
-- bytes, an empty replay cache that is valid, a valid limiter with nothing in use, and either no UDP
-- relay or one with free slots, at least one, and a positive packet limit.
pub listen_server_with_config-Started :
    (host : Host) (cfg : ServerConfig) (sockets : ℕ)
    → Started sockets (listen_server_with_config host cfg sockets)
unfolding listen_server_with_config
listen_server_with_config-Started host cfg sockets =
    elim (Result-cases (normalize_server_config host.env host.defaults cfg)) [
      | inr (x, bad) ↦ ground arith
      | inl (c, good) ↦
          let (passed, same) = normalize_server_config-Passed host.env host.defaults cfg c good in
          let limits = subst UdpLimits (sym same) (fill_server_config-UdpLimits host cfg) in
          ground (arith, listen_normal-Started host c sockets limits)
    ]
