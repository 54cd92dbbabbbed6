-- ===== src/Quic/Start.antt =====
-- The start and the end of a Server of internal/quicx/server.go. What the operating system and the QUIC
-- library answer is in `Host`, and the sockets that are open are counted.
pub mod Ready
mod Tests
use chimera_core.Prelude.{
  ℕ, ◌+◌, ◌-◌, ◌≡◌, Bool, true, false, not, ◌&&◌, List, [], Option, none, some, Result, ok, err,
  if◌then◌else◌,
}
use chimera_core.Auth.Token.{AuthError, Authenticator, new_authenticator, size}
use chimera_core.Limiter.{new_limiter}
use chimera_core.Decoy.{DecoySnapshot, Decoy, new_decoy, refresh}
use chimera_core.Quic.Config.{
  HttpClient, guarded, DecoyOptions, ServerConfig, ConfigError, Defaults, normalize_server_config,
}
use chimera_core.Quic.Admission.{Slots, Server}

-- `certificate` is loadServerCertificate and gives a fingerprint, `page` and `html` are the decoy's first
-- page and its type, `fetch` is what the first refresh gets with the given options.
pub record Host : Type 0 where
  pub env : List ℕ → List ℕ
  pub defaults : Defaults
  pub certificate : ServerConfig → Option (List ℕ)
  pub page : List ℕ
  pub html : List ℕ
  pub fetch : DecoyOptions → Option DecoySnapshot
  pub listen_packet : List ℕ → Bool
  pub listen_early : Bool
  pub listener_addr : List ℕ

pub data StartError : Type 0 where
  bad_config : ConfigError → StartError
  bad_certificate : StartError
  bad_auth : AuthError → StartError
  bad_decoy : StartError
  no_socket : StartError
  no_listener : StartError

pub record ServerInfo : Type 0 where
  pub addr : List ℕ
  pub fingerprint : List ℕ

-- The guarded client, unless there is another way to fetch.
unfoldable pub fill_decoy_options : DecoyOptions → DecoyOptions
fill_decoy_options o = elim o.http_client [
  | some _ ↦ o
  | none ↦ if o.fetch then o else record o { http_client = some guarded }
]

unfoldable pub new_server : ServerConfig → Authenticator → Decoy → Server
new_server cfg auth decoy = record {
  auth = auth;
  decoy = decoy;
  limiter = new_limiter cfg.limits;
  udp_slots =
      if cfg.enable_udp_relay
      then some (record { size = size cfg.udp_max_sessions; used = 0 })
      else none;
  udp_max_packet = size cfg.udp_max_packet_size;
  server_name = cfg.server_name;
}

-- `ListenServerWithConfig` from `net.ListenPacket` on.
unfoldable pub listen_sockets :
    Host
    → ServerConfig
    → List ℕ
    → Authenticator
    → Decoy
    → ℕ
    → ℕ × Result StartError (Server × ServerInfo)
unfolding new_server
listen_sockets host cfg fingerprint auth decoy sockets =
    if not (host.listen_packet cfg.listen_addr)
    then (sockets, err no_socket)
    else if not host.listen_early
    then (sockets + 1 - 1, err no_listener)
    else (
      sockets + 1,
      ok (
        new_server cfg auth decoy,
        record { addr = host.listener_addr; fingerprint = fingerprint },
      ),
    )

-- From `NewDecoy` on, and the first refresh, whose error is ignored.
unfoldable pub listen_decoy :
    Host → ServerConfig → List ℕ → Authenticator → ℕ → ℕ × Result StartError (Server × ServerInfo)
unfolding listen_sockets
listen_decoy host cfg fingerprint auth sockets =
    elim (new_decoy host.page host.html cfg.decoy_target) [
      | none ↦ (sockets, err bad_decoy)
      | some decoy ↦
          listen_sockets host cfg fingerprint auth
            (refresh decoy (host.fetch (fill_decoy_options cfg.decoy_options))) sockets
    ]

-- From `loadServerCertificate` on.
unfoldable pub listen_normal : Host → ServerConfig → ℕ → ℕ × Result StartError (Server × ServerInfo)
unfolding listen_decoy
listen_normal host cfg sockets = elim (host.certificate cfg) [
  | none ↦ (sockets, err bad_certificate)
  | some fingerprint ↦
      elim (new_authenticator cfg.auth_keys cfg.authentication_skew cfg.replay_capacity) [
        | err e ↦ (sockets, err (bad_auth e))
        | ok auth ↦ listen_decoy host cfg fingerprint auth sockets
      ]
]

unfoldable pub listen_server_with_config :
    Host → ServerConfig → ℕ → ℕ × Result StartError (Server × ServerInfo)
unfolding listen_normal
listen_server_with_config host cfg sockets =
    elim (normalize_server_config host.env host.defaults cfg) [
      | err e ↦ (sockets, err (bad_config e))
      | ok c ↦ listen_normal host c sockets
    ]

-- What a Close returns: no error, the error that it was closed already, which does not count, or
-- another.
pub data Closing : Type 0 where
  closes already : Closing
  fails : List ℕ → Closing

-- The fields of a server that `Close` reads, with what closing them returns; `none` is nil.
pub record Handles : Type 0 where
  pub h3 : Option Closing
  pub listener : Option Closing
  pub packet_conn : Option Closing
  pub close_once : Bool
  pub close_err : Option (List ℕ)

-- The error so far after one more Close: the first one counts.
unfoldable pub join_error : Option (List ℕ) → Option Closing → Option (List ℕ)
join_error (some e) c = some e
join_error none none = none
join_error none (some closes) = none
join_error none (some already) = none
join_error none (some (fails e)) = some e

-- `Close`.
unfoldable pub close_server : Handles → Handles × Option (List ℕ)
unfolding join_error
close_server s = if s.close_once then (s, s.close_err) else (
  record s {
    close_once = true;
    close_err = join_error (join_error (join_error none s.h3) s.listener) s.packet_conn;
  },
  join_error (join_error (join_error none s.h3) s.listener) s.packet_conn,
)

-- `Addr`, with the listener's address; nil is `none`.
unfoldable pub addr : Option (List ℕ) → List ℕ
addr none = []
addr (some a) = a
