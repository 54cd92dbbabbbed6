-- ===== src/Quic/Handler.antt =====
-- `ServeHTTP` of internal/quicx/server.go and `serveUDPSession` of udp.go, up to the relays, as what they
-- do in order. NetworkHooks, net.ParseIP, net.IP.String and net.ResolveUDPAddr are in `Network`.
pub mod Guarded
pub mod Balance
use chimera_core.Prelude.{
  ℕ, ◌≡◌, Bool, true, false, not, ◌||◌, ◌==◌, List, [], ◌∷◌, ◌++◌, Option, none, some, Result, ok,
  err, if◌then◌else◌,
}
use chimera_core.Prelude.Text.{to_lower}
use chimera_core.Chimera.Ip.{Ip, bytes_equal}
use chimera_core.Chimera.Resolve.{ResolveError, resolve_and_validate_authority}
use chimera_core.Decoy.{Header, Response, content_type, cache_control, serve_status}
use chimera_core.Quic.Admission.{
  Server, HttpRequest, is_connect, Entry, refused, entered, enter, leave, supports_udp_relay,
  take_slot, free_slot,
}

-- "text/plain; charset=utf-8".
abbrev pub plain_text : List ℕ
plain_text =
    116 ∷ 101 ∷ 120 ∷ 116 ∷ 47 ∷ 112 ∷ 108 ∷ 97 ∷ 105 ∷ 110 ∷ 59 ∷ 32 ∷ 99 ∷ 104 ∷ 97 ∷ 114 ∷ 115
    ∷ 101 ∷ 116 ∷ 61 ∷ 117 ∷ 116 ∷ 102 ∷ 45 ∷ 56 ∷ []

-- "X-Content-Type-Options: nosniff", which http.Error sets.
abbrev pub no_sniff : List ℕ × List (List ℕ)
no_sniff = (
  88 ∷ 45 ∷ 67 ∷ 111 ∷ 110 ∷ 116 ∷ 101 ∷ 110 ∷ 116 ∷ 45 ∷ 84 ∷ 121 ∷ 112 ∷ 101 ∷ 45 ∷ 79 ∷ 112 ∷ 116
      ∷ 105 ∷ 111 ∷ 110 ∷ 115 ∷ [],
  (110 ∷ 111 ∷ 115 ∷ 110 ∷ 105 ∷ 102 ∷ 102 ∷ []) ∷ [],
)

-- `writeConnectFailure`: "Bad Gateway" and a line feed.
abbrev pub connect_failure : Response
connect_failure = record {
  header = (content_type, plain_text ∷ []) ∷ no_sniff ∷ [];
  status = 502;
  body = 66 ∷ 97 ∷ 100 ∷ 32 ∷ 71 ∷ 97 ∷ 116 ∷ 101 ∷ 119 ∷ 97 ∷ 121 ∷ 10 ∷ [];
}

-- "Retry-After".
abbrev pub retry_after : List ℕ
retry_after = 82 ∷ 101 ∷ 116 ∷ 114 ∷ 121 ∷ 45 ∷ 65 ∷ 102 ∷ 116 ∷ 101 ∷ 114 ∷ []

-- "no-store".
abbrev pub no_store : List ℕ
no_store = 110 ∷ 111 ∷ 45 ∷ 115 ∷ 116 ∷ 111 ∷ 114 ∷ 101 ∷ []

-- `writeRateLimited`: "Too Many Requests" and a line feed.
abbrev pub rate_limited : Response
rate_limited = record {
  header =
      (cache_control, no_store ∷ [])
      ∷ (content_type, plain_text ∷ [])
      ∷ (retry_after, (54 ∷ 48 ∷ []) ∷ [])
      ∷ no_sniff
      ∷ [];
  status = 429;
  body =
      84 ∷ 111 ∷ 111 ∷ 32 ∷ 77 ∷ 97 ∷ 110 ∷ 121 ∷ 32 ∷ 82 ∷ 101 ∷ 113 ∷ 117 ∷ 101 ∷ 115 ∷ 116 ∷ 115
      ∷ 10 ∷ [];
}

-- w.WriteHeader(http.StatusOK).
abbrev pub accepted : Response
accepted = record { header = []; status = 200; body = [] }

-- net.UDPAddr.
pub record UdpAddr : Type 0 where
  pub ip : Ip
  pub port : ℕ

-- `dial` says whether the dial gives a connection, `listen_packet` whether there is a socket.
pub record Network : Type 0 where
  pub parse_ip : List ℕ → Ip
  pub ip_string : Ip → List ℕ
  pub lookup : List ℕ → Option (List Ip)
  pub dial : List ℕ → Bool
  pub resolve_udp_addr : List ℕ → Option UdpAddr
  pub listen_packet : Bool

-- What a handler does to the world. `opened` is a dial with a connection, `not_opened` one without.
pub data Effect : Type 0 where
  respond : Response → Effect
  opened not_opened closed : List ℕ → Effect
  relay : List ℕ → Effect
  socket_failed socket_opened socket_closed : Effect
  udp_session : UdpAddr → Effect

-- "connect-udp".
abbrev pub connect_udp : List ℕ
connect_udp = 99 ∷ 111 ∷ 110 ∷ 110 ∷ 101 ∷ 99 ∷ 116 ∷ 45 ∷ 117 ∷ 100 ∷ 112 ∷ []

-- strings.EqualFold with "connect-udp", none of whose letters folds to one that is not ASCII.
abbrev pub wants_udp : HttpRequest → Bool
wants_udp r = bytes_equal (to_lower r.connect_protocol) connect_udp

abbrev pub is_nil : Ip → Bool
is_nil none = true
is_nil (some _) = false

-- `serveUnauthenticated`.
unfoldable pub serve_unauthenticated : Server → HttpRequest → List Effect
serve_unauthenticated s r =
    respond (serve_status s.decoy r.method (if is_connect r then 404 else 0)) ∷ []

module _ (network : Network) where
  abbrev pub resolve : List ℕ → Result ResolveError (List ℕ)
  resolve host =
      resolve_and_validate_authority network.parse_ip network.ip_string network.lookup host

  -- `ServeHTTP` from the dial on.
  unfoldable pub serve_target : HttpRequest → List ℕ → List Effect
  serve_target r target =
      if network.dial target
      then (if r.can_stream
          then opened target ∷ respond accepted ∷ relay target ∷ closed target ∷ []
          else opened target ∷ respond connect_failure ∷ closed target ∷ [])
      else not_opened target ∷ respond connect_failure ∷ []

  -- `ServeHTTP` from `ResolveAndValidateAuthority` on.
  unfoldable pub serve_tcp : HttpRequest → List Effect
  unfolding serve_target
  serve_tcp r = elim (resolve r.host) [
    | err _ ↦ respond connect_failure ∷ []
    | ok target ↦ serve_target r target
  ]

  -- `serveUDPSession` from `ListenPacket` on.
  unfoldable pub serve_socket : UdpAddr → List Effect
  serve_socket addr =
      if network.listen_packet
      then socket_opened ∷ respond accepted ∷ udp_session addr ∷ socket_closed ∷ []
      else socket_failed ∷ respond connect_failure ∷ []

  -- `serveUDPSession` while it holds a slot.
  unfoldable pub serve_udp_target : HttpRequest → List Effect
  unfolding serve_socket
  serve_udp_target r =
      if not r.can_stream then respond connect_failure ∷ [] else elim (resolve r.host) [
        | err _ ↦ respond connect_failure ∷ []
        | ok target ↦ elim (network.resolve_udp_addr target) [
          | none ↦ respond connect_failure ∷ []
          | some addr ↦
              if is_nil addr.ip || addr.port == 0
              then respond connect_failure ∷ []
              else serve_socket addr
        ]
      ]

  unfoldable pub serve_udp_session : Server → HttpRequest → Server × List Effect
  unfolding serve_udp_target
  serve_udp_session s r =
      if not (supports_udp_relay s) then (s, respond connect_failure ∷ []) else elim (take_slot s) [
        | none ↦ (s, respond rate_limited ∷ [])
        | some s' ↦ (free_slot s', serve_udp_target r)
      ]

  -- `ServeHTTP` while it holds its place in the limiter.
  unfoldable pub dispatch : Server → HttpRequest → Bool → Server × List Effect
  unfolding serve_unauthenticated serve_udp_session serve_tcp
  dispatch s r authenticated =
      if not (is_connect r)
      then (s, respond (serve_status s.decoy r.method 0) ∷ [])
      else if not authenticated
      then (s, serve_unauthenticated s r)
      else if wants_udp r
      then serve_udp_session s r
      else (s, serve_tcp r)

  -- `ServeHTTP`, with no other request between.
  unfoldable pub serve_http :
      (List ℕ → List ℕ → List ℕ) → Server → HttpRequest → ℕ → ℕ → Option (Server × List Effect)
  unfolding dispatch
  serve_http hmac s r now later = elim (enter hmac s r now later) [
    | none ↦ none
    | some (s', refused) ↦ some (s', respond rate_limited ∷ [])
    | some (s', entered authenticated) ↦
        let (s2, effects) = dispatch s' r authenticated in some (leave s2, effects)
  ]
