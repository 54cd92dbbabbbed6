-- ===== src/Quic/Client.antt =====
-- internal/quicx/client.go. The QUIC connection and the HTTP/3 stream are in `Calls`: what their methods
-- return; a stream's effects are listed in order.
pub mod Pin
pub mod Authority
pub mod Through
mod Tests
use chimera_core.Prelude.{
  ℕ, ◌*◌, ◌≡◌, Bool, true, false, not, ◌||◌, ◌&&◌, ◌==◌, List, [], ◌∷◌, ◌++◌, Option, none, some,
  Result, ok, err, ltb, leb, if◌then◌else◌, length,
}
use chimera_core.Prelude.Int.{ℤ, pos}
use chimera_core.Prelude.Text.{trim_space}
use chimera_core.Chimera.Ip.{Ip, bytes_equal}
use chimera_core.Chimera.Address.{Address, atyp_ipv4, atyp_domain, atyp_ipv6}
use chimera_core.Chimera.Resolve.{format_uint, join_host_port}
use chimera_core.Auth.Token.{Authenticator, AuthError, Request, new_authenticator, second, sign}
use chimera_core.Client.Options.{hex_bytes}
use chimera_core.Quic.Config.{ClientConfig, ConfigError, normalize_client_config}
use chimera_core.Quic.Admission.{HttpRequest, connect_method}
use chimera_core.Quic.Handler.{connect_udp, is_nil}
use chimera_core.Quic.UdpConn.{UdpConn, new_udp_conn}

pub record Client : Type 0 where
  pub h3 : Bool
  pub auth : Authenticator
  pub server_name : List ℕ
  pub enable_datagrams : Bool
  pub udp_max_packet : ℤ

pub data ClientError : Type 0 where
  bad_config : ConfigError → ClientError
  bad_fingerprint : ClientError
  no_connection : ClientError
  sign_failed : AuthError → ClientError
  no_datagrams bad_address empty_domain empty_ip bad_type : ClientError
  open_failed send_failed no_response : ClientError
  rejected : ℕ → ClientError

-- The checks of `pinnedClientTLSConfig`: the fingerprint's bytes.
unfoldable pub pinned_client_tls_config : List ℕ → Result ClientError (List ℕ)
pinned_client_tls_config fingerprint = elim (hex_bytes (trim_space fingerprint)) [
  | err _ ↦ err bad_fingerprint
  | ok fp ↦ if not (length fp == 32) then err bad_fingerprint else ok fp
]

pub data PeerError : Type 0 where
  no_certificate fingerprint_mismatch : PeerError

-- Its `VerifyPeerCertificate`.
unfoldable pub verify_peer_certificate :
    (List ℕ → List ℕ) → List ℕ → List (List ℕ) → Option PeerError
verify_peer_certificate sha256 fp [] = some no_certificate
verify_peer_certificate sha256 fp (der ∷ _) =
    if not (bytes_equal (sha256 der) fp) then some fingerprint_mismatch else none

-- `authorityFromAddress`; `none` is a nil address.
unfoldable pub authority_from_address : (Ip → List ℕ) → Option Address → Result ClientError (List ℕ)
authority_from_address ip_string none = err bad_address
authority_from_address ip_string (some addr) =
    let port = format_uint 5 addr.port in
    if addr.port == 0
    then err bad_address
    else if addr.kind == atyp_domain
    then (if length addr.domain == 0
        then err empty_domain
        else ok (join_host_port addr.domain port))
    else if addr.kind == atyp_ipv4 || addr.kind == atyp_ipv6
    then (if is_nil addr.ip then err empty_ip else ok (join_host_port (ip_string addr.ip) port))
    else err bad_type

-- What the connection and the stream return; `dialed` is quic.DialAddr.
pub record Calls : Type 0 where
  pub dialed : Bool
  pub opened : Bool
  pub header_sent : Bool
  pub response : Option ℕ

-- `DialClientWithConfig`: how many connections it leaves open, and the client.
unfoldable pub dial_client_with_config : Calls → ClientConfig → ℕ × Result ClientError Client
dial_client_with_config calls cfg = elim (normalize_client_config cfg) [
  | err e ↦ (0, err (bad_config e))
  | ok c ↦ elim (pinned_client_tls_config c.cert_fingerprint) [
    | err e ↦ (0, err e)
    | ok fp ↦
        if not calls.dialed
        then (0, err no_connection)
        else elim (new_authenticator (c.auth_key ∷ []) (pos (60 * second)) (pos 1)) [
          | err e ↦ (0, err (sign_failed e))
          | ok auth ↦ (
            1,
            ok (record {
              h3 = true;
              auth = auth;
              server_name = c.server_name;
              enable_datagrams = c.enable_datagrams;
              udp_max_packet = c.udp_max_packet_size;
            }),
          )
        ]
  ]
]

-- The request of `DialTCP`, and with a protocol that of `DialUDP`, as the server reads it from `peer`.
unfoldable pub connect_request : List ℕ → List ℕ → List ℕ → List ℕ → HttpRequest
connect_request peer protocol authority authorization = record {
  method = connect_method;
  host = authority;
  remote_addr = peer;
  authorization = authorization;
  connect_protocol = protocol;
  can_stream = true;
}

pub data StreamEffect : Type 0 where
  stream_opened read_canceled write_canceled body_closed : StreamEffect
  request_sent : HttpRequest → StreamEffect

-- Go's test `status < 200 || status >= 300`.
abbrev pub refuses : ℕ → Bool
refuses status = ltb status 200 || leb 300 status

abbrev pub cancel_both : List StreamEffect
cancel_both = read_canceled ∷ write_canceled ∷ []

-- `DialTCP` and `DialUDP` from `OpenRequestStream` on, up to the new connection; `on_refusal` is what
-- they do after a response that refuses.
unfoldable pub exchange :
    Calls → List StreamEffect → HttpRequest → List StreamEffect × Option ClientError
exchange calls on_refusal request =
    if not calls.opened
    then ([], some open_failed)
    else if not calls.header_sent
    then (stream_opened ∷ cancel_both, some send_failed)
    else elim calls.response [
      | none ↦ (stream_opened ∷ request_sent request ∷ cancel_both, some no_response)
      | some status ↦
          if refuses status
          then (
            stream_opened ∷ request_sent request ∷ body_closed ∷ on_refusal,
            some (rejected status),
          )
          else (stream_opened ∷ request_sent request ∷ [], none)
    ]

module _ (hmac : List ℕ → List ℕ → List ℕ) (ip_string : Ip → List ℕ) where
  -- The signed request for an address; `random` is the source of the nonce.
  unfoldable pub signed_request :
      Client
      → List ℕ
      → List ℕ
      → ℕ
      → List ℕ
      → Option Address
      → Result ClientError (HttpRequest × List ℕ)
  unfolding connect_request
  signed_request c peer protocol now random addr = elim (authority_from_address ip_string addr) [
    | err e ↦ err e
    | ok authority ↦
        elim (sign hmac c.auth
          (record { method = connect_method; authority = authority; server_name = c.server_name })
          now random) [
            | err e ↦ err (sign_failed e)
            | ok (authorization, rest) ↦
                ok (connect_request peer protocol authority authorization, authority)
          ]
  ]

  -- `DialTCP`; no error is a connection on the stream.
  unfoldable pub dial_tcp :
      Client → Calls → List ℕ → ℕ → List ℕ → Option Address → List StreamEffect × Option ClientError
  unfolding signed_request exchange
  dial_tcp c calls peer now random addr = elim (signed_request c peer [] now random addr) [
    | err e ↦ ([], some e)
    | ok (request, authority) ↦ exchange calls (write_canceled ∷ []) request
  ]

  -- `DialUDP`.
  unfoldable pub dial_udp :
      Client
      → Calls
      → List ℕ
      → ℕ
      → List ℕ
      → Option Address
      → List StreamEffect × Result ClientError UdpConn
  unfolding signed_request exchange
  dial_udp c calls peer now random addr =
      if not c.h3 || not c.enable_datagrams
      then ([], err no_datagrams)
      else elim (signed_request c peer connect_udp now random addr) [
        | err e ↦ ([], err e)
        | ok (request, authority) ↦
            let (effects, fault) = exchange calls cancel_both request in
            (
              effects,
              elim fault [ some e ↦ err e | none ↦ ok (new_udp_conn authority c.udp_max_packet) ],
            )
      ]

-- The fields of a client that `Close` reads, with the errors of closing them; `none` is nil.
pub record ClientHandles : Type 0 where
  pub h3_conn : Option (Option (List ℕ))
  pub transport : Option (Option (List ℕ))
  pub conn : Option (Option (List ℕ))
  pub close_once : Bool
  pub close_err : Option (List ℕ)

abbrev pub first_error : Option (List ℕ) → Option (Option (List ℕ)) → Option (List ℕ)
first_error (some e) closing = some e
first_error none none = none
first_error none (some e) = e

-- `Close`.
unfoldable pub close_client : ClientHandles → ClientHandles × Option (List ℕ)
close_client c =
    let error = first_error (first_error (first_error none c.h3_conn) c.transport) c.conn in
    if c.close_once
    then (c, c.close_err)
    else (record c { close_once = true; close_err = error }, error)

-- `Close` of h3StreamConn: `once`, the error kept, and what the stream's Close returns.
pub record StreamConn : Type 0 where
  pub once : Bool
  pub err_kept : Option (List ℕ)
  pub effects : List StreamEffect

unfoldable pub close_stream : Option (List ℕ) → StreamConn → StreamConn × Option (List ℕ)
close_stream closing c = if c.once then (c, c.err_kept) else (
  record { once = true; err_kept = closing; effects = c.effects ++ (read_canceled ∷ []) },
  closing,
)
