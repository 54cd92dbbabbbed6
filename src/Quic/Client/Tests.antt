-- ===== src/Quic/Client/Tests.antt =====
-- A client of internal/quicx/client.go that asks for "h" at port 80.
use chimera_core.Prelude.{
  ℕ, ◌≡◌, refl, true, false, List, [], ◌∷◌, none, some, ok, err, replicate, arith,
}
use chimera_core.Prelude.Bytes.{read_full, bytes_discrete}
use chimera_core.Prelude.Int.{pos}
use chimera_core.Prelude.Dict.{lookup, insert, delete}
use chimera_core.Prelude.Text.{
  trim_space, to_lower, to_upper, split_host_port, index_byte, last_index_byte, split_plain,
}
use chimera_core.Chimera.Address.{Address}
use chimera_core.Chimera.Guard.{is_forbidden_ip}
use chimera_core.Chimera.Resolve.{
  split_authority, parse_uint16, parse_digits, check_ips, addresses, join_host_port, format_uint,
  resolve_and_validate_authority,
}
use chimera_core.Auth.Replay.{prune_loop, evict_loop, add_fresh, add}
use chimera_core.Auth.Token.{
  check_request, normalize_auth_fields, canonical_auth_input, sign, record_nonce,
}
use chimera_core.Auth.Token.Laws.Signed.{IsMac}
use chimera_core.Quic.Admission.{Server}
use chimera_core.Quic.Handler.{resolve, serve_http}
use chimera_core.Quic.Sample.{
  toy_hmac, authority, request, auth, server, served, network, target, effects,
}
use chimera_core.Quic.Client.{
  Client, Calls, ClientError, stream_opened, request_sent, authority_from_address, connect_request,
  signed_request, exchange, dial_tcp, dial_udp, close_client, close_stream,
}
use chimera_core.Quic.Client.Authority.{authority_from_address-split_authority}
use chimera_core.Quic.Client.Through.{dial_tcp-serve_http}

abbrev address : Address
address = record { kind = 3; ip = none; domain = 104 ∷ []; port = 80 }

written : authority_from_address (λ ip. []) (some address) ≡ ok authority
unfolding authority_from_address join_host_port format_uint index_byte
written = refl

authority_from_address-split_authority_example : split_authority authority ≡ ok (104 ∷ [], 80)
authority_from_address-split_authority_example =
    authority_from_address-split_authority (λ ip. []) address authority written
      ((λ e. ground arith, λ e. ground arith, refl), tt) (omega arith) (omega arith)

abbrev client : Client
client = record {
  h3 = true;
  auth = auth;
  server_name = 115 ∷ [];
  enable_datagrams = false;
  udp_max_packet = pos 0;
}

abbrev random : List ℕ
random = replicate 17 9

abbrev calls : Calls
calls = record { dialed = true; opened = true; header_sent = true; response = some 200 }

signed :
    signed_request toy_hmac (λ ip. []) client (49 ∷ []) [] 7500000000 random (some address)
    ≡ ok (request, authority)
unfolding signed_request connect_request authority_from_address join_host_port format_uint
    index_byte sign normalize_auth_fields check_request canonical_auth_input trim_space to_lower
    to_upper read_full
signed = refl

fresh : record_nonce toy_hmac server.auth (replicate 16 9) 9000000000 ≡ some (served.auth, true)
unfolding record_nonce add add_fresh prune_loop evict_loop lookup insert delete bytes_discrete
fresh = ground arith

found : resolve network authority ≡ ok target
unfolding split_authority parse_uint16 parse_digits check_ips addresses join_host_port format_uint
    resolve_and_validate_authority is_forbidden_ip split_host_port index_byte last_index_byte
    split_plain trim_space
found = refl

toy_hmac-IsMac : IsMac toy_hmac
toy_hmac-IsMac key input = (refl, omega arith)

dial_tcp-serve_http_example :
    ((u : Server) × (serve_http network toy_hmac server request 9000000000 9000000000
        ≡ some (u, effects)))
    × (dial_tcp toy_hmac (λ ip. []) client calls (49 ∷ []) 7500000000 random (some address)
        ≡ (stream_opened ∷ request_sent request ∷ [], none))
dial_tcp-serve_http_example =
    dial_tcp-serve_http toy_hmac (λ ip. []) network client server (49 ∷ []) 7500000000 9000000000
      9000000000 random (some address) request authority target [] [] served.auth calls
      toy_hmac-IsMac (omega arith) signed refl refl (omega arith) (omega arith) (omega arith) fresh
      (omega arith) found refl refl refl refl

-- A refused DialTCP cancels the stream.
refused :
    (dial_tcp toy_hmac
      (λ ip. [])
      client
      (record calls { response = some 404 })
      (49 ∷ [])
      7500000000
      random
      (some address)).1
    ≡ some (ClientError.rejected 404)
unfolding dial_tcp exchange signed
refused = ground (arith, signed)

no_datagrams :
    dial_udp toy_hmac (λ ip. []) client calls (49 ∷ []) 7500000000 random (some address)
    ≡ ([], err ClientError.no_datagrams)
unfolding dial_udp
no_datagrams = refl

-- Closing twice gives the first error.
closed_twice :
    (close_client
      (close_client (record {
        h3_conn = some none;
        transport = none;
        conn = some (some (1 ∷ []));
        close_once = false;
        close_err = none;
      })).0).1
    ≡ some (1 ∷ [])
unfolding close_client
closed_twice = refl

stream_closed :
    (close_stream
      (some (2 ∷ []))
      (close_stream none (record { once = false; err_kept = none; effects = [] })).0).1
    ≡ none
unfolding close_stream
stream_closed = refl
