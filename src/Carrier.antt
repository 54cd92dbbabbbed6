-- ===== src/Carrier.antt =====
-- The TCP carrier: `handleConn` of cmd/chimera-server/main.go and `dialChimeraTCP` of
-- cmd/chimera-client/main.go over a connection and its padded stream. The REALITY handshake and the dial
-- of the target are parameters.
pub mod Padded
pub mod Request
pub mod Ending
pub mod Outcome
pub mod ServerEnd
pub mod ClientEnd
pub mod Through
mod Tests
use chimera_core.Prelude.{
  ℕ, suc, ◌+◌, ◌≡◌, Bool, true, false, not, ◌==◌, List, [], ◌∷◌, ◌++◌, Option, none, some, Result,
  ok, err, if◌then◌else◌,
}
use chimera_core.Prelude.Bytes.{IoError}
use chimera_core.Chimera.Ip.{Ip}
use chimera_core.Chimera.Session.{
  WireError, empty_domain, unsupported_type, lift_io, status_ok, status_dial_error, cmd_connect,
  write_session_header, write_session_response, read_session_header, read_session_response,
  check_preamble,
}
use chimera_core.Chimera.Address.{
  Address, atyp_ipv4, atyp_domain, atyp_ipv6, first, port_of, write_address,
}
use chimera_core.Chimera.Resolve.{ResolveError, format_uint, resolve_and_validate_authority}
use chimera_core.Padstream.Conn.{Raw, Conn, raw_write, new, default_policy, write}
use chimera_core.Padstream.Roundtrip.{read_full_loop}

-- `Address.String`.
unfoldable pub address_string : (Ip → List ℕ) → Address → List ℕ
address_string ip_string a =
    if a.kind == atyp_domain
    then a.domain ++ (58 ∷ format_uint 5 a.port)
    else if a.kind == atyp_ipv6
    then 91 ∷ ip_string a.ip ++ (93 ∷ 58 ∷ format_uint 5 a.port)
    else ip_string a.ip ++ (58 ∷ format_uint 5 a.port)

-- A reader over a padded connection: the connection after it, and a value or an error; `none` if the
-- fuel runs out.
abbrev pub Padded : Type 0 → Type 0
Padded A = Option (Conn × Result WireError A)

abbrev pub and_then : {A B : Type 0} → Padded A → (A → Conn → Padded B) → Padded B
and_then none f = none
and_then (some (c, err e)) f = some (c, err e)
and_then (some (c, ok a)) f = f a c

abbrev pub lift_padded : Option (Conn × Result IoError (List ℕ)) → Padded (List ℕ)
lift_padded none = none
lift_padded (some (c, r)) = some (c, lift_io r)

module _ (rng : ℕ → ℕ) where
  -- io.ReadFull of `n` bytes, which takes at most that many calls of `Read` and one more round.
  unfoldable pub take_bytes : ℕ → Conn → Padded (List ℕ)
  take_bytes n c = lift_padded (read_full_loop rng (suc n) n c)

  -- The host in `ReadAddress`: the IP and the domain.
  unfoldable pub take_domain : Conn → Padded (List ℕ)
  unfolding take_bytes
  take_domain c = and_then (take_bytes 1 c) (λ size c1.
      if first size == 0 then some (c1, err empty_domain) else take_bytes (first size) c1)

  unfoldable pub take_host : ℕ → Conn → Padded (Ip × List ℕ)
  unfolding take_bytes take_domain
  take_host kind c =
      if kind == atyp_ipv4
      then and_then (take_bytes 4 c) (λ ip c1. some (c1, ok (some ip, [])))
      else if kind == atyp_domain
      then and_then (take_domain c) (λ domain c1. some (c1, ok (none, domain)))
      else if kind == atyp_ipv6
      then and_then (take_bytes 16 c) (λ ip c1. some (c1, ok (some ip, [])))
      else some (c, err unsupported_type)

  -- `ReadAddress`.
  unfoldable pub take_address : Conn → Padded Address
  unfolding take_bytes take_host
  take_address c = and_then (take_bytes 1 c) (λ kind c1.
      and_then (take_host (first kind) c1) (λ host c2. and_then (take_bytes 2 c2) (λ port c3. some (
        c3,
        ok (record { kind = first kind; ip = host.0; domain = host.1; port = port_of port }),
      ))))

  -- `ReadTargetConnect`.
  unfoldable pub take_target_connect : Conn → Padded (ℕ × Address)
  unfolding take_bytes take_address
  take_target_connect c =
      and_then (take_bytes 1 c)
        (λ cmd c1. and_then (take_address c1) (λ addr c2. some (c2, ok (first cmd, addr))))

  -- `ReadSessionResponse`.
  unfoldable pub take_session_response : Conn → Padded ℕ
  unfolding take_bytes
  take_session_response c = and_then (take_bytes 8 c) (λ resp c1. some (c1, check_preamble resp))

-- What `handleConn` does beside its reads and writes on the connection.
pub data Effect : Type 0 where
  opened closed : List ℕ → Effect
  relayed : Conn → List ℕ → Effect
  conn_closed : Effect

-- `WriteSessionResponse` on the padded connection, with its error ignored.
abbrev pub refused : (ℕ → ℕ) → Conn → Conn × List Effect
refused rng pc = ((write rng pc (write_session_response status_dial_error)).0, [])

module _ (rng : ℕ → ℕ) where
  -- From the open target on.
  unfoldable pub serve_opened : Conn → List ℕ → Conn × List Effect
  serve_opened pc target =
      let (pc1, _, failed) = write rng pc (write_session_response status_ok) in
      if failed then (pc1, closed target ∷ []) else (pc1, relayed pc1 target ∷ closed target ∷ [])

  module _ (parse_ip : List ℕ → Ip) (ip_string : Ip → List ℕ) (lookup : List ℕ → Option (List Ip))
      (dial : List ℕ → Bool) where
    -- From the request on.
    unfoldable pub serve_request : Conn → ℕ → Address → Conn × List Effect
    unfolding serve_opened
    serve_request pc cmd addr =
        if not (cmd == cmd_connect)
        then (pc, [])
        else elim (resolve_and_validate_authority parse_ip ip_string lookup
            (address_string ip_string addr)) [
              | err e ↦ refused rng pc
              | ok target ↦
                  if dial target
                  then (let (pc1, effects) = serve_opened pc target in
                      (pc1, opened target ∷ effects))
                  else refused rng pc
            ]

    -- `handleConn`. Nothing reads from the connection after an error of the header's reader.
    unfoldable pub handle_conn : Raw → Option (Raw × List Effect)
    unfolding serve_request
    handle_conn raw = elim (read_session_header raw.input) [
      | err e ↦ some (record raw { input = [] }, conn_closed ∷ [])
      | ok (flags, rest) ↦
          let (raw1, _, failed) =
            raw_write (write_session_response status_ok) (record raw { input = rest }) in
          if failed
          then some (raw1, conn_closed ∷ [])
          else elim (take_target_connect rng (new raw1 default_policy)) [
            | none ↦ none
            | some (pc, err e) ↦ some (pc.raw, conn_closed ∷ [])
            | some (pc, ok (cmd, addr)) ↦
                let (pc1, effects) = serve_request pc cmd addr in
                some (pc1.raw, effects ++ (conn_closed ∷ []))
          ]
    ]

-- An error of `dialChimeraTCP`.
pub data DialError : Type 0 where
  dial_failed write_failed : DialError
  wire_error : WireError → DialError
  rejected : ℕ → DialError

-- The session header and its response; the connection after them, or the one to be closed.
unfoldable pub open_session : Raw → Raw × Option DialError
open_session conn =
    let (conn1, _, failed) = raw_write (write_session_header 1) conn in
    if failed then (conn1, some write_failed) else elim (read_session_response conn1.input) [
      | err e ↦ (record conn1 { input = [] }, some (wire_error e))
      | ok (status, rest) ↦ (
        record conn1 { input = rest },
        if not (status == status_ok) then some (rejected status) else none,
      )
    ]

module _ (rng : ℕ → ℕ) where
  -- `WriteTargetConnect`, with two calls of `Write`.
  unfoldable pub send_target_connect : Conn → ℕ → Address → Conn × Option DialError
  send_target_connect pc cmd addr =
      let (pc1, _, failed) = write rng pc (cmd ∷ []) in
      if failed then (pc1, some write_failed) else elim (write_address addr) [
        | err e ↦ (pc1, some (wire_error e))
        | ok buf ↦
            let (pc2, _, failed2) = write rng pc1 buf in
            (pc2, if failed2 then some write_failed else none)
      ]

  -- The result of the connect request, and the connection to be closed if it is an error.
  unfoldable pub await_result : Conn → Option (Raw × Result DialError Conn)
  await_result pc = elim (take_session_response rng pc) [
    | none ↦ none
    | some (pc1, err e) ↦ some (pc1.raw, err (wire_error e))
    | some (pc1, ok status) ↦
        some (pc1.raw, if not (status == status_ok) then err (rejected status) else ok pc1)
  ]

  unfoldable pub request_target : Raw → Address → Option (Raw × Result DialError Conn)
  unfolding send_target_connect await_result
  request_target conn target =
      let (pc, failure) = send_target_connect (new conn default_policy) cmd_connect target in
      elim failure [ some e ↦ some (pc.raw, err e) | none ↦ await_result pc ]

  -- `dialChimeraTCP` over what the REALITY dial gives: the connections that it closes, and the
  -- padded connection or an error.
  unfoldable pub dial_chimera_tcp : Option Raw → Address → Option (List Raw × Result DialError Conn)
  unfolding open_session request_target
  dial_chimera_tcp none target = some ([], err dial_failed)
  dial_chimera_tcp (some conn) target =
      let (conn1, failure) = open_session conn in
      elim failure [
        | some e ↦ some (conn1 ∷ [], err e)
        | none ↦ elim (request_target conn1 target) [
          | none ↦ none
          | some (conn2, err e) ↦ some (conn2 ∷ [], err e)
          | some (conn2, ok pc) ↦ some ([], ok pc)
        ]
      ]
