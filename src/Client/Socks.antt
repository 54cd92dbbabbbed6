-- ===== src/Client/Socks.antt =====
-- The SOCKS5 server of cmd/chimera-client/main.go. A connection is the bytes to come, those written and
-- the outcomes of the coming writes, as for the padded stream.
pub mod Forward
use chimera_core.Prelude.{
  ℕ, ◌≡◌, Bool, true, false, not, List, [], ◌∷◌, ◌++◌, Option, none, some, Result, ok, err, ◌>>=◌,
  ◌==◌, if◌then◌else◌,
}
use chimera_core.Prelude.Bytes.{IoError, read_full}
use chimera_core.Chimera.Ip.{Ip}
use chimera_core.Chimera.Address.{Address, atyp_ipv4, atyp_domain, atyp_ipv6, first, port_of}
use chimera_core.Padstream.Conn.{Raw, raw_write}

pub data SocksError : Type 0 where
  io : IoError → SocksError
  write_failed bad_version no_method only_connect bad_address_type : SocksError

abbrev pub lift_io {ℓ} : {A : Type ℓ} → Result IoError A → Result SocksError A
lift_io (ok a) = ok a
lift_io (err e) = err (io e)

abbrev pub at_one : List ℕ → ℕ
at_one (_ ∷ b ∷ _) = b
at_one _ = 0

abbrev pub at_three : List ℕ → ℕ
at_three (_ ∷ _ ∷ _ ∷ b ∷ _) = b
at_three _ = 0

-- The reads of `socks5Handshake`: the methods that the client offers.
unfoldable pub read_methods : List ℕ → Result SocksError (List ℕ × List ℕ)
read_methods s = do
  (head, s1) ← lift_io (read_full 2 s)
  if not (first head == 5) then err bad_version else lift_io (read_full (at_one head) s1)

-- The loop over the methods.
unfoldable pub offers_no_auth : List ℕ → Bool
offers_no_auth [] = false
offers_no_auth (method ∷ methods) =
    let rest = offers_no_auth methods in if method == 0 then true else rest

abbrev pub with_input : Raw → List ℕ → Raw
with_input raw s = record raw { input = s }

-- The answer of `socks5Handshake`: the connection and the error.
unfoldable pub answer_methods : Raw → List ℕ → Raw × Option SocksError
answer_methods raw methods =
    if offers_no_auth methods
    then (let (raw1, _, failed) = raw_write (5 ∷ 0 ∷ []) raw in
        (raw1, if failed then some write_failed else none))
    else ((raw_write (5 ∷ 255 ∷ []) raw).0, some no_method)

-- `socks5Handshake`.
unfoldable pub socks5_handshake : Raw → Raw × Option SocksError
socks5_handshake raw = elim (read_methods raw.input) [
  | err e ↦ (with_input raw [], some e)
  | ok (methods, rest) ↦ answer_methods (with_input raw rest) methods
]

unfoldable pub request_domain : List ℕ → Result SocksError (List ℕ × List ℕ)
request_domain s = do (size, s1) ← lift_io (read_full 1 s); lift_io (read_full (first size) s1)

-- The switch of `socks5ReadRequest`: the address without its port. An empty domain is let through.
unfoldable pub request_host : ℕ → List ℕ → Result SocksError (Address × List ℕ)
request_host kind s =
    if kind == 1
    then (do
      (ip, rest) ← lift_io (read_full 4 s)
      ok (record { kind = atyp_ipv4; ip = some ip; domain = []; port = 0 }, rest))
    else if kind == 3
    then (do
      (domain, rest) ← request_domain s
      ok (record { kind = atyp_domain; ip = none; domain = domain; port = 0 }, rest))
    else if kind == 4
    then (do
      (ip, rest) ← lift_io (read_full 16 s)
      ok (record { kind = atyp_ipv6; ip = some ip; domain = []; port = 0 }, rest))
    else err bad_address_type

-- The request's first four bytes.
unfoldable pub check_head : List ℕ → Result SocksError ℕ
check_head head =
    if not (first head == 5)
    then err bad_version
    else if not (at_one head == 1)
    then err only_connect
    else ok (at_three head)

-- `socks5ReadRequest`.
unfoldable pub socks5_read_request : List ℕ → Result SocksError (Address × List ℕ)
socks5_read_request s = do
  (head, s1) ← lift_io (read_full 4 s)
  kind ← check_head head
  (addr, s2) ← request_host kind s1
  (port, rest) ← lift_io (read_full 2 s2)
  ok (record addr { port = port_of port }, rest)

unfoldable pub socks5_reply : Raw → ℕ → Raw × Bool
socks5_reply raw code =
    let (raw1, _, failed) = raw_write (5 ∷ code ∷ 0 ∷ 1 ∷ 0 ∷ 0 ∷ 0 ∷ 0 ∷ 0 ∷ 0 ∷ []) raw in
    (raw1, failed)

-- `handleSocks5`; `connect` is `chimeraConnect` on the connection, which says whether it failed.
unfoldable pub handle_socks5 : (Raw → Address → Raw × Bool) → Raw → Raw
handle_socks5 connect raw =
    let (raw1, problem) = socks5_handshake raw in
    elim problem [
      | some _ ↦ raw1
      | none ↦ elim (socks5_read_request raw1.input) [
        | err _ ↦ (socks5_reply (with_input raw1 []) 1).0
        | ok (target, rest) ↦
            let (raw2, failed) = connect (with_input raw1 rest) target in
            if failed then (socks5_reply raw2 5).0 else raw2
      ]
    ]
