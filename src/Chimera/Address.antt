-- ===== src/Chimera/Address.antt =====
-- internal/chimera/chimera.go: target addresses on the wire, and the connect request.
pub mod Laws
use chimera_core.Prelude.{
  ℕ, suc, ◌≡◌, List, [], ◌∷◌, ◌++◌, Option, none, some, Result, ok, err, ◌>>=◌, ◌==◌, ltb,
  if◌then◌else◌, length,
}
use chimera_core.Prelude.Bytes.{read_full, put_uint16, uint16}
use chimera_core.Chimera.Session.{
  WireError, empty_domain, domain_too_long, unsupported_type, lift_io,
}
use chimera_core.Chimera.Ip.{Ip, bytes, to4, to16}

abbrev pub atyp_ipv4 : ℕ
atyp_ipv4 = 0x01

abbrev pub atyp_domain : ℕ
atyp_domain = 0x03

abbrev pub atyp_ipv6 : ℕ
atyp_ipv6 = 0x04

pub record Address : Type 0 where
  pub kind : ℕ
  pub ip : Ip
  pub domain : List ℕ
  pub port : ℕ

-- A method of a nil slice sees no bytes, and what it returns may be nil.
abbrev pub to4_bytes : Ip → List ℕ
to4_bytes ip = bytes (to4 (bytes ip))

abbrev pub to16_bytes : Ip → List ℕ
to16_bytes ip = bytes (to16 (bytes ip))

-- The type byte and the host, up to the port.
unfoldable pub write_host : Address → Result WireError (List ℕ)
write_host addr =
    if addr.kind == atyp_ipv4
    then ok (atyp_ipv4 ∷ to4_bytes addr.ip)
    else if addr.kind == atyp_domain
    then (if length addr.domain == 0
        then err empty_domain
        else if ltb 255 (length addr.domain)
        then err domain_too_long
        else ok (atyp_domain ∷ length addr.domain ∷ addr.domain))
    else if addr.kind == atyp_ipv6
    then ok (atyp_ipv6 ∷ to16_bytes addr.ip)
    else err unsupported_type

unfoldable pub write_address : Address → Result WireError (List ℕ)
write_address addr = do buf ← write_host addr; ok (buf ++ put_uint16 addr.port)

abbrev pub first : List ℕ → ℕ
first [] = 0
first (b ∷ _) = b

unfoldable pub read_domain : List ℕ → Result WireError (List ℕ × List ℕ)
read_domain s = do
  (size, s1) ← lift_io (read_full 1 s)
  if first size == 0 then err empty_domain else lift_io (read_full (first size) s1)

-- What follows the type byte, up to the port: the IP, the domain and what is left.
unfoldable pub read_host : ℕ → List ℕ → Result WireError ((Ip × List ℕ) × List ℕ)
read_host kind s =
    if kind == atyp_ipv4
    then (do (ip, rest) ← lift_io (read_full 4 s); ok ((some ip, []), rest))
    else if kind == atyp_domain
    then (do (domain, rest) ← read_domain s; ok ((none, domain), rest))
    else if kind == atyp_ipv6
    then (do (ip, rest) ← lift_io (read_full 16 s); ok ((some ip, []), rest))
    else err unsupported_type

abbrev pub port_of : List ℕ → ℕ
port_of (a ∷ b ∷ _) = uint16 a b
port_of _ = 0

unfoldable pub read_address : List ℕ → Result WireError (Address × List ℕ)
read_address s = do
  (kind, s1) ← lift_io (read_full 1 s)
  (host, s2) ← read_host (first kind) s1
  (port, rest) ← lift_io (read_full 2 s2)
  ok (record { kind = first kind; ip = host.0; domain = host.1; port = port_of port }, rest)

unfoldable pub write_target_connect : ℕ → Address → Result WireError (List ℕ)
write_target_connect cmd addr = do buf ← write_address addr; ok (cmd ∷ buf)

unfoldable pub read_target_connect : List ℕ → Result WireError ((ℕ × Address) × List ℕ)
read_target_connect s = do
  (cmd, s1) ← lift_io (read_full 1 s)
  (addr, rest) ← read_address s1
  ok ((first cmd, addr), rest)
