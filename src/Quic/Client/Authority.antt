-- ===== src/Quic/Client/Authority.antt =====
-- The authority that `authorityFromAddress` of internal/quicx/client.go writes is the one that the guard
-- of internal/chimera/guard.go reads.
pub mod Digits
pub mod Hosts
use chimera_core.Prelude.{
  ℕ, zero, suc, ◌+◌, ◌-◌, ◌*◌, ◌/◌, ◌%◌, ◌^◌, ◌≤◌, ◌<◌, ◌≡◌, ◌≢◌, refl, Bool, true, false, not,
  ◌&&◌, ◌||◌, ◌==◌, List, [], ◌∷◌, ◌++◌, Option, none, some, Result, ok, err, ltb, leb, length,
  take, drop, All, All-append, All-take, take-length_append, drop-length_append, ◌⊎◌, length-append,
  append_assoc, arith, Bool-cases, inl, inr, sym, ap, ◌∙◌, subst, if◌then◌else◌,
}
use chimera_core.Prelude.Text.{
  is_space, trim_space, index_byte, last_index_byte, has_byte, split_bracketed, split_plain,
  split_host_port,
}
use chimera_core.Prelude.Base64.{NoSpace}
use chimera_core.Chimera.Ip.{Ip}
use chimera_core.Chimera.Address.{Address, atyp_ipv4, atyp_domain, atyp_ipv6}
use chimera_core.Chimera.Resolve.{parse_uint16, format_uint, join_host_port, split_authority}
use chimera_core.Server.Psk.{trim_space-NoSpace}
use chimera_core.Quic.Handler.{is_nil}
use chimera_core.Quic.Client.{authority_from_address}
use chimera_core.Quic.Client.Authority.Digits.{
  IsDigit, format_uint-Digits, parse_uint16-format_uint,
}
use chimera_core.Quic.Client.Authority.Hosts.{
  Absent, has_byte-Absent, split_plain_lem, split_bracketed_lem,
}

-- The bytes of a host that stand for themselves in an authority.
abbrev pub IsHostByte : ℕ → Type 0
IsHostByte c = (c ≢ 91) × (c ≢ 93) × (is_space c ≡ false)

without : (host : List ℕ) → All IsHostByte host → Absent 91 host × Absent 93 host × All NoSpace host
without [] h = (tt, tt, tt)
without (c ∷ host) h =
    let (left, right, space) = without host h.1 in ((h.0.0, left), (h.0.1, right), (h.0.2, space))

digits-NoSpace : (s : List ℕ) → All IsDigit s → All NoSpace s
digits-NoSpace [] h = tt
digits-NoSpace (c ∷ s) h = (ground (arith, h.0), digits-NoSpace s h.1)

-- What is written has no white space, and is split into its parts.
join-split :
    (host port : List ℕ)
    → All IsHostByte host
    → All IsDigit port
    → (split_host_port (join_host_port host port) ≡ some (host, port))
      × All NoSpace (join_host_port host port)
unfolding join_host_port
join-split host port h digits =
    let (left, right, space) = without host h in
    let tail : All NoSpace (58 ∷ port) = (refl, digits-NoSpace port digits) in
    elim (Bool-cases (has_byte 58 host)) [
      | inl special ↦
          let spaces : All NoSpace (91 ∷ host ++ (93 ∷ 58 ∷ port)) =
            (refl, All-append NoSpace host (93 ∷ 58 ∷ port) space (refl, tail)) in
          let split = split_bracketed_lem host port left right digits in
          rw (special, join_host_port) (split, spaces)
      | inr plain ↦
          let spaces = All-append NoSpace host (58 ∷ port) space tail in
          let colon = has_byte-Absent 58 host plain in
          let split = split_plain_lem host port colon left right digits in
          rw (plain, join_host_port) (split, spaces)
    ]

split_authority-join :
    (host : List ℕ) (port : ℕ)
    → All IsHostByte host
    → 0 < length host
    → 0 < port
    → port ≤ 65535
    → split_authority (join_host_port host (format_uint 5 port)) ≡ ok (host, port)
unfolding split_authority
split_authority-join host port h some_host some_port fits =
    let text = join_host_port host (format_uint 5 port) in
    let (split, spaces) = join-split host (format_uint 5 port) h (format_uint-Digits 5 port) in
    let trimmed : split_host_port (trim_space text) ≡ some (host, format_uint 5 port) =
      ap split_host_port (trim_space-NoSpace text spaces) ∙ split in
    ground (arith, trimmed, parse_uint16-format_uint port fits, some_host, some_port)

-- The host of an address.
abbrev pub host_of : (Ip → List ℕ) → Address → List ℕ
host_of ip_string addr = if addr.kind == atyp_domain then addr.domain else ip_string addr.ip

-- What `authorityFromAddress` writes for a port of 16 bits and a host that is not empty and has neither
-- brackets nor white space, the guard splits into the same host and port, an IPv6 address in brackets
-- included.
pub authority_from_address-split_authority :
    (ip_string : Ip → List ℕ) (addr : Address) (text : List ℕ)
    → authority_from_address ip_string (some addr) ≡ ok text
    → All IsHostByte (host_of ip_string addr)
    → 0 < length (host_of ip_string addr)
    → addr.port ≤ 65535
    → split_authority text ≡ ok (host_of ip_string addr, addr.port)
unfolding authority_from_address
authority_from_address-split_authority ip_string addr text e h some_host fits =
    let host = host_of ip_string addr in
    let written : join_host_port host (format_uint 5 addr.port) ≡ text = ground arith in
    let some_port : 0 < addr.port = ground arith in
    subst (λ t. split_authority t ≡ ok (host, addr.port)) written
      (split_authority-join host addr.port h some_host some_port fits)
