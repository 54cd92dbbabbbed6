-- ===== src/Chimera/Guard.antt =====
-- internal/chimera/guard.go: the addresses that a server refuses to dial. A netip.Addr is its 4 or 16
-- bytes.
pub mod Ranges
use chimera_core.Prelude.{
  ℕ, ◌-◌, ◌/◌, ◌^◌, ◌≡◌, Bool, true, false, not, ◌&&◌, ◌||◌, List, [], ◌∷◌, Option, none, some,
  ◌==◌, leb, if◌then◌else◌, length, drop, replicate,
}
use chimera_core.Chimera.Ip.{Ip, bytes_equal, is_4in6, to4, to16, bytes}
use chimera_core.Chimera.Address.{Address, atyp_ipv4, atyp_domain, atyp_ipv6}

-- netip.AddrFromSlice, and Unmap.
abbrev pub addr_from_slice : List ℕ → Option (List ℕ)
addr_from_slice b = if length b == 4 || length b == 16 then some b else none

unfoldable pub unmap : List ℕ → List ℕ
unmap b = if is_4in6 b then drop 12 b else b

abbrev pub at : ℕ → List ℕ → ℕ
at i b = elim (drop i b) [ [] ↦ 0 | x ∷ _ ↦ x ]

abbrev pub is4 : List ℕ → Bool
is4 b = length b == 4

-- The methods of netip.Addr, on an address that is unmapped.
unfoldable pub is_loopback : List ℕ → Bool
is_loopback b =
    if is4 b
    then at 0 b == 127
    else bytes_equal b (0 ∷ 0 ∷ 0 ∷ 0 ∷ 0 ∷ 0 ∷ 0 ∷ 0 ∷ 0 ∷ 0 ∷ 0 ∷ 0 ∷ 0 ∷ 0 ∷ 0 ∷ 1 ∷ [])

unfoldable pub is_private : List ℕ → Bool
is_private b =
    if is4 b
    then at 0 b == 10 || (at 0 b == 172 && at 1 b / 16 == 1) || (at 0 b == 192 && at 1 b == 168)
    else at 0 b / 2 == 126

unfoldable pub is_link_local_unicast : List ℕ → Bool
is_link_local_unicast b =
    if is4 b then at 0 b == 169 && at 1 b == 254 else at 0 b == 254 && at 1 b / 64 == 2

unfoldable pub is_multicast : List ℕ → Bool
is_multicast b = if is4 b then at 0 b / 16 == 14 else at 0 b == 255

unfoldable pub is_unspecified : List ℕ → Bool
is_unspecified b = bytes_equal b (replicate (length b) 0)

-- A prefix is its address and its length in bits.
abbrev pub Prefix : Type 0
Prefix = List ℕ × ℕ

unfoldable pub same_bits : ℕ → List ℕ → List ℕ → Bool
same_bits bits [] b = true
same_bits bits (p ∷ ps) [] = false
same_bits bits (p ∷ ps) (x ∷ b) =
    let rest = same_bits (bits - 8) ps b in
    if leb 8 bits then p == x && rest else p / 2 ^ (8 - bits) == x / 2 ^ (8 - bits)

-- netip.Prefix.Contains.
abbrev pub contains : Prefix → List ℕ → Bool
contains p b = length p.0 == length b && same_bits p.1 p.0 b

abbrev pub forbidden_prefixes : List Prefix
forbidden_prefixes =
    (0 ∷ 0 ∷ 0 ∷ 0 ∷ [], 8)
    ∷ (100 ∷ 64 ∷ 0 ∷ 0 ∷ [], 10)
    ∷ (192 ∷ 0 ∷ 0 ∷ 0 ∷ [], 24)
    ∷ (192 ∷ 0 ∷ 2 ∷ 0 ∷ [], 24)
    ∷ (198 ∷ 18 ∷ 0 ∷ 0 ∷ [], 15)
    ∷ (198 ∷ 51 ∷ 100 ∷ 0 ∷ [], 24)
    ∷ (203 ∷ 0 ∷ 113 ∷ 0 ∷ [], 24)
    ∷ (240 ∷ 0 ∷ 0 ∷ 0 ∷ [], 4)
    ∷ (32 ∷ 1 ∷ 13 ∷ 184 ∷ replicate 12 0, 32)
    ∷ []

unfoldable pub any_contains : List Prefix → List ℕ → Bool
any_contains [] b = false
any_contains (p ∷ ps) b = let rest = any_contains ps b in if contains p b then true else rest

unfoldable pub is_forbidden_addr : List ℕ → Bool
unfolding is_loopback is_private is_link_local_unicast is_multicast is_unspecified any_contains
    same_bits
is_forbidden_addr b =
    if is_loopback b
      || is_private b
      || is_link_local_unicast b
      || is_multicast b
      || is_unspecified b
    then true
    else any_contains forbidden_prefixes b

-- `IsForbiddenIP`; `none` is the nil slice.
unfoldable pub is_forbidden_ip : Ip → Bool
unfolding is_forbidden_addr unmap is_4in6
is_forbidden_ip none = true
is_forbidden_ip (some b) = elim (addr_from_slice b) [
  | none ↦ true
  | some a ↦ is_forbidden_addr (unmap a)
]

-- `IsForbiddenTarget`.
unfoldable pub is_forbidden_target : Address → Bool
is_forbidden_target addr =
    if addr.kind == atyp_domain
    then false
    else if addr.kind == atyp_ipv4
    then is_forbidden_ip (to4 (bytes addr.ip))
    else if addr.kind == atyp_ipv6
    then is_forbidden_ip (to16 (bytes addr.ip))
    else false
