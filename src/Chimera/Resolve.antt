-- ===== src/Chimera/Resolve.antt =====
-- ResolveAndValidateAuthority of internal/chimera/guard.go. net.ParseIP, net.IP.String and the lookup
-- are parameters.
pub mod Safe
use chimera_core.Prelude.{
  ℕ, zero, suc, ◌+◌, ◌-◌, ◌*◌, ◌/◌, ◌%◌, ◌<◌, ◌≤◌, ◌≡◌, refl, Bool, true, false, not, ◌&&◌, ◌||◌,
  List, [], ◌∷◌, ◌++◌, Option, none, some, Result, ok, err, ◌>>=◌, Result-cases, ◌==◌, ltb, leb,
  if◌then◌else◌, length, All, arith, Bool-cases, inl, inr,
}
use chimera_core.Prelude.Text.{trim_space, split_host_port, has_byte}
use chimera_core.Chimera.Ip.{Ip}
use chimera_core.Chimera.Guard.{is_forbidden_ip}

pub data ResolveError : Type 0 where
  invalid_authority invalid_port resolution_failed forbidden_address : ResolveError

-- The digits of strconv.ParseUint, read from the left; `none` for any other character or a value that
-- does not fit 16 bits.
unfoldable pub parse_digits : ℕ → List ℕ → Option ℕ
parse_digits n [] = some n
parse_digits n (c ∷ s) =
    let rest = parse_digits (n * 10 + (c - 48)) s in
    if not (leb 48 c && leb c 57) || ltb 65535 (n * 10 + (c - 48)) then none else rest

-- strconv.ParseUint of base 10 and 16 bits.
unfoldable pub parse_uint16 : List ℕ → Option ℕ
parse_uint16 [] = none
parse_uint16 (c ∷ s) = parse_digits 0 (c ∷ s)

-- strconv.FormatUint; five digits are enough for a port.
unfoldable pub format_uint : ℕ → ℕ → List ℕ
format_uint zero n = []
format_uint (suc fuel) n =
    let front = format_uint fuel (n / 10) in
    if ltb n 10 then (48 + n) ∷ [] else front ++ ((48 + n % 10) ∷ [])

-- net.JoinHostPort, which takes a host with a colon for a literal IPv6 address.
unfoldable pub join_host_port : List ℕ → List ℕ → List ℕ
join_host_port host port =
    if has_byte 58 host then 91 ∷ host ++ (93 ∷ 58 ∷ port) else host ++ (58 ∷ port)

-- The parts of the authority.
unfoldable pub split_authority : List ℕ → Result ResolveError (List ℕ × ℕ)
split_authority authority = elim (split_host_port (trim_space authority)) [
  | none ↦ err invalid_authority
  | some (host, port_text) ↦
      if length host == 0 then err invalid_authority else elim (parse_uint16 port_text) [
        | none ↦ err invalid_port
        | some port ↦ if port == 0 then err invalid_port else ok (host, port)
      ]
]

-- The loop over the addresses.
unfoldable pub check_ips : List Ip → Result ResolveError (List Ip)
check_ips [] = ok []
check_ips (ip ∷ ips) =
    let rest = check_ips ips in
    if is_forbidden_ip ip
    then err forbidden_address
    else elim rest [ err e ↦ err e | ok checked ↦ ok (ip ∷ checked) ]

abbrev pub head_of : List Ip → Ip
head_of [] = none
head_of (ip ∷ _) = ip

module _ (parse_ip : List ℕ → Ip) (ip_string : Ip → List ℕ)
    (lookup : List ℕ → Option (List Ip)) where
  -- The addresses of the host; the lookup gives `none` for an error.
  unfoldable pub addresses : List ℕ → Result ResolveError (List Ip)
  addresses host = elim (parse_ip host) [
    | some b ↦ ok (some b ∷ [])
    | none ↦ elim (lookup host) [
      | none ↦ err resolution_failed
      | some ips ↦ if length ips == 0 then err resolution_failed else ok ips
    ]
  ]

  unfoldable pub resolve_and_validate_authority : List ℕ → Result ResolveError (List ℕ)
  resolve_and_validate_authority authority = do
    (host, port) ← split_authority authority
    ips ← addresses host
    checked ← check_ips ips
    ok (join_host_port (ip_string (head_of checked)) (format_uint 5 port))
