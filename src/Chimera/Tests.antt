-- ===== src/Chimera/Tests.antt =====
-- Runs of internal/chimera/chimera.go on concrete bytes.
use chimera_core.Prelude.{ℕ, ◌≡◌, refl, ◌↔◌, List, [], ◌∷◌, ◌++◌, none, some, ok, arith, replicate}
use chimera_core.Prelude.Bytes.{read_full}
use chimera_core.Chimera.Session.{read_session_header, read_session_response}
use chimera_core.Chimera.Session.Laws.{Framed, read_session_iff}
use chimera_core.Chimera.Address.{
  Address, write_host, write_address, read_domain, read_host, read_address,
}
use chimera_core.Chimera.Address.Laws.{
  IsEncodable, read_address-write_address, write_address-read_address,
}
use chimera_core.Prelude.{Option, true, false}
use chimera_core.Prelude.Text.{trim_space, split_host_port}
use chimera_core.Chimera.Ip.{Ip, v4_in_v6_prefix}
use chimera_core.Chimera.Guard.{is_forbidden_ip, is_forbidden_target}
use chimera_core.Chimera.Guard.Ranges.{is_reserved, is_forbidden_ip-ranges}
use chimera_core.Chimera.Resolve.{
  parse_digits, parse_uint16, format_uint, join_host_port, split_authority, check_ips, addresses,
  resolve_and_validate_authority,
}
use chimera_core.Chimera.Resolve.Safe.{Safe, resolve_and_validate_authority-Safe}

abbrev example_org : List ℕ
example_org = 101 ∷ 46 ∷ 111 ∷ 114 ∷ 103 ∷ []

abbrev target : Address
target = record { kind = 3; ip = none; domain = example_org; port = 443 }

abbrev target_bytes : List ℕ
target_bytes = 3 ∷ 5 ∷ 101 ∷ 46 ∷ 111 ∷ 114 ∷ 103 ∷ 1 ∷ 187 ∷ []

target-IsEncodable : IsEncodable target
target-IsEncodable = record {
  has_ipv4 = λ e. absurd (omega arith);
  has_ipv6 = λ e. absurd (omega arith);
  port_range = omega arith;
}

written : write_address target ≡ ok target_bytes
unfolding write_address write_host
written = refl

parsed : read_address (target_bytes ++ (9 ∷ [])) ≡ ok (target, 9 ∷ [])
unfolding read_address read_host read_domain read_full
parsed = refl

read_address-write_address_example : read_address (target_bytes ++ (9 ∷ [])) ≡ ok (target, 9 ∷ [])
read_address-write_address_example =
    read_address-write_address target target_bytes (9 ∷ []) target-IsEncodable written

write_address-read_address_example :
    (used : List ℕ) × (write_address target ≡ ok used)
    × (target_bytes ++ (9 ∷ []) ≡ used ++ (9 ∷ []))
write_address-read_address_example =
    write_address-read_address (target_bytes ++ (9 ∷ [])) target (9 ∷ []) (omega arith) parsed

abbrev header : List ℕ
header = 0x43 ∷ 0x48 ∷ 0x49 ∷ 0x4d ∷ 1 ∷ 7 ∷ replicate 26 5

read_session_iff_example :
    ((read_session_header header ≡ ok (7, [])) ↔ Framed 32 7 [] header)
    × ((read_session_response header ≡ ok (7, [])) ↔ Framed 8 7 [] header)
read_session_iff_example = read_session_iff header 7 []

is_forbidden_ip-ranges_example :
    (is_forbidden_ip (some (100 ∷ 64 ∷ 0 ∷ 1 ∷ [])) ≡ is_reserved 100 64 0)
    × (is_forbidden_ip (some (v4_in_v6_prefix ++ (100 ∷ 64 ∷ 0 ∷ 1 ∷ []))) ≡ is_reserved 100 64 0)
is_forbidden_ip-ranges_example =
    is_forbidden_ip-ranges 100 64 0 1 (omega arith) (omega arith) (omega arith) (omega arith)

-- fc00::/7 and the prefix for documentation.
forbidden_v6 :
    (is_forbidden_ip (some (253 ∷ replicate 15 1)) ≡ true)
    × (is_forbidden_ip (some (32 ∷ 1 ∷ 13 ∷ 184 ∷ replicate 12 9)) ≡ true)
    × (is_forbidden_ip (some (32 ∷ 1 ∷ 13 ∷ 185 ∷ replicate 12 9)) ≡ false)
    × (is_forbidden_target (record { kind = 3; ip = none; domain = []; port = 0 }) ≡ false)
unfolding is_forbidden_ip is_forbidden_target
forbidden_v6 = (refl, refl, refl, refl)

-- A resolver that knows one name, and a way to write addresses.
abbrev no_literal : List ℕ → Ip
no_literal host = none

abbrev show_ip : Ip → List ℕ
show_ip ip = 57 ∷ []

abbrev resolver : List ℕ → Option (List Ip)
resolver host = some (some (8 ∷ 8 ∷ 4 ∷ 4 ∷ []) ∷ [])

-- "h:80" gives "9:80".
resolved :
    resolve_and_validate_authority no_literal show_ip resolver (104 ∷ 58 ∷ 56 ∷ 48 ∷ [])
    ≡ ok (57 ∷ 58 ∷ 56 ∷ 48 ∷ [])
unfolding resolve_and_validate_authority split_authority trim_space split_host_port parse_uint16
    parse_digits addresses check_ips is_forbidden_ip join_host_port format_uint
resolved = refl

resolve_and_validate_authority-Safe_example :
    Safe no_literal show_ip resolver (104 ∷ 58 ∷ 56 ∷ 48 ∷ []) (57 ∷ 58 ∷ 56 ∷ 48 ∷ [])
resolve_and_validate_authority-Safe_example =
    resolve_and_validate_authority-Safe no_literal show_ip resolver (104 ∷ 58 ∷ 56 ∷ 48 ∷ [])
      (57 ∷ 58 ∷ 56 ∷ 48 ∷ []) resolved
