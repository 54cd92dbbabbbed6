-- ===== src/Chimera/Resolve/Safe.antt =====
-- What ResolveAndValidateAuthority of internal/chimera/guard.go lets through.
use chimera_core.Prelude.{
  ℕ, ◌+◌, ◌-◌, ◌*◌, ◌<◌, ◌≤◌, ◌≡◌, sym, ap, ◌∙◌, false, List, [], ◌∷◌, Option, some, ok,
  Result-cases, length, All, arith, Bool-cases, Option-cases, inl, inr,
}
use chimera_core.Prelude.Text.{trim_space, split_host_port}
use chimera_core.Chimera.Ip.{Ip}
use chimera_core.Chimera.Guard.{is_forbidden_ip}
use chimera_core.Chimera.Resolve.{
  parse_digits, parse_uint16, format_uint, join_host_port, split_authority, check_ips, head_of,
  addresses, resolve_and_validate_authority,
}

abbrev pub Allowed : Ip → Type 0
Allowed ip = is_forbidden_ip ip ≡ false

check_ips-eq-ok :
    (ips checked : List Ip) → check_ips ips ≡ ok checked → (checked ≡ ips) × All Allowed ips
unfolding check_ips
check_ips-eq-ok [] checked e = (ground arith, tt)
check_ips-eq-ok (ip ∷ ips) checked e = elim (Bool-cases (is_forbidden_ip ip)) [
  | inl bad ↦ absurd (ground arith)
  | inr good ↦ elim (Result-cases (check_ips ips)) [
    | inr (x, bad) ↦ absurd (ground arith)
    | inl (rest, run) ↦
        let (same, all) = check_ips-eq-ok ips rest run in
        let whole : ip ∷ rest ≡ checked = ground arith in
        (sym whole ∙ ap (λ (l : List Ip). ip ∷ l) same, (good, all))
  ]
]

parse_digits-le : (n : ℕ) (s : List ℕ) (m : ℕ) → n ≤ 65535 → parse_digits n s ≡ some m → m ≤ 65535
unfolding parse_digits
parse_digits-le n [] m h e = ground arith
parse_digits-le n (c ∷ s) m h e = ground (arith, parse_digits-le (n * 10 + (c - 48)) s m)

parse_uint16-le : (s : List ℕ) (m : ℕ) → parse_uint16 s ≡ some m → m ≤ 65535
unfolding parse_uint16
parse_uint16-le [] m e = ground arith
parse_uint16-le (c ∷ s) m e = parse_digits-le 0 (c ∷ s) m (omega arith) e

split_authority-port :
    (authority host : List ℕ) (port : ℕ)
    → split_authority authority ≡ ok (host, port)
    → (0 < port) × (port ≤ 65535)
unfolding split_authority
split_authority-port authority host port e =
    elim (Option-cases (split_host_port (trim_space authority))) [
      | inl bad ↦ absurd (ground arith)
      | inr (p, split) ↦ elim (Option-cases (parse_uint16 p.1)) [
        | inl bad ↦ absurd (ground arith)
        | inr (n, parsed) ↦ ground (arith, parse_uint16-le p.1 n parsed)
      ]
    ]

module _ (parse_ip : List ℕ → Ip) (ip_string : Ip → List ℕ)
    (lookup : List ℕ → Option (List Ip)) where
  -- The address to dial: the first of those of the host, none of which is refused.
  pub record Safe (authority text : List ℕ) : Type 0 where
    pub host : List ℕ
    pub port : ℕ
    pub ip : Ip
    pub others : List Ip
    pub split : split_authority authority ≡ ok (host, port)
    pub port_range : (0 < port) × (port ≤ 65535)
    pub found : addresses parse_ip ip_string lookup host ≡ ok (ip ∷ others)
    pub allowed : All Allowed (ip ∷ others)
    pub text_eq : text ≡ join_host_port (ip_string ip) (format_uint 5 port)

  some_address :
      (host : List ℕ) (ips : List Ip)
      → addresses parse_ip ip_string lookup host ≡ ok ips
      → 0 < length ips
  unfolding addresses
  some_address host ips e = ground arith

  made :
      (authority text host : List ℕ) (port : ℕ) (ips : List Ip)
      → split_authority authority ≡ ok (host, port)
      → addresses parse_ip ip_string lookup host ≡ ok ips
      → All Allowed ips
      → text ≡ join_host_port (ip_string (head_of ips)) (format_uint 5 port)
      → Safe authority text
  made authority text host port [] split found all e =
      absurd (omega (arith, some_address host [] found))
  made authority text host port (ip ∷ others) split found all e = record {
    host = host;
    port = port;
    ip = ip;
    others = others;
    split = split;
    port_range = split_authority-port authority host port split;
    found = found;
    allowed = all;
    text_eq = e;
  }

  -- If `ResolveAndValidateAuthority` gives an address to dial, the authority has a port from 1 to
  -- 65535 and its host has addresses, none of which is refused, whatever the resolver answers; what
  -- is dialed is the first of these addresses, and not the name, so that nothing is resolved again.
  pub resolve_and_validate_authority-Safe :
      (authority text : List ℕ)
      → resolve_and_validate_authority parse_ip ip_string lookup authority ≡ ok text
      → Safe authority text
  unfolding resolve_and_validate_authority
  resolve_and_validate_authority-Safe authority text e =
      elim (Result-cases (split_authority authority)) [
        | inr (x, bad) ↦ absurd (ground arith)
        | inl (p, split) ↦ elim (Result-cases (addresses parse_ip ip_string lookup p.0)) [
          | inr (x, bad) ↦ absurd (ground arith)
          | inl (ips, found) ↦ elim (Result-cases (check_ips ips)) [
            | inr (x, bad) ↦ absurd (ground arith)
            | inl (checked, run) ↦
                let (same, all) = check_ips-eq-ok ips checked run in
                made authority text p.0 p.1 ips split found all (ground arith)
          ]
        ]
      ]
