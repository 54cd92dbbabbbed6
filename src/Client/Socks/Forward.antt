-- ===== src/Client/Socks/Forward.antt =====
-- What the SOCKS5 side of cmd/chimera-client/main.go accepts can be sent on to the server.
use chimera_core.Prelude.{
  ℕ, ◌≤◌, ◌<◌, ◌≡◌, refl, sym, ap, ◌∙◌, ltb-eq-false, All_append_left, All_append_right, ◌⊎◌, inl,
  inr, subst, List, [], ◌∷◌, ◌++◌, none, some, ok, ◌==◌, length, arith, Bool-cases, Result-cases,
}
use chimera_core.Prelude.Bytes.{IsByte, IsBytes, read_full, read_full-eq-ok, put_uint16}
use chimera_core.Chimera.Ip.{Ip, bytes, to4, to16, to4_four, to16_sixteen}
use chimera_core.Chimera.Address.{
  Address, atyp_ipv4, atyp_domain, atyp_ipv6, first, port_of, write_host, write_address,
  read_address,
}
use chimera_core.Chimera.Address.Laws.{IsEncodable, host_of, read_address-write_address}
use chimera_core.Client.Socks.{request_domain, request_host, check_head, socks5_read_request}

-- An address that comes out at the server as it went in.
record IsPlain (a : Address) : Type 0 where
  encodable : IsEncodable a
  host_same : host_of a ≡ (a.ip, a.domain)
  writes : ((a.kind ≡ atyp_domain) × (a.domain ≡ [])) ⊎ ((buf : List ℕ) × (write_host a ≡ ok buf))

ipv4-IsPlain :
    (ip : List ℕ) (port : ℕ)
    → length ip ≡ 4
    → port < 65536
    → IsPlain (record { kind = 1; ip = some ip; domain = []; port = port })
unfolding write_host
ipv4-IsPlain ip port size range = record {
  encodable = record {
    has_ipv4 = λ e. rw (to4_four ip size) size;
    has_ipv6 = λ e. absurd (omega arith);
    port_range = range;
  };
  host_same = rw (to4_four ip size);
  writes = inr (atyp_ipv4 ∷ bytes (to4 ip), refl);
}

ipv6-IsPlain :
    (ip : List ℕ) (port : ℕ)
    → length ip ≡ 16
    → port < 65536
    → IsPlain (record { kind = 4; ip = some ip; domain = []; port = port })
unfolding write_host
ipv6-IsPlain ip port size range = record {
  encodable = record {
    has_ipv4 = λ e. absurd (omega arith);
    has_ipv6 = λ e. rw (to16_sixteen ip size) size;
    port_range = range;
  };
  host_same = rw (to16_sixteen ip size);
  writes = inr (atyp_ipv6 ∷ bytes (to16 ip), refl);
}

domain_writes :
    (domain : List ℕ) (port : ℕ)
    → length domain ≤ 255
    → ((◌≡◌ {A = ℕ} 3 atyp_domain) × (domain ≡ []))
      ⊎ ((buf : List ℕ) × (write_host (record { kind = 3; ip = none; domain = domain; port = port })
            ≡ ok buf))
unfolding write_host
domain_writes [] port size = inl (refl, refl)
domain_writes (c ∷ cs) port size = inr (
  atyp_domain ∷ length (c ∷ cs) ∷ c ∷ cs,
  ground (arith, ltb-eq-false 255 (length (c ∷ cs)) size),
)

domain-IsPlain :
    (domain : List ℕ) (port : ℕ)
    → length domain ≤ 255
    → port < 65536
    → IsPlain (record { kind = 3; ip = none; domain = domain; port = port })
domain-IsPlain domain port size range = record {
  encodable = record {
    has_ipv4 = λ e. absurd (omega arith);
    has_ipv6 = λ e. absurd (omega arith);
    port_range = range;
  };
  host_same = refl;
  writes = domain_writes domain port size;
}

-- The bytes that a read leaves are bytes.
rest-IsBytes :
    (n : ℕ) (s bs rest : List ℕ)
    → IsBytes s
    → read_full n s ≡ ok (bs, rest)
    → IsBytes bs × IsBytes rest
rest-IsBytes n s bs rest h e =
    let (split, _) = read_full-eq-ok n s bs rest e in
    let whole = subst IsBytes split h in
    (All_append_left IsByte bs rest whole, All_append_right IsByte bs rest whole)

first-le : (bs : List ℕ) → IsBytes bs → first bs ≤ 255
first-le [] h = omega arith
first-le (b ∷ bs) h = omega (arith, h.0)

port_of-lt : (bs : List ℕ) → IsBytes bs → port_of bs < 65536
port_of-lt (a ∷ b ∷ _) h = omega (arith, h.0, h.1.0)
port_of-lt (a ∷ []) h = omega arith
port_of-lt [] h = omega arith

request_domain-le :
    (s domain rest : List ℕ)
    → IsBytes s
    → request_domain s ≡ ok (domain, rest)
    → (length domain ≤ 255) × IsBytes rest
unfolding request_domain
request_domain-le s domain rest h e = elim (Result-cases (read_full 1 s)) [
  | inr (x, bad) ↦ absurd (ground arith)
  | inl (p, good) ↦ elim (Result-cases (read_full (first p.0) p.1)) [
    | inr (x, bad) ↦ absurd (ground arith)
    | inl (q, read) ↦
        let (size_bytes, more) = rest-IsBytes 1 s p.0 p.1 h good in
        let (_, left) = rest-IsBytes (first p.0) p.1 q.0 q.1 more read in
        let (_, size) = read_full-eq-ok (first p.0) p.1 q.0 q.1 read in
        let same : q ≡ (domain, rest) = ground arith in
        (
          subst (λ (d : List ℕ × List ℕ). length d.0 ≤ 255) same
              (omega (arith, size, first-le p.0 size_bytes)),
          subst (λ (d : List ℕ × List ℕ). IsBytes d.1) same left,
        )
  ]
]

request_host-IsPlain :
    (kind port : ℕ) (s : List ℕ) (a : Address) (rest : List ℕ)
    → IsBytes s
    → port < 65536
    → request_host kind s ≡ ok (a, rest)
    → IsPlain (record a { port = port }) × IsBytes rest
unfolding request_host
request_host-IsPlain kind port s a rest h range e = elim (Bool-cases (kind == 1)) [
  | inl k ↦ elim (Result-cases (read_full 4 s)) [
    | inr (x, bad) ↦ absurd (ground arith)
    | inl (p, good) ↦
        let (_, size) = read_full-eq-ok 4 s p.0 p.1 good in
        let same : (a ≡ record { kind = 1; ip = some p.0; domain = []; port = 0 }) × (rest ≡ p.1) =
          ground arith in
        (
          subst (λ x. IsPlain (record x { port = port })) (sym same.0)
              (ipv4-IsPlain p.0 port size range),
          subst IsBytes (sym same.1) (rest-IsBytes 4 s p.0 p.1 h good).1,
        )
  ]
  | inr k ↦ elim (Bool-cases (kind == 3)) [
    | inl k3 ↦ elim (Result-cases (request_domain s)) [
      | inr (x, bad) ↦ absurd (ground arith)
      | inl (p, good) ↦
          let (size, left) = request_domain-le s p.0 p.1 h good in
          let same : (a ≡ record { kind = 3; ip = none; domain = p.0; port = 0 }) × (rest ≡ p.1) =
            ground arith in
          (
            subst (λ x. IsPlain (record x { port = port })) (sym same.0)
                (domain-IsPlain p.0 port size range),
            subst IsBytes (sym same.1) left,
          )
    ]
    | inr k3 ↦ elim (Bool-cases (kind == 4)) [
      | inl k4 ↦ elim (Result-cases (read_full 16 s)) [
        | inr (x, bad) ↦ absurd (ground arith)
        | inl (p, good) ↦
            let (_, size) = read_full-eq-ok 16 s p.0 p.1 good in
            let same : (a ≡ record { kind = 4; ip = some p.0; domain = []; port = 0 })
                × (rest ≡ p.1) =
              ground arith in
            (
              subst (λ x. IsPlain (record x { port = port })) (sym same.0)
                  (ipv6-IsPlain p.0 port size range),
              subst IsBytes (sym same.1) (rest-IsBytes 16 s p.0 p.1 h good).1,
            )
      ]
      | inr k4 ↦ absurd (ground arith)
    ]
  ]
]

-- What the server makes of a plain address.
plain_sent :
    (a : Address) (tail : List ℕ)
    → IsPlain a
    → ((a.kind ≡ atyp_domain) × (a.domain ≡ []))
      ⊎ ((buf : List ℕ) × (write_address a ≡ ok buf) × (read_address (buf ++ tail) ≡ ok (a, tail)))
unfolding write_address
plain_sent a tail v = elim v.writes [
  | inl nothing ↦ inl nothing
  | inr (h, e) ↦
      let written : write_address a ≡ ok (h ++ put_uint16 a.port) = rw e in
      inr (
        h ++ put_uint16 a.port,
        written,
        read_address-write_address a (h ++ put_uint16 a.port) tail v.encodable written
            ∙ ap
                (λ (p : Ip × List ℕ).
                  ok (record { kind = a.kind; ip = p.0; domain = p.1; port = a.port }, tail))
                v.host_same,
      )
]

-- A target that `socks5ReadRequest` takes from a client is either an empty domain or one that
-- `WriteAddress` writes and that `ReadAddress` at the server reads exactly as it was: type, host and
-- port.
pub socks5_read_request-forward :
    (s : List ℕ) (a : Address) (rest tail : List ℕ)
    → IsBytes s
    → socks5_read_request s ≡ ok (a, rest)
    → ((a.kind ≡ atyp_domain) × (a.domain ≡ []))
      ⊎ ((buf : List ℕ) × (write_address a ≡ ok buf) × (read_address (buf ++ tail) ≡ ok (a, tail)))
unfolding socks5_read_request
socks5_read_request-forward s a rest tail h e = elim (Result-cases (read_full 4 s)) [
  | inr (x, bad) ↦ absurd (ground arith)
  | inl (p, head) ↦ elim (Result-cases (check_head p.0)) [
    | inr (x, bad) ↦ absurd (ground arith)
    | inl (kind, checked) ↦ elim (Result-cases (request_host kind p.1)) [
      | inr (x, bad) ↦ absurd (ground arith)
      | inl (q, host) ↦ elim (Result-cases (read_full 2 q.1)) [
        | inr (x, bad) ↦ absurd (ground arith)
        | inl (r, port) ↦
            let more = (rest-IsBytes 4 s p.0 p.1 h head).1 in
            let left = (request_host-IsPlain kind 0 p.1 q.0 q.1 more (omega arith) host).1 in
            let range = port_of-lt r.0 (rest-IsBytes 2 q.1 r.0 r.1 left port).0 in
            let plain = (request_host-IsPlain kind (port_of r.0) p.1 q.0 q.1 more range host).0 in
            let same : record q.0 { port = port_of r.0 } ≡ a = ground arith in
            plain_sent a tail (subst IsPlain same plain)
      ]
    ]
  ]
]
