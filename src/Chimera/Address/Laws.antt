-- ===== src/Chimera/Address/Laws.antt =====
-- Round trips of internal/chimera/chimera.go: WriteAddress with ReadAddress, and the connect request.
use chimera_core.Prelude.{
  subst, All_append_right, ℕ, ◌<◌, ◌≡◌, refl, inl, inr, List, [], ◌∷◌, ◌++◌, append_assoc, none,
  some, ok, ◌>>=◌, ◌==◌, if◌then◌else◌, length, arith, false, Bool-cases, ==_iff, Result-cases,
}
use chimera_core.Prelude.Bytes.{
  IsByte, read_full, put_uint16, uint16, read_full-append, read_full-eq-ok, uint16-put_uint16,
  IsBytes, put_uint16-uint16,
}
use chimera_core.Chimera.Ip.{Ip, to4_four, to16_sixteen}
use chimera_core.Chimera.Address.{
  Address, atyp_ipv4, atyp_domain, atyp_ipv6, to4_bytes, to16_bytes, write_host, write_address,
  read_domain, read_host, read_address,
}

-- An address of an IP kind has an IP of that kind (`WriteAddress` does not check this), and the port
-- is a uint16.
pub record IsEncodable (a : Address) : Type 0 where
  pub has_ipv4 : a.kind ≡ atyp_ipv4 → length (to4_bytes a.ip) ≡ 4
  pub has_ipv6 : a.kind ≡ atyp_ipv6 → length (to16_bytes a.ip) ≡ 16
  pub port_range : a.port < 65536

-- What the peer sees of a host: the IP in its shortest form, or the domain.
abbrev pub host_of : Address → Ip × List ℕ
host_of a =
    if a.kind == atyp_ipv4
    then (some (to4_bytes a.ip), [])
    else if a.kind == atyp_domain
    then (none, a.domain)
    else (some (to16_bytes a.ip), [])

read_domain_lem :
    (domain rest : List ℕ)
    → (length domain == 0) ≡ false
    → read_domain (length domain ∷ domain ++ rest) ≡ ok (domain, rest)
unfolding read_domain
read_domain_lem domain rest h =
    rw (read_full-append 1 (length domain ∷ []) (domain ++ rest) refl, ◌>>=◌)
      (rw (h, read_full-append (length domain) domain rest refl))

host_roundtrip :
    (a : Address) (buf rest : List ℕ)
    → IsEncodable a
    → write_host a ≡ ok buf
    → (h : List ℕ) × (buf ≡ a.kind ∷ h) × (read_host a.kind (h ++ rest) ≡ ok (host_of a, rest))
unfolding write_host read_host
host_roundtrip a buf rest v e = elim (Bool-cases (a.kind == atyp_ipv4)) [
  | inl k4 ↦ (
    to4_bytes a.ip,
    ground arith,
    rw (k4, read_full-append 4 (to4_bytes a.ip) rest (v.has_ipv4 ((==_iff _ _).0 k4)), ◌>>=◌),
  )
  | inr n4 ↦ elim (Bool-cases (a.kind == atyp_domain)) [
    | inl kd ↦
        (length a.domain ∷ a.domain, ground arith, ground (arith, read_domain_lem a.domain rest))
    | inr nd ↦ elim (Bool-cases (a.kind == atyp_ipv6)) [
      | inl k6 ↦ (
        to16_bytes a.ip,
        ground arith,
        ground (arith, read_full-append 16 (to16_bytes a.ip) rest, v.has_ipv6),
      )
      | inr n6 ↦ absurd (ground arith)
    ]
  ]
]

read_address_lem :
    (kind port : ℕ) (h rest : List ℕ) (host : Ip × List ℕ)
    → port < 65536
    → ((tail : List ℕ) → read_host kind (h ++ tail) ≡ ok (host, tail))
    → read_address ((kind ∷ h ++ put_uint16 port) ++ rest)
      ≡ ok (record { kind = kind; ip = host.0; domain = host.1; port = port }, rest)
unfolding read_address
read_address_lem kind port h rest host p reads = rw (append_assoc h (put_uint16 port) rest) (
    rw (read_full-append 1 (kind ∷ []) (h ++ (put_uint16 port ++ rest)) refl, ◌>>=◌)
      (rw (reads (put_uint16 port ++ rest), ◌>>=◌)
        (rw (read_full-append 2 (put_uint16 port) rest refl, ◌>>=◌)
          (rw (uint16-put_uint16 port p)))))

-- What `WriteAddress` writes for an encodable address, `ReadAddress` reads back whole, whatever
-- follows it: the type, the IP in its shortest form or the domain, and the port.
pub read_address-write_address :
    (a : Address) (buf rest : List ℕ)
    → IsEncodable a
    → write_address a ≡ ok buf
    → read_address (buf ++ rest)
      ≡ ok (
        record { kind = a.kind; ip = (host_of a).0; domain = (host_of a).1; port = a.port },
        rest,
      )
unfolding write_address
read_address-write_address a buf rest v e = elim (Result-cases (write_host a)) [
  | inr (x, bad) ↦ absurd (ground arith)
  | inl (hb, good) ↦
      let (h, shape, _) = host_roundtrip a hb [] v good in
      let whole : buf ≡ a.kind ∷ h ++ put_uint16 a.port = ground arith in
      rw whole (
        read_address_lem a.kind a.port h rest (host_of a) v.port_range
          λ tail. ground (arith, host_roundtrip a hb tail v good))
]

-- One byte from the reader.
read_one :
    (s : List ℕ) (p : List ℕ × List ℕ)
    → read_full 1 s ≡ ok p
    → (b : ℕ) × (s ≡ b ∷ p.1) × (p.0 ≡ b ∷ [])
unfolding read_full
read_one [] p e = absurd (ground arith)
read_one (b ∷ s) p e = (b, ground arith, ground arith)

-- Two bytes from the reader.
read_two :
    (s : List ℕ) (p : List ℕ × List ℕ)
    → read_full 2 s ≡ ok p
    → (a : ℕ) × (b : ℕ) × (s ≡ a ∷ b ∷ p.1) × (p.0 ≡ a ∷ b ∷ [])
unfolding read_full
read_two [] p e = absurd (ground arith)
read_two (a ∷ []) p e = absurd (ground arith)
read_two (a ∷ b ∷ s) p e = (a, b, ground arith, ground arith)

read_domain-eq-ok :
    (s d rest : List ℕ)
    → read_domain s ≡ ok (d, rest)
    → (s ≡ length d ∷ (d ++ rest)) × ((length d == 0) ≡ false)
unfolding read_domain
read_domain-eq-ok s d rest e = elim (Result-cases (read_full 1 s)) [
  | inr (x, bad) ↦ absurd (ground arith)
  | inl (p, good) ↦
      let (b, e1, e2) = read_one s p good in ground (arith, read_full-eq-ok b p.1 d rest)
]

-- What `ReadAddress` takes from the reader for the host, after the type byte.
read_host-eq-ok :
    (kind : ℕ) (s : List ℕ) (host : Ip × List ℕ) (rest : List ℕ) (port : ℕ)
    → IsBytes s
    → read_host kind s ≡ ok (host, rest)
    → (h : List ℕ) × (s ≡ h ++ rest)
      × (write_host (record { kind = kind; ip = host.0; domain = host.1; port = port })
          ≡ ok (kind ∷ h))
unfolding read_host write_host
read_host-eq-ok kind s host rest port v e = elim (Bool-cases (kind == atyp_ipv4)) [
  | inl k4 ↦ elim (Result-cases (read_full 4 s)) [
    | inr (x, bad) ↦ absurd (ground arith)
    | inl (p, good) ↦ (
      p.0,
      ground (arith, read_full-eq-ok 4 s p.0 p.1),
      ground (arith, read_full-eq-ok 4 s p.0 p.1, to4_four p.0),
    )
  ]
  | inr n4 ↦ elim (Bool-cases (kind == atyp_domain)) [
    | inl kd ↦ elim (Result-cases (read_domain s)) [
      | inr (x, bad) ↦ absurd (ground arith)
      | inl (p, good) ↦
          let (shape, nonempty) = read_domain-eq-ok s p.0 p.1 good in
          let short : length p.0 < 256 = (subst IsBytes shape v).0 in
          (length p.0 ∷ p.0, ground arith, ground arith)
    ]
    | inr nd ↦ elim (Bool-cases (kind == atyp_ipv6)) [
      | inl k6 ↦ elim (Result-cases (read_full 16 s)) [
        | inr (x, bad) ↦ absurd (ground arith)
        | inl (p, good) ↦ (
          p.0,
          ground (arith, read_full-eq-ok 16 s p.0 p.1),
          ground (arith, read_full-eq-ok 16 s p.0 p.1, to16_sixteen p.0),
        )
      ]
      | inr n6 ↦ absurd (ground arith)
    ]
  ]
]

-- Whatever bytes `ReadAddress` accepts, `WriteAddress` gives back for its result, and the rest of
-- the reader is what stands behind them: no two texts are read as one address.
pub write_address-read_address :
    (s : List ℕ) (a : Address) (rest : List ℕ)
    → IsBytes s
    → read_address s ≡ ok (a, rest)
    → (used : List ℕ) × (write_address a ≡ ok used) × (s ≡ used ++ rest)
unfolding read_address write_address
write_address-read_address s a rest v e = elim (Result-cases (read_full 1 s)) [
  | inr (x, bad) ↦ absurd (ground arith)
  | inl (p, good) ↦
      let (kind, e1, e2) = read_one s p good in
      elim (Result-cases (read_host kind p.1)) [
        | inr (x, bad) ↦ absurd (ground arith)
        | inl (q, host) ↦ elim (Result-cases (read_full 2 q.1)) [
          | inr (x, bad) ↦ absurd (ground arith)
          | inl (r, port) ↦
              let (hi, lo, e3, e4) = read_two q.1 r port in
              let (h, e5, e6) =
                read_host-eq-ok kind p.1 q.0 q.1 (uint16 hi lo) (subst IsBytes e1 v).1 host in
              let left : IsBytes (hi ∷ lo ∷ r.1) =
                subst IsBytes e3
                  (All_append_right IsByte h q.1 (subst IsBytes e5 (subst IsBytes e1 v).1)) in
              let word = put_uint16-uint16 hi lo left.0 left.1.0 in
              (
                (kind ∷ h) ++ (hi ∷ lo ∷ []),
                ground arith,
                ground (arith, append_assoc h (hi ∷ lo ∷ []) r.1),
              )
        ]
      ]
]
