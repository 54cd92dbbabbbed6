-- ===== src/Carrier/Padded.antt =====
-- The readers of internal/chimera/chimera.go over a padded connection, against those on the bytes that it
-- carries.
use chimera_core.Prelude.{
  ℕ, suc, ◌≤◌, ◌≡◌, refl, ◌==◌, List, [], ◌∷◌, ◌++◌, none, some, ok, length, arith, Bool-cases,
  Result-cases, inl, inr, sym, ap, ◌∙◌, subst, length-append,
}
use chimera_core.Prelude.Bytes.{read_full, read_full-eq-ok}
use chimera_core.Chimera.Ip.{Ip}
use chimera_core.Chimera.Address.{
  Address, atyp_ipv4, atyp_domain, atyp_ipv6, first, port_of, read_domain, read_host, read_address,
  read_target_connect,
}
use chimera_core.Padstream.Frames.{WireFrame, payloads}
use chimera_core.Padstream.Conn.{Conn}
use chimera_core.Padstream.Conn.Reading.{Between}
use chimera_core.Padstream.Roundtrip.{read_full_loop-Takes}
use chimera_core.Carrier.{
  Padded, and_then, lift_padded, take_bytes, take_domain, take_host, take_address,
  take_target_connect,
}

-- What the connection still carries.
pub record Holds (c : Conn) (s : List ℕ) : Type 0 where
  pub buf : List ℕ
  pub fs : List WireFrame
  pub between : Between [] c buf fs
  pub stream : s ≡ buf ++ payloads fs

-- The reader gives the value, and leaves the rest.
pub record Gives {A : Type 0} (p : Padded A) (a : A) (rest : List ℕ) : Type 0 where
  pub conn : Conn
  pub returns : p ≡ some (conn, ok a)
  pub holds : Holds conn rest

same_split :
    (xs xs' ys ys' : List ℕ)
    → xs ++ ys ≡ xs' ++ ys'
    → length xs ≡ length xs'
    → (xs ≡ xs') × (ys ≡ ys')
same_split [] [] ys ys' e h = (refl, e)
same_split [] (x ∷ xs') ys ys' e h = absurd (omega (arith, h))
same_split (x ∷ xs) [] ys ys' e h = absurd (omega (arith, h))
same_split (x ∷ xs) (y ∷ xs') ys ys' e h =
    let first : x ≡ y = ground arith in
    let tail : xs ++ ys ≡ xs' ++ ys' = ground arith in
    let (front, back) = same_split xs xs' ys ys' tail (omega (arith, h)) in
    (ap (λ (z : ℕ). z ∷ xs) first ∙ ap (◌∷◌ y) front, back)

and_then-Gives :
    {A B : Type 0}
    → (p : Padded A) (f : A → Conn → Padded B) (a : A) (b : B) (mid rest : List ℕ) → Gives p a mid
    → ((c : Conn) → Holds c mid → Gives (f a c) b rest)
    → Gives (and_then p f) b rest
and_then-Gives p f a b mid rest g next =
    let step = next g.conn g.holds in
    record {
      conn = step.conn;
      returns = ap (λ x. and_then x f) g.returns ∙ step.returns;
      holds = step.holds;
    }

module _ (rng : ℕ → ℕ) where
  pub take_bytes-Gives :
      (n : ℕ) (c : Conn) (s bs rest : List ℕ)
      → Holds c s
      → read_full n s ≡ ok (bs, rest)
      → Gives (take_bytes rng n c) bs rest
  unfolding take_bytes
  take_bytes-Gives n c s bs rest h e =
      let (split, size) = read_full-eq-ok n s bs rest e in
      let enough : n ≤ length (h.buf ++ payloads h.fs) =
        omega (arith, size, length-append bs rest, ap length split, ap length h.stream) in
      let t = read_full_loop-Takes rng (suc n) n c [] h.buf h.fs (omega arith) h.between enough in
      let (front, back) =
        same_split t.taken bs (t.buf ++ payloads t.fs) rest (sym t.split ∙ sym h.stream ∙ split)
          (t.size ∙ sym size) in
      record {
        conn = t.c';
        returns = ap lift_padded t.returns ∙ ap (λ (x : List ℕ). some (t.c', ok x)) front;
        holds = record { buf = t.buf; fs = t.fs; between = t.next; stream = sym back };
      }

  -- A value that needs no more bytes.
  stays :
      {A : Type 0}
      → (a : A) (c : Conn) (s : List ℕ) → Holds c s
      → Gives {A = A} (some (c, ok a)) a s
  stays a c s h = record { conn = c; returns = refl; holds = h }

  take_domain-Gives :
      (c : Conn) (s domain rest : List ℕ)
      → Holds c s
      → read_domain s ≡ ok (domain, rest)
      → Gives (take_domain rng c) domain rest
  unfolding take_domain read_domain
  take_domain-Gives c s domain rest h e = elim (Result-cases (read_full 1 s)) [
    | inr (x, bad) ↦ absurd (ground arith)
    | inl ((size, s1), good) ↦ elim (Bool-cases (first size == 0)) [
      | inl empty ↦ absurd (ground arith)
      | inr some_bytes ↦ elim (Result-cases (read_full (first size) s1)) [
        | inr (x, bad) ↦ absurd (ground arith)
        | inl ((bs, s2), read) ↦
            let same : (bs ≡ domain) × (s2 ≡ rest) = ground arith in
            let read' : read_full (first size) s1 ≡ ok (domain, rest) = ground arith in
            and_then-Gives _ _ size domain s1 rest (take_bytes-Gives 1 c s size s1 h good)
              (λ c1 h1. rw some_bytes (take_bytes-Gives (first size) c1 s1 domain rest h1 read'))
      ]
    ]
  ]

  -- An IP of `n` bytes.
  take_ip-Gives :
      (n : ℕ) (c : Conn) (s ip s1 : List ℕ) (host : Ip × List ℕ) (rest : List ℕ)
      → Holds c s
      → read_full n s ≡ ok (ip, s1)
      → host ≡ (some ip, [])
      → s1 ≡ rest
      → Gives {A = Ip × List ℕ}
          (and_then (take_bytes rng n c) (λ x c1. some (c1, ok (some x, []))))
          host
          rest
  take_ip-Gives n c s ip s1 host rest h e same left =
      and_then-Gives _ _ ip host rest rest
        (take_bytes-Gives n c s ip rest h (e ∙ ap (λ (l : List ℕ). ok (ip, l)) left))
        (λ c1 h1.
          subst (λ x. Gives {A = Ip × List ℕ} (some (c1, ok (some ip, []))) x rest) (sym same)
            (stays (some ip, []) c1 rest h1))

  take_name-Gives :
      (c : Conn) (s domain s1 : List ℕ) (host : Ip × List ℕ) (rest : List ℕ)
      → Holds c s
      → read_domain s ≡ ok (domain, s1)
      → host ≡ (none, domain)
      → s1 ≡ rest
      → Gives {A = Ip × List ℕ}
          (and_then (take_domain rng c) (λ x c1. some (c1, ok (none, x))))
          host
          rest
  take_name-Gives c s domain s1 host rest h e same left =
      and_then-Gives _ _ domain host rest rest
        (take_domain-Gives c s domain rest h (e ∙ ap (λ (l : List ℕ). ok (domain, l)) left))
        (λ c1 h1.
          subst (λ x. Gives {A = Ip × List ℕ} (some (c1, ok (none, domain))) x rest) (sym same)
            (stays (none, domain) c1 rest h1))

  take_host-Gives :
      (kind : ℕ) (c : Conn) (s : List ℕ) (host : Ip × List ℕ) (rest : List ℕ)
      → Holds c s
      → read_host kind s ≡ ok (host, rest)
      → Gives (take_host rng kind c) host rest
  unfolding take_host read_host
  take_host-Gives kind c s host rest h e = elim (Bool-cases (kind == atyp_ipv4)) [
    | inl v4 ↦ elim (Result-cases (read_full 4 s)) [
      | inr (x, bad) ↦ absurd (ground arith)
      | inl ((ip, s1), good) ↦
          rw v4 (take_ip-Gives 4 c s ip s1 host rest h good (ground arith) (ground arith))
    ]
    | inr not_v4 ↦ elim (Bool-cases (kind == atyp_domain)) [
      | inl named ↦ elim (Result-cases (read_domain s)) [
        | inr (x, bad) ↦ absurd (ground arith)
        | inl ((domain, s1), good) ↦ rw not_v4 (
            rw named (take_name-Gives c s domain s1 host rest h good (ground arith) (ground arith)))
      ]
      | inr not_named ↦ elim (Bool-cases (kind == atyp_ipv6)) [
        | inr other ↦ absurd (ground arith)
        | inl v6 ↦ elim (Result-cases (read_full 16 s)) [
          | inr (x, bad) ↦ absurd (ground arith)
          | inl ((ip, s1), good) ↦ rw not_v4 (
              rw not_named
                (rw v6 (take_ip-Gives 16 c s ip s1 host rest h good (ground arith) (ground arith))))
        ]
      ]
    ]
  ]

  take_address-Gives :
      (c : Conn) (s : List ℕ) (addr : Address) (rest : List ℕ)
      → Holds c s
      → read_address s ≡ ok (addr, rest)
      → Gives (take_address rng c) addr rest
  unfolding take_address read_address
  take_address-Gives c s addr rest h e = elim (Result-cases (read_full 1 s)) [
    | inr (x, bad) ↦ absurd (ground arith)
    | inl ((kind, s1), good) ↦ elim (Result-cases (read_host (first kind) s1)) [
      | inr (x, bad) ↦ absurd (ground arith)
      | inl ((host, s2), found) ↦ elim (Result-cases (read_full 2 s2)) [
        | inr (x, bad) ↦ absurd (ground arith)
        | inl ((port, s3), ended) ↦
            let made : Address = record {
              kind = first kind;
              ip = host.0;
              domain = host.1;
              port = port_of port;
            } in
            let same : addr ≡ made = ground arith in
            let left : s3 ≡ rest = ground arith in
            and_then-Gives _ _ kind addr s1 rest (take_bytes-Gives 1 c s kind s1 h good) (λ c1 h1.
              and_then-Gives _ _ host addr s2 rest
                (take_host-Gives (first kind) c1 s1 host s2 h1 found)
                (λ c2 h2.
                  and_then-Gives _ _ port addr rest rest
                    (take_bytes-Gives 2 c2 s2 port rest h2
                      (ended ∙ ap (λ (l : List ℕ). ok (port, l)) left))
                    (λ c3 h3.
                      subst (λ x. Gives {A = Address} (some (c3, ok made)) x rest) (sym same)
                        (stays made c3 rest h3))))
      ]
    ]
  ]

  pub take_target_connect-Gives :
      (c : Conn) (s : List ℕ) (cmd : ℕ) (addr : Address) (rest : List ℕ)
      → Holds c s
      → read_target_connect s ≡ ok ((cmd, addr), rest)
      → Gives (take_target_connect rng c) (cmd, addr) rest
  unfolding take_target_connect read_target_connect
  take_target_connect-Gives c s cmd addr rest h e = elim (Result-cases (read_full 1 s)) [
    | inr (x, bad) ↦ absurd (ground arith)
    | inl ((byte, s1), good) ↦ elim (Result-cases (read_address s1)) [
      | inr (x, bad) ↦ absurd (ground arith)
      | inl ((found, s2), read) ↦
          let read' : read_address s1 ≡ ok (addr, rest) = ground arith in
          let same : cmd ≡ first byte = ground arith in
          and_then-Gives _ _ byte (cmd, addr) s1 rest (take_bytes-Gives 1 c s byte s1 h good)
            (λ c1 h1.
              and_then-Gives _ _ addr (cmd, addr) rest rest
                (take_address-Gives c1 s1 addr rest h1 read')
                (λ c2 h2.
                  subst
                    (λ x. Gives {A = ℕ × Address} (some (c2, ok (first byte, addr))) (x, addr) rest)
                    (sym same) (stays (first byte, addr) c2 rest h2)))
    ]
  ]
