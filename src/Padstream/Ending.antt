-- ===== src/Padstream/Ending.antt =====
-- How `Read` of internal/padstream/padstream.go ends.
use chimera_core.Prelude.{
  ℕ, zero, suc, ◌+◌, ◌-◌, ◌≤◌, ◌<◌, ◌≡◌, refl, ◌==◌, List, [], ◌++◌, Option, some, Result, ok, err,
  arith, ltb, length, take, drop, min, Bool-cases, Result-cases, inl, inr, sym, ap, ◌∙◌,
  length-append, length-take,
}
use chimera_core.Prelude.Bytes.{IoError, read_full, read_full-eq-ok}
use chimera_core.Padstream.Conn.{
  Conn, Raw, Policy, new, before_header, with_input, wanted, got_header, got_padding, got_payload,
  got, read_loop, read,
}
use chimera_core.Padstream.Conn.Rounds.{At, before_header-At}
use chimera_core.Padstream.Roundtrip.{read_full_loop}

-- A stage after the header has bytes to wait for.
pub record IsStaged (c : Conn) : Type 0 where
  pub pads : c.read_stage ≡ 1 → 0 < c.read_pad_len
  pub pays : 1 < c.read_stage → 0 < c.read_payload_len

pub new-IsStaged : (raw : Raw) (p : Policy) → IsStaged (new raw p)
unfolding new
new-IsStaged raw p = record { pads = λ e. absurd (omega arith); pays = λ h. absurd (omega arith) }

-- A property of connections that the steps of `Read` keep.
pub record Preserved (rng : ℕ → ℕ) (P : Conn → Type 0) : Type 0 where
  pub staged : (c : Conn) → P c → IsStaged c
  pub head : (c : Conn) → P c → P (before_header rng c)
  pub input : (c : Conn) (s : List ℕ) → P c → P (with_input rng c s)
  pub stage : (c : Conn) (bs : List ℕ) → P c → P (got rng c bs)
  pub buffer : (c : Conn) (bs : List ℕ) → P c → P (record c { read_buf = bs })

-- The reader returns, within its slice, at least a byte unless it is an error.
pub record Returns (P : Conn → Type 0) (cap : ℕ) (r : Option (Conn × Result IoError (List ℕ)))
    : Type 0 where
  pub conn : Conn
  pub result : Result IoError (List ℕ)
  pub returns : r ≡ some (conn, result)
  pub kept : P conn
  pub within : (chunk : List ℕ) → result ≡ ok chunk → (0 < length chunk) × (length chunk ≤ cap)

module _ (rng : ℕ → ℕ) where
  same_state :
      (c : Conn) → At c c.read_buf c.read_stage c.read_payload_len c.read_pad_len c.raw.input
  same_state c = record {
    buf_eq = refl;
    stage_eq = refl;
    payload_eq = refl;
    pad_eq = refl;
    input_eq = refl;
  }

  before_header_same :
      (c : Conn)
      → At
          (before_header rng c)
          c.read_buf
          c.read_stage
          c.read_payload_len
          c.read_pad_len
          c.raw.input
  before_header_same c = before_header-At rng c _ _ _ _ _ (same_state c)

  before_header-IsStaged : (c : Conn) → IsStaged c → IsStaged (before_header rng c)
  before_header-IsStaged c s =
      let a = before_header_same c in
      record {
        pads = λ e. omega (arith, a.pad_eq, s.pads (sym a.stage_eq ∙ e));
        pays = λ h. omega (arith, a.payload_eq, s.pays (omega (arith, a.stage_eq, h)));
      }

  got-IsStaged : (c : Conn) (bs : List ℕ) → IsStaged c → IsStaged (got rng c bs)
  unfolding got got_header got_padding got_payload
  got-IsStaged c bs s = ground arith

  wanted_some : (c : Conn) → IsStaged c → 0 < wanted rng c
  wanted_some c s = elim (Bool-cases (c.read_stage == 0)) [
    | inl zero_stage ↦ rw zero_stage (omega arith)
    | inr later_stage ↦ elim (Bool-cases (c.read_stage == 1)) [
      | inl pad_stage ↦ rw (later_stage, pad_stage) (s.pads (ground arith))
      | inr payload_stage ↦ rw (later_stage, payload_stage) (s.pays (ground arith))
    ]
  ]

  got-input : (c : Conn) (bs : List ℕ) → (got rng c bs).raw.input ≡ c.raw.input
  unfolding got got_header got_padding got_payload
  got-input c bs = ground arith

  pub IsStaged-Preserved : Preserved rng IsStaged
  IsStaged-Preserved = record {
    staged = λ c s. s;
    head = before_header-IsStaged;
    input = λ c bs s. record { pads = s.pads; pays = s.pays };
    stage = got-IsStaged;
    buffer = λ c bs s. record { pads = s.pads; pays = s.pays };
  }

  module _ (P : Conn → Type 0) (k : Preserved rng P) where
    read_loop-Returns :
        (fuel cap : ℕ) (c : Conn)
        → 0 < cap
        → P c
        → length c.raw.input < fuel
        → Returns P cap (read_loop rng fuel cap c)
    unfolding read_loop
    read_loop-Returns zero cap c room s enough = absurd (omega arith)
    read_loop-Returns (suc fuel) cap c0 room s enough =
        let c = before_header rng c0 in
        let a = before_header_same c0 in
        let s1 = k.head c0 s in
        elim (Bool-cases (ltb 0 (length c.read_buf))) [
          | inl buffered ↦ rw buffered (record {
            conn = record c { read_buf = drop (min cap (length c.read_buf)) c.read_buf };
            result = ok (take (min cap (length c.read_buf)) c.read_buf);
            returns = refl;
            kept = k.buffer c _ s1;
            within =
                λ chunk e. ground (arith, length-take (min cap (length c.read_buf)) c.read_buf);
          })
          | inr empty ↦ elim (Result-cases (read_full (wanted rng c) c.raw.input)) [
            | inr (x, bad) ↦
                rw (empty, bad, read_loop)
                  (record {
                    conn = with_input rng c [];
                    result = err x;
                    returns = refl;
                    kept = k.input c [] s1;
                    within = λ chunk e. absurd (ground arith);
                  })
            | inl ((bs, rest), good) ↦
                let (split, size) = read_full-eq-ok (wanted rng c) c.raw.input bs rest good in
                let c1 = with_input rng c rest in
                rw (empty, good, read_loop)
                  (read_loop-Returns fuel cap (got rng c1 bs) room
                    (k.stage c1 bs (k.input c rest s1))
                    (omega (
                      arith,
                      ap length (got-input c1 bs),
                      ap length split,
                      length-append bs rest,
                      size,
                      wanted_some c (k.staged c s1),
                      ap length a.input_eq,
                      enough,
                    )))
          ]
        ]

    read-Returns : (cap : ℕ) (c : Conn) → 0 < cap → P c → Returns P cap (read rng cap c)
    unfolding read
    read-Returns cap c room s =
        read_loop-Returns (length c.raw.input + 1) cap c room s (omega arith)

-- The reader ends, and the connection has the property.
pub record Ends {A : Type 0} (P : Conn → Type 0) (r : Option (Conn × A)) : Type 0 where
  pub conn : Conn
  pub result : A
  pub returns : r ≡ some (conn, result)
  pub kept : P conn

pub read_full_loop-Ends :
    (rng : ℕ → ℕ) (P : Conn → Type 0) (k : Preserved rng P) (fuel n : ℕ) (c : Conn)
    → n < fuel
    → P c
    → Ends P (read_full_loop rng fuel n c)
unfolding read_full_loop
read_full_loop-Ends rng P k zero n c enough s = absurd (omega arith)
read_full_loop-Ends rng P k (suc fuel) zero c enough s = record {
  conn = c;
  result = ok [];
  returns = refl;
  kept = s;
}
read_full_loop-Ends rng P k (suc fuel) (suc n) c enough s =
    let r = read-Returns rng P k (suc n) c (omega arith) s in
    elim (Result-cases r.result) [
      | inr (x, bad) ↦ record {
        conn = r.conn;
        result = err x;
        returns = rw (r.returns, read_full_loop) (rw bad refl);
        kept = r.kept;
      }
      | inl (chunk, good) ↦
          let bound = r.within chunk good in
          let next =
            read_full_loop-Ends rng P k fuel (suc n - length chunk) r.conn (omega (arith, bound))
              r.kept in
          elim (Result-cases next.result) [
            | inr (x, bad) ↦ record {
              conn = next.conn;
              result = err x;
              returns = rw (r.returns, read_full_loop) (rw good (rw next.returns (rw bad refl)));
              kept = next.kept;
            }
            | inl (rest, fine) ↦ record {
              conn = next.conn;
              result = ok (chunk ++ rest);
              returns = rw (r.returns, read_full_loop) (rw good (rw next.returns (rw fine refl)));
              kept = next.kept;
            }
          ]
    ]
