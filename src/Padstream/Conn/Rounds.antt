-- ===== src/Padstream/Conn/Rounds.antt =====
-- The rounds of `Read` of internal/padstream/padstream.go over a frame on the wire.
use chimera_core.Prelude.{
  ℕ, suc, ◌+◌, ◌≤◌, ◌<◌, ◌≡◌, refl, subst, ◌∙◌, List, [], ◌∷◌, ◌++◌, append_assoc, some, ok, arith,
  ltb, if◌then◌else◌, length, take, drop, min, length-append,
}
use chimera_core.Prelude.Bytes.{read_full-append, uint16-put_uint16}
use chimera_core.Padstream.Frames.{WireFrame, FitsHeader, put_header, put_wire}
use chimera_core.Padstream.Conn.{
  Raw, Conn, raw_write, draws, rolls, rand_int, rand_bytes, keep_alive_frame, maybe_keep_alive,
  before_header, with_input, payload_field, pad_field, got, read_loop,
}

-- What `Read` looks at.
pub record At (c : Conn) (buf : List ℕ) (stage p q : ℕ) (input : List ℕ) : Type 0 where
  pub buf_eq : c.read_buf ≡ buf
  pub stage_eq : c.read_stage ≡ stage
  pub payload_eq : c.read_payload_len ≡ p
  pub pad_eq : c.read_pad_len ≡ q
  pub input_eq : c.raw.input ≡ input

pub raw_write-input : (bs : List ℕ) (raw : Raw) → (raw_write bs raw).0.input ≡ raw.input
unfolding raw_write
raw_write-input bs raw = ground arith

module _ (rng : ℕ → ℕ) where
  keep_alive_frame-At :
      (c : Conn) (buf : List ℕ) (stage p q : ℕ) (input : List ℕ)
      → At c buf stage p q input
      → At (keep_alive_frame rng c) buf stage p q input
  unfolding keep_alive_frame
  keep_alive_frame-At c buf stage p q input a =
      let n = rand_int rng c.policy.max_padding c.drawn in
      let h = put_header 0 0 n in
      ground (
        arith,
        raw_write-input h c.raw,
        raw_write-input (rand_bytes rng n (c.drawn + draws rng c.policy.max_padding))
            (raw_write h c.raw).0,
      )

  pub before_header-At :
      (c : Conn) (buf : List ℕ) (stage p q : ℕ) (input : List ℕ)
      → At c buf stage p q input
      → At (before_header rng c) buf stage p q input
  unfolding before_header maybe_keep_alive
  before_header-At c buf stage p q input a = ground (
    arith,
    keep_alive_frame-At (record c { drawn = c.drawn + rolls rng c.policy.keep_alive_chance }) buf
        stage p q input,
  )

  module _ (cap : ℕ) where
    header_step :
        (fuel : ℕ) (c : Conn) (p q : ℕ) (h s : List ℕ)
        → At c [] 0 p q (h ++ s)
        → length h ≡ 5
        → (c' : Conn) × (read_loop rng (suc fuel) cap c ≡ read_loop rng fuel cap c')
          × At c' []
              (if ltb 0 (pad_field rng h) then 1 else if ltb 0 (payload_field rng h) then 2 else 0)
              (payload_field rng h)
              (pad_field rng h)
              s
    unfolding read_loop got
    header_step fuel c p q h s a size =
        let c1 = before_header rng c in
        let b = before_header-At c [] 0 p q (h ++ s) a in
        (
          got rng (with_input rng c1 s) h,
          ground (arith, read_full-append 5 h s, b.input_eq, b.stage_eq, b.buf_eq),
          ground arith,
        )

    padding_step :
        (fuel : ℕ) (c : Conn) (p q : ℕ) (pad s : List ℕ)
        → At c [] 1 p q (pad ++ s)
        → length pad ≡ q
        → (c' : Conn) × (read_loop rng (suc fuel) cap c ≡ read_loop rng fuel cap c')
          × At c' [] (if ltb 0 p then 2 else 0) p q s
    unfolding read_loop got
    padding_step fuel c p q pad s a size =
        let c1 = before_header rng c in
        let b = before_header-At c [] 1 p q (pad ++ s) a in
        (
          got rng (with_input rng c1 s) pad,
          ground (arith, read_full-append q pad s, b.input_eq, b.stage_eq, b.buf_eq, b.pad_eq),
          ground arith,
        )

    payload_step :
        (fuel : ℕ) (c : Conn) (p q : ℕ) (payload s : List ℕ)
        → At c [] 2 p q (payload ++ s)
        → length payload ≡ p
        → (c' : Conn) × (read_loop rng (suc fuel) cap c ≡ read_loop rng fuel cap c')
          × At c' payload 0 p q s
    unfolding read_loop got
    payload_step fuel c p q payload s a size =
        let c1 = before_header rng c in
        let b = before_header-At c [] 2 p q (payload ++ s) a in
        (
          got rng (with_input rng c1 s) payload,
          ground
              (arith, read_full-append p payload s, b.input_eq, b.stage_eq, b.buf_eq, b.payload_eq),
          ground arith,
        )

    pub return_step :
        (fuel : ℕ) (c : Conn) (buf : List ℕ) (p q : ℕ) (s : List ℕ)
        → At c buf 0 p q s
        → 0 < length buf
        → (c' : Conn) × (read_loop rng (suc fuel) cap c
            ≡ some (c', ok (take (min cap (length buf)) buf)))
          × At c' (drop (min cap (length buf)) buf) 0 p q s
    unfolding read_loop
    return_step fuel c buf p q s a full =
        let c1 = before_header rng c in
        let b = before_header-At c buf 0 p q s a in
        (
          record c1 { read_buf = drop (min cap (length c1.read_buf)) c1.read_buf },
          ground (arith, b.buf_eq),
          record {
            buf_eq = rw b.buf_eq;
            stage_eq = b.stage_eq;
            payload_eq = b.payload_eq;
            pad_eq = b.pad_eq;
            input_eq = b.input_eq;
          },
        )

    -- The rounds after a header: padding, then payload, each if it is there.
    abbrev pub Rounds : ℕ → Conn → List ℕ → List ℕ → Type 0
    Rounds fuel c payload s =
        (fuel' : ℕ) × (c' : Conn) × (p : ℕ) × (q : ℕ) × (read_loop rng fuel cap c
          ≡ read_loop rng fuel' cap c')
        × At c' payload 0 p q s
        × (length s < fuel')

    body-Rounds :
        (n : ℕ) (c : Conn) (pad payload s : List ℕ)
        → At c []
            (if ltb 0 (length pad) then 1 else if ltb 0 (length payload) then 2 else 0)
            (length payload)
            (length pad)
            (pad ++ (payload ++ s))
        → length s < n
        → Rounds (suc (suc n)) c payload s
    body-Rounds n c [] [] s a lt = (suc (suc n), c, 0, 0, refl, a, omega arith)
    body-Rounds n c [] (y ∷ ys) s a lt =
        let p = suc (length ys) in
        let stage : ◌≡◌ {A = ℕ} (if ltb 0 p then 2 else 0) 2 = ground arith in
        let a2 = subst (λ t. At c [] t p 0 ((y ∷ ys) ++ s)) stage a in
        let (c1, e, b) = payload_step (suc n) c p 0 (y ∷ ys) s a2 refl in
        (suc n, c1, suc (length ys), 0, e, b, omega arith)
    body-Rounds n c (x ∷ xs) [] s a lt =
        let q = suc (length xs) in
        let stage : ◌≡◌ {A = ℕ} (if ltb 0 q then 1 else 0) 1 = ground arith in
        let a1 = subst (λ t. At c [] t 0 q ((x ∷ xs) ++ s)) stage a in
        let (c1, e, b) = padding_step (suc n) c 0 q (x ∷ xs) s a1 refl in
        (suc n, c1, 0, suc (length xs), e, b, omega arith)
    body-Rounds n c (x ∷ xs) (y ∷ ys) s a lt =
        let p = suc (length ys) in
        let q = suc (length xs) in
        let stage1 : (if ltb 0 q then 1 else if ltb 0 p then 2 else 0) ≡ 1 = ground arith in
        let a1 = subst (λ t. At c [] t p q ((x ∷ xs) ++ ((y ∷ ys) ++ s))) stage1 a in
        let (c1, e1, b) = padding_step (suc n) c p q (x ∷ xs) ((y ∷ ys) ++ s) a1 refl in
        let stage2 : (if ltb 0 p then 2 else 0) ≡ 2 = ground arith in
        let b2 = subst (λ t. At c1 [] t p q ((y ∷ ys) ++ s)) stage2 b in
        let (c2, e2, d) = payload_step n c1 p q (y ∷ ys) s b2 refl in (n, c2, p, q, e1 ∙ e2, d, lt)

    header_fields :
        (kind p q : ℕ)
        → p < 65536
        → q < 65536
        → (payload_field rng (put_header kind p q) ≡ p)
          × (pad_field rng (put_header kind p q) ≡ q)
          × (length (put_header kind p q) ≡ 5)
    unfolding put_header
    header_fields kind p q hp hq = (uint16-put_uint16 p hp, uint16-put_uint16 q hq, refl)

    put_wire-append :
        (f : WireFrame) (s : List ℕ)
        → put_wire f ++ s
          ≡ put_header f.kind (length f.payload) (length f.pad) ++ (f.pad ++ (f.payload ++ s))
    unfolding put_wire
    put_wire-append f s = simp append_assoc

    pub put_wire-size : (f : WireFrame) (s : List ℕ) → 5 + length s ≤ length (put_wire f ++ s)
    unfolding put_wire put_header
    put_wire-size f s = omega (arith, length-append (f.pad ++ f.payload) s)

    -- A whole frame is read in at most three rounds, and leaves its payload in the buffer.
    pub frame-Rounds :
        (n : ℕ) (c : Conn) (p q : ℕ) (f : WireFrame) (s : List ℕ)
        → FitsHeader f
        → At c [] 0 p q (put_wire f ++ s)
        → length s < n
        → Rounds (suc (suc (suc n))) c f.payload s
    frame-Rounds n c p q f s fits a lt =
        let h = put_header f.kind (length f.payload) (length f.pad) in
        let (ep, eq, eh) = header_fields f.kind (length f.payload) (length f.pad) fits.1 fits.0 in
        let body = f.pad ++ (f.payload ++ s) in
        let (c1, e1, b) =
          header_step (suc (suc n)) c p q h body (subst (At c [] 0 p q) (put_wire-append f s) a)
            eh in
        let b' : At c1 []
            (if ltb 0 (length f.pad) then 1 else if ltb 0 (length f.payload) then 2 else 0)
            (length f.payload) (length f.pad) body =
          record {
            buf_eq = b.buf_eq;
            stage_eq = ground (arith, ep, eq, b.stage_eq);
            payload_eq = b.payload_eq ∙ ep;
            pad_eq = b.pad_eq ∙ eq;
            input_eq = b.input_eq;
          } in
        let (fuel, c2, p2, q2, e2, d, lt2) = body-Rounds n c1 f.pad f.payload s b' lt in
        (fuel, c2, p2, q2, e1 ∙ e2, d, lt2)
