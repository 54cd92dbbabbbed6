-- ===== src/Padstream/Conn/Writing.antt =====
-- `Write` of internal/padstream/padstream.go: what stands on the wire after it.
use chimera_core.Prelude.{
  ℕ, zero, suc, ◌+◌, ◌≤◌, ◌<◌, ◌≡◌, refl, sym, subst, ap, ◌∙◌, Bool, true, false, inl, inr, List,
  [], ◌∷◌, ◌++◌, append_assoc, append-nil, arith, ltb, length, take, drop, All, Bool-cases,
  length-take, length-drop, take-append-drop-length, nil_of_length,
}
use chimera_core.Padstream.Frames.{WireFrame, FitsHeader, put_header, put_wire, wire, payloads}
use chimera_core.Padstream.Conn.{
  Policy, Raw, Conn, raw_write, rand_int, draws, rand_bytes, pad_max, pad_len, frame_type,
  pad_bytes, write_chunk, write_frame, write_loop, write,
}

-- The bounds of a policy are of type uint16.
pub record IsPolicy (p : Policy) : Type 0 where
  pub max_padding_range : p.max_padding < 65536
  pub initial_max_range : p.initial_max < 65536

-- A call of the connection's `Write` that does not fail has written all.
pub raw_write_whole :
    (bs : List ℕ) (raw : Raw)
    → (raw_write bs raw).2 ≡ false
    → ((raw_write bs raw).0.output ≡ raw.output ++ bs) × ((raw_write bs raw).1 ≡ length bs)
unfolding raw_write
raw_write_whole bs raw e = ground arith

raw_write-le : (bs : List ℕ) (raw : Raw) → (raw_write bs raw).1 ≤ length bs
unfolding raw_write
raw_write-le bs raw = ground arith

true≢false : ¬ ◌≡◌ {A = Bool} true false
true≢false e = cc

not_pos : (n : ℕ) → ltb 0 n ≡ false → n ≡ 0
not_pos n h = ground arith

module _ (rng : ℕ → ℕ) where
  rand_int-le : (max drawn : ℕ) → rand_int rng max drawn ≤ max
  unfolding rand_int
  rand_int-le max drawn = ground arith

  length-rand_bytes : (n drawn : ℕ) → length (rand_bytes rng n drawn) ≡ n
  unfolding rand_bytes
  length-rand_bytes zero drawn = refl
  length-rand_bytes (suc n) drawn = ap suc (length-rand_bytes n (drawn + 1))

  pad_max-lt : (c : Conn) → IsPolicy c.policy → pad_max rng c < 65536
  unfolding pad_max
  pad_max-lt c v = ground arith

  pad_len-lt : (c : Conn) → IsPolicy c.policy → pad_len rng c < 65536
  unfolding pad_len
  pad_len-lt c v = omega (arith, rand_int-le (pad_max rng c) c.drawn, pad_max-lt c v)

  -- The frame of one round.
  frame_of : Conn → List ℕ → WireFrame
  frame_of c chunk = record { kind = frame_type rng c; pad = pad_bytes rng c; payload = chunk }

  length-pad_bytes : (c : Conn) → length (pad_bytes rng c) ≡ pad_len rng c
  unfolding pad_bytes
  length-pad_bytes c = length-rand_bytes (pad_len rng c) (c.drawn + draws rng (pad_max rng c))

  -- What a round does, unless it fails.
  record Framed (c : Conn) (chunk : List ℕ) (r : Conn × ℕ × Bool) : Type 0 where
    output_eq : r.0.raw.output ≡ c.raw.output ++ put_wire (frame_of c chunk)
    size_eq : r.1 ≡ length chunk
    policy_eq : r.0.policy ≡ c.policy

  -- The padding is empty if its length is zero, so that nothing is missed where it is not written.
  header_and_pad : Conn → List ℕ → List ℕ
  header_and_pad c chunk =
      put_header (frame_type rng c) (length chunk) (pad_len rng c) ++ pad_bytes rng c

  write_chunk-Framed :
      (c : Conn) (chunk : List ℕ) (raw : Raw)
      → raw.output ≡ c.raw.output ++ header_and_pad c chunk
      → (write_chunk rng c chunk raw).2 ≡ false
      → Framed c chunk (write_chunk rng c chunk raw)
  unfolding write_chunk frame_of put_wire header_and_pad
  write_chunk-Framed c chunk raw before e = elim (Bool-cases (raw_write chunk raw).2) [
    | inl failed ↦ absurd (ground arith)
    | inr fine ↦
        let w = raw_write_whole chunk raw fine in
        rw (fine, write_chunk)
          (record {
            output_eq =
                w.0
                ∙ ap (λ (l : List ℕ). l ++ chunk) before
                ∙ simp (append_assoc, length-pad_bytes c);
            size_eq = w.1;
            policy_eq = refl;
          })
  ]

  write_frame-Framed :
      (c : Conn) (chunk : List ℕ)
      → (write_frame rng c chunk).2 ≡ false
      → Framed c chunk (write_frame rng c chunk)
  unfolding write_frame header_and_pad
  write_frame-Framed c chunk e =
      let h = put_header (frame_type rng c) (length chunk) (pad_len rng c) in
      let raw1 = (raw_write h c.raw).0 in
      elim (Bool-cases (raw_write h c.raw).2) [
        | inl failed ↦ absurd (ground arith)
        | inr fine ↦
            let w1 = raw_write_whole h c.raw fine in
            elim (Bool-cases (ltb 0 (pad_len rng c))) [
              | inr none_pad ↦
                  let empty : pad_bytes rng c ≡ [] =
                    nil_of_length (pad_bytes rng c)
                      (omega (arith, length-pad_bytes c, not_pos _ none_pad)) in
                  let before : raw1.output ≡ c.raw.output ++ header_and_pad c chunk =
                    w1.0
                    ∙ ap (λ (l : List ℕ). c.raw.output ++ l)
                        (sym (append-nil h) ∙ ap (λ (l : List ℕ). h ++ l) (sym empty)) in
                  rw (fine, write_frame)
                    (rw none_pad (write_chunk-Framed c chunk raw1 before (ground arith)))
              | inl padded ↦ elim (Bool-cases (raw_write (pad_bytes rng c) raw1).2) [
                | inl failed2 ↦ absurd (ground arith)
                | inr fine2 ↦
                    let w2 = raw_write_whole (pad_bytes rng c) raw1 fine2 in
                    rw (fine, write_frame)
                      (rw (padded, fine2)
                        (write_chunk-Framed c chunk (raw_write (pad_bytes rng c) raw1).0
                          (w2.0
                            ∙ ap (λ (l : List ℕ). l ++ pad_bytes rng c) w1.0
                            ∙ append_assoc c.raw.output h (pad_bytes rng c))
                          (ground arith)))
              ]
            ]
      ]

  -- What a run of the loop does, unless it fails: `fs` are the frames that it has put on the wire.
  pub record Wrote (c : Conn) (b : List ℕ) (total : ℕ) (r : Conn × ℕ × Bool) : Type 0 where
    pub fs : List WireFrame
    pub output_eq : r.0.raw.output ≡ c.raw.output ++ wire fs
    pub payloads_eq : payloads fs ≡ b
    pub fit : All FitsHeader fs
    pub total_eq : r.1 ≡ total + length b

  -- One round in front of a run.
  round-Wrote :
      (m : ℕ) (c : Conn) (b : List ℕ) (total : ℕ) (w r : Conn × ℕ × Bool)
      → IsPolicy c.policy
      → m < 65536
      → Framed c (take m b) w
      → Wrote w.0 (drop w.1 b) (total + w.1) r
      → Wrote c b total r
  unfolding wire payloads frame_of
  round-Wrote m c b total w r v small f rest = record {
    fs = frame_of c (take m b) ∷ rest.fs;
    output_eq =
        rest.output_eq
        ∙ ap (λ (l : List ℕ). l ++ wire rest.fs) f.output_eq
        ∙ append_assoc c.raw.output (put_wire (frame_of c (take m b))) (wire rest.fs);
    payloads_eq =
        ap (λ (l : List ℕ). take m b ++ l) (rest.payloads_eq ∙ ap (λ n. drop n b) f.size_eq)
        ∙ take-append-drop-length m b;
    fit = (
      (omega (arith, length-pad_bytes c, pad_len-lt c v), omega (arith, length-take m b)),
      rest.fit,
    );
    total_eq = omega (arith, rest.total_eq, f.size_eq, length-drop w.1 b, length-take m b);
  }

  write_loop-Wrote :
      (fuel : ℕ) (c : Conn) (b : List ℕ) (total : ℕ)
      → IsPolicy c.policy
      → length b ≤ fuel
      → (write_loop rng fuel c b total).2 ≡ false
      → Wrote c b total (write_loop rng fuel c b total)
  unfolding write_loop wire payloads
  write_loop-Wrote fuel c [] total v h e = record {
    fs = [];
    output_eq = sym (append-nil c.raw.output);
    payloads_eq = refl;
    fit = tt;
    total_eq = omega arith;
  }
  write_loop-Wrote zero c (x ∷ xs) total v h e = absurd (omega arith)
  write_loop-Wrote (suc fuel) c (x ∷ xs) total v h e =
      let w = write_frame rng c (take 65535 (x ∷ xs)) in
      elim (Bool-cases w.2) [
        | inl failed ↦ absurd (true≢false (rw (failed, write_loop) at e))
        | inr fine ↦
            let f = write_frame-Framed c (take 65535 (x ∷ xs)) fine in
            rw (fine, write_loop)
              (round-Wrote 65535 c (x ∷ xs) total w _ v (omega arith) f (
                write_loop-Wrote fuel w.0 (drop w.1 (x ∷ xs)) (total + w.1)
                  (subst IsPolicy (sym f.policy_eq) v)
                  (omega
                    (arith, f.size_eq, length-drop w.1 (x ∷ xs), length-take 65535 (x ∷ xs), h))
                  (rw (fine, write_loop) at e)))
      ]

  write_chunk-le :
      (c : Conn) (chunk : List ℕ) (raw : Raw) → (write_chunk rng c chunk raw).1 ≤ length chunk
  unfolding write_chunk
  write_chunk-le c chunk raw = ground (arith, raw_write-le chunk raw)

  write_frame-le : (c : Conn) (chunk : List ℕ) → (write_frame rng c chunk).1 ≤ length chunk
  unfolding write_frame
  write_frame-le c chunk =
      let h = put_header (frame_type rng c) (length chunk) (pad_len rng c) in
      let raw1 = (raw_write h c.raw).0 in
      ground (
        arith,
        write_chunk-le c chunk raw1,
        write_chunk-le c chunk (raw_write (pad_bytes rng c) raw1).0,
      )

  write_loop-le :
      (fuel : ℕ) (c : Conn) (b : List ℕ) (total : ℕ)
      → (write_loop rng fuel c b total).1 ≤ total + length b
  unfolding write_loop
  write_loop-le fuel c [] total = omega arith
  write_loop-le zero c (x ∷ xs) total = omega arith
  write_loop-le (suc fuel) c (x ∷ xs) total =
      let w = write_frame rng c (take 65535 (x ∷ xs)) in
      let here = write_frame-le c (take 65535 (x ∷ xs)) in
      let small : w.1 ≤ length (x ∷ xs) = omega (arith, here, length-take 65535 (x ∷ xs)) in
      elim (Bool-cases w.2) [
        | inl failed ↦ rw (failed, write_loop) (omega arith)
        | inr fine ↦
            rw (fine, write_loop)
              (omega (
                arith,
                write_loop-le fuel w.0 (drop w.1 (x ∷ xs)) (total + w.1),
                length-drop w.1 (x ∷ xs),
              ))
      ]

-- With a policy whose bounds have 16 bits, if `Write` returns no error, it has put frames on the wire behind what stood there, each with
-- lengths that fit its header, whose payloads are the given bytes in order, and it returns their
-- number.
pub write_lem :
    (rng : ℕ → ℕ) (c : Conn) (b : List ℕ)
    → IsPolicy c.policy
    → (write rng c b).2 ≡ false
    → Wrote rng c b 0 (write rng c b)
unfolding write
write_lem rng c b v fine = write_loop-Wrote rng (length b) c b 0 v (omega arith) fine

-- It never claims to have written more than it was given.
pub write-le : (rng : ℕ → ℕ) (c : Conn) (b : List ℕ) → (write rng c b).1 ≤ length b
unfolding write
write-le rng c b = omega (arith, write_loop-le rng (length b) c b 0)
