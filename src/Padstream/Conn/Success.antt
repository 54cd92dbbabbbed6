-- ===== src/Padstream/Conn/Success.antt =====
-- `Write` of internal/padstream/padstream.go over a connection that does not fail.
use chimera_core.Prelude.{
  ℕ, zero, suc, ◌+◌, ◌≤◌, ◌≡◌, refl, Bool, false, List, [], ◌∷◌, arith, ltb, length, take, drop,
  Bool-cases, inl, inr, length-take, length-drop,
}
use chimera_core.Padstream.Frames.{put_header}
use chimera_core.Padstream.Conn.{
  Raw, Conn, raw_write, pad_len, frame_type, pad_bytes, write_chunk, write_frame, write_loop, write,
}

-- The write failed nowhere, and none of the writes to come will fail.
abbrev pub Fine : ℕ → Raw × ℕ × Bool → Type 0
Fine n r = (r.2 ≡ false) × (r.1 ≡ n) × (r.0.faults ≡ [])

pub raw_write-Fine :
    (bs : List ℕ) (raw : Raw) → raw.faults ≡ [] → Fine (length bs) (raw_write bs raw)
unfolding raw_write
raw_write-Fine bs raw e = ground arith

abbrev FineConn : ℕ → Conn × ℕ × Bool → Type 0
FineConn n r = (r.2 ≡ false) × (r.1 ≡ n) × (r.0.raw.faults ≡ [])

module _ (rng : ℕ → ℕ) where
  write_chunk-FineConn :
      (c : Conn) (chunk : List ℕ) (raw : Raw)
      → raw.faults ≡ []
      → FineConn (length chunk) (write_chunk rng c chunk raw)
  unfolding write_chunk
  write_chunk-FineConn c chunk raw e = let w = raw_write-Fine chunk raw e in rw w.0 (refl, w.1, w.2)

  write_frame-FineConn :
      (c : Conn) (chunk : List ℕ)
      → c.raw.faults ≡ []
      → FineConn (length chunk) (write_frame rng c chunk)
  unfolding write_frame
  write_frame-FineConn c chunk e =
      let header = put_header (frame_type rng c) (length chunk) (pad_len rng c) in
      let h = raw_write-Fine header c.raw e in
      let raw1 = (raw_write header c.raw).0 in
      let p = raw_write-Fine (pad_bytes rng c) raw1 h.2 in
      elim (Bool-cases (ltb 0 (pad_len rng c))) [
        | inl padded ↦
            rw (h.0, padded)
              (rw p.0 (write_chunk-FineConn c chunk (raw_write (pad_bytes rng c) raw1).0 p.2))
        | inr bare ↦ rw (h.0, bare) (write_chunk-FineConn c chunk raw1 h.2)
      ]

  write_loop-fine :
      (fuel : ℕ) (c : Conn) (b : List ℕ) (total : ℕ)
      → length b ≤ fuel
      → c.raw.faults ≡ []
      → (write_loop rng fuel c b total).2 ≡ false
  unfolding write_loop
  write_loop-fine fuel c [] total h e = refl
  write_loop-fine zero c (x ∷ xs) total h e = absurd (omega arith)
  write_loop-fine (suc fuel) c (x ∷ xs) total h e =
      let chunk = take 65535 (x ∷ xs) in
      let w = write_frame-FineConn c chunk e in
      let r = write_frame rng c chunk in
      rw w.0 (
        write_loop-fine fuel r.0 (drop r.1 (x ∷ xs)) (total + r.1)
          (omega (arith, w.1, length-take 65535 (x ∷ xs), length-drop r.1 (x ∷ xs))) w.2)

  write_loop-faults :
      (fuel : ℕ) (c : Conn) (b : List ℕ) (total : ℕ)
      → c.raw.faults ≡ []
      → (write_loop rng fuel c b total).0.raw.faults ≡ []
  unfolding write_loop
  write_loop-faults fuel c [] total e = e
  write_loop-faults zero c (x ∷ xs) total e = e
  write_loop-faults (suc fuel) c (x ∷ xs) total e =
      let w = write_frame-FineConn c (take 65535 (x ∷ xs)) e in
      let r = write_frame rng c (take 65535 (x ∷ xs)) in
      rw w.0 (write_loop-faults fuel r.0 (drop r.1 (x ∷ xs)) (total + r.1) w.2)

  pub write-faults : (c : Conn) (b : List ℕ) → c.raw.faults ≡ [] → (write rng c b).0.raw.faults ≡ []
  unfolding write
  write-faults c b e = write_loop-faults (length b) c b 0 e

-- Over a connection whose writes do not fail, `Write` ends without an error, whatever the dice and the
-- policy: its fuel, the length of the slice, is enough.
pub write_fine :
    (rng : ℕ → ℕ) (c : Conn) (b : List ℕ) → c.raw.faults ≡ [] → (write rng c b).2 ≡ false
unfolding write
write_fine rng c b e = write_loop-fine rng (length b) c b 0 (omega arith) e
