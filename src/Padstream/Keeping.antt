-- ===== src/Padstream/Keeping.antt =====
-- `Write` of internal/padstream/padstream.go and the state that it leaves alone.
use chimera_core.Prelude.{
  ℕ, zero, suc, ◌+◌, ◌≡◌, List, [], ◌∷◌, length, take, drop, arith, Bool-cases, inl, inr, sym, ◌∙◌,
  subst,
}
use chimera_core.Padstream.Frames.{put_header}
use chimera_core.Padstream.Conn.{
  Raw, Conn, raw_write, pad_bytes, pad_len, frame_type, write_chunk, write_frame, write_loop, write,
}
use chimera_core.Padstream.Conn.Writing.{IsPolicy}
use chimera_core.Padstream.Conn.Reading.{Between}
use chimera_core.Padstream.Conn.Rounds.{raw_write-input}
use chimera_core.Padstream.Frames.{WireFrame}
use chimera_core.Padstream.Ending.{IsStaged}

pub record Keeps (c c' : Conn) : Type 0 where
  pub policy_eq : c'.policy ≡ c.policy
  pub stage_eq : c'.read_stage ≡ c.read_stage
  pub payload_eq : c'.read_payload_len ≡ c.read_payload_len
  pub pad_eq : c'.read_pad_len ≡ c.read_pad_len
  pub buf_eq : c'.read_buf ≡ c.read_buf
  pub input_eq : c'.raw.input ≡ c.raw.input

pub Keeps-trans : (c c1 c2 : Conn) → Keeps c c1 → Keeps c1 c2 → Keeps c c2
Keeps-trans c c1 c2 k l = record {
  policy_eq = l.policy_eq ∙ k.policy_eq;
  stage_eq = l.stage_eq ∙ k.stage_eq;
  payload_eq = l.payload_eq ∙ k.payload_eq;
  pad_eq = l.pad_eq ∙ k.pad_eq;
  buf_eq = l.buf_eq ∙ k.buf_eq;
  input_eq = l.input_eq ∙ k.input_eq;
}

module _ (rng : ℕ → ℕ) where
  write_chunk-Keeps :
      (c : Conn) (chunk : List ℕ) (raw : Raw)
      → raw.input ≡ c.raw.input
      → Keeps c (write_chunk rng c chunk raw).0
  unfolding write_chunk
  write_chunk-Keeps c chunk raw e = ground (arith, raw_write-input chunk raw)

  write_frame-Keeps : (c : Conn) (chunk : List ℕ) → Keeps c (write_frame rng c chunk).0
  unfolding write_frame
  write_frame-Keeps c chunk =
      let header = put_header (frame_type rng c) (length chunk) (pad_len rng c) in
      let raw1 = (raw_write header c.raw).0 in
      let raw2 = (raw_write (pad_bytes rng c) raw1).0 in
      let same1 : raw1.input ≡ c.raw.input = raw_write-input header c.raw in
      let same2 : raw2.input ≡ c.raw.input = raw_write-input (pad_bytes rng c) raw1 ∙ same1 in
      ground (
        arith,
        same1,
        same2,
        write_chunk-Keeps c chunk raw1 same1,
        write_chunk-Keeps c chunk raw2 same2,
      )

  write_loop-Keeps :
      (fuel : ℕ) (c : Conn) (b : List ℕ) (total : ℕ) → Keeps c (write_loop rng fuel c b total).0
  unfolding write_loop
  write_loop-Keeps fuel c [] total = ground arith
  write_loop-Keeps zero c (x ∷ xs) total = ground arith
  write_loop-Keeps (suc fuel) c (x ∷ xs) total =
      let w = write_frame rng c (take 65535 (x ∷ xs)) in
      let kept = write_frame-Keeps c (take 65535 (x ∷ xs)) in
      elim (Bool-cases w.2) [
        | inl failed ↦ rw (failed, write_loop) kept
        | inr fine ↦
            rw (fine, write_loop)
              (Keeps-trans c w.0 _ kept
                (write_loop-Keeps fuel w.0 (drop w.1 (x ∷ xs)) (total + w.1)))
      ]

  pub write-Keeps : (c : Conn) (b : List ℕ) → Keeps c (write rng c b).0
  unfolding write
  write-Keeps c b = write_loop-Keeps (length b) c b 0

  pub write-IsPolicy :
      (c : Conn) (b : List ℕ) → IsPolicy c.policy → IsPolicy (write rng c b).0.policy
  write-IsPolicy c b v = subst IsPolicy (sym (write-Keeps c b).policy_eq) v

  pub write-IsStaged : (c : Conn) (b : List ℕ) → IsStaged c → IsStaged (write rng c b).0
  write-IsStaged c b s = ground (arith, write-Keeps c b)

  -- What it is to read stays what it was.
  pub Keeps-Between :
      (c c' : Conn) (fs : List WireFrame) → Keeps c c' → Between [] c [] fs → Between [] c' [] fs
  Keeps-Between c c' fs k b = record {
    p = b.p;
    q = b.q;
    at = record {
      buf_eq = k.buf_eq ∙ b.at.buf_eq;
      stage_eq = k.stage_eq ∙ b.at.stage_eq;
      payload_eq = k.payload_eq ∙ b.at.payload_eq;
      pad_eq = k.pad_eq ∙ b.at.pad_eq;
      input_eq = k.input_eq ∙ b.at.input_eq;
    };
    fit = b.fit;
  }
