-- ===== src/Padstream/Conn/Reading.antt =====
-- `Read` of internal/padstream/padstream.go, against the frames on the wire.
use chimera_core.Prelude.{
  ℕ, zero, suc, ◌+◌, ◌-◌, ◌≤◌, ◌<◌, ◌≡◌, sym, ap, subst, ◌∙◌, List, [], ◌∷◌, ◌++◌, append_assoc,
  Option, some, Result, ok, arith, length, take, drop, min, All, length-take, take-append-drop,
}
use chimera_core.Prelude.Bytes.{IoError}
use chimera_core.Padstream.Frames.{WireFrame, FitsHeader, put_wire, wire, payloads}
use chimera_core.Padstream.Conn.{Conn, read_loop, read}
use chimera_core.Padstream.Conn.Rounds.{At, return_step, put_wire-size, frame-Rounds}

-- Between two calls of `Read`: `buf` is in the buffer, and whole frames are to come, then `rest`.
pub record Between (rest : List ℕ) (c : Conn) (buf : List ℕ) (fs : List WireFrame) : Type 0 where
  pub p : ℕ
  pub q : ℕ
  pub at : At c buf 0 p q (wire fs ++ rest)
  pub fit : All FitsHeader fs

-- A call of `Read` that gives at least one byte, at most `cap`, the next ones of the stream.
pub record Delivers (rest : List ℕ) (cap : ℕ) (stream : List ℕ)
    (r : Option (Conn × Result IoError (List ℕ))) : Type 0 where
  pub c' : Conn
  pub chunk : List ℕ
  pub buf : List ℕ
  pub fs : List WireFrame
  pub returns : r ≡ some (c', ok chunk)
  pub next : Between rest c' buf fs
  pub split : stream ≡ chunk ++ (buf ++ payloads fs)
  pub progress : 0 < length chunk
  pub within : length chunk ≤ cap

module _ (rng : ℕ → ℕ) where
  module _ (cap : ℕ) where
    return_now :
        (fuel : ℕ) (c : Conn) (rest buf : List ℕ) (fs : List WireFrame)
        → 0 < cap
        → 0 < length buf
        → Between rest c buf fs
        → Delivers rest cap (buf ++ payloads fs) (read_loop rng (suc fuel) cap c)
    return_now fuel c rest buf fs room full b =
        let (c1, e, a) = return_step rng cap fuel c buf b.p b.q (wire fs ++ rest) b.at full in
        let n = min cap (length buf) in
        record {
          c' = c1;
          chunk = take n buf;
          buf = drop n buf;
          fs = fs;
          returns = e;
          next = record { p = b.p; q = b.q; at = a; fit = b.fit };
          split =
              ap (λ (l : List ℕ). l ++ payloads fs) (sym (take-append-drop n buf))
              ∙ append_assoc (take n buf) (drop n buf) (payloads fs);
          progress = omega (arith, length-take n buf);
          within = omega (arith, length-take n buf);
        }

    read_loop-Delivers :
        (fs : List WireFrame) (fuel : ℕ) (c : Conn) (rest buf : List ℕ)
        → 0 < cap
        → Between rest c buf fs
        → length (wire fs ++ rest) < fuel
        → 0 < length (buf ++ payloads fs)
        → Delivers rest cap (buf ++ payloads fs) (read_loop rng fuel cap c)
    unfolding wire payloads
    read_loop-Delivers fs zero c rest buf room b lt some_left = absurd (omega arith)
    read_loop-Delivers fs (suc fuel) c rest (x ∷ xs) room b lt some_left =
        return_now fuel c rest (x ∷ xs) fs room (omega arith) b
    read_loop-Delivers [] (suc fuel) c rest [] room b lt some_left = absurd (omega arith)
    read_loop-Delivers (f ∷ fs) (suc fuel) c rest [] room b lt some_left =
        let s = wire fs ++ rest in
        let n = fuel - 2 in
        let regroup = append_assoc (put_wire f) (wire fs) rest in
        let size = put_wire-size rng cap f s in
        let e : suc fuel ≡ suc (suc (suc n)) = omega (arith, ap length regroup, size, lt) in
        let a = subst (At c [] 0 b.p b.q) regroup b.at in
        let (fuel', c1, p, q, run, d, lt') =
          frame-Rounds rng cap n c b.p b.q f s b.fit.0 a
            (omega (arith, ap length regroup, size, lt)) in
        let next : Between rest c1 f.payload fs = record { p = p; q = q; at = d; fit = b.fit.1 } in
        rw (e, run) (read_loop-Delivers fs fuel' c1 rest f.payload room next lt' some_left)

-- `Read` into a slice with room, while data is left in the buffer or in the frames to come, returns
-- without an error and within its fuel: at least one byte and at most the slice's, the next ones of
-- the stream of payloads. Padding and padding-only frames never show.
pub read-Delivers :
    (rng : ℕ → ℕ) (cap : ℕ) (c : Conn) (rest buf : List ℕ) (fs : List WireFrame)
    → 0 < cap
    → Between rest c buf fs
    → 0 < length (buf ++ payloads fs)
    → Delivers rest cap (buf ++ payloads fs) (read rng cap c)
unfolding read
read-Delivers rng cap c rest buf fs room b some_left =
    read_loop-Delivers rng cap fs (length c.raw.input + 1) c rest buf room b
      (omega (arith, ap length b.at.input_eq)) some_left
