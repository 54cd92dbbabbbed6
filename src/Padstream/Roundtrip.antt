-- ===== src/Padstream/Roundtrip.antt =====
-- A padded connection is a byte stream: what `Write` of internal/padstream/padstream.go puts on the
-- wire, `io.ReadFull` over `Read` gives back.
use chimera_core.Prelude.{
  ℕ, zero, suc, ◌+◌, ◌-◌, ◌≤◌, ◌<◌, ◌≡◌, refl, sym, ap, ◌∙◌, false, List, [], ◌++◌, append_assoc,
  append-nil, Option, none, some, Result, ok, err, arith, length, take, All, length-append,
  take-length_append,
}
use chimera_core.Prelude.Bytes.{IoError}
use chimera_core.Padstream.Frames.{WireFrame, FitsHeader, wire, payloads}
use chimera_core.Padstream.Conn.{Conn, Raw, Policy, new, write, read}
use chimera_core.Padstream.Conn.Reading.{Between, read-Delivers}
use chimera_core.Padstream.Conn.Writing.{IsPolicy, write_lem}

-- `io.ReadFull` of `n` bytes from the padded connection: it reads into what is left of its slice
-- until that is full. `none` if the fuel runs out.
unfoldable pub read_full_loop : (ℕ → ℕ) → ℕ → ℕ → Conn → Option (Conn × Result IoError (List ℕ))
read_full_loop rng zero n c = none
read_full_loop rng (suc fuel) zero c = some (c, ok [])
read_full_loop rng (suc fuel) (suc n) c = elim (read rng (suc n) c) [
  | none ↦ none
  | some (c1, err e) ↦ some (c1, err e)
  | some (c1, ok chunk) ↦ elim (read_full_loop rng fuel (suc n - length chunk) c1) [
    | none ↦ none
    | some (c2, err e) ↦ some (c2, err e)
    | some (c2, ok rest) ↦ some (c2, ok (chunk ++ rest))
  ]
]

-- The next `n` bytes of the stream, and a connection that holds what follows them.
pub record Takes (rest : List ℕ) (n : ℕ) (stream : List ℕ)
    (r : Option (Conn × Result IoError (List ℕ))) : Type 0 where
  pub c' : Conn
  pub taken : List ℕ
  pub buf : List ℕ
  pub fs : List WireFrame
  pub returns : r ≡ some (c', ok taken)
  pub next : Between rest c' buf fs
  pub split : stream ≡ taken ++ (buf ++ payloads fs)
  pub size : length taken ≡ n

pub read_full_loop-Takes :
    (rng : ℕ → ℕ) (fuel n : ℕ) (c : Conn) (rest buf : List ℕ) (fs : List WireFrame)
    → n < fuel
    → Between rest c buf fs
    → n ≤ length (buf ++ payloads fs)
    → Takes rest n (buf ++ payloads fs) (read_full_loop rng fuel n c)
unfolding read_full_loop
read_full_loop-Takes rng zero n c rest buf fs lt b enough = absurd (omega arith)
read_full_loop-Takes rng (suc fuel) zero c rest buf fs lt b enough = record {
  c' = c;
  taken = [];
  buf = buf;
  fs = fs;
  returns = refl;
  next = b;
  split = refl;
  size = refl;
}
read_full_loop-Takes rng (suc fuel) (suc n) c rest buf fs lt b enough =
    let d = read-Delivers rng (suc n) c rest buf fs (omega arith) b (omega arith) in
    let left = d.buf ++ payloads d.fs in
    let size : length (buf ++ payloads fs) ≡ length d.chunk + length left =
      ap length d.split ∙ length-append d.chunk left in
    let t =
      read_full_loop-Takes rng fuel (suc n - length d.chunk) d.c' rest d.buf d.fs
        (omega (arith, d.progress)) d.next (omega (arith, size, enough)) in
    record {
      c' = t.c';
      taken = d.chunk ++ t.taken;
      buf = t.buf;
      fs = t.fs;
      returns = rw (d.returns, read_full_loop) (rw t.returns);
      next = t.next;
      split =
          d.split
          ∙ ap (λ (l : List ℕ). d.chunk ++ l) t.split
          ∙ sym (append_assoc d.chunk t.taken (t.buf ++ payloads t.fs));
      size = omega (arith, length-append d.chunk t.taken, t.size, d.within);
    }

take_of_split :
    (n : ℕ) (b taken left : List ℕ) → b ≡ taken ++ left → length taken ≡ n → take n b ≡ taken
take_of_split n b taken left e size = rw (e, ← size) (take-length_append taken left)

pub new-Between :
    (raw : Raw) (p : Policy) (fs : List WireFrame)
    → raw.input ≡ wire fs
    → All FitsHeader fs
    → Between [] (new raw p) [] fs
unfolding new
new-Between raw p fs e fit = record {
  p = 0;
  q = 0;
  at = record {
    buf_eq = refl;
    stage_eq = refl;
    payload_eq = refl;
    pad_eq = refl;
    input_eq = e ∙ sym (append-nil (wire fs));
  };
  fit = fit;
}

-- Whatever the dice on both sides and the policies, the sender's with bounds of 16 bits: if a `Write` of `b` on a fresh
-- connection returns no error, then a new connection that receives what stands on the wire reads
-- back any first `n` bytes of `b`, with n + 1 rounds of `io.ReadFull` as fuel.
pub read_full_loop-write :
    (rng rng' : ℕ → ℕ) (w : Conn) (b : List ℕ) (r : Raw) (p : Policy) (n : ℕ)
    → IsPolicy w.policy
    → w.raw.output ≡ []
    → (write rng w b).2 ≡ false
    → r.input ≡ (write rng w b).0.raw.output
    → n ≤ length b
    → (c' : Conn) × (read_full_loop rng' (suc n) n (new r p) ≡ some (c', ok (take n b)))
read_full_loop-write rng rng' w b r p n v fresh fine arrived enough =
    let s = write_lem rng w b v fine in
    let input : r.input ≡ wire s.fs =
      arrived ∙ s.output_eq ∙ ap (λ (l : List ℕ). l ++ wire s.fs) fresh in
    let between = new-Between r p s.fs input s.fit in
    let t =
      read_full_loop-Takes rng' (suc n) n (new r p) [] [] s.fs (omega arith) between
        (omega (arith, ap length s.payloads_eq)) in
    let whole : b ≡ t.taken ++ (t.buf ++ payloads t.fs) = sym s.payloads_eq ∙ t.split in
    (t.c', rw (take_of_split n b t.taken (t.buf ++ payloads t.fs) whole t.size) t.returns)
