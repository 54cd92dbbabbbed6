-- ===== src/Padstream/Conn.antt =====
-- `Conn` of internal/padstream/padstream.go. `rng` is the source of randomness: the n-th number that
-- crypto/rand gives is `rng n`, and `drawn` counts them. A connection below is the bytes still to be
-- read, those written so far, and the outcome of each coming call of `Write`: `none` writes all, and
-- `some k` fails after at most `k` bytes.
pub mod Writing
pub mod Rounds
pub mod Reading
pub mod Success
use chimera_core.Prelude.{
  ℕ, zero, suc, ◌+◌, ◌%◌, ◌≡◌, Bool, true, false, ◌&&◌, not, List, [], ◌∷◌, ◌++◌, Option, none,
  some, Result, ok, err, ◌==◌, ltb, if◌then◌else◌, length, take, drop, min,
}
use chimera_core.Prelude.Bytes.{IoError, read_full, uint16}
use chimera_core.Prelude.Int.{ℤ, pos, negsuc, or_default}
use chimera_core.Padstream.Frames.{
  frame_padding_only, frame_data_with_pad, frame_data_no_pad, put_header,
}

pub record Policy : Type 0 where
  pub max_padding : ℕ
  pub initial_frames : ℤ
  pub initial_max : ℕ
  pub keep_alive_chance : ℤ

unfoldable pub default_policy : Policy
default_policy = record {
  max_padding = 64;
  initial_frames = pos 8;
  initial_max = 255;
  keep_alive_chance = pos 20;
}

pub record Raw : Type 0 where
  pub input : List ℕ
  pub output : List ℕ
  pub faults : List (Option ℕ)

pub record Conn : Type 0 where
  pub raw : Raw
  pub policy : Policy
  pub drawn : ℕ
  pub frames_sent : ℕ
  pub read_buf : List ℕ
  pub read_stage : ℕ
  pub read_payload_len : ℕ
  pub read_pad_len : ℕ

abbrev pub or_eight : ℤ → ℤ
or_eight z = pos (or_default z 8)

unfoldable pub new : Raw → Policy → Conn
new raw p = record {
  raw = raw;
  policy = record p {
    initial_frames = or_eight p.initial_frames;
    initial_max = if p.initial_max == 0 then 255 else p.initial_max;
  };
  drawn = 0;
  frames_sent = 0;
  read_buf = [];
  read_stage = 0;
  read_payload_len = 0;
  read_pad_len = 0;
}

-- One call of `raw.Write`: the connection after it, the bytes written, and whether it failed.
unfoldable pub raw_write : List ℕ → Raw → Raw × ℕ × Bool
raw_write bs raw = elim raw.faults [
  | [] ↦ (record raw { output = raw.output ++ bs }, length bs, false)
  | none ∷ fs ↦ (record raw { output = raw.output ++ bs; faults = fs }, length bs, false)
  | some k ∷ fs ↦
      (record raw { output = raw.output ++ take k bs; faults = fs }, min k (length bs), true)
]

-- `n < z`, for a signed `z`.
abbrev pub below : ℕ → ℤ → Bool
below n (pos m) = ltb n m
below n (negsuc m) = false

module _ (rng : ℕ → ℕ) where
  -- `randInt`: from 0 to `max`, and how many numbers it draws.
  unfoldable pub rand_int : ℕ → ℕ → ℕ
  rand_int max drawn = if max == 0 then 0 else rng drawn % (max + 1)

  abbrev pub draws : ℕ → ℕ
  draws max = if max == 0 then 0 else 1

  -- `rand.Read` of `n` bytes.
  unfoldable pub rand_bytes : ℕ → ℕ → List ℕ
  rand_bytes zero drawn = []
  rand_bytes (suc n) drawn = (rng drawn % 256) ∷ rand_bytes n (drawn + 1)

  -- The bound of the padding of the next data frame.
  unfoldable pub pad_max : Conn → ℕ
  pad_max c =
      if below c.frames_sent c.policy.initial_frames
      then c.policy.initial_max
      else c.policy.max_padding

  unfoldable pub pad_len : Conn → ℕ
  pad_len c = rand_int (pad_max c) c.drawn

  unfoldable pub frame_type : Conn → ℕ
  frame_type c =
      if below c.frames_sent c.policy.initial_frames
      then frame_data_with_pad
      else if ltb 0 (pad_len c)
      then frame_data_with_pad
      else frame_data_no_pad

  unfoldable pub pad_bytes : Conn → List ℕ
  pad_bytes c = rand_bytes (pad_len c) (c.drawn + draws (pad_max c))

  abbrev pub wrote : Conn → Raw → Conn
  wrote c raw = record c { raw = raw; drawn = c.drawn + draws (pad_max c) + pad_len c }

  -- The rest of a round of `Write`, from the chunk on.
  unfoldable pub write_chunk : Conn → List ℕ → Raw → Conn × ℕ × Bool
  write_chunk c chunk raw =
      let (raw', n, failed) = raw_write chunk raw in
      if failed
      then (wrote c raw', n, true)
      else (record (wrote c raw') { frames_sent = c.frames_sent + 1 }, n, false)

  -- One round of the loop of `Write`: the bytes of the chunk that were written, and the error.
  unfoldable pub write_frame : Conn → List ℕ → Conn × ℕ × Bool
  write_frame c chunk =
      let (raw1, _, failed1) =
        raw_write (put_header (frame_type c) (length chunk) (pad_len c)) c.raw in
      if failed1
      then (wrote c raw1, 0, true)
      else if ltb 0 (pad_len c)
      then (let (raw2, _, failed2) = raw_write (pad_bytes c) raw1 in
          if failed2 then (wrote c raw2, 0, true) else write_chunk c chunk raw2)
      else write_chunk c chunk raw1

  -- The loop: the bytes written in all, and whether an error ended it.
  unfoldable pub write_loop : ℕ → Conn → List ℕ → ℕ → Conn × ℕ × Bool
  write_loop fuel c [] total = (c, total, false)
  write_loop zero c (b ∷ bs) total = (c, total, true)
  write_loop (suc fuel) c (b ∷ bs) total =
      let (c', n, failed) = write_frame c (take 65535 (b ∷ bs)) in
      let rest = write_loop fuel c' (drop n (b ∷ bs)) (total + n) in
      if failed then (c', total + n, true) else rest

  -- Each round without an error takes a byte at least.
  unfoldable pub write : Conn → List ℕ → Conn × ℕ × Bool
  write c b = write_loop (length b) c b 0

  -- `shouldKeepAlive`.
  unfoldable pub should_keep_alive : ℤ → ℕ → Bool
  should_keep_alive (pos zero) drawn = false
  should_keep_alive (pos (suc n)) drawn = ltb (rng drawn % 100) (suc n)
  should_keep_alive (negsuc n) drawn = false

  abbrev pub rolls : ℤ → ℕ
  rolls (pos zero) = 0
  rolls (pos (suc n)) = 1
  rolls (negsuc n) = 0

  -- The padding-only frame; errors of the writes are ignored.
  unfoldable pub keep_alive_frame : Conn → Conn
  keep_alive_frame c =
      let n = rand_int c.policy.max_padding c.drawn in
      let raw1 = (raw_write (put_header frame_padding_only 0 n) c.raw).0 in
      let drawn1 = c.drawn + draws c.policy.max_padding in
      if ltb 0 n
      then record c { raw = (raw_write (rand_bytes n drawn1) raw1).0; drawn = drawn1 + n }
      else record c { raw = raw1; drawn = drawn1 }

  unfoldable pub maybe_keep_alive : Conn → Conn
  maybe_keep_alive c =
      let c1 = record c { drawn = c.drawn + rolls c.policy.keep_alive_chance } in
      if should_keep_alive c.policy.keep_alive_chance c.drawn
      then (if c.frames_sent == 0 then c1 else keep_alive_frame c1)
      else c1

  -- The test at the head of the loop of `Read`.
  unfoldable pub before_header : Conn → Conn
  before_header c =
      if c.read_stage == 0
        && length c.read_buf == 0
        && c.read_payload_len == 0
        && c.read_pad_len == 0
      then maybe_keep_alive c
      else c

  abbrev pub with_input : Conn → List ℕ → Conn
  with_input c s = record c { raw = record c.raw { input = s } }

  -- The lengths in a header.
  abbrev pub payload_field : List ℕ → ℕ
  payload_field (_ ∷ a ∷ b ∷ _) = uint16 a b
  payload_field _ = 0

  abbrev pub pad_field : List ℕ → ℕ
  pad_field (_ ∷ _ ∷ _ ∷ a ∷ b ∷ _) = uint16 a b
  pad_field _ = 0

  -- After `io.ReadFull` of the header, of the padding and of the payload.
  unfoldable pub got_header : Conn → List ℕ → Conn
  got_header c h = record c {
    read_payload_len = payload_field h;
    read_pad_len = pad_field h;
    read_stage =
        if ltb 0 (pad_field h) then 1 else if ltb 0 (payload_field h) then 2 else c.read_stage;
  }

  unfoldable pub got_padding : Conn → Conn
  got_padding c = record c { read_stage = if ltb 0 c.read_payload_len then 2 else 0 }

  unfoldable pub got_payload : Conn → List ℕ → Conn
  got_payload c p = record c { read_buf = p; read_stage = 0 }

  -- The switch of `Read`: how many bytes a stage wants.
  abbrev pub wanted : Conn → ℕ
  wanted c =
      if c.read_stage == 0
      then 5
      else if c.read_stage == 1
      then c.read_pad_len
      else c.read_payload_len

  unfoldable pub got : Conn → List ℕ → Conn
  unfolding got_header got_padding got_payload
  got c bs =
      if c.read_stage == 0
      then got_header c bs
      else if c.read_stage == 1
      then got_padding c
      else got_payload c bs

  -- The loop of `Read` into a slice of `cap` bytes; `none` if the fuel runs out. An error of the
  -- reader below has used up what was left.
  unfoldable pub read_loop : ℕ → ℕ → Conn → Option (Conn × Result IoError (List ℕ))
  read_loop zero cap c = none
  read_loop (suc fuel) cap c0 =
      let c = before_header c0 in
      if ltb 0 (length c.read_buf)
      then some (
        record c { read_buf = drop (min cap (length c.read_buf)) c.read_buf },
        ok (take (min cap (length c.read_buf)) c.read_buf),
      )
      else elim (read_full (wanted c) c.raw.input) [
        | err e ↦ some (with_input c [], err e)
        | ok p ↦ read_loop fuel cap (got (with_input c p.1) p.0)
      ]

  -- A round that does not return takes a byte at least.
  unfoldable pub read : ℕ → Conn → Option (Conn × Result IoError (List ℕ))
  read cap c = read_loop (length c.raw.input + 1) cap c
