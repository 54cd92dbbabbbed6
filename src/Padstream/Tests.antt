-- ===== src/Padstream/Tests.antt =====
-- Runs of internal/padstream/padstream.go on concrete bytes.
use chimera_core.Prelude.{ℕ, ◌+◌, ◌*◌, ◌≡◌, refl, false, List, [], ◌∷◌, ◌++◌, some, ok, arith, take}
use chimera_core.Prelude.Int.{pos}
use chimera_core.Padstream.Frames.{WireFrame, put_header, wire, payloads}
use chimera_core.Padstream.Conn.{
  Policy, default_policy, Raw, Conn, new, raw_write, rand_int, rand_bytes, pad_max, pad_len,
  frame_type, pad_bytes, write_chunk, write_frame, write_loop, write, read,
}
use chimera_core.Padstream.Conn.Writing.{IsPolicy}
use chimera_core.Padstream.Conn.Reading.{Between, Delivers, read-Delivers}
use chimera_core.Padstream.Conn.Success.{write_fine}
use chimera_core.Padstream.Roundtrip.{read_full_loop, read_full_loop-write}

abbrev dice : ℕ → ℕ
dice n = n * 7 + 3

abbrev policy : Policy
policy = record {
  max_padding = 64;
  initial_frames = pos 8;
  initial_max = 4;
  keep_alive_chance = pos 20;
}

policy-IsPolicy : IsPolicy policy
policy-IsPolicy = record { max_padding_range = omega arith; initial_max_range = omega arith }

abbrev fresh_raw : Raw
fresh_raw = record { input = []; output = []; faults = [] }

abbrev sender : Conn
sender = record {
  raw = fresh_raw;
  policy = policy;
  drawn = 0;
  frames_sent = 0;
  read_buf = [];
  read_stage = 0;
  read_payload_len = 0;
  read_pad_len = 0;
}

abbrev data_sent : List ℕ
data_sent = 10 ∷ 11 ∷ 12 ∷ []

written : Unit {0}
unfolding write write_loop write_frame write_chunk raw_write pad_len pad_max frame_type pad_bytes
    rand_int rand_bytes put_header
written = tt

fine : (write dice sender data_sent).2 ≡ false
unfolding written
fine = refl

-- Three bytes of padding stand before the payload.
on_the_wire :
    1 ∷ 0 ∷ 3 ∷ 0 ∷ 3 ∷ 10 ∷ 17 ∷ 24 ∷ data_sent ≡ (write dice sender data_sent).0.raw.output
unfolding written
on_the_wire = refl

write_fine_example : (write dice sender data_sent).2 ≡ false
write_fine_example = write_fine dice sender data_sent refl

abbrev received : Raw
received = record fresh_raw { input = 1 ∷ 0 ∷ 3 ∷ 0 ∷ 3 ∷ 10 ∷ 17 ∷ 24 ∷ data_sent }

read_full_loop-write_example :
    (c : Conn) × (read_full_loop dice 3 2 (new received default_policy)
      ≡ some (c, ok (take 2 data_sent)))
read_full_loop-write_example =
    read_full_loop-write dice dice sender data_sent received default_policy 2 policy-IsPolicy refl
      fine on_the_wire (omega arith)

-- A padding-only frame, a frame with a payload, and a byte behind them.
abbrev frames : List WireFrame
frames =
    record { kind = 0; pad = 9 ∷ []; payload = [] }
    ∷ record { kind = 2; pad = []; payload = data_sent }
    ∷ []

abbrev receiver : Conn
receiver = record sender { raw = record fresh_raw { input = wire frames ++ (5 ∷ []) } }

receiver-Between : Between (5 ∷ []) receiver [] frames
receiver-Between = record {
  p = 0;
  q = 0;
  at = record { buf_eq = refl; stage_eq = refl; payload_eq = refl; pad_eq = refl; input_eq = refl };
  fit = omega arith;
}

read-Delivers_example : Delivers (5 ∷ []) 2 (payloads frames) (read dice 2 receiver)
unfolding payloads
read-Delivers_example =
    read-Delivers dice 2 receiver (5 ∷ []) [] frames (omega arith) receiver-Between (omega arith)
