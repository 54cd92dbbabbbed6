-- ===== src/Udp/Encoder.antt =====
-- The fragment encoder of internal/quicx/udp_codec.go.
pub mod Chunks
pub mod Sequence
use chimera_core.Prelude.{
  ℕ, zero, suc, ◌+◌, ◌-◌, ◌/◌, ◌≡◌, Bool, true, false, ◌||◌, List, [], ◌∷◌, Result, ok, err, ◌==◌,
  ltb, if◌then◌else◌, length, take, drop,
}
use chimera_core.Prelude.Int.{ℤ, or_default}
use chimera_core.Udp.Frame.{
  default_udp_max_packet_size, udp_fragment_payload_size, udp_fragment_max_count, Fragment,
  put_frame,
}

pub record Encoder : Type 0 where
  pub max_packet : ℕ
  pub next_seq : ℕ
  pub exhausted : Bool

unfoldable pub new_udp_fragment_encoder : ℤ → Encoder
new_udp_fragment_encoder max_packet = record {
  max_packet = or_default max_packet default_udp_max_packet_size;
  next_seq = 0;
  exhausted = false;
}

pub data EncodeError : Type 0 where
  empty_packet packet_too_large too_many_fragments sequence_exhausted : EncodeError

abbrev pub max_sequence : ℕ
max_sequence = 4294967295

-- The number of fragments of a packet of `n` bytes.
abbrev pub fragment_count : ℕ → ℕ
fragment_count n = (n + udp_fragment_payload_size - 1) / udp_fragment_payload_size

-- The loop over the packet; `rest` is `packet[offset:]`, and each round takes a byte at least, so
-- that the packet's length is fuel enough.
unfoldable pub fragment_loop : ℕ → ℕ → ℕ → ℕ → List ℕ → List (List ℕ)
fragment_loop fuel sequence count index [] = []
fragment_loop zero sequence count index (b ∷ bs) = []
fragment_loop (suc fuel) sequence count index (b ∷ bs) =
    put_frame (record {
      sequence = sequence;
      index = index;
      count = count;
      payload = take udp_fragment_payload_size (b ∷ bs);
    })
    ∷ fragment_loop fuel sequence count (index + 1) (drop udp_fragment_payload_size (b ∷ bs))

-- The sequence number is taken under the lock; the last one exhausts the encoder.
unfoldable pub advance : Encoder → Encoder
advance e =
    if e.next_seq == max_sequence
    then record e { exhausted = true }
    else record e { next_seq = e.next_seq + 1 }

unfoldable pub encode : Encoder → List ℕ → Encoder × Result EncodeError (List (List ℕ))
encode e packet =
    if length packet == 0
    then (e, err empty_packet)
    else if ltb e.max_packet (length packet)
    then (e, err packet_too_large)
    else if fragment_count (length packet) == 0
        || ltb udp_fragment_max_count (fragment_count (length packet))
    then (e, err too_many_fragments)
    else if e.exhausted
    then (e, err sequence_exhausted)
    else (
      advance e,
      ok (fragment_loop (length packet) e.next_seq (fragment_count (length packet)) 0 packet),
    )
