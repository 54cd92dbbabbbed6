-- ===== src/Udp/Tests.antt =====
-- Runs of internal/quicx/udp_codec.go on concrete packets.
use chimera_core.Prelude.{ℕ, ◌≡◌, refl, Bool, true, false, List, [], ◌∷◌, ok, err, arith, replicate}
use chimera_core.Prelude.Dict.{lookup}
use chimera_core.Prelude.Int.{pos}
use chimera_core.Udp.Frame.{Fragment, IsFragment, put_frame}
use chimera_core.Udp.Encoder.{
  Encoder, new_udp_fragment_encoder, packet_too_large, fragment_loop, advance, encode,
}
use chimera_core.Udp.Encoder.Chunks.{Carries, encode_lem}
use chimera_core.Udp.Encoder.Sequence.{
  IsValid as IsValidEncoder, Rising, sequences, sequences-Rising,
}
use chimera_core.Udp.Decoder.{Decoder, new_udp_fragment_decoder, pending_count, decode}
use chimera_core.Udp.Decoder.Invariant.{IsValid, IsSound, decode-IsSound}
use chimera_core.Udp.Decoder.Reassembly.{decode_all, answers}
use chimera_core.Udp.Roundtrip.{pick, decode-encode}

-- Two fragments.
abbrev packet : List ℕ
packet = replicate 1001 7

abbrev encoder : Encoder
encoder = record { max_packet = 1200; next_seq = 4294967295; exhausted = false }

abbrev decoder : Decoder
decoder = record { max_packet = 1200; pending = [] }

new_encoder :
    new_udp_fragment_encoder (pos 0)
    ≡ record { max_packet = 16384; next_seq = 0; exhausted = false }
unfolding new_udp_fragment_encoder
new_encoder = refl

new_decoder : pending_count (new_udp_fragment_decoder (pos 1200)) ≡ 0
unfolding new_udp_fragment_decoder pending_count
new_decoder = refl

abbrev frame : Bool → List ℕ
frame false =
    put_frame (record { sequence = 4294967295; index = 0; count = 2; payload = replicate 1000 7 })
frame true = put_frame (record { sequence = 4294967295; index = 1; count = 2; payload = 7 ∷ [] })

abbrev frames : List (List ℕ)
frames = frame false ∷ frame true ∷ []

sent : (encode encoder packet).1 ≡ ok frames
unfolding encode advance fragment_loop
sent = refl

-- The second fragment first, then the first one.
decode-encode_example :
    (decode_all decoder (pick frames ((0, 1) ∷ (5, 0) ∷ []))).1 ≡ answers 1 packet
unfolding lookup
decode-encode_example =
    decode-encode encoder packet frames decoder 0 1 ((5, 0) ∷ []) (omega arith) sent (omega arith)
      refl (omega arith) (ground arith) refl

decoder-IsValid : IsValid decoder
decoder-IsValid = record { few = omega arith; held = tt }

decode-IsSound_example :
    IsSound
      (decode 0 decoder (frame true)).0.max_packet
      (decode 5 (decode 0 decoder (frame true)).0 (frame false))
decode-IsSound_example =
    decode-IsSound 5 (decode 0 decoder (frame true)).0 (frame false)
      (decode-IsSound 0 decoder (frame true) decoder-IsValid).valid

encoder-IsValid : IsValidEncoder encoder
encoder-IsValid = record { next_range = omega arith }

sequences-Rising_example : Rising 4294967295 (sequences encoder (packet ∷ packet ∷ []))
sequences-Rising_example = sequences-Rising encoder (packet ∷ packet ∷ []) encoder-IsValid refl

encode_lem_example :
    (fs : List (List ℕ)) × (encode encoder packet ≡ (advance encoder, ok fs))
    × Carries 4294967295 packet fs
encode_lem_example = encode_lem encoder packet (omega arith) (omega arith) (omega arith) refl

abbrev long : List ℕ
long = replicate 1201 7

refused : (encode encoder long).1 ≡ err packet_too_large
unfolding encode
refused = refl

abbrev fragment : Fragment
fragment = record { sequence = 305419896; index = 1; count = 2; payload = 7 ∷ 8 ∷ [] }

fragment-IsFragment : IsFragment fragment
fragment-IsFragment = record {
  count_pos = omega arith;
  count_max = omega arith;
  index_range = omega arith;
  payload_pos = omega arith;
  payload_max = omega arith;
}
