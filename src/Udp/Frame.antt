-- ===== src/Udp/Frame.antt =====
-- The fragment header of internal/quicx/udp_codec.go: version, sequence, index, count.
use chimera_core.Prelude.{
  ℕ, ◌*◌, ◌%◌, ◌≤◌, ◌<◌, ◌≡◌, ◌≢◌, not, ◌||◌, List, [], ◌∷◌, ◌++◌, Result, ok, err, arith, ◌==◌,
  ltb, leb, if◌then◌else◌, length,
}
use chimera_core.Prelude.Bytes.{put_uint32, uint32, uint32-put_uint32}

abbrev pub default_udp_max_packet_size : ℕ
default_udp_max_packet_size = 16 * 1024

abbrev pub udp_fragment_version : ℕ
udp_fragment_version = 2

abbrev pub udp_fragment_header_size : ℕ
udp_fragment_header_size = 7

abbrev pub udp_fragment_payload_size : ℕ
udp_fragment_payload_size = 1000

abbrev pub udp_fragment_max_count : ℕ
udp_fragment_max_count = 64

abbrev pub udp_fragment_max_assemblies : ℕ
udp_fragment_max_assemblies = 16

-- Two seconds, in nanoseconds.
abbrev pub udp_fragment_assembly_ttl : ℕ
udp_fragment_assembly_ttl = 2000000000

pub record Fragment : Type 0 where
  pub sequence : ℕ
  pub index : ℕ
  pub count : ℕ
  pub payload : List ℕ

-- The body of the loop in `Encode`; `byte(index)` and `byte(count)` wrap.
unfoldable pub put_frame : Fragment → List ℕ
put_frame f =
    udp_fragment_version ∷ put_uint32 f.sequence ++ ((f.index % 256) ∷ (f.count % 256) ∷ f.payload)

-- A piece of a packet that one fragment can carry.
abbrev pub IsPiece : List ℕ → Type 0
IsPiece c = (0 < length c) × (length c ≤ udp_fragment_payload_size)

pub data DecodeError : Type 0 where
  invalid_frame invalid_index invalid_size conflicting_count packet_too_large incomplete :
      DecodeError

-- The checks at the start of `Decode`, after that on the version.
unfoldable pub check_fragment : Fragment → Result DecodeError Fragment
check_fragment f =
    if f.count == 0 || ltb udp_fragment_max_count f.count || leb f.count f.index
    then err invalid_index
    else (if length f.payload == 0 || ltb udp_fragment_payload_size (length f.payload)
        then err invalid_size
        else ok f)

-- A frame that has no more than the header is refused.
unfoldable pub parse_frame : List ℕ → Result DecodeError Fragment
parse_frame (version ∷ s0 ∷ s1 ∷ s2 ∷ s3 ∷ index ∷ count ∷ b ∷ bs) =
    if not (version == udp_fragment_version)
    then err invalid_frame
    else check_fragment
        (record { sequence = uint32 s0 s1 s2 s3; index = index; count = count; payload = b ∷ bs })
parse_frame _ = err invalid_frame

-- What `Decode` lets through.
pub record IsFragment (f : Fragment) : Type 0 where
  pub count_pos : 0 < f.count
  pub count_max : f.count ≤ udp_fragment_max_count
  pub index_range : f.index < f.count
  pub payload_pos : 0 < length f.payload
  pub payload_max : length f.payload ≤ udp_fragment_payload_size

pub check_fragment-eq-ok : (f g : Fragment) → check_fragment f ≡ ok g → IsFragment g × (g ≡ f)
unfolding check_fragment
check_fragment-eq-ok f g e = ground arith

pub check_fragment_lem : (f : Fragment) → IsFragment f → check_fragment f ≡ ok f
unfolding check_fragment
check_fragment_lem f v = ground arith

pub parse_frame-IsFragment : (s : List ℕ) (f : Fragment) → parse_frame s ≡ ok f → IsFragment f
unfolding parse_frame
parse_frame-IsFragment (version ∷ s0 ∷ s1 ∷ s2 ∷ s3 ∷ index ∷ count ∷ b ∷ bs) f e = ground (
  arith,
  check_fragment-eq-ok
      (record { sequence = uint32 s0 s1 s2 s3; index = index; count = count; payload = b ∷ bs }) f,
)
parse_frame-IsFragment _ f e = absurd (ground arith)

check_fragment-ne-incomplete :
    (f : Fragment) (x : DecodeError) → check_fragment f ≡ err x → x ≢ incomplete
unfolding check_fragment
check_fragment-ne-incomplete f x e = ground arith

pub parse_frame-ne-incomplete :
    (s : List ℕ) (x : DecodeError) → parse_frame s ≡ err x → x ≢ incomplete
unfolding parse_frame
parse_frame-ne-incomplete (version ∷ s0 ∷ s1 ∷ s2 ∷ s3 ∷ index ∷ count ∷ b ∷ bs) x e = ground (
  arith,
  check_fragment-ne-incomplete
      (record { sequence = uint32 s0 s1 s2 s3; index = index; count = count; payload = b ∷ bs }) x,
)
parse_frame-ne-incomplete _ x e = ground arith

parse_put :
    (s i n : ℕ) (payload : List ℕ)
    → let f : Fragment = record { sequence = s; index = i; count = n; payload = payload } in
      IsFragment f → s < 4294967296 → parse_frame (put_frame f) ≡ ok f
unfolding parse_frame put_frame
parse_put s i n [] v h = absurd (omega arith)
parse_put s i n (b ∷ bs) v h =
    let small_index : i % 256 ≡ i = omega arith in
    let small_count : n % 256 ≡ n = omega arith in
    rw (uint32-put_uint32 s h, small_index, small_count)
      (check_fragment_lem (record { sequence = s; index = i; count = n; payload = b ∷ bs }) v)

-- A fragment with a 32-bit sequence number survives its frame: no field is cut to its byte.
pub parse_frame-put_frame :
    (f : Fragment) → IsFragment f → f.sequence < 4294967296 → parse_frame (put_frame f) ≡ ok f
parse_frame-put_frame f v h = parse_put f.sequence f.index f.count f.payload v h
