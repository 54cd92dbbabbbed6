-- ===== src/Padstream/Frames.antt =====
-- The frames of internal/padstream/padstream.go: a header of five bytes, padding, payload.
use chimera_core.Prelude.{ℕ, ◌<◌, ◌≡◌, refl, List, [], ◌∷◌, ◌++◌, append_assoc, append-nil, length}
use chimera_core.Prelude.Bytes.{put_uint16}

abbrev pub frame_padding_only : ℕ
frame_padding_only = 0

abbrev pub frame_data_with_pad : ℕ
frame_data_with_pad = 1

abbrev pub frame_data_no_pad : ℕ
frame_data_no_pad = 2

-- The header: the type, the payload's length and the padding's.
unfoldable pub put_header : ℕ → ℕ → ℕ → List ℕ
put_header kind payload_len pad_len = kind ∷ put_uint16 payload_len ++ put_uint16 pad_len

-- A frame as it stands on the wire.
pub record WireFrame : Type 0 where
  pub kind : ℕ
  pub pad : List ℕ
  pub payload : List ℕ

-- The lengths fit their fields.
abbrev pub FitsHeader : WireFrame → Type 0
FitsHeader f = (length f.pad < 65536) × (length f.payload < 65536)

unfoldable pub put_wire : WireFrame → List ℕ
put_wire f = put_header f.kind (length f.payload) (length f.pad) ++ (f.pad ++ f.payload)

unfoldable pub wire : List WireFrame → List ℕ
wire [] = []
wire (f ∷ fs) = put_wire f ++ wire fs

unfoldable pub payloads : List WireFrame → List ℕ
payloads [] = []
payloads (f ∷ fs) = f.payload ++ payloads fs

pub wire-append : (fs gs : List WireFrame) → wire (fs ++ gs) ≡ wire fs ++ wire gs
unfolding wire
wire-append [] gs = refl
wire-append (f ∷ fs) gs = rw (wire-append fs gs, append_assoc (put_wire f) (wire fs) (wire gs))

pub payloads-append : (fs gs : List WireFrame) → payloads (fs ++ gs) ≡ payloads fs ++ payloads gs
unfolding payloads
payloads-append [] gs = refl
payloads-append (f ∷ fs) gs =
    rw (payloads-append fs gs, append_assoc f.payload (payloads fs) (payloads gs))

pub wire_one : (f : WireFrame) → wire (f ∷ []) ≡ put_wire f
unfolding wire
wire_one f = append-nil (put_wire f)

pub payloads_one : (f : WireFrame) → payloads (f ∷ []) ≡ f.payload
unfolding payloads
payloads_one f = append-nil f.payload
