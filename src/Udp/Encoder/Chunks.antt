-- ===== src/Udp/Encoder/Chunks.antt =====
-- What `Encode` makes of a packet: pieces of at most 1000 bytes, numbered in order.
use chimera_core.Prelude.{
  ℕ, zero, suc, ◌+◌, ◌*◌, ◌≤◌, ◌<◌, ◌≡◌, refl, subst, true, false, List, [], ◌∷◌, ok, ltb-eq-false,
  ◌==◌, err, arith, length, All, concat, take, drop, length-take, length-drop, take-append-drop,
}
use chimera_core.Udp.Frame.{put_frame, IsPiece, udp_fragment_payload_size, udp_fragment_max_count}
use chimera_core.Udp.Encoder.{
  EncodeError, empty_packet, packet_too_large, too_many_fragments, sequence_exhausted, Encoder,
  fragment_count, fragment_loop, advance, encode,
}

-- The pieces that the loop cuts off.
unfoldable pub pieces : ℕ → List ℕ → List (List ℕ)
pieces fuel [] = []
pieces zero (b ∷ bs) = []
pieces (suc fuel) (b ∷ bs) =
    take udp_fragment_payload_size (b ∷ bs) ∷ pieces fuel (drop udp_fragment_payload_size (b ∷ bs))

-- The frames of pieces numbered from `index` on.
unfoldable pub number : ℕ → ℕ → ℕ → List (List ℕ) → List (List ℕ)
number sequence count index [] = []
number sequence count index (c ∷ cs) =
    put_frame (record { sequence = sequence; index = index; count = count; payload = c })
    ∷ number sequence count (index + 1) cs

fragment_loop-number :
    (fuel s n i : ℕ) (packet : List ℕ)
    → fragment_loop fuel s n i packet ≡ number s n i (pieces fuel packet)
unfolding fragment_loop number pieces
fragment_loop-number fuel s n i [] = refl
fragment_loop-number zero s n i (b ∷ bs) = refl
fragment_loop-number (suc fuel) s n i (b ∷ bs) =
    rw (fragment_loop-number fuel s n (i + 1) (drop udp_fragment_payload_size (b ∷ bs)))

concat-pieces :
    (fuel : ℕ) (packet : List ℕ) → length packet ≤ fuel → concat (pieces fuel packet) ≡ packet
unfolding pieces
concat-pieces fuel [] h = refl
concat-pieces zero (b ∷ bs) h = absurd (omega arith)
concat-pieces (suc fuel) (b ∷ bs) h =
    let rest = drop udp_fragment_payload_size (b ∷ bs) in
    rw (concat-pieces fuel rest (omega (arith, length-drop udp_fragment_payload_size (b ∷ bs))))
      (take-append-drop udp_fragment_payload_size (b ∷ bs))

length-pieces :
    (fuel : ℕ) (packet : List ℕ)
    → length packet ≤ fuel
    → length (pieces fuel packet) ≡ fragment_count (length packet)
unfolding pieces
length-pieces fuel [] h = refl
length-pieces zero (b ∷ bs) h = absurd (omega arith)
length-pieces (suc fuel) (b ∷ bs) h =
    let rest = drop udp_fragment_payload_size (b ∷ bs) in
    let size = length-drop udp_fragment_payload_size (b ∷ bs) in
    omega (arith, size, length-pieces fuel rest (omega (arith, size)))

pieces-IsPiece : (fuel : ℕ) (packet : List ℕ) → All IsPiece (pieces fuel packet)
unfolding pieces
pieces-IsPiece fuel [] = tt
pieces-IsPiece zero (b ∷ bs) = tt
pieces-IsPiece (suc fuel) (b ∷ bs) = (
  omega (arith, length-take udp_fragment_payload_size (b ∷ bs)),
  pieces-IsPiece fuel (drop udp_fragment_payload_size (b ∷ bs)),
)

-- The frames carry the packet under the sequence number: they are its pieces, in order, each with
-- its index and their number.
pub record Carries (sequence : ℕ) (packet : List ℕ) (frames : List (List ℕ)) : Type 0 where
  pub cs : List (List ℕ)
  pub whole : concat cs ≡ packet
  pub numbered : frames ≡ number sequence (length cs) 0 cs
  pub sized : All IsPiece cs
  pub few : length cs ≤ udp_fragment_max_count
  pub some_piece : 0 < length cs

fragment_loop-Carries :
    (sequence : ℕ) (packet : List ℕ)
    → 0 < length packet
    → fragment_count (length packet) ≤ udp_fragment_max_count
    → Carries sequence packet
        (fragment_loop (length packet) sequence (fragment_count (length packet)) 0 packet)
fragment_loop-Carries sequence packet h few =
    let n = length packet in
    let count = length-pieces n packet (omega arith) in
    record {
      cs = pieces n packet;
      whole = concat-pieces n packet (omega arith);
      numbered = rw count (fragment_loop-number n sequence (fragment_count n) 0 packet);
      sized = pieces-IsPiece n packet;
      few = omega arith;
      some_piece = omega arith;
    }

-- What each error of `Encode` says of the packet's length and of the encoder.
abbrev pub Reason : Encoder → ℕ → EncodeError → Type 0
Reason e n empty_packet = n ≡ 0
Reason e n packet_too_large = e.max_packet < n
Reason e n too_many_fragments = udp_fragment_max_count * udp_fragment_payload_size < n
Reason e n sequence_exhausted = e.exhausted ≡ true

-- `Encode` refuses a packet that is empty, above the encoder's limit or above 64 fragments, or when
-- the sequence numbers are used up: the error says which, and the encoder is unchanged.
pub encode_refusal :
    (e : Encoder) (packet : List ℕ) (x : EncodeError)
    → (encode e packet).1 ≡ err x
    → ((encode e packet).0 ≡ e) × Reason e (length packet) x
unfolding encode
encode_refusal e packet empty_packet h = ground arith
encode_refusal e packet packet_too_large h = ground arith
encode_refusal e packet too_many_fragments h = ground arith
encode_refusal e packet sequence_exhausted h = ground arith

-- Any other packet is cut into at most 64 pieces of at most 1000 bytes, whose frames carry the
-- encoder's next sequence number.
pub encode_lem :
    (e : Encoder) (packet : List ℕ)
    → 0 < length packet
    → length packet ≤ e.max_packet
    → length packet ≤ udp_fragment_max_count * udp_fragment_payload_size
    → e.exhausted ≡ false
    → (frames : List (List ℕ)) × (encode e packet ≡ (advance e, ok frames))
      × Carries e.next_seq packet frames
unfolding encode
encode_lem e packet h fits bound fresh =
    let n = length packet in
    let t1 : (n == 0) ≡ false = ground arith in
    let t2 = ltb-eq-false e.max_packet n fits in
    let t3 : (fragment_count n == 0) ≡ false = ground arith in
    let t4 = ltb-eq-false udp_fragment_max_count (fragment_count n) (omega arith) in
    (
      fragment_loop n e.next_seq (fragment_count n) 0 packet,
      rw (t1, t2) (rw (t3, t4) (rw fresh)),
      fragment_loop-Carries e.next_seq packet h (omega arith),
    )

encode-ok_bounds :
    (e : Encoder) (packet : List ℕ) (frames : List (List ℕ))
    → (encode e packet).1 ≡ ok frames
    → (0 < length packet)
      × (length packet ≤ e.max_packet)
      × (length packet ≤ udp_fragment_max_count * udp_fragment_payload_size)
      × (e.exhausted ≡ false)
unfolding encode
encode-ok_bounds e packet frames h = ground arith

-- A success tells that no reason for a refusal holds.
pub encode-ok :
    (e : Encoder) (packet : List ℕ) (frames : List (List ℕ))
    → (encode e packet).1 ≡ ok frames
    → (e.exhausted ≡ false) × ((encode e packet).0 ≡ advance e) × Carries e.next_seq packet frames
encode-ok e packet frames h =
    let (some, fits, bound, fresh) = encode-ok_bounds e packet frames h in
    let (made, run, carries) = encode_lem e packet some fits bound fresh in
    let same : made ≡ frames = ground arith in
    (fresh, ground arith, subst (Carries e.next_seq packet) same carries)
