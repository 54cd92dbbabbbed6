-- ===== src/Udp/Roundtrip.antt =====
-- The encoder and the decoder of internal/quicx/udp_codec.go together.
use chimera_core.Prelude.{
  ℕ, zero, suc, ◌+◌, ◌≤◌, ◌<◌, ◌≡◌, refl, subst, ap, ◌∙◌, List, [], ◌∷◌, map, none, ok, arith,
  length, All, get_or, ℕ_discrete,
}
use chimera_core.Prelude.Dict.{lookup}
use chimera_core.Udp.Frame.{put_frame, udp_fragment_assembly_ttl}
use chimera_core.Udp.Encoder.{Encoder, max_sequence, encode}
use chimera_core.Udp.Encoder.Chunks.{number, encode-ok}
use chimera_core.Udp.Decoder.{Decoder}
use chimera_core.Udp.Decoder.Reassembly.{
  decode_all, arrivals, InTime, Distinct, answers, reassemble,
}

get_or-number :
    (s n j i : ℕ) (cs : List (List ℕ))
    → i < length cs
    → get_or (number s n j cs) i []
      ≡ put_frame (record { sequence = s; index = j + i; count = n; payload = get_or cs i [] })
unfolding number
get_or-number s n j i [] h = absurd (omega arith)
get_or-number s n j zero (c ∷ cs) h = let e : j + 0 ≡ j = omega arith in rw e
get_or-number s n j (suc i) (c ∷ cs) h =
    let e : j + 1 + i ≡ j + suc i = omega arith in
    rw (← e) (get_or-number s n (j + 1) i cs (omega arith))

length-number : (s n j : ℕ) (cs : List (List ℕ)) → length (number s n j cs) ≡ length cs
unfolding number
length-number s n j [] = refl
length-number s n j (c ∷ cs) = ap suc (length-number s n (j + 1) cs)

-- The frames that arrive, by their places in what `Encode` returned.
abbrev pub pick : List (List ℕ) → List (ℕ × ℕ) → List (ℕ × List ℕ)
pick frames = map (λ e. (e.0, get_or frames e.1 []))

pick-arrivals :
    (s limit : ℕ) (cs : List (List ℕ)) (order : List (ℕ × ℕ))
    → All (InTime limit (length cs)) order
    → pick (number s (length cs) 0 cs) order ≡ arrivals s cs order
pick-arrivals s limit cs [] h = refl
pick-arrivals s limit cs ((t, i) ∷ order) h =
    let e : 0 + i ≡ i = omega arith in
    rw (get_or-number s (length cs) 0 i cs h.0.1) (rw (e, pick-arrivals s limit cs order h.1))

-- Each fragment of a packet that `Encode` of a valid encoder cut, delivered once, in any order and with
-- any times that lie within two seconds of the first arrival, makes a decoder of no smaller limit that holds
-- nothing under the sequence number answer with nothing until the last, and then with the packet.
pub decode-encode :
    (e : Encoder) (packet : List ℕ) (frames : List (List ℕ)) (d : Decoder) (t i : ℕ)
    (order : List (ℕ × ℕ))
    → e.next_seq ≤ max_sequence
    → (encode e packet).1 ≡ ok frames
    → length packet ≤ d.max_packet
    → lookup ℕ_discrete e.next_seq d.pending ≡ none
    → All (InTime (t + udp_fragment_assembly_ttl) (length frames)) ((t, i) ∷ order)
    → Distinct ((t, i) ∷ order)
    → suc (length order) ≡ length frames
    → (decode_all d (pick frames ((t, i) ∷ order))).1 ≡ answers (length order) packet
decode-encode e packet frames d t i order range sent fits fresh times distinct all =
    let (_, _, c) = encode-ok e packet frames sent in
    let cs = c.cs in
    let count : length frames ≡ length cs =
      ap length c.numbered ∙ length-number e.next_seq (length cs) 0 cs in
    let limit = t + udp_fragment_assembly_ttl in
    let times' = subst (λ n. All (InTime limit n) ((t, i) ∷ order)) count times in
    let run = λ (l : List (ℕ × List ℕ)). (decode_all d l).1 in
    ap (λ (fs : List (List ℕ)). run (pick fs ((t, i) ∷ order))) c.numbered
    ∙ ap run (pick-arrivals e.next_seq limit cs ((t, i) ∷ order) times')
    ∙ reassemble e.next_seq cs limit (omega arith) c.few c.sized t i order d refl fresh
        (omega (arith, ap length c.whole)) times' distinct (omega arith)
    ∙ ap (answers (length order)) c.whole
