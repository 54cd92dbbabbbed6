-- ===== src/Udp/Encoder/Sequence.antt =====
-- The sequence numbers of internal/quicx/udp_codec.go: 32 bits, each used once.
use chimera_core.Prelude.{
  ℕ, suc, ◌+◌, ◌≤◌, ◌<◌, ◌≡◌, refl, subst, true, false, ◌⊎◌, inl, inr, List, [], ◌∷◌, Result, ok,
  err, arith, length, All, Result-cases,
}
use chimera_core.Udp.Frame.{
  parse_frame, parse_frame-put_frame, IsPiece, DecodeError, udp_fragment_max_count,
}
use chimera_core.Udp.Encoder.{Encoder, max_sequence, advance, encode}
use chimera_core.Udp.Encoder.Chunks.{Carries, number, encode-ok, encode_refusal}

pub record IsValid (e : Encoder) : Type 0 where
  pub next_range : e.next_seq ≤ max_sequence

-- The sequence number that the receiver reads in the first frame.
unfoldable pub first_sequence : List (List ℕ) → Result DecodeError ℕ
first_sequence [] = err DecodeError.invalid_frame
first_sequence (frame ∷ _) = elim (parse_frame frame) [ ok f ↦ ok f.sequence | err x ↦ err x ]

-- The sequence numbers on the wire of the packets that `Encode` lets through, one after the other.
unfoldable pub sequences : Encoder → List (List ℕ) → List (Result DecodeError ℕ)
sequences e [] = []
sequences e (packet ∷ more) =
    let rest = sequences (encode e packet).0 more in
    elim (encode e packet).1 [ err _ ↦ rest | ok frames ↦ first_sequence frames ∷ rest ]

-- Numbers that rise, all at least `n`.
abbrev pub Rising : ℕ → List (Result DecodeError ℕ) → Type 0
Rising n [] = Unit {0}
Rising n (err x ∷ rs) = ⊥
Rising n (ok s ∷ rs) = (n ≤ s) × (s ≤ max_sequence) × Rising (s + 1) rs

first_sequence-Carries :
    (s : ℕ) (packet : List ℕ) (frames : List (List ℕ))
    → s ≤ max_sequence
    → Carries s packet frames
    → first_sequence frames ≡ ok s
unfolding first_sequence number
first_sequence-Carries s packet frames h c = rw c.numbered (first c.cs c.sized c.few c.some_piece)
  where
    first :
        (cs : List (List ℕ))
        → All IsPiece cs
        → length cs ≤ udp_fragment_max_count
        → 0 < length cs
        → first_sequence (number s (length cs) 0 cs) ≡ ok s
    first [] p few some = absurd (omega arith)
    first (c ∷ cs) p few some = ground (
      arith,
      parse_frame-put_frame
          (record { sequence = s; index = 0; count = suc (length cs); payload = c })
          (record {
            count_pos = omega arith;
            count_max = few;
            index_range = omega arith;
            payload_pos = p.0.0;
            payload_max = p.0.1;
          })
          (omega arith),
    )

-- After the last number the encoder is exhausted, and otherwise the next is one more.
advance_cases :
    (e : Encoder)
    → e.exhausted ≡ false
    → ((advance e).exhausted ≡ true)
      ⊎ (((advance e).exhausted ≡ false) × ((advance e).next_seq ≡ e.next_seq + 1))
unfolding advance
advance_cases e h = ground arith

advance-IsValid : (e : Encoder) → IsValid e → IsValid (advance e)
unfolding advance
advance-IsValid e v = record { next_range = ground arith }

Rising-step :
    (n : ℕ) (e : Encoder) (rs : List (Result DecodeError ℕ))
    → (e.exhausted ≡ true → rs ≡ [])
    → (e.exhausted ≡ false → Rising e.next_seq rs)
    → (e.exhausted ≡ true) ⊎ ((e.exhausted ≡ false) × (e.next_seq ≡ n + 1))
    → Rising (n + 1) rs
Rising-step n e rs done more (inl last) = rw (done last) tt
Rising-step n e rs done more (inr (fresh, next)) = subst (λ k. Rising k rs) next (more fresh)

abbrev Sequenced : Encoder → List (Result DecodeError ℕ) → Type 0
Sequenced e rs = (e.exhausted ≡ true → rs ≡ []) × (e.exhausted ≡ false → Rising e.next_seq rs)

sequences-Sequenced :
    (e : Encoder) (packets : List (List ℕ)) → IsValid e → Sequenced e (sequences e packets)
unfolding sequences
sequences-Sequenced e [] v = ((λ h. refl), (λ h. tt))
sequences-Sequenced e (packet ∷ more) v = elim (Result-cases (encode e packet).1) [
  | inr (x, bad) ↦
      rw (bad, sequences) (rw ((encode_refusal e packet x bad).0) (sequences-Sequenced e more v))
  | inl (frames, good) ↦
      let (fresh, step, carries) = encode-ok e packet frames good in
      let ih = sequences-Sequenced (advance e) more (advance-IsValid e v) in
      rw (good, sequences)
        (rw (step, first_sequence-Carries e.next_seq packet frames v.next_range carries)
          (
            (λ h. absurd (ground arith)),
            (λ h. (
              omega arith,
              v.next_range,
              Rising-step e.next_seq (advance e) _ ih.0 ih.1 (advance_cases e fresh),
            )),
          ))
]

-- The sequence numbers that a receiver reads from the packets that one encoder lets through fit 32
-- bits and rise strictly, from the encoder's next number on, if the encoder is not exhausted: none
-- is ever used again.
pub sequences-Rising :
    (e : Encoder) (packets : List (List ℕ))
    → IsValid e
    → e.exhausted ≡ false
    → Rising e.next_seq (sequences e packets)
sequences-Rising e packets v fresh = (sequences-Sequenced e packets v).1 fresh
