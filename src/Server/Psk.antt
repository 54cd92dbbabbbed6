-- ===== src/Server/Psk.antt =====
-- The secret that cmd/chimera-server/main.go generates is one that it accepts.
use chimera_core.Prelude.{
  ℕ, ◌≡◌, refl, subst, List, [], ◌∷◌, ◌++◌, ok, length, All, All_append_left, arith, Result-cases,
  inl, inr,
}
use chimera_core.Prelude.Bytes.{IsByte, IsBytes, read_full, read_full-eq-ok}
use chimera_core.Prelude.Text.{trim_left, trim_right, trim_space}
use chimera_core.Prelude.Base64.{encode64, decode64-encode64, NoSpace, encode64-NoSpace}
use chimera_core.Server.{generate_psk, decode_psk}

trim_left-NoSpace : (s : List ℕ) → All NoSpace s → trim_left s ≡ s
unfolding trim_left
trim_left-NoSpace [] h = refl
trim_left-NoSpace (b ∷ s) h = rw h.0

trim_right-NoSpace : (s : List ℕ) → All NoSpace s → trim_right s ≡ s
unfolding trim_right
trim_right-NoSpace [] h = refl
trim_right-NoSpace (b ∷ []) h = rw h.0
trim_right-NoSpace (b ∷ c ∷ s) h = ground (arith, trim_right-NoSpace (c ∷ s) h.1)

pub trim_space-NoSpace : (s : List ℕ) → All NoSpace s → trim_space s ≡ s
unfolding trim_space
trim_space-NoSpace s h = rw (trim_left-NoSpace s h) (trim_right-NoSpace s h)

decoded : (psk : List ℕ) → length psk ≡ 32 → IsBytes psk → decode_psk (encode64 psk) ≡ ok psk
unfolding decode_psk
decoded psk size bytes =
    rw (trim_space-NoSpace (encode64 psk) (encode64-NoSpace psk), decode_psk)
      (rw (decode64-encode64 psk bytes) (rw size))

-- The text that `generatePSK` prints, `decodePSK` reads back as the 32 random bytes.
pub decode_psk-generate_psk :
    (random text rest : List ℕ)
    → IsBytes random
    → generate_psk random ≡ ok (text, rest)
    → (psk : List ℕ) × (random ≡ psk ++ rest) × (length psk ≡ 32) × (decode_psk text ≡ ok psk)
unfolding generate_psk
decode_psk-generate_psk random text rest bytes e = elim (Result-cases (read_full 32 random)) [
  | inr (x, bad) ↦ absurd (ground arith)
  | inl (p, good) ↦
      let (split, size) = read_full-eq-ok 32 random p.0 p.1 good in
      let same : (encode64 p.0 ≡ text) × (p.1 ≡ rest) = ground arith in
      (
        p.0,
        subst (λ (r : List ℕ). random ≡ p.0 ++ r) same.1 split,
        size,
        subst (λ t. decode_psk t ≡ ok p.0) same.0
            (decoded p.0 size (All_append_left IsByte p.0 p.1 (subst IsBytes split bytes))),
      )
]
