-- ===== src/Quic/Cert/Hex.antt =====
-- encoding/hex there and back, for the fingerprints of internal/quicx.
use chimera_core.Prelude.{
  ℕ, ◌+◌, ◌*◌, ◌/◌, ◌%◌, ◌<◌, ◌≡◌, refl, List, [], ◌∷◌, some, ok, All, arith,
}
use chimera_core.Prelude.Bytes.{IsBytes}
use chimera_core.Prelude.Base64.{NoSpace}
use chimera_core.Client.Options.{nibble, hex_bytes}
use chimera_core.Quic.Cert.{digit, hex_text}

nibble-digit : (n : ℕ) → n < 16 → nibble (digit n) ≡ some n
nibble-digit n h = ground arith

pub hex_bytes-hex_text : (bs : List ℕ) → IsBytes bs → hex_bytes (hex_text bs) ≡ ok bs
unfolding hex_bytes hex_text
hex_bytes-hex_text [] h = refl
hex_bytes-hex_text (b ∷ bs) h =
    let high = nibble-digit (b / 16) (omega arith) in
    let low = nibble-digit (b % 16) (omega arith) in
    let whole : b / 16 * 16 + b % 16 ≡ b = omega arith in
    rw (high, hex_bytes) (rw low (rw (hex_bytes-hex_text bs h.1) (rw whole refl)))

digit-NoSpace : (n : ℕ) → n < 16 → NoSpace (digit n)
digit-NoSpace n h = ground arith

pub hex_text-NoSpace : (bs : List ℕ) → IsBytes bs → All NoSpace (hex_text bs)
unfolding hex_text
hex_text-NoSpace [] h = tt
hex_text-NoSpace (b ∷ bs) h = (
  digit-NoSpace (b / 16) (omega arith),
  (digit-NoSpace (b % 16) (omega arith), hex_text-NoSpace bs h.1),
)
