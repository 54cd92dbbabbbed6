-- ===== src/Client/Options.antt =====
-- The options of cmd/chimera-client/main.go that are byte strings.
use chimera_core.Prelude.{
  ℕ, ◌+◌, ◌-◌, ◌*◌, ◌%◌, not, ◌||◌, ◌&&◌, List, [], ◌∷◌, Option, none, some, Result, ok, err, ◌>>=◌,
  ◌==◌, ltb, leb, if◌then◌else◌, length,
}
use chimera_core.Prelude.Base64.{decode64}
use chimera_core.Client.Select.{Mode, tcp}

pub data OptionError : Type 0 where
  odd_length bad_hex bad_short_id bad_psk bad_fingerprint : OptionError

-- encoding/hex.
abbrev pub nibble : ℕ → Option ℕ
nibble c =
    if leb 48 c && leb c 57
    then some (c - 48)
    else if leb 97 c && leb c 102
    then some (c - 87)
    else if leb 65 c && leb c 70
    then some (c - 55)
    else none

unfoldable pub hex_bytes : List ℕ → Result OptionError (List ℕ)
hex_bytes [] = ok []
hex_bytes (a ∷ []) = err odd_length
hex_bytes (a ∷ b ∷ s) = elim (nibble a) [
  | none ↦ err bad_hex
  | some high ↦ elim (nibble b) [
    | none ↦ err bad_hex
    | some low ↦ elim (hex_bytes s) [ err e ↦ err e | ok bs ↦ ok ((high * 16 + low) ∷ bs) ]
  ]
]

-- `decodeHex`.
unfoldable pub decode_hex : List ℕ → Result OptionError (List ℕ)
decode_hex s = if not (length s % 2 == 0) then err odd_length else hex_bytes s

-- `decodeShortID`.
unfoldable pub decode_short_id : List ℕ → Result OptionError (List ℕ)
decode_short_id s = do
  short_id ← decode_hex s
  if length short_id == 0 || ltb 8 (length short_id) then err bad_short_id else ok short_id

abbrev pub check_psk : Option (List ℕ) → Result OptionError (List ℕ)
check_psk none = err bad_psk
check_psk (some psk) = if not (length psk == 32) then err bad_psk else ok psk

abbrev pub check_fingerprint : Result OptionError (List ℕ) → Result OptionError (List ℕ)
check_fingerprint (err _) = err bad_fingerprint
check_fingerprint (ok fp) = if not (length fp == 32) then err bad_fingerprint else ok fp

-- `validateQUICConfig`: the key, nil for TCP.
unfoldable pub validate_quic_config : Mode → List ℕ → List ℕ → Result OptionError (Option (List ℕ))
validate_quic_config tcp psk_text fingerprint = ok none
validate_quic_config mode psk_text fingerprint = do
  psk ← check_psk (decode64 psk_text)
  _ ← check_fingerprint (hex_bytes fingerprint)
  ok (some psk)
