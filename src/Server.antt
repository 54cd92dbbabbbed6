-- ===== src/Server.antt =====
-- cmd/chimera-server/main.go: the options of the server and the keys that it derives.
pub mod Keys
pub mod Psk
mod Tests
use chimera_core.Prelude.{
  ℕ, ◌≡◌, Bool, ◌||◌, List, [], ◌∷◌, Option, none, some, Result, ok, err, ◌>>=◌, ◌==◌, ltb,
  if◌then◌else◌, length, not,
}
use chimera_core.Prelude.Text.{trim_space, to_lower}
use chimera_core.Prelude.Base64.{encode64, decode64}
use chimera_core.Prelude.Bytes.{IoError, read_full}
use chimera_core.Auth.Token.{AuthError, bad_psk, bad_short_id, no_key, derive_auth_key}
use chimera_core.Client.Options.{hex_bytes}

-- strings.Split at one byte.
unfoldable pub split_byte : ℕ → List ℕ → List (List ℕ)
split_byte b [] = [] ∷ []
split_byte b (c ∷ s) = elim (split_byte b s) [
  | [] ↦ (c ∷ []) ∷ []
  | word ∷ words ↦ if c == b then [] ∷ word ∷ words else (c ∷ word) ∷ words
]

-- The loop of `parseServerNames`.
unfoldable pub names_of : List (List ℕ) → List (List ℕ)
names_of [] = []
names_of (item ∷ items) =
    let rest = names_of items in
    if length (to_lower (trim_space item)) == 0 then rest else to_lower (trim_space item) ∷ rest

unfoldable pub parse_server_names : List ℕ → List (List ℕ)
unfolding names_of split_byte
parse_server_names value = names_of (split_byte 44 value)

-- One round of the loop of `parseShortIDs`, on a text that is not empty.
unfoldable pub short_id_of : List ℕ → Result AuthError (List ℕ)
short_id_of item = elim (hex_bytes item) [
  | err _ ↦ err bad_short_id
  | ok short_id ↦
      if length short_id == 0 || ltb 8 (length short_id) then err bad_short_id else ok short_id
]

unfoldable pub short_ids_of : List (List ℕ) → Result AuthError (List (List ℕ))
short_ids_of [] = ok []
short_ids_of (item ∷ items) =
    let rest = short_ids_of items in
    if length (trim_space item) == 0 then rest else elim (short_id_of (trim_space item)) [
      | err e ↦ err e
      | ok short_id ↦ elim rest [ err e ↦ err e | ok more ↦ ok (short_id ∷ more) ]
    ]

unfoldable pub parse_short_ids : List ℕ → Result AuthError (List (List ℕ))
unfolding short_ids_of short_id_of split_byte
parse_short_ids value = short_ids_of (split_byte 44 value)

-- `generatePSK`; `random` is the source of randomness.
unfoldable pub generate_psk : List ℕ → Result IoError (List ℕ × List ℕ)
generate_psk random = do (psk, rest) ← read_full 32 random; ok (encode64 psk, rest)

-- `decodePSK`.
unfoldable pub decode_psk : List ℕ → Result AuthError (List ℕ)
decode_psk encoded = elim (decode64 (trim_space encoded)) [
  | none ↦ err bad_psk
  | some psk ↦ if not (length psk == 32) then err bad_psk else ok psk
]

-- `envFirst`; `env` is os.Getenv.
unfoldable pub env_first : (List ℕ → List ℕ) → List (List ℕ) → List ℕ
env_first env [] = []
env_first env (name ∷ names) =
    let rest = env_first env names in
    if length (trim_space (env name)) == 0 then rest else trim_space (env name)

module _ (hkdf : List ℕ → List ℕ → List ℕ → List ℕ) where
  -- The loop of `deriveServerAuthKeys`.
  unfoldable pub derive_keys : List ℕ → List ℕ → List (List ℕ) → Result AuthError (List (List ℕ))
  derive_keys psk public_key [] = ok []
  derive_keys psk public_key (short_id ∷ short_ids) =
      let rest = derive_keys psk public_key short_ids in
      elim (derive_auth_key hkdf psk public_key short_id) [
        | err e ↦ err e
        | ok key ↦ elim rest [ err e ↦ err e | ok keys ↦ ok (key ∷ keys) ]
      ]

  unfoldable pub derive_server_auth_keys :
      List ℕ → List ℕ → List (List ℕ) → Result AuthError (List (List ℕ))
  unfolding derive_keys
  derive_server_auth_keys psk public_key short_ids =
      if length short_ids == 0 then err no_key else derive_keys psk public_key short_ids
