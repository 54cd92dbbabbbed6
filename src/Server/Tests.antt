-- ===== src/Server/Tests.antt =====
-- Runs of cmd/chimera-server/main.go on concrete options.
use chimera_core.Prelude.{
  ℕ, ◌≡◌, refl, List, [], ◌∷◌, ◌++◌, ok, length, All, arith, replicate, ◌==◌, if◌then◌else◌,
}
use chimera_core.Prelude.Bytes.{read_full}
use chimera_core.Prelude.Text.{trim_space, to_lower}
use chimera_core.Prelude.Base64.{encode64}
use chimera_core.Auth.Token.{derive_auth_key}
use chimera_core.Client.Options.{hex_bytes}
use chimera_core.Server.{
  parse_server_names, parse_short_ids, derive_server_auth_keys, generate_psk, decode_psk, env_first,
}
use chimera_core.Server.Keys.{IsShortId, derive_server_auth_keys-has}
use chimera_core.Server.Psk.{decode_psk-generate_psk}

-- " A.b,,c".
names :
    parse_server_names (32 ∷ 65 ∷ 46 ∷ 98 ∷ 44 ∷ 44 ∷ 99 ∷ [])
    ≡ (97 ∷ 46 ∷ 98 ∷ []) ∷ (99 ∷ []) ∷ []
unfolding parse_server_names trim_space to_lower
names = refl

-- "0a, Ff01".
abbrev option_text : List ℕ
option_text = 48 ∷ 97 ∷ 44 ∷ 32 ∷ 70 ∷ 102 ∷ 48 ∷ 49 ∷ []

parsed : parse_short_ids option_text ≡ ok ((10 ∷ []) ∷ (255 ∷ 1 ∷ []) ∷ [])
unfolding parse_short_ids trim_space hex_bytes
parsed = refl

abbrev secret : List ℕ
secret = replicate 32 1

-- In place of HKDF: the salt.
abbrev toy_hkdf : List ℕ → List ℕ → List ℕ → List ℕ
toy_hkdf psk salt info = salt

derived :
    derive_server_auth_keys toy_hkdf secret secret ((10 ∷ []) ∷ (255 ∷ 1 ∷ []) ∷ [])
    ≡ ok ((secret ++ (10 ∷ [])) ∷ (secret ++ (255 ∷ 1 ∷ [])) ∷ [])
unfolding derive_server_auth_keys derive_auth_key
derived = refl

derive_server_auth_keys-has_example :
    All IsShortId ((10 ∷ []) ∷ (255 ∷ 1 ∷ []) ∷ [])
    × ((key : List ℕ) × (derive_auth_key toy_hkdf secret secret (255 ∷ 1 ∷ []) ≡ ok key)
        × ((front : List (List ℕ)) × (back : List (List ℕ)) × ((secret ++ (10 ∷ []))
                ∷ (secret ++ (255 ∷ 1 ∷ []))
                ∷ []
              ≡ front ++ (key ∷ back))))
derive_server_auth_keys-has_example =
    derive_server_auth_keys-has toy_hkdf option_text secret secret ((10 ∷ []) ∷ []) []
      ((secret ++ (10 ∷ [])) ∷ (secret ++ (255 ∷ 1 ∷ [])) ∷ []) (255 ∷ 1 ∷ []) parsed derived

abbrev random : List ℕ
random = replicate 33 200

generated : generate_psk random ≡ ok (encode64 (replicate 32 200), 200 ∷ [])
unfolding generate_psk read_full
generated = refl

decode_psk-generate_psk_example :
    (psk : List ℕ) × (random ≡ psk ++ (200 ∷ []))
    × (length psk ≡ 32)
    × (decode_psk (encode64 (replicate 32 200)) ≡ ok psk)
decode_psk-generate_psk_example =
    decode_psk-generate_psk random (encode64 (replicate 32 200)) (200 ∷ []) (omega arith) generated

environment :
    env_first
      (λ name. if length name == 1 then 32 ∷ [] else 120 ∷ 32 ∷ [])
      ((65 ∷ []) ∷ (65 ∷ 66 ∷ []) ∷ [])
    ≡ 120 ∷ []
unfolding env_first trim_space
environment = refl
