-- ===== src/Auth/Token.antt =====
-- internal/quicx/auth.go: keys, tokens and their validation. HMAC-SHA256 and HKDF are parameters. The
-- time `now` counts nanoseconds since 1970; a timestamp in a token is the uint64 of a signed second.
pub mod Laws
pub mod Input
use chimera_core.Prelude.{
  ℕ, suc, ◌+◌, ◌-◌, ◌*◌, ◌/◌, ◌%◌, ◌≡◌, Bool, true, false, not, ◌&&◌, ◌||◌, List, [], ◌∷◌, ◌++◌,
  Option, none, some, Result, ok, err, ◌>>=◌, ◌==◌, ltb, leb, if◌then◌else◌, length, take, drop,
}
use chimera_core.Prelude.Bytes.{read_full, put_uint16, put_uint32, uint32}
use chimera_core.Prelude.Int.{ℤ, pos, negsuc}
use chimera_core.Prelude.Text.{trim_space, to_lower, to_upper, fields}
use chimera_core.Prelude.Base64.{encode64, decode64}
use chimera_core.Chimera.Ip.{bytes_equal}
use chimera_core.Auth.Replay.{ReplayCache, new_replay_cache, add}

abbrev pub auth_version : ℕ
auth_version = 5

abbrev pub auth_key_len : ℕ
auth_key_len = 32

abbrev pub auth_nonce_len : ℕ
auth_nonce_len = 16

abbrev pub auth_mac_len : ℕ
auth_mac_len = 32

abbrev pub auth_token_len : ℕ
auth_token_len = 1 + 8 + auth_nonce_len + auth_mac_len

-- "Bearer".
abbrev pub auth_scheme : List ℕ
auth_scheme = 66 ∷ 101 ∷ 97 ∷ 114 ∷ 101 ∷ 114 ∷ []

-- "chimera-h3-auth-v1".
abbrev pub auth_key_info : List ℕ
auth_key_info =
    99 ∷ 104 ∷ 105 ∷ 109 ∷ 101 ∷ 114 ∷ 97 ∷ 45 ∷ 104 ∷ 51 ∷ 45 ∷ 97 ∷ 117 ∷ 116 ∷ 104 ∷ 45 ∷ 118
    ∷ 49 ∷ []

abbrev pub second : ℕ
second = 1000000000

pub record Authenticator : Type 0 where
  pub keys : List (List ℕ)
  pub max_skew : ℕ
  pub replay : ReplayCache

pub data AuthError : Type 0 where
  bad_psk bad_public_key bad_short_id no_key bad_key bad_skew bad_capacity : AuthError
  missing_field field_too_long bad_nonce read_failed : AuthError

-- `DeriveAuthKey`; `hkdf psk salt info` are the first 32 bytes of the HKDF reader.
unfoldable pub derive_auth_key :
    (List ℕ → List ℕ → List ℕ → List ℕ) → List ℕ → List ℕ → List ℕ → Result AuthError (List ℕ)
derive_auth_key hkdf psk public_key short_id =
    if not (length psk == auth_key_len)
    then err bad_psk
    else if not (length public_key == 32)
    then err bad_public_key
    else if length short_id == 0 || ltb 8 (length short_id)
    then err bad_short_id
    else ok (hkdf psk (public_key ++ short_id) auth_key_info)

-- The loop of `NewAuthenticator` over the keys, which are copied.
unfoldable pub check_keys : List (List ℕ) → Result AuthError (List (List ℕ))
check_keys [] = ok []
check_keys (key ∷ keys) = do
  rest ← (if not (length key == auth_key_len) then err bad_key else check_keys keys)
  ok (key ∷ rest)

-- Go's test `n <= 0`.
abbrev pub not_positive : ℤ → Bool
not_positive (pos n) = n == 0
not_positive (negsuc n) = true

abbrev pub size : ℤ → ℕ
size (pos n) = n
size (negsuc n) = 0

unfoldable pub new_authenticator : List (List ℕ) → ℤ → ℤ → Result AuthError Authenticator
unfolding check_keys
new_authenticator keys max_skew replay_capacity =
    if length keys == 0
    then err no_key
    else if not_positive max_skew
    then err bad_skew
    else if not_positive replay_capacity
    then err bad_capacity
    else (do
      copied ← check_keys keys
      ok (record {
        keys = copied;
        max_skew = size max_skew;
        replay = new_replay_cache (size replay_capacity) (2 * size max_skew + second);
      }))

-- Method, authority and server name.
pub record Request : Type 0 where
  pub method : List ℕ
  pub authority : List ℕ
  pub server_name : List ℕ

abbrev pub trim_request : Request → Request
trim_request r = record {
  method = to_upper (trim_space r.method);
  authority = to_lower (trim_space r.authority);
  server_name = to_lower (trim_space r.server_name);
}

-- `normalizeAuthFields`.
unfoldable pub check_request : Request → Result AuthError Request
check_request r =
    if length r.method == 0 || length r.authority == 0 || length r.server_name == 0
    then err missing_field
    else if ltb 65535 (length r.method)
        || ltb 65535 (length r.authority)
        || ltb 65535 (length r.server_name)
    then err field_too_long
    else ok r

unfoldable pub normalize_auth_fields : Request → Result AuthError Request
unfolding check_request
normalize_auth_fields r = check_request (trim_request r)

-- binary.BigEndian.PutUint64 and Uint64.
abbrev pub put_uint64 : ℕ → List ℕ
put_uint64 n = put_uint32 (n / 4294967296) ++ put_uint32 n

abbrev pub uint64 : List ℕ → ℕ
uint64 (a ∷ b ∷ c ∷ d ∷ e ∷ f ∷ g ∷ h ∷ _) = uint32 a b c d * 4294967296 + uint32 e f g h
uint64 _ = 0

-- One round of the loop of `canonicalAuthInput`.
abbrev pub put_field : List ℕ → List ℕ
put_field field = put_uint16 (length field) ++ field

-- `canonicalAuthInput`.
unfoldable pub canonical_auth_input : ℕ → List ℕ → Request → Result AuthError (List ℕ)
canonical_auth_input timestamp nonce r =
    if not (length nonce == auth_nonce_len)
    then err bad_nonce
    else if ltb 65535 (length r.method)
        || ltb 65535 (length r.authority)
        || ltb 65535 (length r.server_name)
    then err field_too_long
    else ok (
        auth_version
        ∷ (put_uint64 timestamp
            ++ (nonce
                ++ (put_field r.method ++ (put_field r.authority ++ put_field r.server_name)))))

-- `issuedAt.Before(now - skew)` or `issuedAt.After(now + skew)`, for a timestamp that may be negative.
unfoldable pub out_of_time : ℕ → ℕ → ℕ → Bool
out_of_time timestamp skew now =
    if ltb timestamp 9223372036854775808
    then ltb (timestamp * second + skew) now || ltb (now + skew) (timestamp * second)
    else ltb skew (now + (18446744073709551616 - timestamp) * second)

abbrev pub key_of : List (List ℕ) → List ℕ
key_of [] = []
key_of (key ∷ _) = key

module _ (hmac : List ℕ → List ℕ → List ℕ) where
  -- The token before base64.
  abbrev pub raw_token : List (List ℕ) → ℕ → List ℕ → List ℕ → List ℕ
  raw_token keys timestamp nonce input =
      auth_version ∷ (put_uint64 timestamp ++ (nonce ++ hmac (key_of keys) input))

  -- `Sign`; `random` is the reader `a.rand`, and what is left of it is returned.
  unfoldable pub sign : Authenticator → Request → ℕ → List ℕ → Result AuthError (List ℕ × List ℕ)
  sign a request now random = do
    r ← normalize_auth_fields request
    (nonce, rest) ← (elim (read_full auth_nonce_len random) [
      | err _ ↦ err read_failed
      | ok p ↦ ok p
    ])
    input ← canonical_auth_input (now / second) nonce r
    ok (auth_scheme ++ (32 ∷ encode64 (raw_token a.keys (now / second) nonce input)), rest)

  -- The loop of `Validate` over the keys.
  unfoldable pub any_key : List (List ℕ) → List ℕ → List ℕ → Bool
  any_key [] input mac = false
  any_key (key ∷ keys) input mac =
      let matched = any_key keys input mac in
      if bytes_equal (hmac key input) mac then true else matched

  -- The header's token, `none` where `Validate` returns false for it.
  unfoldable pub token_of : List ℕ → Option (List ℕ)
  token_of header = elim (fields header) [
    | scheme ∷ text ∷ [] ↦
        if not (bytes_equal (to_lower scheme) (to_lower auth_scheme))
        then none
        else elim (decode64 text) [
          | none ↦ none
          | some (version ∷ body) ↦
              if not (suc (length body) == auth_token_len) || not (version == auth_version)
              then none
              else some body
          | some [] ↦ none
        ]
    | _ ↦ none
  ]

  -- The timestamp, the nonce and the MAC of a token.
  abbrev pub timestamp_of : List ℕ → ℕ
  timestamp_of body = uint64 body

  abbrev pub nonce_of : List ℕ → List ℕ
  nonce_of body = take auth_nonce_len (drop 8 body)

  abbrev pub mac_of : List ℕ → List ℕ
  mac_of body = drop (8 + auth_nonce_len) body

  -- `Validate` up to the replay cache, for a token in time: is the MAC right?
  unfoldable pub mac_matches : List (List ℕ) → List ℕ → Request → Bool
  mac_matches keys body request = elim (normalize_auth_fields request) [
    | err _ ↦ false
    | ok r ↦ elim (canonical_auth_input (timestamp_of body) (nonce_of body) r) [
      | err _ ↦ false
      | ok input ↦ any_key keys input (mac_of body)
    ]
  ]

  -- `a.replay.Add`, `none` if it did not end.
  unfoldable pub record_nonce : Authenticator → List ℕ → ℕ → Option (Authenticator × Bool)
  record_nonce a nonce now = elim (add a.replay nonce now) [
    | none ↦ none
    | some (replay, taken) ↦ some (record a { replay = replay }, taken)
  ]

  -- `Validate`.
  unfoldable pub validate : Authenticator → List ℕ → Request → ℕ → Option (Authenticator × Bool)
  validate a header request now = elim (token_of header) [
    | none ↦ some (a, false)
    | some body ↦
        if out_of_time (timestamp_of body) a.max_skew now
        then some (a, false)
        else (if not (mac_matches a.keys body request)
            then some (a, false)
            else record_nonce a (nonce_of body) now)
  ]
