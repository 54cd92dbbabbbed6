-- ===== src/Auth/Tests.antt =====
-- Runs of internal/quicx/auth.go on concrete bytes.
use chimera_core.Prelude.{
  ℕ, ◌%◌, ◌++◌, ok, err, length, take, replicate, ◌≡◌, ◌↔◌, refl, true, false, List, [], ◌∷◌, some,
  arith, ℕ_discrete,
}
use chimera_core.Prelude.Bytes.{bytes_discrete}
use chimera_core.Prelude.Dict.{lookup, insert, delete}
use chimera_core.Auth.Replay.{
  ReplayEntry, ReplayCache, new_replay_cache, prune_loop, evict_loop, add_fresh, add,
}
use chimera_core.Auth.Replay.Order.{cache_of, add_order, IsOrder, add-cache_of}
use chimera_core.Auth.Replay.Laws.{add_all, add_refuses_replay}
use chimera_core.Prelude.Int.{pos}
use chimera_core.Prelude.Text.{trim_space, to_lower, to_upper, fields}
use chimera_core.Prelude.Bytes.{read_full}
use chimera_core.Prelude.Base64.{encode64, decode64}
use chimera_core.Auth.Token.{
  Authenticator, Request, new_authenticator, derive_auth_key, bad_short_id, check_request,
  normalize_auth_fields, canonical_auth_input, out_of_time, sign, any_key, token_of, mac_matches,
  record_nonce, validate, raw_token, auth_scheme, auth_version, put_uint64, put_field,
}
use chimera_core.Auth.Token.Input.{canonical_auth_input_injective}
use chimera_core.Auth.Token.Laws.Genuine.{Genuine, validate_iff}
use chimera_core.Auth.Token.Laws.Once.{validate_once}
use chimera_core.Auth.Token.Laws.Signed.{IsMac, validate-sign}

abbrev entry : ReplayEntry
entry = record { key = 1 ∷ []; expires_at = 50 }

abbrev order : List ReplayEntry
order = entry ∷ []

order-IsOrder : IsOrder 2 order
order-IsOrder = record { positive = omega arith; distinct = (tt, tt); bounded = omega arith }

-- The nonce 2 comes at 10, then the nonce 3 at 20, which evicts the nonce 1.
abbrev after_two : ReplayCache
after_two = cache_of 2 100 (entry ∷ record { key = 2 ∷ []; expires_at = 110 } ∷ [])

abbrev after_three : ReplayCache
after_three =
    cache_of 2 100
      (record { key = 2 ∷ []; expires_at = 110 } ∷ record { key = 3 ∷ []; expires_at = 120 } ∷ [])

program : Unit {0}
unfolding add add_fresh prune_loop evict_loop lookup insert delete bytes_discrete ℕ_discrete add_all
program = tt

first : add (cache_of 2 100 order) (2 ∷ []) 10 ≡ some (after_two, true)
unfolding program
first = refl

between : add_all after_two ((3 ∷ [], 20) ∷ []) ≡ some (after_three, 1)
unfolding program
between = refl

add_refuses_replay_example : (c : ReplayCache) × (add after_three (2 ∷ []) 60 ≡ some (c, false))
add_refuses_replay_example =
    add_refuses_replay 2 100 order (2 ∷ []) 10 60 after_two after_three ((3 ∷ [], 20) ∷ []) 1
      order-IsOrder first (omega arith) between (omega arith) (omega arith)

add-cache_of_example :
    add (cache_of 2 100 order) (2 ∷ []) 10
    ≡ some (
      cache_of 2 100 (add_order 2 100 order (2 ∷ []) 10).0,
      (add_order 2 100 order (2 ∷ []) 10).1,
    )
add-cache_of_example = add-cache_of 2 100 order (2 ∷ []) 10 order-IsOrder

-- In place of HMAC-SHA256: 32 bytes that depend on the input's length.
abbrev toy_hmac : List ℕ → List ℕ → List ℕ
toy_hmac key input = replicate 32 (length input % 256)

toy_hmac-IsMac : IsMac toy_hmac
toy_hmac-IsMac key input = (refl, omega arith)

abbrev secret : List ℕ
secret = replicate 32 1

abbrev client : Authenticator
client = record { keys = secret ∷ []; max_skew = 2000000000; replay = cache_of 4 5000000000 [] }

abbrev server : Authenticator
server = record client { keys = replicate 32 2 ∷ secret ∷ [] }

made_server : new_authenticator server.keys (pos 2000000000) (pos 4) ≡ ok server
unfolding new_authenticator new_replay_cache
made_server = refl

derived : derive_auth_key (λ psk salt info. salt) secret secret [] ≡ err bad_short_id
unfolding derive_auth_key
derived = refl

-- " get" to "H" at "s", and the same after normalisation.
abbrev request : Request
request = record { method = 32 ∷ 103 ∷ 101 ∷ 116 ∷ []; authority = 72 ∷ []; server_name = 115 ∷ [] }

abbrev normal : Request
normal = record { method = 71 ∷ 69 ∷ 84 ∷ []; authority = 104 ∷ []; server_name = 115 ∷ [] }

abbrev nonce : List ℕ
nonce = replicate 16 9

abbrev random : List ℕ
random = replicate 17 9

abbrev input_bytes : List ℕ
input_bytes =
    auth_version
    ∷ (put_uint64 7
        ++ (replicate 16 9
            ++ (put_field normal.method
                ++ (put_field normal.authority ++ put_field normal.server_name))))

abbrev header : List ℕ
header =
    auth_scheme ++ (32 ∷ encode64 (raw_token toy_hmac client.keys 7 (replicate 16 9) input_bytes))

signing : Unit {0}
unfolding sign normalize_auth_fields check_request canonical_auth_input trim_space to_lower to_upper
    read_full
signing = tt

normalised : normalize_auth_fields request ≡ ok normal
unfolding signing
normalised = refl

built : canonical_auth_input 7 (replicate 16 9) normal ≡ ok input_bytes
unfolding signing
built = refl

signed : sign toy_hmac client request 7500000000 random ≡ ok (header, 9 ∷ [])
unfolding signing
signed = refl

same : normalize_auth_fields normal ≡ normalize_auth_fields request
unfolding signing
same = refl

fresh-IsOrder : IsOrder 4 []
fresh-IsOrder = record { positive = omega arith; distinct = tt; bounded = omega arith }

canonical_auth_input_injective_example : (◌≡◌ {A = ℕ} 7 7) × (nonce ≡ nonce) × (normal ≡ normal)
canonical_auth_input_injective_example =
    canonical_auth_input_injective 7 7 nonce nonce normal normal input_bytes (omega arith)
      (omega arith) built built

validate-sign_example :
    validate toy_hmac server header normal 9000000000
    ≡ record_nonce toy_hmac server (take 16 random) 9000000000
validate-sign_example =
    validate-sign toy_hmac client server request normal 7500000000 9000000000 random header (9 ∷ [])
      (replicate 32 2 ∷ []) [] toy_hmac-IsMac (omega arith) signed same refl (omega arith)
      (omega arith) (omega arith)

abbrev served : Authenticator
served = record server {
  replay = cache_of 4 5000000000 (record { key = replicate 16 9; expires_at = 14000000000 } ∷ []);
}

checking : Unit {0}
unfolding signing validate token_of mac_matches any_key record_nonce out_of_time fields encode64
    decode64 program
checking = tt

accepted : validate toy_hmac server header normal 9000000000 ≡ some (served, true)
unfolding checking
accepted = refl

validate_iff_example :
    (validate toy_hmac server header normal 9000000000 ≡ some (served, true))
    ↔ Genuine toy_hmac server header normal 9000000000 served
validate_iff_example = validate_iff toy_hmac server header normal 9000000000 served

-- The token that is accepted is genuine.
genuine : Genuine toy_hmac server header normal 9000000000 served
genuine = (validate_iff toy_hmac server header normal 9000000000 served).0 accepted

none_between : add_all served.replay [] ≡ some (served.replay, 0)
unfolding program
none_between = refl

validate_once_example :
    (b : Authenticator) × (validate toy_hmac served header request 9500000000 ≡ some (b, false))
validate_once_example =
    validate_once toy_hmac 4 [] server served header normal request 9000000000 9500000000 []
      served.replay 0 fresh-IsOrder refl accepted tt none_between (omega arith)
