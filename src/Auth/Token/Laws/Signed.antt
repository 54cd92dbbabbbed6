-- ===== src/Auth/Token/Laws/Signed.antt =====
-- `Validate` of internal/quicx/auth.go accepts what `Sign` signs.
use chimera_core.Prelude.{
  ℕ, ◌+◌, ◌*◌, ◌/◌, ◌%◌, ◌≤◌, ◌<◌, ◌≡◌, refl, sym, subst, ap, ◌∙◌, true, false, List, [], ◌∷◌, ◌++◌,
  some, ok, Result-cases, arith, inl, inr, All, All-append, All_append_left, length, length-append,
  take, drop, take-length_append, drop-length_append,
}
use chimera_core.Prelude.Bytes.{
  IsByte, IsBytes, IsBytes-put_uint32, put_uint32, uint32, read_full, read_full-eq-ok,
}
use chimera_core.Prelude.Text.{begun, fields, to_lower}
use chimera_core.Prelude.Base64.{encode64, decode64-encode64, NoSpace, encode64-NoSpace}
use chimera_core.Chimera.Ip.{bytes_equal_refl}
use chimera_core.Auth.Token.{
  Authenticator, Request, second, auth_scheme, auth_version, auth_nonce_len, put_uint64, key_of,
  raw_token, out_of_time, timestamp_of, nonce_of, mac_of, token_of, any_key, mac_matches,
  record_nonce, validate, sign, normalize_auth_fields, canonical_auth_input,
}

begun-NoSpace : (s : List ℕ) → All NoSpace s → begun s ≡ (s, [])
unfolding begun
begun-NoSpace [] h = refl
begun-NoSpace (b ∷ s) h = rw (begun-NoSpace s h.1, h.0)

-- The header of a token is taken apart as it was put together.
fields_header :
    (s : List ℕ)
    → 0 < length s
    → All NoSpace s
    → fields (auth_scheme ++ (32 ∷ s)) ≡ auth_scheme ∷ s ∷ []
unfolding fields begun
fields_header [] pos h = absurd (omega arith)
fields_header (b ∷ s) pos h = rw (begun-NoSpace s h.1, h.0) (ground arith)

encode64_pos : (a : ℕ) (s : List ℕ) → 0 < length (encode64 (a ∷ s))
unfolding encode64
encode64_pos a [] = omega arith
encode64_pos a (b ∷ []) = omega arith
encode64_pos a (b ∷ c ∷ s) = omega arith

uint64_low :
    (n : ℕ)
    → uint32 (n / 16777216 % 256) (n / 65536 % 256) (n / 256 % 256) (n % 256) ≡ n % 4294967296
uint64_low n = omega arith

timestamp_of_put :
    (n : ℕ)
    → n < 18446744073709551616
    → n / 4294967296 % 4294967296 * 4294967296 + n % 4294967296 ≡ n
timestamp_of_put n h = omega arith

-- What HMAC-SHA256 gives: 32 bytes.
abbrev pub IsMac : (List ℕ → List ℕ → List ℕ) → Type 0
IsMac hmac = (key input : List ℕ) → (length (hmac key input) ≡ 32) × IsBytes (hmac key input)

module _ (hmac : List ℕ → List ℕ → List ℕ) where
  pub any_key-here :
      (before : List (List ℕ)) (key : List ℕ) (behind : List (List ℕ)) (input : List ℕ)
      → any_key hmac (before ++ (key ∷ behind)) input (hmac key input) ≡ true
  unfolding any_key
  any_key-here [] key behind input = rw (bytes_equal_refl (hmac key input))
  any_key-here (k ∷ before) key behind input = ground (arith, any_key-here before key behind input)

  -- What a success of `Sign` says.
  record Signs (a : Authenticator) (request : Request) (now : ℕ) (random header : List ℕ)
      : Type 0 where
    r : Request
    nonce : List ℕ
    input : List ℕ
    rest : List ℕ
    random_eq : random ≡ nonce ++ rest
    nonce_size : length nonce ≡ 16
    normal : normalize_auth_fields request ≡ ok r
    input_eq : canonical_auth_input (now / second) nonce r ≡ ok input
    header_eq :
        header ≡ auth_scheme ++ (32 ∷ encode64 (raw_token hmac a.keys (now / second) nonce input))

  sign-Signs :
      (a : Authenticator) (request : Request) (now : ℕ) (random header rest : List ℕ)
      → sign hmac a request now random ≡ ok (header, rest)
      → Signs a request now random header
  unfolding sign
  sign-Signs a request now random header rest e =
      elim (Result-cases (normalize_auth_fields request)) [
        | inr (x, bad) ↦ absurd (ground arith)
        | inl (r, normal) ↦ elim (Result-cases (read_full auth_nonce_len random)) [
          | inr (x, bad) ↦ absurd (ground arith)
          | inl (p, read) ↦ elim (Result-cases (canonical_auth_input (now / second) p.0 r)) [
            | inr (x, bad) ↦ absurd (ground arith)
            | inl (input, input_eq) ↦
                let (random_eq, nonce_size) = read_full-eq-ok auth_nonce_len random p.0 p.1 read in
                record {
                  r = r;
                  nonce = p.0;
                  input = input;
                  rest = p.1;
                  random_eq = random_eq;
                  nonce_size = nonce_size;
                  normal = normal;
                  input_eq = input_eq;
                  header_eq = ground arith;
                }
          ]
        ]
      ]

  token_of-header :
      (body : List ℕ)
      → length body ≡ 56
      → IsBytes body
      → token_of hmac (auth_scheme ++ (32 ∷ encode64 (auth_version ∷ body))) ≡ some body
  unfolding token_of
  token_of-header body size bytes =
      let words =
        fields_header (encode64 (auth_version ∷ body)) (encode64_pos auth_version body)
          (encode64-NoSpace (auth_version ∷ body)) in
      let text = decode64-encode64 (auth_version ∷ body) (omega arith, bytes) in
      rw (words, token_of) (rw (bytes_equal_refl (to_lower auth_scheme)) (rw text (ground arith)))

  -- The three parts of a token's body.
  nonce_of_body :
      (t : ℕ) (nonce mac : List ℕ)
      → length nonce ≡ 16
      → (nonce_of hmac (put_uint64 t ++ (nonce ++ mac)) ≡ nonce)
        × (mac_of hmac (put_uint64 t ++ (nonce ++ mac)) ≡ mac)
  nonce_of_body t nonce mac size = (
    subst (λ n. take n (nonce ++ mac) ≡ nonce) size (take-length_append nonce mac),
    subst (λ n. drop n (nonce ++ mac) ≡ mac) size (drop-length_append nonce mac),
  )

  timestamp_of_body :
      (t : ℕ) (more : List ℕ)
      → t < 18446744073709551616
      → timestamp_of hmac (put_uint64 t ++ more) ≡ t
  timestamp_of_body t more h = rw (uint64_low (t / 4294967296), uint64_low t) (timestamp_of_put t h)

  body-IsBytes :
      (t : ℕ) (nonce mac : List ℕ)
      → IsBytes nonce
      → IsBytes mac
      → IsBytes (put_uint64 t ++ (nonce ++ mac))
  body-IsBytes t nonce mac h k =
      let low =
        All-append IsByte (put_uint32 t) (nonce ++ mac) (IsBytes-put_uint32 t)
          (All-append IsByte nonce mac h k) in
      All-append IsByte (put_uint32 (t / 4294967296)) (put_uint32 t ++ (nonce ++ mac))
        (IsBytes-put_uint32 (t / 4294967296)) low

  mac_fits :
      (keys : List (List ℕ)) (q r : Request) (body input : List ℕ)
      → normalize_auth_fields q ≡ ok r
      → canonical_auth_input (timestamp_of hmac body) (nonce_of hmac body) r ≡ ok input
      → any_key hmac keys input (mac_of hmac body) ≡ true
      → mac_matches hmac keys body q ≡ true
  unfolding mac_matches
  mac_fits keys q r body input normal built fits = rw (normal, mac_matches) (rw built fits)

  -- A token in time with the right MAC comes to the replay cache.
  matched :
      (b : Authenticator) (header : List ℕ) (q r : Request) (later : ℕ) (body input : List ℕ)
      → token_of hmac header ≡ some body
      → out_of_time (timestamp_of hmac body) b.max_skew later ≡ false
      → normalize_auth_fields q ≡ ok r
      → canonical_auth_input (timestamp_of hmac body) (nonce_of hmac body) r ≡ ok input
      → any_key hmac b.keys input (mac_of hmac body) ≡ true
      → validate hmac b header q later ≡ record_nonce hmac b (nonce_of hmac body) later
  unfolding validate
  matched b header q r later body input found time normal built fits =
      rw (found, validate) (rw (time, mac_fits b.keys q r body input normal built fits))

  in_time :
      (t skew later : ℕ)
      → t < 9223372036854775808
      → later ≤ t * second + skew
      → t * second ≤ later + skew
      → out_of_time t skew later ≡ false
  unfolding out_of_time
  in_time t skew later range late early = ground arith

  made :
      (b : Authenticator) (q r : Request) (t later : ℕ) (nonce input random header key : List ℕ)
      (before behind : List (List ℕ))
      → length (hmac key input) ≡ 32
      → IsBytes (put_uint64 t ++ (nonce ++ hmac key input))
      → header
        ≡ auth_scheme
          ++ (32 ∷ encode64 (auth_version ∷ (put_uint64 t ++ (nonce ++ hmac key input))))
      → length nonce ≡ 16
      → take 16 random ≡ nonce
      → normalize_auth_fields q ≡ ok r
      → canonical_auth_input t nonce r ≡ ok input
      → b.keys ≡ before ++ (key ∷ behind)
      → t < 9223372036854775808
      → later ≤ t * second + b.max_skew
      → t * second ≤ later + b.max_skew
      → validate hmac b header q later ≡ record_nonce hmac b (take 16 random) later
  made b q r t later nonce input random header key before behind mac_size bytes header_eq size drawn
        normal built keys range late early =
      let mac = hmac key input in
      let body = put_uint64 t ++ (nonce ++ mac) in
      let whole : length body ≡ 56 = omega (arith, length-append nonce mac) in
      let found : token_of hmac header ≡ some body =
        subst (λ h. token_of hmac h ≡ some body) (sym header_eq)
          (token_of-header body whole bytes) in
      let stamp = timestamp_of_body t (nonce ++ mac) (omega arith) in
      let (nonce_eq, mac_eq) = nonce_of_body t nonce mac size in
      let time =
        subst (λ n. out_of_time n b.max_skew later ≡ false) (sym stamp)
          (in_time t b.max_skew later range late early) in
      let text =
        subst (λ n. canonical_auth_input n (nonce_of hmac body) r ≡ ok input) (sym stamp)
          (subst (λ n. canonical_auth_input t n r ≡ ok input) (sym nonce_eq) built) in
      let fits =
        subst (λ ks. any_key hmac ks input (mac_of hmac body) ≡ true) (sym keys)
          (subst (λ m. any_key hmac (before ++ (key ∷ behind)) input m ≡ true) (sym mac_eq)
            (any_key-here before key behind input)) in
      matched b header q r later body input found time normal text fits
      ∙ ap (λ n. record_nonce hmac b n later) (nonce_eq ∙ sym drawn)

  -- With a MAC of 32 bytes and a clock of fewer than 2^63 seconds: a token that `Sign` made from random
  -- bytes is good for any validator that holds the signer's key, for any request with the same method,
  -- authority and server name up to case and white space around them, while the validator's clock is
  -- within its skew of the timestamp. Whether it is accepted is up to the replay cache alone, which
  -- sees the nonce that the signer drew.
  pub validate-sign :
      (a b : Authenticator) (request q : Request) (now later : ℕ) (random header rest : List ℕ)
      (before behind : List (List ℕ))
      → IsMac hmac
      → IsBytes random
      → sign hmac a request now random ≡ ok (header, rest)
      → normalize_auth_fields q ≡ normalize_auth_fields request
      → b.keys ≡ before ++ (key_of a.keys ∷ behind)
      → now / second < 9223372036854775808
      → later ≤ now / second * second + b.max_skew
      → now / second * second ≤ later + b.max_skew
      → validate hmac b header q later ≡ record_nonce hmac b (take 16 random) later
  validate-sign a b request q now later random header rest before behind mac bytes signed same keys
        range late early =
      let s = sign-Signs a request now random header rest signed in
      let (mac_size, mac_bytes) = mac (key_of a.keys) s.input in
      let nonce_bytes = All_append_left IsByte s.nonce s.rest (subst IsBytes s.random_eq bytes) in
      made b q s.r (now / second) later s.nonce s.input random header (key_of a.keys) before behind
        mac_size
        (body-IsBytes (now / second) s.nonce (hmac (key_of a.keys) s.input) nonce_bytes mac_bytes)
        s.header_eq s.nonce_size
        (rw s.random_eq (
          subst (λ n. take n (s.nonce ++ s.rest) ≡ s.nonce) s.nonce_size
            (take-length_append s.nonce s.rest)))
        (same ∙ s.normal) s.input_eq keys range late early
