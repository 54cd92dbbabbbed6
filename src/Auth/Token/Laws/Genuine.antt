-- ===== src/Auth/Token/Laws/Genuine.antt =====
-- What `Validate` of internal/quicx/auth.go accepts, byte by byte.
use chimera_core.Prelude.{
  ℕ, ◌+◌, ◌-◌, ◌*◌, ◌≤◌, ◌<◌, ◌≡◌, ◌↔◌, ◌⊎◌, refl, sym, subst, ap, ◌∙◌, true, false, List, [], ◌∷◌,
  ◌++◌, some, ok, arith, length, take, drop, Bool-cases, Result-cases, inl, inr, length-take,
  length-drop, length-append,
}
use chimera_core.Chimera.Ip.{bytes_equal, bytes_equal-eq}
use chimera_core.Auth.Replay.{add}
use chimera_core.Auth.Token.{
  Authenticator, Request, second, put_uint64, uint64, put_field, trim_request, check_request,
  normalize_auth_fields, canonical_auth_input, out_of_time, timestamp_of, nonce_of, mac_of, any_key,
  mac_matches, record_nonce, validate,
}
use chimera_core.Auth.Token.Laws.{validate-Accepted}
use chimera_core.Auth.Token.Laws.Shape.{
  IsToken, uint64-append, body_parts, token_of-IsToken, parts_lem, IsToken-token_of,
}
use chimera_core.Auth.Token.Laws.Signed.{any_key-here}

-- The timestamp, a signed number of seconds, is within the skew of the clock.
abbrev pub IsInTime : ℕ → ℕ → ℕ → Type 0
IsInTime t skew now =
    ((t < 9223372036854775808) × (t * second ≤ now + skew) × (now ≤ t * second + skew))
    ⊎ ((9223372036854775808 ≤ t) × (now + (18446744073709551616 - t) * second ≤ skew))

-- A field is there and its length has 16 bits.
abbrev pub IsField : List ℕ → Type 0
IsField s = (0 < length s) × (length s ≤ 65535)

-- What the MAC covers.
abbrev pub signed_bytes : ℕ → List ℕ → Request → List ℕ
signed_bytes t nonce q =
    5
    ∷ (put_uint64 t
        ++ (nonce ++ (put_field q.method ++ (put_field q.authority ++ put_field q.server_name))))

out_of_time_iff : (t skew now : ℕ) → (out_of_time t skew now ≡ false) ↔ IsInTime t skew now
unfolding out_of_time
out_of_time_iff t skew now = (λ e. ground arith, λ h. ground arith)

-- The fields, trimmed and in one case, are there and have lengths of 16 bits.
abbrev pub AreFields : Request → Type 0
AreFields q = IsField q.method × IsField q.authority × IsField q.server_name

normalize_iff :
    (r q : Request)
    → (normalize_auth_fields r ≡ ok q) ↔ ((trim_request r ≡ q) × AreFields (trim_request r))
unfolding normalize_auth_fields check_request
normalize_iff r q = (λ e. ground arith, λ h. ground arith)

canonical_iff :
    (t : ℕ) (nonce : List ℕ) (q : Request) (input : List ℕ)
    → AreFields q
    → length nonce ≡ 16
    → (canonical_auth_input t nonce q ≡ ok input) ↔ (signed_bytes t nonce q ≡ input)
unfolding canonical_auth_input
canonical_iff t nonce q input fit size = (λ e. ground arith, λ h. ground arith)

module _ (hmac : List ℕ → List ℕ → List ℕ) where
  any_key-eq-true :
      (keys : List (List ℕ)) (input mac : List ℕ)
      → any_key hmac keys input mac ≡ true
      → (before : List (List ℕ)) × (key : List ℕ) × (behind : List (List ℕ)) × (keys
          ≡ before ++ (key ∷ behind))
        × (hmac key input ≡ mac)
  unfolding any_key
  any_key-eq-true [] input mac e = absurd (ground arith)
  any_key-eq-true (k ∷ keys) input mac e = elim (Bool-cases (bytes_equal (hmac k input) mac)) [
    | inl same ↦ ([], k, keys, refl, bytes_equal-eq (hmac k input) mac same)
    | inr differ ↦
        let (before, key, behind, split, same) = any_key-eq-true keys input mac (ground arith) in
        (k ∷ before, key, behind, ap (◌∷◌ k) split, same)
  ]

  mac_matches_iff :
      (keys : List (List ℕ)) (body : List ℕ) (r : Request)
      → length body ≡ 56
      → (mac_matches hmac keys body r ≡ true) ↔ (
          AreFields (trim_request r)
          × (any_key hmac keys
                (signed_bytes (timestamp_of hmac body) (nonce_of hmac body) (trim_request r))
                (mac_of hmac body)
              ≡ true))
  unfolding mac_matches
  mac_matches_iff keys body r size =
      let q = trim_request r in
      let t = timestamp_of hmac body in
      let nonce = nonce_of hmac body in
      let nonce_size : length nonce ≡ 16 =
        omega (arith, size, length-take 16 (drop 8 body), length-drop 8 body) in
      let reads : AreFields q
          → mac_matches hmac keys body r
            ≡ any_key hmac keys (signed_bytes t nonce q) (mac_of hmac body) =
        λ fit.
          rw ((normalize_iff r q).1 (refl, fit), mac_matches)
            (rw ((canonical_iff t nonce q (signed_bytes t nonce q) fit nonce_size).1 refl) refl) in
      (
        λ e. elim (Result-cases (normalize_auth_fields r)) [
          | inr (x, bad) ↦ absurd (ground arith)
          | inl (p, normal) ↦
              let fit = ((normalize_iff r p).0 normal).1 in (fit, sym (reads fit) ∙ e)
        ],
        λ h. reads h.0 ∙ h.1,
      )

  -- A token that is good for a request at a time, and the validator after it.
  pub record Genuine (a : Authenticator) (header : List ℕ) (r : Request) (now : ℕ)
      (b : Authenticator) : Type 0 where
    pub stamp : List ℕ
    pub nonce : List ℕ
    pub mac : List ℕ
    pub token : IsToken header stamp nonce mac
    pub in_time : IsInTime (uint64 stamp) a.max_skew now
    pub are_fields : AreFields (trim_request r)
    pub before : List (List ℕ)
    pub key : List ℕ
    pub behind : List (List ℕ)
    pub held : a.keys ≡ before ++ (key ∷ behind)
    pub mac_eq : hmac key (signed_bytes (uint64 stamp) nonce (trim_request r)) ≡ mac
    pub added : add a.replay nonce now ≡ some (b.replay, true)
    pub same : b ≡ record a { replay = b.replay }

  validate-Genuine :
      (a : Authenticator) (header : List ℕ) (r : Request) (now : ℕ) (b : Authenticator)
      → validate hmac a header r now ≡ some (b, true)
      → Genuine a header r now b
  validate-Genuine a header r now b e =
      let s = validate-Accepted hmac a header r now b e in
      let body = s.body in
      let token = token_of-IsToken hmac header body s.found in
      let size : length body ≡ 56 =
        omega (arith, length-take 8 body, length-drop 24 body, token.stamp_size, token.mac_size) in
      let stamp : timestamp_of hmac body ≡ uint64 (take 8 body) =
        ap uint64 (body_parts hmac body)
        ∙ uint64-append (take 8 body) (nonce_of hmac body ++ mac_of hmac body) token.stamp_size in
      let (fit, right) = (mac_matches_iff a.keys body r size).0 s.matched in
      let (before, key, behind, held, made) = any_key-eq-true a.keys _ (mac_of hmac body) right in
      record {
        stamp = take 8 body;
        nonce = nonce_of hmac body;
        mac = mac_of hmac body;
        token = token;
        in_time =
            subst (λ t. IsInTime t a.max_skew now) stamp
              ((out_of_time_iff (timestamp_of hmac body) a.max_skew now).0 s.in_time);
        are_fields = fit;
        before = before;
        key = key;
        behind = behind;
        held = held;
        mac_eq =
            ap (λ t. hmac key (signed_bytes t (nonce_of hmac body) (trim_request r))) (sym stamp)
            ∙ made;
        added = s.added;
        same = ground (arith, s.skew_eq, s.keys_eq);
      }

  Genuine-validate :
      (a : Authenticator) (header : List ℕ) (r : Request) (now : ℕ) (b : Authenticator)
      → Genuine a header r now b
      → validate hmac a header r now ≡ some (b, true)
  unfolding validate record_nonce
  Genuine-validate a header r now b g =
      let body = g.stamp ++ (g.nonce ++ g.mac) in
      let found = IsToken-token_of hmac header g.stamp g.nonce g.mac g.token in
      let (stamp, nonce, mac) =
        parts_lem hmac g.stamp g.nonce g.mac g.token.stamp_size g.token.nonce_size in
      let size : length body ≡ 56 = omega (
        arith,
        g.token.stamp_size,
        g.token.nonce_size,
        g.token.mac_size,
        length-append g.stamp (g.nonce ++ g.mac),
        length-append g.nonce g.mac,
      ) in
      let time : out_of_time (timestamp_of hmac body) a.max_skew now ≡ false =
        (out_of_time_iff (timestamp_of hmac body) a.max_skew now).1
          (subst (λ t. IsInTime t a.max_skew now) (sym stamp) g.in_time) in
      let input = signed_bytes (uint64 g.stamp) g.nonce (trim_request r) in
      let right : any_key hmac a.keys input g.mac ≡ true =
        subst (λ ks. any_key hmac ks input g.mac ≡ true) (sym g.held)
          (subst (λ m. any_key hmac (g.before ++ (g.key ∷ g.behind)) input m ≡ true) g.mac_eq
            (any_key-here hmac g.before g.key g.behind input)) in
      let matched : mac_matches hmac a.keys body r ≡ true =
        (mac_matches_iff a.keys body r size).1 (g.are_fields, rw (stamp, nonce, mac) right) in
      let added : add a.replay (nonce_of hmac body) now ≡ some (b.replay, true) =
        ap (λ n. add a.replay n now) nonce ∙ g.added in
      rw (found, validate)
        (rw (time, matched) (rw (added, record_nonce) (ap (λ x. some (x, true)) (sym g.same))))

  -- `Validate` accepts a header for a request exactly if: it is the scheme, in any case of its letters, and
  -- the base64 of version 5, a timestamp of 8 bytes, a nonce of 16 and a MAC of 32; the timestamp, as a
  -- signed number of seconds, is no further from the clock than the skew; the request's fields, trimmed and
  -- each in its case, are not empty and have at most 65535 bytes; the MAC is that of version, timestamp,
  -- nonce and these fields under one of the keys; and the replay cache takes the nonce. It changes nothing but
  -- the replay cache.
  pub validate_iff :
      (a : Authenticator) (header : List ℕ) (r : Request) (now : ℕ) (b : Authenticator)
      → (validate hmac a header r now ≡ some (b, true)) ↔ Genuine a header r now b
  validate_iff a header r now b =
      (validate-Genuine a header r now b, Genuine-validate a header r now b)
