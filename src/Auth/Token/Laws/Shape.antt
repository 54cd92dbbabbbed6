-- ===== src/Auth/Token/Laws/Shape.antt =====
-- The tokens of internal/quicx/auth.go, byte by byte.
use chimera_core.Prelude.{
  ℕ, zero, suc, ◌+◌, ◌≡◌, refl, sym, subst, ap, ◌∙◌, List, [], ◌∷◌, ◌++◌, some, arith, length, take,
  drop, Option-cases, Bool-cases, inl, inr, take-append-drop, length-take, length-drop,
  length-append, take-length_append, drop-length_append,
}
use chimera_core.Prelude.Text.{fields, to_lower}
use chimera_core.Prelude.Base64.{decode64}
use chimera_core.Chimera.Ip.{bytes_equal, bytes_equal-eq, bytes_equal_refl}
use chimera_core.Auth.Token.{auth_scheme, uint64, timestamp_of, nonce_of, mac_of, token_of}

-- The header is the scheme, in any case, and the base64 of version 5, a timestamp, a nonce and a MAC.
pub record IsToken (header stamp nonce mac : List ℕ) : Type 0 where
  pub scheme : List ℕ
  pub text : List ℕ
  pub words : fields header ≡ scheme ∷ text ∷ []
  pub scheme_eq : to_lower scheme ≡ to_lower auth_scheme
  pub decoded : decode64 text ≡ some (5 ∷ (stamp ++ (nonce ++ mac)))
  pub stamp_size : length stamp ≡ 8
  pub nonce_size : length nonce ≡ 16
  pub mac_size : length mac ≡ 32

nil_of_drop : (n : ℕ) → ◌≡◌ {A = List ℕ} [] (drop n [])
nil_of_drop zero = refl
nil_of_drop (suc n) = refl

drop-drop : (m n : ℕ) (xs : List ℕ) → drop m (drop n xs) ≡ drop (n + m) xs
drop-drop m zero xs = ap (λ k. drop k xs) (omega arith)
drop-drop zero (suc n) [] = nil_of_drop (suc n + 0)
drop-drop (suc m) (suc n) [] = nil_of_drop (suc n + suc m)
drop-drop m (suc n) (x ∷ xs) =
    let next : suc (n + m) ≡ suc n + m = omega arith in
    drop-drop m n xs ∙ ap (λ k. drop k (x ∷ xs)) next

pub uint64-append : (stamp more : List ℕ) → length stamp ≡ 8 → uint64 (stamp ++ more) ≡ uint64 stamp
uint64-append (a ∷ b ∷ c ∷ d ∷ e ∷ f ∷ g ∷ h ∷ l) more size = refl
uint64-append [] more size = absurd (omega (arith, size))
uint64-append (a ∷ []) more size = absurd (omega (arith, size))
uint64-append (a ∷ b ∷ []) more size = absurd (omega (arith, size))
uint64-append (a ∷ b ∷ c ∷ []) more size = absurd (omega (arith, size))
uint64-append (a ∷ b ∷ c ∷ d ∷ []) more size = absurd (omega (arith, size))
uint64-append (a ∷ b ∷ c ∷ d ∷ e ∷ []) more size = absurd (omega (arith, size))
uint64-append (a ∷ b ∷ c ∷ d ∷ e ∷ f ∷ []) more size = absurd (omega (arith, size))
uint64-append (a ∷ b ∷ c ∷ d ∷ e ∷ f ∷ g ∷ []) more size = absurd (omega (arith, size))

module _ (hmac : List ℕ → List ℕ → List ℕ) where
  -- The words of the header, and the token.
  two_words_lem :
      (header body scheme text : List ℕ)
      → fields header ≡ scheme ∷ text ∷ []
      → token_of hmac header ≡ some body
      → (to_lower scheme ≡ to_lower auth_scheme)
        × (decode64 text ≡ some (5 ∷ body))
        × (length body ≡ 56)
  unfolding token_of
  two_words_lem header body scheme text words e =
      let e' = rw (words, token_of) at e in
      elim (Bool-cases (bytes_equal (to_lower scheme) (to_lower auth_scheme))) [
        | inr other ↦ absurd (ground arith)
        | inl same ↦ elim (Option-cases (decode64 text)) [
          | inl bad ↦ absurd (ground arith)
          | inr ([], empty) ↦ absurd (ground arith)
          | inr (version ∷ found, decoded) ↦ (bytes_equal-eq _ _ same, ground arith, ground arith)
        ]
      ]

  token_of-words :
      (header body : List ℕ) (words : List (List ℕ))
      → fields header ≡ words
      → token_of hmac header ≡ some body
      → (scheme : List ℕ) × (text : List ℕ) × (fields header ≡ scheme ∷ text ∷ [])
  unfolding token_of
  token_of-words header body [] words e = absurd (ground (arith, rw (words, token_of) at e))
  token_of-words header body (a ∷ []) words e = absurd (ground (arith, rw (words, token_of) at e))
  token_of-words header body (a ∷ b ∷ []) words e = (a, b, words)
  token_of-words header body (a ∷ b ∷ c ∷ l) words e =
      absurd (ground (arith, rw (words, token_of) at e))

  -- A list of bytes is a timestamp, a nonce and a MAC.
  pub body_parts : (body : List ℕ) → body ≡ take 8 body ++ (nonce_of hmac body ++ mac_of hmac body)
  body_parts body =
      sym (take-append-drop 8 body)
      ∙ ap (λ (l : List ℕ). take 8 body ++ l)
          (sym (take-append-drop 16 (drop 8 body))
            ∙ ap (λ (l : List ℕ). nonce_of hmac body ++ l) (drop-drop 16 8 body))

  pub token_of-IsToken :
      (header body : List ℕ)
      → token_of hmac header ≡ some body
      → IsToken header (take 8 body) (nonce_of hmac body) (mac_of hmac body)
  token_of-IsToken header body e =
      let (scheme, text, words) = token_of-words header body (fields header) refl e in
      let (same, decoded, size) = two_words_lem header body scheme text words e in
      record {
        scheme = scheme;
        text = text;
        words = words;
        scheme_eq = same;
        decoded = decoded ∙ ap (λ (l : List ℕ). some (5 ∷ l)) (body_parts body);
        stamp_size = omega (arith, size, length-take 8 body);
        nonce_size = omega (arith, size, length-take 16 (drop 8 body), length-drop 8 body);
        mac_size = omega (arith, size, length-drop 24 body);
      }

  -- The parts of a body.
  pub parts_lem :
      (stamp nonce mac : List ℕ)
      → length stamp ≡ 8
      → length nonce ≡ 16
      → (timestamp_of hmac (stamp ++ (nonce ++ mac)) ≡ uint64 stamp)
        × (nonce_of hmac (stamp ++ (nonce ++ mac)) ≡ nonce)
        × (mac_of hmac (stamp ++ (nonce ++ mac)) ≡ mac)
  parts_lem stamp nonce mac size nonce_size =
      let behind : drop 8 (stamp ++ (nonce ++ mac)) ≡ nonce ++ mac =
        subst (λ n. drop n (stamp ++ (nonce ++ mac)) ≡ nonce ++ mac) size
          (drop-length_append stamp (nonce ++ mac)) in
      (
        uint64-append stamp (nonce ++ mac) size,
        ap (λ (l : List ℕ). take 16 l) behind
            ∙ subst (λ n. take n (nonce ++ mac) ≡ nonce) nonce_size (take-length_append nonce mac),
        sym (drop-drop 16 8 (stamp ++ (nonce ++ mac)))
            ∙ ap (λ (l : List ℕ). drop 16 l) behind
            ∙ subst (λ n. drop n (nonce ++ mac) ≡ mac) nonce_size (drop-length_append nonce mac),
      )

  pub IsToken-token_of :
      (header stamp nonce mac : List ℕ)
      → IsToken header stamp nonce mac
      → token_of hmac header ≡ some (stamp ++ (nonce ++ mac))
  unfolding token_of
  IsToken-token_of header stamp nonce mac k =
      let body = stamp ++ (nonce ++ mac) in
      let size : length body ≡ 56 = omega (
        arith,
        k.stamp_size,
        k.nonce_size,
        k.mac_size,
        length-append stamp (nonce ++ mac),
        length-append nonce mac,
      ) in
      rw (k.words, token_of)
        (rw (k.scheme_eq, bytes_equal_refl (to_lower auth_scheme)) (rw k.decoded (rw size refl)))
