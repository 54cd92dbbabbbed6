-- ===== src/Server/Keys.antt =====
-- The keys of cmd/chimera-server/main.go are those of its clients.
use chimera_core.Prelude.{
  ℕ, ◌≤◌, ◌<◌, ◌≡◌, sym, subst, ap, ◌∙◌, List, [], ◌∷◌, ◌++◌, ok, ◌==◌, length, All, arith,
  Bool-cases, Result-cases, inl, inr,
}
use chimera_core.Prelude.Text.{trim_space}
use chimera_core.Auth.Token.{derive_auth_key}
use chimera_core.Server.{
  split_byte, short_id_of, short_ids_of, parse_short_ids, derive_keys, derive_server_auth_keys,
}

abbrev pub IsShortId : List ℕ → Type 0
IsShortId s = (0 < length s) × (length s ≤ 8)

short_id_of-IsShortId : (item s : List ℕ) → short_id_of item ≡ ok s → IsShortId s
unfolding short_id_of
short_id_of-IsShortId item s e = ground arith

short_ids_of-All : (items ids : List (List ℕ)) → short_ids_of items ≡ ok ids → All IsShortId ids
unfolding short_ids_of
short_ids_of-All [] [] e = tt
short_ids_of-All [] (s ∷ ids) e = absurd (ground arith)
short_ids_of-All (item ∷ items) ids e = elim (Bool-cases (length (trim_space item) == 0)) [
  | inl blank ↦ short_ids_of-All items ids (ground arith)
  | inr text ↦ elim (Result-cases (short_id_of (trim_space item))) [
    | inr (x, bad) ↦ absurd (ground arith)
    | inl (s, good) ↦ elim (Result-cases (short_ids_of items)) [
      | inr (x, bad) ↦ absurd (ground arith)
      | inl (more, run) ↦
          let same : s ∷ more ≡ ids = ground arith in
          subst (All IsShortId) same
            (short_id_of-IsShortId (trim_space item) s good, short_ids_of-All items more run)
    ]
  ]
]

-- A place in a list.
record Has (k : List ℕ) (keys : List (List ℕ)) : Type 0 where
  before : List (List ℕ)
  behind : List (List ℕ)
  place : keys ≡ before ++ (k ∷ behind)

module _ (hkdf : List ℕ → List ℕ → List ℕ → List ℕ) where
  derive_keys-Has :
      (psk public_key : List ℕ) (before behind keys : List (List ℕ)) (short_id : List ℕ)
      → derive_keys hkdf psk public_key (before ++ (short_id ∷ behind)) ≡ ok keys
      → (key : List ℕ) × (derive_auth_key hkdf psk public_key short_id ≡ ok key) × Has key keys
  unfolding derive_keys
  derive_keys-Has psk public_key [] behind keys short_id e =
      elim (Result-cases (derive_auth_key hkdf psk public_key short_id)) [
        | inr (x, bad) ↦ absurd (ground arith)
        | inl (key, good) ↦ elim (Result-cases (derive_keys hkdf psk public_key behind)) [
          | inr (x, bad) ↦ absurd (ground arith)
          | inl (more, run) ↦
              (key, good, record { before = []; behind = more; place = ground arith })
        ]
      ]
  derive_keys-Has psk public_key (s ∷ before) behind keys short_id e =
      elim (Result-cases (derive_auth_key hkdf psk public_key s)) [
        | inr (x, bad) ↦ absurd (ground arith)
        | inl (first, good) ↦
            elim (Result-cases (derive_keys hkdf psk public_key (before ++ (short_id ∷ behind)))) [
              | inr (x, bad) ↦ absurd (ground arith)
              | inl (more, run) ↦
                  let (key, made, h) =
                    derive_keys-Has psk public_key before behind more short_id run in
                  let whole : first ∷ more ≡ keys = ground arith in
                  (
                    key,
                    made,
                    record {
                      before = first ∷ h.before;
                      behind = h.behind;
                      place = sym whole ∙ ap (λ (l : List (List ℕ)). first ∷ l) h.place;
                    },
                  )
            ]
      ]

  -- A client with one of the short IDs that the server's option lists derives, from the same secret
  -- and public key, a key that is among the server's, and each of these short IDs has 1 to 8 bytes.
  pub derive_server_auth_keys-has :
      (value psk public_key : List ℕ) (before behind keys : List (List ℕ)) (short_id : List ℕ)
      → parse_short_ids value ≡ ok (before ++ (short_id ∷ behind))
      → derive_server_auth_keys hkdf psk public_key (before ++ (short_id ∷ behind)) ≡ ok keys
      → All IsShortId (before ++ (short_id ∷ behind))
        × ((key : List ℕ) × (derive_auth_key hkdf psk public_key short_id ≡ ok key)
            × ((front : List (List ℕ)) × (back : List (List ℕ)) × (keys ≡ front ++ (key ∷ back))))
  unfolding parse_short_ids derive_server_auth_keys
  derive_server_auth_keys-has value psk public_key before behind keys short_id parsed derived =
      let run : derive_keys hkdf psk public_key (before ++ (short_id ∷ behind)) ≡ ok keys =
        ground arith in
      let (key, made, h) = derive_keys-Has psk public_key before behind keys short_id run in
      (short_ids_of-All (split_byte 44 value) _ parsed, (key, made, (h.before, h.behind, h.place)))
