-- ===== src/Auth/Token/Laws.antt =====
-- What `Sign` and `Validate` of internal/quicx/auth.go promise each other.
pub mod Once
pub mod Signed
pub mod Shape
pub mod Genuine
use chimera_core.Prelude.{
  ℕ, suc, ◌+◌, ◌*◌, ◌≤◌, ◌≡◌, refl, Bool, true, false, not, ◌||◌, List, Option, none, some, arith,
  ltb, if◌then◌else◌, Option-cases, Bool-cases, inl, inr,
}
use chimera_core.Auth.Replay.{ReplayCache, add}
use chimera_core.Auth.Token.{
  Authenticator, Request, second, out_of_time, timestamp_of, nonce_of, token_of, mac_matches,
  record_nonce, validate,
}

module _ (hmac : List ℕ → List ℕ → List ℕ) where
  -- What an acceptance says.
  pub record Accepted (a : Authenticator) (header : List ℕ) (r : Request) (now : ℕ)
      (b : Authenticator) : Type 0 where
    pub body : List ℕ
    pub found : token_of hmac header ≡ some body
    pub in_time : out_of_time (timestamp_of hmac body) a.max_skew now ≡ false
    pub matched : mac_matches hmac a.keys body r ≡ true
    pub added : add a.replay (nonce_of hmac body) now ≡ some (b.replay, true)
    pub skew_eq : b.max_skew ≡ a.max_skew
    pub keys_eq : b.keys ≡ a.keys

  -- `Validate` accepts only a token with the right scheme and version, in time, whose MAC is that of
  -- the request under one of the keys, and whose nonce the replay cache takes. It changes nothing but
  -- the replay cache.
  pub validate-Accepted :
      (a : Authenticator) (header : List ℕ) (r : Request) (now : ℕ) (b : Authenticator)
      → validate hmac a header r now ≡ some (b, true)
      → Accepted a header r now b
  unfolding validate record_nonce
  validate-Accepted a header r now b e = elim (Option-cases (token_of hmac header)) [
    | inl bad ↦ absurd (ground arith)
    | inr (body, found) ↦ elim (Bool-cases (out_of_time (timestamp_of hmac body) a.max_skew now)) [
      | inl late ↦ absurd (ground arith)
      | inr in_time ↦ elim (Bool-cases (mac_matches hmac a.keys body r)) [
        | inr forged ↦ absurd (ground arith)
        | inl matched ↦ elim (Option-cases (add a.replay (nonce_of hmac body) now)) [
          | inl stuck ↦ absurd (ground arith)
          | inr (p, added) ↦ record {
            body = body;
            found = found;
            in_time = in_time;
            matched = matched;
            added = ground arith;
            skew_eq = ground arith;
            keys_eq = ground arith;
          }
        ]
      ]
    ]
  ]

-- A timestamp in time at `now` is out of time once the replay window is over.
pub out_of_time_after :
    (timestamp skew now later : ℕ)
    → out_of_time timestamp skew now ≡ false
    → now + (2 * skew + second) ≤ later
    → out_of_time timestamp skew later ≡ true
unfolding out_of_time
out_of_time_after timestamp skew now later e h = ground arith
