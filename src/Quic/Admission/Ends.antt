-- ===== src/Quic/Admission/Ends.antt =====
-- The loops of internal/quicx/auth.go that a request of server.go runs do end.
use chimera_core.Prelude.{
  ℕ, ◌≡◌, Bool, false, List, some, subst, sym, arith, Bool-cases, Option-cases, inl, inr,
}
use chimera_core.Auth.Replay.{ReplayEntry, ReplayCache, add}
use chimera_core.Auth.Replay.Order.{IsOrder, cache_of, add_order, add-cache_of}
use chimera_core.Auth.Token.{Authenticator, Request, token_of, nonce_of, record_nonce, validate}
use chimera_core.Quic.Admission.{Server, HttpRequest, is_connect, Entry, authenticate, limit, enter}

record_nonce_ends :
    (hmac : List ℕ → List ℕ → List ℕ) (capacity window : ℕ) (order : List ReplayEntry)
    (a : Authenticator) (nonce : List ℕ) (now : ℕ)
    → IsOrder capacity order
    → a.replay ≡ cache_of capacity window order
    → (p : Authenticator × Bool) × (record_nonce hmac a nonce now ≡ some p)
unfolding record_nonce
record_nonce_ends hmac capacity window order a nonce now v held =
    let r = add_order capacity window order nonce now in
    let ends =
      subst (λ (c : ReplayCache). add c nonce now ≡ some (cache_of capacity window r.0, r.1))
        (sym held) (add-cache_of capacity window order nonce now v) in
    ((record a { replay = cache_of capacity window r.0 }, r.1), ground arith)

validate_ends :
    (hmac : List ℕ → List ℕ → List ℕ) (capacity window : ℕ) (order : List ReplayEntry)
    (a : Authenticator) (header : List ℕ) (q : Request) (now : ℕ)
    → IsOrder capacity order
    → a.replay ≡ cache_of capacity window order
    → (p : Authenticator × Bool) × (validate hmac a header q now ≡ some p)
unfolding validate
validate_ends hmac capacity window order a header q now v held =
    elim (Option-cases (validate hmac a header q now)) [
      | inr (p, run) ↦ (p, run)
      | inl stuck ↦ elim (Option-cases (token_of hmac header)) [
        | inl bad ↦ absurd (ground arith)
        | inr (body, found) ↦
            let (p, ends) =
              record_nonce_ends hmac capacity window order a (nonce_of hmac body) now v held in
            absurd (ground arith)
      ]
    ]

-- With a valid replay cache, the two first lines of `ServeHTTP` end.
pub enter_ends :
    (hmac : List ℕ → List ℕ → List ℕ) (capacity window : ℕ) (order : List ReplayEntry) (s : Server)
    (r : HttpRequest) (now later : ℕ)
    → IsOrder capacity order
    → s.auth.replay ≡ cache_of capacity window order
    → (p : Server × Entry) × (enter hmac s r now later ≡ some p)
unfolding enter authenticate
enter_ends hmac capacity window order s r now later v held =
    let q : Request = record {
      method = r.method;
      authority = r.host;
      server_name = s.server_name;
    } in
    let ((a, good), ends) =
      validate_ends hmac capacity window order s.auth r.authorization q now v held in
    elim (Bool-cases (is_connect r)) [
      | inr other ↦ (limit hmac s r false later, ground arith)
      | inl connect ↦ (limit hmac (record s { auth = a }) r good later, ground arith)
    ]
