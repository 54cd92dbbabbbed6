-- ===== src/Auth/Token/Laws/Once.antt =====
-- A token of internal/quicx/auth.go is accepted once.
use chimera_core.Prelude.{
  ℕ, ◌+◌, ◌*◌, ◌≤◌, ◌<◌, ◌≡◌, sym, subst, true, false, List, [], ◌∷◌, some, arith, ltb, Bool-cases,
  inl, inr, All,
}
use chimera_core.Auth.Replay.{ReplayCache, ReplayEntry, add}
use chimera_core.Auth.Replay.Order.{IsOrder, cache_of}
use chimera_core.Auth.Replay.Laws.{add_all, add_refuses_replay}
use chimera_core.Auth.Token.{
  Authenticator, Request, second, out_of_time, timestamp_of, nonce_of, token_of, mac_matches,
  record_nonce, validate,
}
use chimera_core.Auth.Token.Laws.{validate-Accepted, out_of_time_after}

abbrev pub window_of : Authenticator → ℕ
window_of a = 2 * a.max_skew + second

before_end :
    (later limit : ℕ) (calls : List (List ℕ × ℕ))
    → later < limit
    → All (λ call. call.1 ≤ later) calls
    → All (λ call. call.1 < limit) calls
before_end later limit [] h w = tt
before_end later limit (c ∷ calls) h w = (omega (arith, w.0), before_end later limit calls h w.1)

module _ (hmac : List ℕ → List ℕ → List ℕ) where
  refused :
      (b : Authenticator) (header : List ℕ) (q : Request) (later : ℕ) (body : List ℕ)
      → token_of hmac header ≡ some body
      → out_of_time (timestamp_of hmac body) b.max_skew later ≡ true
      → validate hmac b header q later ≡ some (b, false)
  unfolding validate
  refused b header q later body found late = rw (found, validate) (rw late)

  seen :
      (b : Authenticator) (header : List ℕ) (q : Request) (later : ℕ) (body : List ℕ)
      (c : ReplayCache)
      → token_of hmac header ≡ some body
      → add b.replay (nonce_of hmac body) later ≡ some (c, false)
      → (b' : Authenticator) × (validate hmac b header q later ≡ some (b', false))
  unfolding validate record_nonce
  seen b header q later body c found old =
      elim (Bool-cases (out_of_time (timestamp_of hmac body) b.max_skew later)) [
        | inl late ↦ (b, rw (found, validate) (rw late))
        | inr in_time ↦ elim (Bool-cases (mac_matches hmac b.keys body q)) [
          | inr forged ↦ (b, rw (found, validate) (rw (in_time, forged)))
          | inl matched ↦ (
            record b { replay = c },
            rw (found, validate) (rw (in_time, matched) (rw (old, record_nonce))),
          )
        ]
      ]

  -- With a valid replay cache whose window is that of `NewAuthenticator`: a token that `Validate` has
  -- accepted is refused from then on, for any request, if the calls of `Add` in between are no later
  -- than this and took fewer nonces than the capacity. While its timestamp is in time, its nonce is
  -- still in the replay cache.
  pub validate_once :
      (capacity : ℕ) (order : List ReplayEntry) (a b : Authenticator) (header : List ℕ)
      (r q : Request) (now later : ℕ) (calls : List (List ℕ × ℕ)) (c : ReplayCache) (taken : ℕ)
      → IsOrder capacity order
      → a.replay ≡ cache_of capacity (2 * a.max_skew + second) order
      → validate hmac a header r now ≡ some (b, true)
      → All (λ call. call.1 ≤ later) calls
      → add_all b.replay calls ≡ some (c, taken)
      → taken < capacity
      → (b' : Authenticator) × (validate hmac (record b { replay = c }) header q later
          ≡ some (b', false))
  validate_once capacity order a b header r q now later calls c taken v cache yes' times run few =
      let s = validate-Accepted hmac a header r now b yes' in
      let window = 2 * a.max_skew + second in
      let next = record b { replay = c } in
      elim (Bool-cases (ltb later (now + window))) [
        | inr over ↦
            let late =
              out_of_time_after (timestamp_of hmac s.body) a.max_skew now later s.in_time
                (ground arith) in
            (
              next,
              refused next header q later s.body s.found (
                  subst (λ k. out_of_time (timestamp_of hmac s.body) k later ≡ true) (sym s.skew_eq)
                    late),
            )
        | inl soon ↦
            let added =
              subst (λ k. add k (nonce_of hmac s.body) now ≡ some (b.replay, true)) cache s.added in
            let (c', old) =
              add_refuses_replay capacity window order (nonce_of hmac s.body) now later b.replay c
                calls taken v added (before_end later (now + window) calls (ground arith) times) run
                few (ground arith) in
            seen next header q later s.body c' s.found old
      ]
