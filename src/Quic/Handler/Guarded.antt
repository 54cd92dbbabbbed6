-- ===== src/Quic/Handler/Guarded.antt =====
-- Who gets what from `ServeHTTP` of internal/quicx/server.go.
use chimera_core.Prelude.{
  ℕ, ◌≡◌, ◌≢◌, Bool, true, false, ◌||◌, ◌==◌, List, [], ◌∷◌, ◌⊎◌, inl, inr, some, All, arith,
  Bool-cases, Option-cases, Result-cases, subst, sym, ap, ◌∙◌, if◌then◌else◌,
}
use chimera_core.Chimera.Resolve.Safe.{Safe, resolve_and_validate_authority-Safe}
use chimera_core.Auth.Token.{Authenticator}
use chimera_core.Limiter.{allow}
use chimera_core.Decoy.{Response, serve_status}
use chimera_core.Quic.Admission.{
  Server, HttpRequest, is_connect, validate_request, authenticate, limit, enter,
}
use chimera_core.Quic.Handler.{
  rate_limited, UdpAddr, Network, Effect, respond, opened, not_opened, closed, relay, socket_failed,
  socket_opened, socket_closed, udp_session, is_nil, serve_unauthenticated, resolve, serve_target,
  serve_tcp, serve_socket, serve_udp_target, serve_udp_session, dispatch, serve_http,
}

module _ (network : Network) where
  abbrev pub SafeTarget : List ℕ → List ℕ → Type 0
  SafeTarget host target = Safe network.parse_ip network.ip_string network.lookup host target

  -- The address of a UDP session.
  pub record SafeAddr (host : List ℕ) (addr : UdpAddr) : Type 0 where
    pub target : List ℕ
    pub safe : SafeTarget host target
    pub found : network.resolve_udp_addr target ≡ some addr
    pub has_ip : is_nil addr.ip ≡ false
    pub has_port : addr.port ≢ 0

  -- What an authenticated request for `host` may do: no address but those that the guard lets through.
  abbrev pub Permitted : List ℕ → Effect → Type 0
  Permitted host (respond _) = Unit
  Permitted host (opened target) = SafeTarget host target
  Permitted host (not_opened target) = SafeTarget host target
  Permitted host (closed target) = SafeTarget host target
  Permitted host (relay target) = SafeTarget host target
  Permitted host socket_failed = Unit
  Permitted host socket_opened = Unit
  Permitted host socket_closed = Unit
  Permitted host (udp_session addr) = SafeAddr host addr

  serve_target-All :
      (r : HttpRequest) (target : List ℕ)
      → SafeTarget r.host target
      → All (Permitted r.host) (serve_target network r target)
  unfolding serve_target
  serve_target-All r target safe = ground arith

  serve_tcp-All : (r : HttpRequest) → All (Permitted r.host) (serve_tcp network r)
  unfolding serve_tcp
  serve_tcp-All r = elim (Result-cases (resolve network r.host)) [
    | inr (x, bad) ↦ ground arith
    | inl (target, good) ↦
        let safe =
          resolve_and_validate_authority-Safe network.parse_ip network.ip_string network.lookup
            r.host target good in
        ground (arith, serve_target-All r target safe)
  ]

  serve_socket-All :
      (r : HttpRequest) (addr : UdpAddr)
      → SafeAddr r.host addr
      → All (Permitted r.host) (serve_socket network addr)
  unfolding serve_socket
  serve_socket-All r addr safe = ground arith

  serve_udp_target-All : (r : HttpRequest) → All (Permitted r.host) (serve_udp_target network r)
  unfolding serve_udp_target
  serve_udp_target-All r = elim (Result-cases (resolve network r.host)) [
    | inr (x, bad) ↦ ground arith
    | inl (target, good) ↦ elim (Option-cases (network.resolve_udp_addr target)) [
      | inl bad ↦ ground arith
      | inr (addr, found) ↦ elim (Bool-cases (is_nil addr.ip || addr.port == 0)) [
        | inl bad ↦ ground arith
        | inr fine ↦
            let safe : SafeAddr r.host addr = record {
              target = target;
              safe =
                  resolve_and_validate_authority-Safe network.parse_ip network.ip_string
                    network.lookup r.host target good;
              found = found;
              has_ip = ground arith;
              has_port = ground arith;
            } in
            ground (arith, serve_socket-All r addr safe)
      ]
    ]
  ]

  serve_udp_session-All :
      (s : Server) (r : HttpRequest) → All (Permitted r.host) (serve_udp_session network s r).1
  unfolding serve_udp_session
  serve_udp_session-All s r = ground (arith, serve_udp_target-All r)

  -- The page of the decoy for a request.
  abbrev pub decoy_page : Server → HttpRequest → Response
  decoy_page s r = serve_status s.decoy r.method (if is_connect r then 404 else 0)

  module _ (hmac : List ℕ → List ℕ → List ℕ) where
    -- The three things that a request may get.
    pub record Served (s : Server) (r : HttpRequest) (now : ℕ) (effects : List Effect)
        : Type 0 where
      pub connect : is_connect r ≡ true
      pub auth : Authenticator
      pub valid : validate_request hmac s r now ≡ some (auth, true)
      pub permitted : All (Permitted r.host) effects

    abbrev pub Outcome : Server → HttpRequest → ℕ → List Effect → Type 0
    Outcome s r now effects =
        (effects ≡ respond rate_limited ∷ [])
        ⊎ ((effects ≡ respond (decoy_page s r) ∷ []) ⊎ Served s r now effects)

    dispatch-connect :
        (s : Server) (r : HttpRequest)
        → is_connect r ≡ true
        → All (Permitted r.host) (dispatch network s r true).1
    unfolding dispatch
    dispatch-connect s r e = ground (arith, serve_udp_session-All s r, serve_tcp-All r)

    dispatch-stranger :
        (s : Server) (r : HttpRequest)
        → (dispatch network s r false).1 ≡ respond (decoy_page s r) ∷ []
    unfolding dispatch serve_unauthenticated
    dispatch-stranger s r = ground arith

    authenticate-valid :
        (s t : Server) (r : HttpRequest) (now : ℕ)
        → authenticate hmac s r now ≡ some (t, true)
        → (is_connect r ≡ true)
          × ((a : Authenticator) × (validate_request hmac s r now ≡ some (a, true)))
    unfolding authenticate
    authenticate-valid s t r now e = elim (Bool-cases (is_connect r)) [
      | inr other ↦ absurd (ground arith)
      | inl connect ↦ elim (Option-cases (validate_request hmac s r now)) [
        | inl stuck ↦ absurd (ground arith)
        | inr ((a, good), run) ↦ (connect, (a, ground arith))
      ]
    ]

    authenticate-decoy :
        (s t : Server) (r : HttpRequest) (now : ℕ) (good : Bool)
        → authenticate hmac s r now ≡ some (t, good)
        → t.decoy ≡ s.decoy
    unfolding authenticate
    authenticate-decoy s t r now good e = ground arith

    -- The handler from the limiter on.
    admitted :
        (s t : Server) (r : HttpRequest) (now later : ℕ) (good : Bool) (u : Server)
        (effects : List Effect)
        → authenticate hmac s r now ≡ some (t, good)
        → serve_http network hmac s r now later ≡ some (u, effects)
        → (allow t.limiter r.remote_addr good later).1 ≡ true
        → effects ≡ (dispatch network (limit hmac t r good later).0 r good).1
    unfolding serve_http enter limit
    admitted s t r now later good u effects e run room = ground arith

    refused_lem :
        (s t : Server) (r : HttpRequest) (now later : ℕ) (good : Bool) (u : Server)
        (effects : List Effect)
        → authenticate hmac s r now ≡ some (t, good)
        → serve_http network hmac s r now later ≡ some (u, effects)
        → (allow t.limiter r.remote_addr good later).1 ≡ false
        → effects ≡ respond rate_limited ∷ []
    unfolding serve_http enter limit
    refused_lem s t r now later good u effects e run full = ground arith

    -- What a request that is let in gets.
    answered :
        (s t : Server) (r : HttpRequest) (now later : ℕ) (good : Bool) (effects : List Effect)
        → authenticate hmac s r now ≡ some (t, good)
        → effects ≡ (dispatch network (limit hmac t r good later).0 r good).1
        → (effects ≡ respond (decoy_page s r) ∷ []) ⊎ Served s r now effects
    unfolding limit
    answered s t r now later true effects run e =
        let t' = (limit hmac t r true later).0 in
        let (connect, (a, valid)) = authenticate-valid s t r now run in
        inr (record {
          connect = connect;
          auth = a;
          valid = valid;
          permitted = subst (All (Permitted r.host)) (sym e) (dispatch-connect t' r connect);
        })
    answered s t r now later false effects run e =
        let t' = (limit hmac t r false later).0 in
        let same = authenticate-decoy s t r now false run in
        inl (
          e
          ∙ dispatch-stranger t' r
          ∙ ap (λ d. respond (serve_status d r.method (if is_connect r then 404 else 0)) ∷ []) same)

    -- Whatever request comes, ServeHTTP gives one of three things: the answer to too many requests and
    -- nothing else; the decoy's page and nothing else; or, only if the request is a CONNECT whose token
    -- Validate accepts, effects that dial and relay no address but those that
    -- ResolveAndValidateAuthority lets through for its host.
    pub serve_http-Outcome :
        (s u : Server) (r : HttpRequest) (now later : ℕ) (effects : List Effect)
        → serve_http network hmac s r now later ≡ some (u, effects)
        → Outcome s r now effects
    unfolding serve_http enter
    serve_http-Outcome s u r now later effects e = elim (Option-cases (authenticate hmac s r now)) [
      | inl stuck ↦ absurd (ground arith)
      | inr ((t, good), run) ↦ elim (Bool-cases (allow t.limiter r.remote_addr good later).1) [
        | inr full ↦ inl (refused_lem s t r now later good u effects run e full)
        | inl room ↦ inr (
            answered s t r now later good effects run
              (admitted s t r now later good u effects run e room))
      ]
    ]
