-- ===== src/Quic/Handler/Balance.antt =====
-- `ServeHTTP` of internal/quicx/server.go gives back what it takes.
use chimera_core.Prelude.{
  ℕ, ◌+◌, ◌-◌, ◌≡◌, refl, Bool, List, [], ◌∷◌, inl, inr, Option, some, arith, Option-cases,
  Result-cases, sym, subst, ap, ◌∙◌,
}
use chimera_core.Auth.Replay.{ReplayEntry}
use chimera_core.Auth.Replay.Order.{IsOrder, cache_of}
use chimera_core.Limiter.Invariant.{IsValid as IsLimiter}
use chimera_core.Quic.Admission.{
  Slots, Server, HttpRequest, Entry, refused, entered, enter, leave, take_slot, free_slot,
}
use chimera_core.Quic.Admission.Ends.{enter_ends}
use chimera_core.Quic.Admission.System.Bounds.{Entering, enter-Entering, leave-IsValid}
use chimera_core.Quic.Handler.{
  rate_limited, UdpAddr, Network, Effect, respond, opened, not_opened, closed, relay, socket_failed,
  socket_opened, socket_closed, udp_session, serve_unauthenticated, resolve, serve_target,
  serve_tcp, serve_socket, serve_udp_target, serve_udp_session, dispatch, serve_http,
}

-- The connections and sockets that are open, and the responses that were given.
pub record World : Type 0 where
  pub connections : ℕ
  pub sockets : ℕ
  pub responses : ℕ

unfoldable pub perform : Effect → World → World
perform (respond _) w = record w { responses = w.responses + 1 }
perform (opened _) w = record w { connections = w.connections + 1 }
perform (not_opened _) w = w
perform (closed _) w = record w { connections = w.connections - 1 }
perform (relay _) w = w
perform socket_failed w = w
perform socket_opened w = record w { sockets = w.sockets + 1 }
perform socket_closed w = record w { sockets = w.sockets - 1 }
perform (udp_session _) w = w

unfoldable pub perform_all : List Effect → World → World
unfolding perform
perform_all [] w = w
perform_all (e ∷ es) w = perform_all es (perform e w)

-- One response, and nothing left open.
abbrev pub Balanced : List Effect → Type 0
Balanced es = (w : World) → perform_all es w ≡ record w { responses = w.responses + 1 }

module _ (network : Network) where
  serve_target-Balanced :
      (r : HttpRequest) (target : List ℕ) → Balanced (serve_target network r target)
  unfolding serve_target perform perform_all
  serve_target-Balanced r target w = ground arith

  serve_tcp-Balanced : (r : HttpRequest) → Balanced (serve_tcp network r)
  unfolding serve_tcp perform perform_all
  serve_tcp-Balanced r w = elim (Result-cases (resolve network r.host)) [
    | inr (x, bad) ↦ ground arith
    | inl (target, good) ↦ ground (arith, serve_target-Balanced r target w)
  ]

  serve_socket-Balanced : (addr : UdpAddr) → Balanced (serve_socket network addr)
  unfolding serve_socket perform perform_all
  serve_socket-Balanced addr w = ground arith

  serve_udp_target-Balanced : (r : HttpRequest) → Balanced (serve_udp_target network r)
  unfolding serve_udp_target perform perform_all
  serve_udp_target-Balanced r w = elim (Result-cases (resolve network r.host)) [
    | inr (x, bad) ↦ ground arith
    | inl (target, good) ↦ elim (Option-cases (network.resolve_udp_addr target)) [
      | inl bad ↦ ground arith
      | inr (addr, found) ↦ ground (arith, serve_socket-Balanced addr w)
    ]
  ]

  serve_udp_session-Balanced :
      (s : Server) (r : HttpRequest) → Balanced (serve_udp_session network s r).1
  unfolding serve_udp_session perform perform_all
  serve_udp_session-Balanced s r w = ground (arith, serve_udp_target-Balanced r w)

  dispatch-Balanced :
      (s : Server) (r : HttpRequest) (good : Bool) → Balanced (dispatch network s r good).1
  unfolding dispatch serve_unauthenticated perform perform_all
  dispatch-Balanced s r good w =
      ground (arith, serve_udp_session-Balanced s r w, serve_tcp-Balanced r w)

  -- The slot is given back.
  slot_back : (s t : Server) → take_slot s ≡ some t → free_slot t ≡ s
  unfolding take_slot free_slot
  slot_back s t e = elim (Option-cases s.udp_slots) [
    | inl bad ↦ absurd (ground arith)
    | inr (c, found) ↦
        let one_more : Server = record s { udp_slots = some (record c { used = c.used + 1 }) } in
        let same : one_more ≡ t = ground arith in
        let back : c.used + 1 - 1 ≡ c.used = omega arith in
        ap (λ (x : Server). free_slot x) (sym same)
        ∙ ap (λ (n : ℕ). record s { udp_slots = some (record c { used = n }) }) back
        ∙ ap (λ (o : Option Slots). record s { udp_slots = o }) (sym found)
  ]

  serve_udp_session_same : (s : Server) (r : HttpRequest) → (serve_udp_session network s r).0 ≡ s
  unfolding serve_udp_session
  serve_udp_session_same s r = elim (Option-cases (take_slot s)) [
    | inl full ↦ ground arith
    | inr (t, taken) ↦ ground (arith, slot_back s t taken)
  ]

  dispatch_same : (s : Server) (r : HttpRequest) (good : Bool) → (dispatch network s r good).0 ≡ s
  unfolding dispatch
  dispatch_same s r good = ground (arith, serve_udp_session_same s r)

  -- What a call leaves of the server `s`.
  abbrev pub Back : Server → Server → List Effect → Type 0
  Back s u effects =
      Balanced effects × (u.udp_slots ≡ s.udp_slots) × (u.limiter.in_use ≡ s.limiter.in_use)

  refused-Back :
      (s t : Server)
      → Entering s.limiter s.udp_slots (t, refused)
      → Back s t (respond rate_limited ∷ [])
  unfolding perform perform_all
  refused-Back s t (valid, same, count, slots) = ((λ w. refl), slots, omega (arith, count))

  entered-Back :
      (s t : Server) (r : HttpRequest) (good : Bool)
      → Entering s.limiter s.udp_slots (t, entered good)
      → Back s (leave (dispatch network t r good).0) (dispatch network t r good).1
  entered-Back s t r good (valid, same, count, slots) =
      let (kept, given, limits, channel) = leave-IsValid t valid in
      let here = ap (λ (x : Server). leave x) (dispatch_same t r good) in
      (
        dispatch-Balanced t r good,
        ap (λ (x : Server). x.udp_slots) here ∙ channel ∙ slots,
        ap (λ (x : Server). x.limiter.in_use) here ∙ omega (arith, given, count),
      )

  serve_http-Back :
      (hmac : List ℕ → List ℕ → List ℕ) (s u : Server) (r : HttpRequest) (now later : ℕ)
      (effects : List Effect)
      → IsLimiter s.limiter
      → serve_http network hmac s r now later ≡ some (u, effects)
      → Back s u effects
  unfolding serve_http
  serve_http-Back hmac s u r now later effects v e =
      elim (Option-cases (enter hmac s r now later)) [
        | inl stuck ↦ absurd (ground arith)
        | inr ((t, refused), run) ↦
            let result : Server × List Effect = (t, respond rate_limited ∷ []) in
            let whole : result ≡ (u, effects) = ground arith in
            subst (λ p. Back s p.0 p.1) whole
              (refused-Back s t (enter-Entering hmac s t r now later refused run v))
        | inr ((t, entered good), run) ↦
            let (t2, es) = dispatch network t r good in
            let result : Server × List Effect = (leave t2, es) in
            let whole : result ≡ (u, effects) = ground arith in
            subst (λ p. Back s p.0 p.1) whole
              (entered-Back s t r good (enter-Entering hmac s t r now later (entered good) run v))
      ]

  serve_http_ends :
      (hmac : List ℕ → List ℕ → List ℕ) (s : Server) (r : HttpRequest) (now later : ℕ)
      (p : Server × Entry)
      → enter hmac s r now later ≡ some p
      → (q : Server × List Effect) × (serve_http network hmac s r now later ≡ some q)
  unfolding serve_http
  serve_http_ends hmac s r now later (t, refused) e = ((t, respond rate_limited ∷ []), ground arith)
  serve_http_ends hmac s r now later (t, entered good) e =
      let (t2, es) = dispatch network t r good in ((leave t2, es), ground arith)

  -- On a server with a valid limiter and a valid replay cache, whatever request comes, ServeHTTP ends
  -- (the relay, an effect, left aside), gives exactly one response, closes each connection and socket that it opened, and gives back its
  -- place in the limiter and its UDP slot.
  pub serve_http-Balanced :
      (hmac : List ℕ → List ℕ → List ℕ) (capacity window : ℕ) (order : List ReplayEntry)
      (s : Server) (r : HttpRequest) (now later : ℕ)
      → IsOrder capacity order
      → s.auth.replay ≡ cache_of capacity window order
      → IsLimiter s.limiter
      → (q : Server × List Effect) × (serve_http network hmac s r now later ≡ some q)
        × Back s q.0 q.1
  serve_http-Balanced hmac capacity window order s r now later v held valid =
      let (p, entry) = enter_ends hmac capacity window order s r now later v held in
      let ((u, effects), run) = serve_http_ends hmac s r now later p entry in
      ((u, effects), run, serve_http-Back hmac s u r now later effects valid run)
