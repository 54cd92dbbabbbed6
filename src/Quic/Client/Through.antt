-- ===== src/Quic/Client/Through.antt =====
-- A client of internal/quicx/client.go and the server of server.go, end to end.
use chimera_core.Prelude.{
  ℕ, ◌+◌, ◌*◌, ◌/◌, ◌≤◌, ◌<◌, ◌≡◌, refl, true, false, List, [], ◌∷◌, ◌++◌, Option, none, some, ok,
  take, arith, Result-cases, inl, inr, sym, ap, ◌∙◌, subst, leb,
}
use chimera_core.Prelude.Bytes.{IsBytes}
use chimera_core.Prelude.Text.{to_lower}
use chimera_core.Chimera.Ip.{Ip}
use chimera_core.Chimera.Address.{Address}
use chimera_core.Auth.Token.{
  Authenticator, Request, second, key_of, normalize_auth_fields, sign, record_nonce,
}
use chimera_core.Auth.Token.Laws.Signed.{IsMac, validate-sign}
use chimera_core.Limiter.{Limiter, allow}
use chimera_core.Quic.Admission.{
  Server, HttpRequest, is_connect, connect_method, validate_request, entered, authenticate, limit,
  enter, leave,
}
use chimera_core.Quic.Handler.{
  accepted, wants_udp, Network, Effect, respond, opened, closed, relay, resolve, serve_target,
  serve_tcp, dispatch, serve_http,
}
use chimera_core.Quic.Client.{
  Client, Calls, connect_request, stream_opened, request_sent, exchange, authority_from_address,
  signed_request, dial_tcp,
}

module _ (hmac : List ℕ → List ℕ → List ℕ) (ip_string : Ip → List ℕ) where
  -- What the client has signed.
  record Signed (c : Client) (peer : List ℕ) (now : ℕ) (random : List ℕ) (r : HttpRequest)
      (authority : List ℕ) : Type 0 where
    authorization : List ℕ
    rest : List ℕ
    signed :
        sign hmac c.auth
          (record { method = connect_method; authority = authority; server_name = c.server_name })
          now
          random
        ≡ ok (authorization, rest)
    request_eq : r ≡ connect_request peer [] authority authorization

  signed_request-Signed :
      (c : Client) (peer : List ℕ) (now : ℕ) (random : List ℕ) (addr : Option Address)
      (r : HttpRequest) (authority : List ℕ)
      → signed_request hmac ip_string c peer [] now random addr ≡ ok (r, authority)
      → Signed c peer now random r authority
  unfolding signed_request
  signed_request-Signed c peer now random addr r authority e =
      elim (Result-cases (authority_from_address ip_string addr)) [
        | inr (x, bad) ↦ absurd (ground arith)
        | inl (text, good) ↦
            let q : Request = record {
              method = connect_method;
              authority = text;
              server_name = c.server_name;
            } in
            elim (Result-cases (sign hmac c.auth q now random)) [
              | inr (x, bad) ↦ absurd (ground arith)
              | inl ((authorization, rest), signed) ↦
                  let same : text ≡ authority = ground arith in
                  let whole : connect_request peer [] text authorization ≡ r = ground arith in
                  record {
                    authorization = authorization;
                    rest = rest;
                    signed =
                        subst
                          (λ a.
                            sign hmac c.auth
                              (record {
                                method = connect_method;
                                authority = a;
                                server_name = c.server_name;
                              })
                              now random
                            ≡ ok (authorization, rest))
                          same signed;
                    request_eq =
                        sym whole
                        ∙ ap (λ (a : List ℕ). connect_request peer [] a authorization) same;
                  }
            ]
      ]

  validated :
      (c : Client) (s : Server) (peer : List ℕ) (now later : ℕ) (random : List ℕ) (r : HttpRequest)
      (authority : List ℕ) (before behind : List (List ℕ))
      → IsMac hmac
      → IsBytes random
      → Signed c peer now random r authority
      → s.server_name ≡ c.server_name
      → s.auth.keys ≡ before ++ (key_of c.auth.keys ∷ behind)
      → now / second < 9223372036854775808
      → later ≤ now / second * second + s.auth.max_skew
      → now / second * second ≤ later + s.auth.max_skew
      → validate_request hmac s r later ≡ record_nonce hmac s.auth (take 16 random) later
  unfolding connect_request
  validated c s peer now later random r authority before behind mac bytes sent name keys range late
        early =
      let q : List ℕ → Request =
        λ n. record { method = connect_method; authority = authority; server_name = n } in
      ap (λ (x : HttpRequest). validate_request hmac s x later) sent.request_eq
      ∙ validate-sign hmac c.auth s.auth (q c.server_name) (q s.server_name) now later random
          sent.authorization sent.rest before behind mac bytes sent.signed
          (ap (λ (n : List ℕ). normalize_auth_fields (q n)) name) keys range late early

  -- A server that accepts the token and has room lets the request in.
  let_in :
      (s : Server) (r : HttpRequest) (later time : ℕ) (a : Authenticator)
      → is_connect r ≡ true
      → validate_request hmac s r later ≡ some (a, true)
      → s.limiter.in_use < s.limiter.max_concurrent
      → (t : Server) × (enter hmac s r later time ≡ some (t, entered true))
  unfolding enter authenticate limit allow
  let_in s r later time a connect valid room =
      let free : leb s.limiter.max_concurrent s.limiter.in_use ≡ false = ground (arith, room) in
      let l : Limiter = record s.limiter { in_use = s.limiter.in_use + 1 } in
      (record s { auth = a; limiter = l }, ground arith)

  -- A TCP request that is let in goes to its target.
  answered :
      (network : Network) (t : Server) (r : HttpRequest) (target : List ℕ)
      → is_connect r ≡ true
      → wants_udp r ≡ false
      → r.can_stream ≡ true
      → resolve network r.host ≡ ok target
      → network.dial target ≡ true
      → (dispatch network t r true).1
        ≡ opened target ∷ respond accepted ∷ relay target ∷ closed target ∷ []
  unfolding dispatch serve_tcp serve_target
  answered network t r target connect tcp streams found dialed = ground arith

  served :
      (network : Network) (s t : Server) (r : HttpRequest) (later time : ℕ)
      → enter hmac s r later time ≡ some (t, entered true)
      → (u : Server) × (serve_http network hmac s r later time
          ≡ some (u, (dispatch network t r true).1))
  unfolding serve_http
  served network s t r later time e = (leave (dispatch network t r true).0, ground arith)

  request_facts :
      (c : Client) (peer : List ℕ) (now : ℕ) (random : List ℕ) (r : HttpRequest)
      (authority : List ℕ)
      → Signed c peer now random r authority
      → (is_connect r ≡ true) × (wants_udp r ≡ false) × (r.can_stream ≡ true) × (r.host ≡ authority)
  unfolding connect_request to_lower
  request_facts c peer now random r authority sent =
      subst
        (λ x.
          (is_connect x ≡ true)
          × (wants_udp x ≡ false)
          × (x.can_stream ≡ true)
          × (x.host ≡ authority))
        (sym sent.request_eq) (refl, refl, refl, refl)

  connected :
      (c : Client) (peer : List ℕ) (now : ℕ) (random : List ℕ) (addr : Option Address)
      (r : HttpRequest) (authority : List ℕ) (calls : Calls)
      → signed_request hmac ip_string c peer [] now random addr ≡ ok (r, authority)
      → calls.opened ≡ true
      → calls.header_sent ≡ true
      → calls.response ≡ some accepted.status
      → dial_tcp hmac ip_string c calls peer now random addr
        ≡ (stream_opened ∷ request_sent r ∷ [], none)
  unfolding dial_tcp exchange
  connected c peer now random addr r authority calls e open_ok sent_ok answer = ground arith

  -- With a MAC of 32 bytes, random bytes and a clock of fewer than 2^63 seconds: when DialTCP signs a
  -- request with a key that the server holds, for the server's name, and the clocks are within the
  -- server's skew, then, if the server's replay cache takes the nonce, it has a place, the guard gives a
  -- target for the authority and the dial succeeds, ServeHTTP opens this target, answers 200, relays and
  -- closes; and with that answer DialTCP returns the connection.
  pub dial_tcp-serve_http :
      (network : Network) (c : Client) (s : Server) (peer : List ℕ) (now later time : ℕ)
      (random : List ℕ) (addr : Option Address) (r : HttpRequest) (authority target : List ℕ)
      (before behind : List (List ℕ)) (a : Authenticator) (calls : Calls)
      → IsMac hmac
      → IsBytes random
      → signed_request hmac ip_string c peer [] now random addr ≡ ok (r, authority)
      → s.server_name ≡ c.server_name
      → s.auth.keys ≡ before ++ (key_of c.auth.keys ∷ behind)
      → now / second < 9223372036854775808
      → later ≤ now / second * second + s.auth.max_skew
      → now / second * second ≤ later + s.auth.max_skew
      → record_nonce hmac s.auth (take 16 random) later ≡ some (a, true)
      → s.limiter.in_use < s.limiter.max_concurrent
      → resolve network authority ≡ ok target
      → network.dial target ≡ true
      → calls.opened ≡ true
      → calls.header_sent ≡ true
      → calls.response ≡ some accepted.status
      → ((u : Server) × (serve_http network hmac s r later time
            ≡ some (u, opened target ∷ respond accepted ∷ relay target ∷ closed target ∷ [])))
        × (dial_tcp hmac ip_string c calls peer now random addr
            ≡ (stream_opened ∷ request_sent r ∷ [], none))
  dial_tcp-serve_http network c s peer now later time random addr r authority target before behind a
        calls mac bytes e name keys range late early fresh room found dialed open_ok sent_ok
        answer =
      let sent = signed_request-Signed c peer now random addr r authority e in
      let (connect, tcp, streams, host) = request_facts c peer now random r authority sent in
      let valid =
        validated c s peer now later random r authority before behind mac bytes sent name keys range
          late early
        ∙ fresh in
      let (t, inside) = let_in s r later time a connect valid room in
      let (u, run) = served network s t r later time inside in
      let found' : resolve network r.host ≡ ok target = ap (resolve network) host ∙ found in
      let effects = answered network t r target connect tcp streams found' dialed in
      (
        (u, run ∙ ap (λ (es : List Effect). some (u, es)) effects),
        connected c peer now random addr r authority calls e open_ok sent_ok answer,
      )
