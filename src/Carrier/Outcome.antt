-- ===== src/Carrier/Outcome.antt =====
-- How `handleConn` of cmd/chimera-server/main.go and `dialChimeraTCP` of cmd/chimera-client/main.go
-- end, whatever the peer sends.
use chimera_core.Prelude.{
  ℕ, ◌+◌, ◌≡◌, refl, Bool, true, ◌==◌, length, List, [], ◌∷◌, ◌++◌, Option, none, some, Result, ok,
  err, Bool-cases, Option-cases, Result-cases, inl, inr, sym, subst, ==_iff,
}
use chimera_core.Chimera.Ip.{Ip}
use chimera_core.Chimera.Session.{
  status_ok, cmd_connect, write_session_response, read_session_header,
}
use chimera_core.Chimera.Address.{Address, write_address}
use chimera_core.Chimera.Resolve.{resolve_and_validate_authority}
use chimera_core.Padstream.Conn.{Raw, Conn, raw_write, new, default_policy, write}
use chimera_core.Padstream.Keeping.{write-IsStaged}
use chimera_core.Padstream.Ending.{IsStaged, new-IsStaged, IsStaged-Preserved}
use chimera_core.Carrier.Ending.{take_target_connect-Ends, take_session_response-Ends}
use chimera_core.Carrier.{
  address_string, Effect, conn_closed, serve_request, handle_conn, DialError, open_session,
  send_target_connect, await_result, request_target, dial_chimera_tcp,
}
use chimera_core.Carrier.Request.{Served, serve_request-Served}

module _ (rng : ℕ → ℕ) (parse_ip : List ℕ → Ip) (ip_string : Ip → List ℕ)
    (lookup : List ℕ → Option (List Ip)) (dial : List ℕ → Bool) where
  -- What the handler has done at its end: it has closed the connection, and has opened at most one
  -- target, one that the guard gave for an address.
  pub data Outcome : List Effect → Type 0 where
    turned_away : Outcome (conn_closed ∷ [])
    served :
        (addr : Address) (target : List ℕ) (effects : List Effect)
        → resolve_and_validate_authority parse_ip ip_string lookup (address_string ip_string addr)
          ≡ ok target
        → dial target ≡ true
        → Served target effects
        → Outcome effects

  serve_request-Outcome :
      (pc : Conn) (cmd : ℕ) (a : Address)
      → Outcome
          ((serve_request rng parse_ip ip_string lookup dial pc cmd a).1 ++ (conn_closed ∷ []))
  unfolding serve_request
  serve_request-Outcome pc cmd a = elim (Bool-cases (cmd == cmd_connect)) [
    | inr other ↦ rw other turned_away
    | inl connect ↦
        elim (Result-cases
          (resolve_and_validate_authority parse_ip ip_string lookup (address_string ip_string a))) [
            | inr (x, blocked) ↦ rw connect (rw blocked turned_away)
            | inl (target, safe) ↦ elim (Bool-cases (dial target)) [
              | inr silent ↦ rw connect (rw safe (rw silent turned_away))
              | inl answers ↦
                  let done =
                    serve_request-Served rng parse_ip ip_string lookup dial pc a target safe
                      answers in
                  served a target _ safe answers (
                    subst
                      (λ n. Served target (
                        (serve_request rng parse_ip ip_string lookup dial pc n a).1
                        ++ (conn_closed ∷ [])))
                      (sym ((==_iff cmd cmd_connect).0 connect)) done)
            ]
          ]
  ]

  pub record Handled (r : Option (Raw × List Effect)) : Type 0 where
    pub left : Raw
    pub effects : List Effect
    pub returns : r ≡ some (left, effects)
    pub outcome : Outcome effects

  -- Whatever bytes a client sends and whichever writes fail, with any dice: `handleConn` ends and closes
  -- the connection. It opens no target but one that ResolveAndValidateAuthority gave for an address and
  -- that answered the dial, and closes it; without one it relays nothing.
  pub handle_conn-Handled :
      (raw : Raw) → Handled (handle_conn rng parse_ip ip_string lookup dial raw)
  unfolding handle_conn
  handle_conn-Handled raw = elim (Result-cases (read_session_header raw.input)) [
    | inr (x, bad) ↦
        rw (bad, handle_conn)
          (record { left = _; effects = _; returns = refl; outcome = turned_away })
    | inl ((flags, rest), good) ↦
        let w = raw_write (write_session_response status_ok) (record raw { input = rest }) in
        elim (Bool-cases w.2) [
          | inl failed ↦
              rw (good, handle_conn)
                (rw failed
                  (record { left = _; effects = _; returns = refl; outcome = turned_away }))
          | inr fine ↦
              let e =
                take_target_connect-Ends rng IsStaged (IsStaged-Preserved rng)
                  (new w.0 default_policy) (new-IsStaged w.0 default_policy) in
              elim (Result-cases e.result) [
                | inr (x, bad) ↦
                    rw (good, handle_conn)
                      (rw fine (
                        rw e.returns (
                          rw bad (record {
                            left = _;
                            effects = _;
                            returns = refl;
                            outcome = turned_away;
                          }))))
                | inl ((cmd, addr), asked) ↦
                    rw (good, handle_conn)
                      (rw fine (
                        rw e.returns (
                          rw asked (record {
                            left = _;
                            effects = _;
                            returns = refl;
                            outcome = serve_request-Outcome e.conn cmd addr;
                          }))))
              ]
        ]
  ]

-- The connections that the dial gave, and those that the caller has.
abbrev pub dialed : Option Raw → ℕ
dialed none = 0
dialed (some conn) = 1

abbrev pub handed : Result DialError Conn → ℕ
handed (ok pc) = 1
handed (err e) = 0

pub record Accounted (conn : Option Raw) (r : Option (List Raw × Result DialError Conn))
    : Type 0 where
  pub closed_conns : List Raw
  pub result : Result DialError Conn
  pub returns : r ≡ some (closed_conns, result)
  pub balance : length closed_conns + handed result ≡ dialed conn

module _ (rng : ℕ → ℕ) where
  await_result-Ends :
      (pc : Conn)
      → IsStaged pc
      → (conn : Raw) × (result : Result DialError Conn) × (await_result rng pc
          ≡ some (conn, result))
  unfolding await_result
  await_result-Ends pc s =
      let e = take_session_response-Ends rng IsStaged (IsStaged-Preserved rng) pc s in
      elim (Result-cases e.result) [
        | inr (x, bad) ↦ rw (e.returns, await_result) (rw bad (_, _, refl))
        | inl (status, good) ↦ rw (e.returns, await_result) (rw good (_, _, refl))
      ]

  send_target_connect-IsStaged :
      (pc : Conn) (cmd : ℕ) (a : Address)
      → IsStaged pc
      → IsStaged (send_target_connect rng pc cmd a).0
  unfolding send_target_connect
  send_target_connect-IsStaged pc cmd a s =
      let pc1 = (write rng pc (cmd ∷ [])).0 in
      let s1 = write-IsStaged rng pc (cmd ∷ []) s in
      elim (Bool-cases (write rng pc (cmd ∷ [])).2) [
        | inl failed ↦ rw failed s1
        | inr fine ↦ elim (Result-cases (write_address a)) [
          | inr (x, bad) ↦ rw fine (rw bad s1)
          | inl (buf, good) ↦ rw fine (rw good (write-IsStaged rng pc1 buf s1))
        ]
      ]

  request_target-Ends :
      (conn : Raw) (target : Address)
      → (conn2 : Raw) × (result : Result DialError Conn) × (request_target rng conn target
          ≡ some (conn2, result))
  unfolding request_target
  request_target-Ends conn target =
      let pc = new conn default_policy in
      elim (Option-cases (send_target_connect rng pc cmd_connect target).1) [
        | inr (x, failed) ↦ rw (failed, request_target) (_, _, refl)
        | inl fine ↦
            rw (fine, request_target)
              (await_result-Ends (send_target_connect rng pc cmd_connect target).0 (
                send_target_connect-IsStaged pc cmd_connect target
                  (new-IsStaged conn default_policy)))
      ]

  -- Whatever the server sends and whichever writes fail, with any dice: `dialChimeraTCP` ends, and the
  -- connection that the dial gave is either closed, with an error, or handed to the caller.
  pub dial_chimera_tcp-Accounted :
      (conn : Option Raw) (target : Address) → Accounted conn (dial_chimera_tcp rng conn target)
  unfolding dial_chimera_tcp
  dial_chimera_tcp-Accounted none target = record {
    closed_conns = [];
    result = _;
    returns = refl;
    balance = refl;
  }
  dial_chimera_tcp-Accounted (some conn) target = elim (Option-cases (open_session conn).1) [
    | inr (x, bad) ↦
        rw (bad, dial_chimera_tcp)
          (record { closed_conns = _; result = _; returns = refl; balance = refl })
    | inl good ↦
        let (conn2, result, ended) = request_target-Ends (open_session conn).0 target in
        elim (Result-cases result) [
          | inr (x, bad) ↦
              rw (good, dial_chimera_tcp)
                (rw ended (
                  rw (bad, dial_chimera_tcp)
                    (record { closed_conns = _; result = _; returns = refl; balance = refl })))
          | inl (pc, fine) ↦
              rw (good, dial_chimera_tcp)
                (rw ended (
                  rw fine
                    (record { closed_conns = _; result = _; returns = refl; balance = refl })))
        ]
  ]
