-- ===== src/Carrier/ServerEnd.antt =====
-- The server's end of the TCP carrier, `handleConn` of cmd/chimera-server/main.go, over a connection that does
-- not fail: what it writes.
use chimera_core.Prelude.{
  ℕ, ◌≡◌, refl, Bool, true, List, [], ◌∷◌, ◌++◌, Option, some, ok, arith, All, ap, ◌∙◌, subst,
}
use chimera_core.Chimera.Ip.{Ip}
use chimera_core.Chimera.Session.{
  status_ok, cmd_connect, write_session_header, write_session_response,
}
use chimera_core.Chimera.Address.{Address, read_target_connect}
use chimera_core.Chimera.Resolve.{resolve_and_validate_authority}
use chimera_core.Padstream.Frames.{WireFrame, FitsHeader, wire, payloads}
use chimera_core.Padstream.Conn.{
  Raw, Conn, raw_write, new, default_policy, write, got_header, got_padding, got_payload, got,
  before_header, maybe_keep_alive,
}
use chimera_core.Padstream.Conn.Writing.{IsPolicy, raw_write_whole, write_lem}
use chimera_core.Padstream.Conn.Success.{raw_write-Fine, write_fine}
use chimera_core.Padstream.Ending.{IsStaged, new-IsStaged, IsStaged-Preserved, Preserved}
use chimera_core.Carrier.{
  take_target_connect, address_string, Effect, opened, closed, relayed, conn_closed, serve_opened,
  serve_request, handle_conn,
}
use chimera_core.Carrier.Ending.{take_target_connect-Ends}
use chimera_core.Carrier.Request.{new_default-IsPolicy, handle_conn-Decides}

-- A padded connection that has sent no frame, and whose writes do not fail.
record IsQuiet (o : List ℕ) (c : Conn) : Type 0 where
  staged : IsStaged c
  unsent : c.frames_sent ≡ 0
  output_eq : c.raw.output ≡ o
  faults_eq : c.raw.faults ≡ []
  policy_ok : IsPolicy c.policy

-- Before the first frame no keep-alive frame is sent.
IsQuiet-Preserved : (rng : ℕ → ℕ) (o : List ℕ) → Preserved rng (IsQuiet o)
unfolding before_header maybe_keep_alive got got_header got_padding got_payload
IsQuiet-Preserved rng o =
    let s = IsStaged-Preserved rng in
    record {
      staged = λ c q. q.staged;
      head = λ c q. record {
        staged = s.head c q.staged;
        unsent = ground (arith, q.unsent);
        output_eq = ground (arith, q.unsent, q.output_eq);
        faults_eq = ground (arith, q.unsent, q.faults_eq);
        policy_ok = ground (arith, q.unsent, q.policy_ok);
      };
      input = λ c bs q. record {
        staged = s.input c bs q.staged;
        unsent = q.unsent;
        output_eq = q.output_eq;
        faults_eq = q.faults_eq;
        policy_ok = q.policy_ok;
      };
      stage = λ c bs q. record {
        staged = s.stage c bs q.staged;
        unsent = ground (arith, q.unsent);
        output_eq = ground (arith, q.output_eq);
        faults_eq = ground (arith, q.faults_eq);
        policy_ok = ground (arith, q.policy_ok);
      };
      buffer = λ c bs q. record {
        staged = s.buffer c bs q.staged;
        unsent = q.unsent;
        output_eq = q.output_eq;
        faults_eq = q.faults_eq;
        policy_ok = q.policy_ok;
      };
    }

new-IsQuiet : (raw : Raw) → raw.faults ≡ [] → IsQuiet raw.output (new raw default_policy)
unfolding new
new-IsQuiet raw e = record {
  staged = new-IsStaged raw default_policy;
  unsent = refl;
  output_eq = refl;
  faults_eq = e;
  policy_ok = new_default-IsPolicy raw;
}

-- After the request.
took-IsQuiet :
    (rng : ℕ → ℕ) (raw : Raw) (pc : Conn) (request : ℕ × Address)
    → raw.faults ≡ []
    → take_target_connect rng (new raw default_policy) ≡ some (pc, ok request)
    → IsQuiet raw.output pc
took-IsQuiet rng raw pc request e took =
    let ends =
      take_target_connect-Ends rng (IsQuiet raw.output) (IsQuiet-Preserved rng raw.output)
        (new raw default_policy) (new-IsQuiet raw e) in
    let same : ends.conn ≡ pc = ground (arith, ends.returns, took) in
    subst (IsQuiet raw.output) same ends.kept

-- The server's answer to a request whose target it has opened.
record Answers (o target : List ℕ) (r : Conn × List Effect) : Type 0 where
  fs : List WireFrame
  fit : All FitsHeader fs
  output_eq : r.0.raw.output ≡ o ++ wire fs
  payloads_eq : payloads fs ≡ write_session_response status_ok
  pc : Conn
  effects_eq : r.1 ≡ opened target ∷ relayed pc target ∷ closed target ∷ []

module _ (rng : ℕ → ℕ) (parse_ip : List ℕ → Ip) (ip_string : Ip → List ℕ)
    (lookup : List ℕ → Option (List Ip)) (dial : List ℕ → Bool) where
  serve_request-Answers :
      (o : List ℕ) (pc : Conn) (a : Address) (target : List ℕ)
      → IsQuiet o pc
      → resolve_and_validate_authority parse_ip ip_string lookup (address_string ip_string a)
        ≡ ok target
      → dial target ≡ true
      → Answers o target (serve_request rng parse_ip ip_string lookup dial pc cmd_connect a)
  unfolding serve_request serve_opened
  serve_request-Answers o pc a target q safe answers =
      let reply = write_session_response status_ok in
      let fine = write_fine rng pc reply q.faults_eq in
      let w = write_lem rng pc reply q.policy_ok fine in
      rw (safe, answers)
        (rw fine (record {
          fs = w.fs;
          fit = w.fit;
          output_eq = w.output_eq ∙ ap (λ (l : List ℕ). l ++ wire w.fs) q.output_eq;
          payloads_eq = w.payloads_eq;
          pc = (write rng pc reply).0;
          effects_eq = refl;
        }))

  -- What the handler has done and written, when it gets a request for a target that it can open.
  pub record Replies (server : Raw) (target : List ℕ) : Type 0 where
    pub left : Raw
    pub fs : List WireFrame
    pub fit : All FitsHeader fs
    pub pc : Conn
    pub returns :
        handle_conn rng parse_ip ip_string lookup dial server
        ≡ some (left, opened target ∷ relayed pc target ∷ closed target ∷ conn_closed ∷ [])
    pub output_eq : left.output ≡ write_session_response status_ok ++ wire fs
    pub payloads_eq : payloads fs ≡ write_session_response status_ok

  pub handle_conn-Replies :
      (server : Raw) (sent : List WireFrame) (a : Address) (target : List ℕ)
      → server.output ≡ []
      → server.faults ≡ []
      → server.input ≡ write_session_header 1 ++ wire sent
      → All FitsHeader sent
      → read_target_connect (payloads sent) ≡ ok ((cmd_connect, a), [])
      → resolve_and_validate_authority parse_ip ip_string lookup (address_string ip_string a)
        ≡ ok target
      → dial target ≡ true
      → Replies server target
  handle_conn-Replies server sent a target fresh faultless arrived fit request safe answers =
      let reply = write_session_response status_ok in
      let start : Raw = record server { input = wire sent } in
      let w = raw_write-Fine reply start faultless in
      let d =
        handle_conn-Decides rng parse_ip ip_string lookup dial server 1 sent cmd_connect a arrived
          fit w.0 request in
      let q = took-IsQuiet rng (raw_write reply start).0 d.pc (cmd_connect, a) w.2 d.took in
      let first : (raw_write reply start).0.output ≡ reply =
        (raw_write_whole reply start w.0).0 ∙ ap (λ (l : List ℕ). l ++ reply) fresh in
      let r = serve_request-Answers _ d.pc a target q safe answers in
      let served = serve_request rng parse_ip ip_string lookup dial d.pc cmd_connect a in
      record {
        left = served.0.raw;
        fs = r.fs;
        fit = r.fit;
        pc = r.pc;
        returns =
            d.decides
            ∙ ap (λ (es : List Effect). some (served.0.raw, es ++ (conn_closed ∷ []))) r.effects_eq;
        output_eq = r.output_eq ∙ ap (λ (l : List ℕ). l ++ wire r.fs) first;
        payloads_eq = r.payloads_eq;
      }
