-- ===== src/Carrier/Request.antt =====
-- The connect request on its way from `dialChimeraTCP` of cmd/chimera-client/main.go to `handleConn` of
-- cmd/chimera-server/main.go.
use chimera_core.Prelude.{
  ℕ, ◌≡◌, refl, Bool, true, false, List, [], ◌∷◌, ◌++◌, Option, none, some, ok, arith, All,
  All-append, Bool-cases, Result-cases, inl, inr, sym, ap, ◌∙◌, append_assoc, append-nil, ◌>>=◌,
}
use chimera_core.Prelude.Bytes.{read_full-append}
use chimera_core.Chimera.Ip.{Ip}
use chimera_core.Chimera.Session.{
  status_ok, cmd_connect, write_session_header, write_session_response, read_session_header,
  read_session_response,
}
use chimera_core.Chimera.Session.Laws.{header_roundtrip}
use chimera_core.Chimera.Address.{Address, write_address, read_address, read_target_connect}
use chimera_core.Chimera.Address.Laws.{IsEncodable, host_of, read_address-write_address}
use chimera_core.Chimera.Resolve.{resolve_and_validate_authority}
use chimera_core.Padstream.Frames.{
  WireFrame, FitsHeader, wire, payloads, wire-append, payloads-append,
}
use chimera_core.Padstream.Conn.{Policy, Raw, Conn, raw_write, new, default_policy, write}
use chimera_core.Padstream.Conn.Writing.{IsPolicy, raw_write_whole, write_lem}
use chimera_core.Padstream.Conn.Rounds.{raw_write-input}
use chimera_core.Padstream.Roundtrip.{new-Between}
use chimera_core.Padstream.Keeping.{write-IsPolicy}
use chimera_core.Carrier.{
  take_target_connect, address_string, Effect, opened, closed, relayed, conn_closed, serve_opened,
  serve_request, handle_conn, open_session, send_target_connect,
}
use chimera_core.Carrier.Padded.{take_target_connect-Gives}

module _ (rng : ℕ → ℕ) where
  -- The frames on the wire behind what stood there carry the bytes.
  pub record Sent (c : Conn) (b : List ℕ) (c' : Conn) : Type 0 where
    pub fs : List WireFrame
    pub output_eq : c'.raw.output ≡ c.raw.output ++ wire fs
    pub payloads_eq : payloads fs ≡ b
    pub fit : All FitsHeader fs

  -- Two writes, one behind the other.
  writes-Sent :
      (c : Conn) (a b : List ℕ)
      → IsPolicy c.policy
      → (write rng c a).2 ≡ false
      → (write rng (write rng c a).0 b).2 ≡ false
      → Sent c (a ++ b) (write rng (write rng c a).0 b).0
  writes-Sent c a b v fine1 fine2 =
      let c1 = (write rng c a).0 in
      let s1 = write_lem rng c a v fine1 in
      let s2 = write_lem rng c1 b (write-IsPolicy rng c a v) fine2 in
      record {
        fs = s1.fs ++ s2.fs;
        output_eq =
            s2.output_eq
            ∙ ap (λ (l : List ℕ). l ++ wire s2.fs) s1.output_eq
            ∙ append_assoc c.raw.output (wire s1.fs) (wire s2.fs)
            ∙ ap (λ (l : List ℕ). c.raw.output ++ l) (sym (wire-append s1.fs s2.fs));
        payloads_eq =
            payloads-append s1.fs s2.fs
            ∙ ap (λ (l : List ℕ). l ++ payloads s2.fs) s1.payloads_eq
            ∙ ap (λ (l : List ℕ). a ++ l) s2.payloads_eq;
        fit = All-append FitsHeader s1.fs s2.fs s1.fit s2.fit;
      }

  pub send_target_connect-Sent :
      (c : Conn) (cmd : ℕ) (a : Address) (buf : List ℕ)
      → IsPolicy c.policy
      → write_address a ≡ ok buf
      → (send_target_connect rng c cmd a).1 ≡ none
      → Sent c (cmd ∷ buf) (send_target_connect rng c cmd a).0
  unfolding send_target_connect
  send_target_connect-Sent c cmd a buf v e sent = elim (Bool-cases (write rng c (cmd ∷ [])).2) [
    | inl failed ↦ absurd (ground arith)
    | inr fine ↦ elim (Bool-cases (write rng (write rng c (cmd ∷ [])).0 buf).2) [
      | inl failed2 ↦ absurd (ground arith)
      | inr fine2 ↦ rw (fine, e) (writes-Sent c (cmd ∷ []) buf v fine fine2)
    ]
  ]

-- The address as the peer sees it.
abbrev pub seen : Address → Address
seen a = record { kind = a.kind; ip = (host_of a).0; domain = (host_of a).1; port = a.port }

pub read_target_connect_lem :
    (cmd : ℕ) (a : Address) (buf : List ℕ)
    → IsEncodable a
    → write_address a ≡ ok buf
    → read_target_connect (cmd ∷ buf) ≡ ok ((cmd, seen a), [])
unfolding read_target_connect
read_target_connect_lem cmd a buf v e =
    let address : read_address buf ≡ ok (seen a, []) =
      ap read_address (sym (append-nil buf)) ∙ read_address-write_address a buf [] v e in
    rw (read_full-append 1 (cmd ∷ []) buf refl, ◌>>=◌) (rw (address, ◌>>=◌) refl)

pub new_default-IsPolicy : (raw : Raw) → IsPolicy (new raw default_policy).policy
unfolding new default_policy
new_default-IsPolicy raw = record {
  max_padding_range = omega arith;
  initial_max_range = omega arith;
}

pub open_session-output :
    (conn : Raw)
    → conn.output ≡ []
    → (open_session conn).1 ≡ none
    → (open_session conn).0.output ≡ write_session_header 1
unfolding open_session
open_session-output conn fresh fine =
    let header = write_session_header 1 in
    let conn1 = (raw_write header conn).0 in
    elim (Bool-cases (raw_write header conn).2) [
      | inl failed ↦ absurd (ground arith)
      | inr whole ↦ elim (Result-cases (read_session_response conn1.input)) [
        | inr (x, bad) ↦ absurd (ground arith)
        | inl ((status, rest), good) ↦
            rw (whole, good)
              ((raw_write_whole header conn whole).0 ∙ ap (λ (l : List ℕ). l ++ header) fresh)
      ]
    ]

pub new-output : (raw : Raw) (p : Policy) → (new raw p).raw.output ≡ raw.output
unfolding new
new-output raw p = refl

-- Whether a write fails does not depend on what is still to be read.
raw_write-same :
    (bs : List ℕ) (raw : Raw) (input : List ℕ)
    → (raw_write bs raw).2 ≡ false
    → (raw_write bs (record raw { input = input })).2 ≡ false
unfolding raw_write
raw_write-same bs raw input fine = ground arith

-- What `handleConn` has done when it has served the target: if its response cannot be written, it
-- closes the target without relaying.
pub data Served (target : List ℕ) : List Effect → Type 0 where
  relaying :
      (pc : Conn)
      → Served target (opened target ∷ relayed pc target ∷ closed target ∷ conn_closed ∷ [])
  not_told : Served target (opened target ∷ closed target ∷ conn_closed ∷ [])

module _ (rng : ℕ → ℕ) (parse_ip : List ℕ → Ip) (ip_string : Ip → List ℕ)
    (lookup : List ℕ → Option (List Ip)) (dial : List ℕ → Bool) where
  pub serve_request-Served :
      (pc : Conn) (a : Address) (target : List ℕ)
      → resolve_and_validate_authority parse_ip ip_string lookup (address_string ip_string a)
        ≡ ok target
      → dial target ≡ true
      → Served target (
          (serve_request rng parse_ip ip_string lookup dial pc cmd_connect a).1
          ++ (conn_closed ∷ []))
  unfolding serve_request serve_opened
  serve_request-Served pc a target safe answers =
      elim (Bool-cases (write rng pc (write_session_response status_ok)).2) [
        | inl failed ↦ rw (safe, answers) (rw failed not_told)
        | inr fine ↦
            rw (safe, answers)
              (rw fine (relaying (write rng pc (write_session_response status_ok)).0))
      ]

  -- The request that the handler serves, and what is left of the connection.
  pub record Decides (raw : Raw) (fs : List WireFrame) (cmd : ℕ) (a : Address) : Type 0 where
    pub pc : Conn
    pub took :
        take_target_connect rng (
          new
            (raw_write (write_session_response status_ok) (record raw { input = wire fs })).0
            default_policy)
        ≡ some (pc, ok (cmd, a))
    pub decides :
        handle_conn rng parse_ip ip_string lookup dial raw
        ≡ some (
          (serve_request rng parse_ip ip_string lookup dial pc cmd a).0.raw,
          (serve_request rng parse_ip ip_string lookup dial pc cmd a).1 ++ (conn_closed ∷ []),
        )

  pub handle_conn-Decides :
      (raw : Raw) (flags : ℕ) (fs : List WireFrame) (cmd : ℕ) (a : Address)
      → raw.input ≡ write_session_header flags ++ wire fs
      → All FitsHeader fs
      → (raw_write (write_session_response status_ok) (record raw { input = wire fs })).2 ≡ false
      → read_target_connect (payloads fs) ≡ ok ((cmd, a), [])
      → Decides raw fs cmd a
  unfolding handle_conn
  handle_conn-Decides raw flags fs cmd a arrived fit fine request =
      let header : read_session_header raw.input ≡ ok (flags, wire fs) =
        ap read_session_header arrived ∙ header_roundtrip flags (wire fs) in
      let raw1 =
        (raw_write (write_session_response status_ok) (record raw { input = wire fs })).0 in
      let between =
        new-Between raw1 default_policy fs
          (raw_write-input (write_session_response status_ok) (record raw { input = wire fs }))
          fit in
      let g =
        take_target_connect-Gives rng (new raw1 default_policy) (payloads fs) cmd a []
          (record { buf = []; fs = fs; between = between; stream = refl }) request in
      record {
        pc = g.conn;
        took = g.returns;
        decides = rw (header, handle_conn) (rw fine (rw g.returns refl));
      }

  -- When `dialChimeraTCP` has opened the session on a fresh connection and has sent the connect request
  -- for an encodable address, and the server's first response can be written: if the address as the
  -- server sees it resolves to a target that passes the guard, and the target answers, then `handleConn`
  -- ends, whatever the dice on both sides; it opens that target and no other, tells the client, relays,
  -- and closes the target and the connection; it skips the relay only if it cannot tell the client.
  pub handle_conn-send_target_connect :
      (rng' : ℕ → ℕ) (client : Raw) (a : Address) (buf : List ℕ) (server : Raw) (target : List ℕ)
      → IsEncodable a
      → write_address a ≡ ok buf
      → client.output ≡ []
      → (open_session client).1 ≡ none
      → (send_target_connect rng' (new (open_session client).0 default_policy) cmd_connect a).1
        ≡ none
      → server.input
        ≡ (send_target_connect rng'
            (new (open_session client).0 default_policy)
            cmd_connect
            a).0.raw.output
      → (raw_write (write_session_response status_ok) server).2 ≡ false
      → resolve_and_validate_authority parse_ip ip_string lookup (address_string ip_string (seen a))
        ≡ ok target
      → dial target ≡ true
      → (left : Raw) × (effects : List Effect) × (handle_conn rng parse_ip ip_string lookup dial
            server
          ≡ some (left, effects))
        × Served target effects
  handle_conn-send_target_connect rng' client a buf server target v e fresh opens sent arrived fine
        safe answers =
      let conn = (open_session client).0 in
      let s =
        send_target_connect-Sent rng' (new conn default_policy) cmd_connect a buf
          (new_default-IsPolicy conn) e sent in
      let input : server.input ≡ write_session_header 1 ++ wire s.fs =
        arrived
        ∙ s.output_eq
        ∙ ap (λ (l : List ℕ). l ++ wire s.fs)
            (new-output conn default_policy ∙ open_session-output client fresh opens) in
      let request =
        ap read_target_connect s.payloads_eq ∙ read_target_connect_lem cmd_connect a buf v e in
      let d =
        handle_conn-Decides server 1 s.fs cmd_connect (seen a) input s.fit
          (raw_write-same (write_session_response status_ok) server (wire s.fs) fine) request in
      (_, _, d.decides, serve_request-Served d.pc (seen a) target safe answers)
