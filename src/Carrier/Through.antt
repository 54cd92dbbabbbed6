-- ===== src/Carrier/Through.antt =====
-- `dialChimeraTCP` of cmd/chimera-client/main.go with `handleConn` of cmd/chimera-server/main.go at the other
-- end: both directions over connections that do not fail.
use chimera_core.Prelude.{
  ℕ, ◌≡◌, Bool, true, List, [], ◌∷◌, ◌++◌, Option, some, ok, arith, sym, ap, ◌∙◌,
}
use chimera_core.Chimera.Ip.{Ip}
use chimera_core.Chimera.Session.{cmd_connect, write_session_header}
use chimera_core.Chimera.Address.{Address, write_address, read_target_connect}
use chimera_core.Chimera.Address.Laws.{IsEncodable}
use chimera_core.Chimera.Resolve.{resolve_and_validate_authority}
use chimera_core.Padstream.Frames.{wire}
use chimera_core.Padstream.Conn.{Raw, Conn, new, default_policy}
use chimera_core.Carrier.{
  address_string, Effect, opened, closed, relayed, conn_closed, handle_conn, open_session,
  send_target_connect, dial_chimera_tcp,
}
use chimera_core.Carrier.Request.{
  seen, send_target_connect-Sent, read_target_connect_lem, new_default-IsPolicy, new-output,
}
use chimera_core.Carrier.ServerEnd.{handle_conn-Replies}
use chimera_core.Carrier.ClientEnd.{
  new_raw_faults, open_session_sends, send_target_connect_lem, dial_chimera_tcp_lem,
}

some_pair :
    {A B : Type 0} {a a' : A} {b b' : B}
    → ◌≡◌ {A = Option (A × B)} (some (a, b)) (some (a', b'))
    → (a ≡ a') × (b ≡ b')
some_pair e = ground arith

-- What both ends have at the end of a request that succeeds.
pub record Connected (rng : ℕ → ℕ) (client : Raw) (a : Address) (target : List ℕ)
    (effects : List Effect) : Type 0 where
  pub pc : Conn
  pub dialed : dial_chimera_tcp rng (some client) a ≡ some ([], ok pc)
  pub served : Conn
  pub effects_eq :
      effects ≡ opened target ∷ relayed served target ∷ closed target ∷ conn_closed ∷ []

-- Over a fresh connection that does not fail, where the server reads what the client has sent for an
-- encodable address and the client reads what the server has written when `handleConn` ends: if the
-- address as the server sees it resolves to a target that passes the guard, and the target answers, then
-- `handleConn` has opened that target, relayed and closed all, and `dialChimeraTCP` returns the padded
-- connection and closes nothing, whatever the dice on both sides.
pub dial_chimera_tcp-handle_conn :
    (rng rng' : ℕ → ℕ) (parse_ip : List ℕ → Ip) (ip_string : Ip → List ℕ)
    (lookup : List ℕ → Option (List Ip)) (dial : List ℕ → Bool) (client server left : Raw)
    (a : Address) (buf target : List ℕ) (effects : List Effect)
    → IsEncodable a
    → write_address a ≡ ok buf
    → client.output ≡ []
    → client.faults ≡ []
    → server.output ≡ []
    → server.faults ≡ []
    → server.input
      ≡ (send_target_connect rng'
          (new (open_session client).0 default_policy)
          cmd_connect
          a).0.raw.output
    → handle_conn rng parse_ip ip_string lookup dial server ≡ some (left, effects)
    → client.input ≡ left.output
    → resolve_and_validate_authority parse_ip ip_string lookup (address_string ip_string (seen a))
      ≡ ok target
    → dial target ≡ true
    → Connected rng' client a target effects
dial_chimera_tcp-handle_conn rng rng' parse_ip ip_string lookup dial client server left a buf target
      effects v e fresh faultless fresh' faultless' asked handled told safe answers =
    let conn = (open_session client).0 in
    let c = new conn default_policy in
    let o = open_session_sends client fresh faultless in
    let sends = send_target_connect_lem rng' c cmd_connect a buf e (new_raw_faults conn o.1) in
    let s =
      send_target_connect-Sent rng' c cmd_connect a buf (new_default-IsPolicy conn) e sends.0 in
    let input : server.input ≡ write_session_header 1 ++ wire s.fs =
      asked
      ∙ s.output_eq
      ∙ ap (λ (l : List ℕ). l ++ wire s.fs) (new-output conn default_policy ∙ o.0) in
    let request =
      ap read_target_connect s.payloads_eq ∙ read_target_connect_lem cmd_connect a buf v e in
    let r =
      handle_conn-Replies rng parse_ip ip_string lookup dial server s.fs (seen a) target fresh'
        faultless' input s.fit request safe answers in
    let same : (left ≡ r.left)
        × (effects ≡ opened target ∷ relayed r.pc target ∷ closed target ∷ conn_closed ∷ []) =
      some_pair (sym handled ∙ r.returns) in
    let (pc, dialed) =
      dial_chimera_tcp_lem rng' client a buf r.fs e fresh faultless
        (told ∙ ap (λ (raw : Raw). raw.output) same.0 ∙ r.output_eq) r.fit r.payloads_eq in
    record { pc = pc; dialed = dialed; served = r.pc; effects_eq = same.1 }
