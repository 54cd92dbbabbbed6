-- ===== src/Carrier/ClientEnd.antt =====
-- The client's end of the TCP carrier, `dialChimeraTCP` of cmd/chimera-client/main.go, over a connection that
-- does not fail: what it sends and takes.
use chimera_core.Prelude.{
  ℕ, ◌≡◌, refl, List, [], ◌∷◌, ◌++◌, none, some, ok, All, Result-cases, inl, inr, sym, ap, ◌∙◌,
  append-nil,
}
use chimera_core.Prelude.Bytes.{read_full, read_full-append}
use chimera_core.Chimera.Session.{
  status_ok, cmd_connect, write_session_header, write_session_response, read_session_response,
  check_preamble,
}
use chimera_core.Chimera.Session.Laws.{response_roundtrip}
use chimera_core.Chimera.Address.{Address, write_address}
use chimera_core.Padstream.Frames.{WireFrame, FitsHeader, wire, payloads}
use chimera_core.Padstream.Conn.{Raw, Conn, raw_write, new, default_policy, write}
use chimera_core.Padstream.Conn.Writing.{raw_write_whole}
use chimera_core.Padstream.Conn.Reading.{Between}
use chimera_core.Padstream.Conn.Rounds.{raw_write-input}
use chimera_core.Padstream.Conn.Success.{raw_write-Fine, write_fine, write-faults}
use chimera_core.Padstream.Roundtrip.{new-Between}
use chimera_core.Padstream.Keeping.{Keeps, Keeps-trans, Keeps-Between, write-Keeps}
use chimera_core.Carrier.{
  take_session_response, open_session, send_target_connect, await_result, request_target,
  dial_chimera_tcp,
}
use chimera_core.Carrier.Padded.{take_bytes-Gives}

pub new_raw_faults : (raw : Raw) → raw.faults ≡ [] → (new raw default_policy).raw.faults ≡ []
unfolding new
new_raw_faults raw e = e

-- The client's read of the result, from a server that says that it has opened the target.
await_result_lem :
    (rng : ℕ → ℕ) (pc : Conn) (fs : List WireFrame)
    → Between [] pc [] fs
    → payloads fs ≡ write_session_response status_ok
    → (c : Conn) × (await_result rng pc ≡ some (c.raw, ok c))
unfolding await_result take_session_response write_session_response check_preamble
await_result_lem rng pc fs b e =
    let reply = write_session_response status_ok in
    let whole : read_full 8 reply ≡ ok (reply, []) =
      ap (read_full 8) (sym (append-nil reply)) ∙ read_full-append 8 reply [] refl in
    let g =
      take_bytes-Gives rng 8 pc reply reply []
        (record { buf = []; fs = fs; between = b; stream = sym e }) whole in
    (g.conn, rw (g.returns, await_result) refl)

-- The header is sent, whatever the response.
pub open_session_sends :
    (conn : Raw)
    → conn.output ≡ []
    → conn.faults ≡ []
    → ((open_session conn).0.output ≡ write_session_header 1) × ((open_session conn).0.faults ≡ [])
unfolding open_session
open_session_sends conn fresh faultless =
    let header = write_session_header 1 in
    let conn1 = (raw_write header conn).0 in
    let w = raw_write-Fine header conn faultless in
    let output : conn1.output ≡ header =
      (raw_write_whole header conn w.0).0 ∙ ap (λ (l : List ℕ). l ++ header) fresh in
    elim (Result-cases (read_session_response conn1.input)) [
      | inr (x, bad) ↦ rw (w.0, bad) (output, w.2)
      | inl ((status, rest), good) ↦ rw (w.0, good) (output, w.2)
    ]

open_session_opens :
    (conn : Raw) (rest : List ℕ)
    → conn.faults ≡ []
    → conn.input ≡ write_session_response status_ok ++ rest
    → ((open_session conn).1 ≡ none) × ((open_session conn).0.input ≡ rest)
unfolding open_session
open_session_opens conn rest faultless arrived =
    let header = write_session_header 1 in
    let conn1 = (raw_write header conn).0 in
    let w = raw_write-Fine header conn faultless in
    let response : read_session_response conn1.input ≡ ok (status_ok, rest) =
      ap read_session_response (raw_write-input header conn ∙ arrived)
      ∙ response_roundtrip status_ok rest in
    rw (w.0, response) (refl, refl)

module _ (rng : ℕ → ℕ) where
  -- The connect request is sent, and the connection can be read as before.
  pub send_target_connect_lem :
      (c : Conn) (cmd : ℕ) (a : Address) (buf : List ℕ)
      → write_address a ≡ ok buf
      → c.raw.faults ≡ []
      → ((send_target_connect rng c cmd a).1 ≡ none) × Keeps c (send_target_connect rng c cmd a).0
  unfolding send_target_connect
  send_target_connect_lem c cmd a buf e faultless =
      let c1 = (write rng c (cmd ∷ [])).0 in
      rw (write_fine rng c (cmd ∷ []) faultless, e)
        (rw (write_fine rng c1 buf (write-faults rng c (cmd ∷ []) faultless))
          (refl, Keeps-trans c c1 _ (write-Keeps rng c (cmd ∷ [])) (write-Keeps rng c1 buf)))

-- The client's dial, when the server has replied.
pub dial_chimera_tcp_lem :
    (rng : ℕ → ℕ) (client : Raw) (a : Address) (buf : List ℕ) (fs : List WireFrame)
    → write_address a ≡ ok buf
    → client.output ≡ []
    → client.faults ≡ []
    → client.input ≡ write_session_response status_ok ++ wire fs
    → All FitsHeader fs
    → payloads fs ≡ write_session_response status_ok
    → (pc : Conn) × (dial_chimera_tcp rng (some client) a ≡ some ([], ok pc))
unfolding dial_chimera_tcp request_target
dial_chimera_tcp_lem rng client a buf fs e fresh faultless arrived fit reply =
    let conn = (open_session client).0 in
    let pc = new conn default_policy in
    let o = open_session_opens client (wire fs) faultless arrived in
    let s =
      send_target_connect_lem rng pc cmd_connect a buf e
        (new_raw_faults conn (open_session_sends client fresh faultless).1) in
    let between = Keeps-Between rng pc _ fs s.1 (new-Between conn default_policy fs o.1 fit) in
    let (c, awaited) =
      await_result_lem rng (send_target_connect rng pc cmd_connect a).0 fs between reply in
    (c, rw (o.0, dial_chimera_tcp) (rw s.0 (rw awaited refl)))
