-- ===== src/Client/Tests.antt =====
-- Runs of cmd/chimera-client/main.go on concrete values.
use chimera_core.Prelude.{
  ℕ, ◌+◌, ◌≡◌, refl, ◌⊎◌, true, false, List, [], ◌∷◌, ◌++◌, none, some, ok, err, arith,
}
use chimera_core.Prelude.Bytes.{read_full}
use chimera_core.Prelude.Int.{pos}
use chimera_core.Prelude.Base64.{decode64}
use chimera_core.Chimera.Address.{Address, write_address, read_address}
use chimera_core.Padstream.Conn.{raw_write}
use chimera_core.Client.Socks.{
  read_methods, offers_no_auth, answer_methods, socks5_handshake, request_domain, request_host,
  check_head, socks5_read_request, socks5_reply, handle_socks5,
}
use chimera_core.Client.Socks.Forward.{socks5_read_request-forward}
use chimera_core.Client.Select.{
  selected_mode, exclusive, tcp, automatic, Dial, select_transport, OwnedConn, close_owned,
}
use chimera_core.Client.Select.Ledger.{
  Event, quic_dialed, tcp_dialed, shut, Logs, Chosen, select_transport-Chosen,
}
use chimera_core.Client.Options.{
  decode_short_id, decode_hex, hex_bytes, validate_quic_config, bad_short_id, bad_psk,
}

abbrev example_org : List ℕ
example_org = 101 ∷ 46 ∷ 111 ∷ 114 ∷ 103 ∷ []

abbrev target : Address
target = record { kind = 3; ip = none; domain = example_org; port = 443 }

abbrev request : List ℕ
request = 5 ∷ 1 ∷ 0 ∷ 3 ∷ 5 ∷ 101 ∷ 46 ∷ 111 ∷ 114 ∷ 103 ∷ 1 ∷ 187 ∷ []

socks : Unit {0}
unfolding socks5_read_request check_head request_host request_domain read_full
socks = tt

asked : socks5_read_request request ≡ ok (target, [])
unfolding socks
asked = refl

-- The handshake, and the general failure for a request to bind.
refused :
    (handle_socks5
      (λ raw a. (raw, false))
      (record { input = 5 ∷ 1 ∷ 0 ∷ 5 ∷ 2 ∷ 0 ∷ 1 ∷ []; output = []; faults = [] })).output
    ≡ 5 ∷ 0 ∷ 5 ∷ 1 ∷ 0 ∷ 1 ∷ 0 ∷ 0 ∷ 0 ∷ 0 ∷ 0 ∷ 0 ∷ []
unfolding socks handle_socks5 socks5_handshake read_methods answer_methods offers_no_auth
    socks5_reply raw_write
refused = refl

socks5_read_request-forward_example :
    ((◌≡◌ {A = ℕ} 3 3) × (example_org ≡ []))
    ⊎ ((buf : List ℕ) × (write_address target ≡ ok buf)
        × (read_address (buf ++ (9 ∷ [])) ≡ ok (target, 9 ∷ [])))
socks5_read_request-forward_example =
    socks5_read_request-forward request target [] (9 ∷ []) (omega arith) asked

modes : (selected_mode true true ≡ err exclusive) × (selected_mode false false ≡ ok tcp)
unfolding selected_mode
modes = (refl, refl)

-- The world is its log; the dial of QUIC returns a connection and an error.
abbrev World : Type 0
World = List (Event ℕ)

abbrev close : ℕ → World → World
close c w = w ++ (shut c ∷ [])

abbrev broken_quic : Dial World ℕ ℕ
broken_quic timeout w = (w ++ (quic_dialed timeout (some 4) true ∷ []), (some 4, some 7))

abbrev good_tcp : Dial World ℕ ℕ
good_tcp timeout w = (w ++ (tcp_dialed timeout (some 5) false ∷ []), (some 5, none))

dials-Logs : Logs close (λ w. w) broken_quic good_tcp
dials-Logs = record { quic_logs = λ t w. refl; tcp_logs = λ t w. refl; close_logs = λ c w. refl }

select_transport-Chosen_example :
    Chosen close
      (λ w. w)
      automatic
      (pos 1200)
      []
      (select_transport close automatic (pos 1200) broken_quic good_tcp [])
select_transport-Chosen_example =
    select_transport-Chosen close (λ w. w) broken_quic good_tcp dials-Logs automatic (pos 1200) []

-- QUIC, its connection closed, then TCP.
fallen_back : select_transport close automatic (pos 1200) broken_quic good_tcp [] ≡ (
  quic_dialed (some 1200) (some 4) true ∷ shut 4 ∷ tcp_dialed none (some 5) false ∷ [],
  (some 5, none),
)
unfolding select_transport
fallen_back = refl

abbrev owned : OwnedConn ℕ ℕ
owned = record {
  conn = some (λ n. (n + 1, 4 ∷ []));
  close_owner = some (λ n. (n + 10, []));
  done = false;
  error = [];
}

closed_once : ((close_owned owned 0).1 ≡ 11) × ((close_owned owned 0).2 ≡ 4 ∷ [])
unfolding close_owned
closed_once = (refl, refl)

options :
    (decode_short_id (48 ∷ 97 ∷ 70 ∷ 102 ∷ []) ≡ ok (10 ∷ 255 ∷ []))
    × (decode_short_id [] ≡ err bad_short_id)
    × (validate_quic_config automatic (65 ∷ 65 ∷ []) [] ≡ err bad_psk)
unfolding decode_short_id decode_hex hex_bytes validate_quic_config decode64
options = (refl, refl, refl)
