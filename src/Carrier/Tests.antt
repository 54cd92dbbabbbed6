-- ===== src/Carrier/Tests.antt =====
-- A client that asks for "h" at port 80 over the TCP carrier, and the server that it asks.
use chimera_core.Prelude.{
  ℕ, ◌+◌, ◌*◌, ◌≡◌, refl, true, List, [], ◌∷◌, ◌++◌, Bool, Option, none, some, ok, arith,
}
use chimera_core.Prelude.Bytes.{read_full}
use chimera_core.Prelude.Text.{trim_space, split_host_port}
use chimera_core.Chimera.Ip.{Ip}
use chimera_core.Chimera.Session.{
  status_ok, cmd_connect, write_session_header, write_session_response, read_session_response,
  read_session_header,
}
use chimera_core.Chimera.Address.{Address, write_host, write_address}
use chimera_core.Chimera.Address.Laws.{IsEncodable}
use chimera_core.Chimera.Guard.{is_forbidden_ip}
use chimera_core.Chimera.Resolve.{
  parse_digits, parse_uint16, format_uint, join_host_port, split_authority, check_ips, addresses,
  resolve_and_validate_authority,
}
use chimera_core.Padstream.Frames.{put_header}
use chimera_core.Padstream.Roundtrip.{read_full_loop}
use chimera_core.Padstream.Conn.{
  default_policy, Raw, new, raw_write, rand_int, rand_bytes, pad_max, pad_len, frame_type,
  pad_bytes, write_chunk, write_frame, write_loop, write, read, read_loop, before_header,
  maybe_keep_alive, should_keep_alive, got, got_header, got_padding, got_payload,
}
use chimera_core.Carrier.{
  address_string, Effect, handle_conn, serve_request, serve_opened, take_target_connect,
  take_address, take_host, take_domain, take_bytes, open_session, send_target_connect,
  dial_chimera_tcp,
}
use chimera_core.Carrier.Request.{seen}
use chimera_core.Carrier.Through.{Connected, dial_chimera_tcp-handle_conn}
use chimera_core.Carrier.Outcome.{
  Handled, handle_conn-Handled, Accounted, dial_chimera_tcp-Accounted,
}

abbrev dice : ℕ → ℕ
dice n = n * 7 + 3

abbrev no_literal : List ℕ → Ip
no_literal host = none

abbrev show_ip : Ip → List ℕ
show_ip ip = 57 ∷ []

abbrev resolver : List ℕ → Option (List Ip)
resolver host = some (some (8 ∷ 8 ∷ 4 ∷ 4 ∷ []) ∷ [])

abbrev dial : List ℕ → Bool
dial target = true

abbrev target : Address
target = record { kind = 3; ip = none; domain = 104 ∷ []; port = 80 }

-- "9:80".
abbrev validated : List ℕ
validated = 57 ∷ 58 ∷ 56 ∷ 48 ∷ []

target-IsEncodable : IsEncodable target
target-IsEncodable = record {
  has_ipv4 = λ e. absurd (omega arith);
  has_ipv6 = λ e. absurd (omega arith);
  port_range = omega arith;
}

written : write_address target ≡ ok (3 ∷ 1 ∷ 104 ∷ 0 ∷ 80 ∷ [])
unfolding write_address write_host
written = refl

-- The client's end, where the response to its header has arrived.
abbrev client : Raw
client = record { input = write_session_response status_ok; output = []; faults = [] }

-- The server's end, which has all that the client has sent.
abbrev server : Raw
server = record {
  input =
      (send_target_connect dice (new (open_session client).0 default_policy) cmd_connect
        target).0.raw.output;
  output = [];
  faults = [];
}

safe :
    resolve_and_validate_authority no_literal show_ip resolver
      (address_string show_ip (seen target))
    ≡ ok validated
unfolding address_string resolve_and_validate_authority split_authority trim_space split_host_port
    parse_uint16 parse_digits addresses check_ips is_forbidden_ip join_host_port format_uint
safe = refl

-- The server's second write fails.
abbrev faulty : Raw
faulty = record server { faults = none ∷ some 2 ∷ [] }

handle_conn-Handled_example :
    Handled dice no_literal show_ip resolver dial
      (handle_conn dice no_literal show_ip resolver dial faulty)
handle_conn-Handled_example = handle_conn-Handled dice no_literal show_ip resolver dial faulty

dial_chimera_tcp-Accounted_example :
    Accounted (some client) (dial_chimera_tcp dice (some client) target)
dial_chimera_tcp-Accounted_example = dial_chimera_tcp-Accounted dice (some client) target

-- Both ends without padding: the server's frame has its response as the payload.
abbrev no_dice : ℕ → ℕ
no_dice n = 0

abbrev reply : List ℕ
reply = write_session_response status_ok

abbrev client_end : Raw
client_end = record { input = reply ++ (1 ∷ 0 ∷ 8 ∷ 0 ∷ 0 ∷ reply); output = []; faults = [] }

abbrev server_end : Raw
server_end = record {
  input =
      (send_target_connect no_dice (new (open_session client_end).0 default_policy) cmd_connect
        target).0.raw.output;
  output = [];
  faults = [];
}

abbrev outcome : Option (Raw × List Effect)
outcome = handle_conn no_dice no_literal show_ip resolver dial server_end

abbrev left : Raw
left = elim outcome [ none ↦ server_end | some r ↦ r.0 ]

abbrev effects : List Effect
effects = elim outcome [ none ↦ [] | some r ↦ r.1 ]

run : Unit {0}
unfolding handle_conn serve_request serve_opened take_target_connect take_address take_host
    take_domain take_bytes read_full_loop read read_loop before_header maybe_keep_alive
    should_keep_alive got got_header got_padding got_payload read_session_header
    write_session_header address_string resolve_and_validate_authority split_authority trim_space
    split_host_port parse_uint16 parse_digits addresses check_ips is_forbidden_ip join_host_port
    format_uint send_target_connect new default_policy open_session raw_write read_session_response
    write_session_response read_full write_address write_host write write_loop write_frame
    write_chunk pad_len pad_max frame_type pad_bytes rand_int rand_bytes put_header
run = tt

handled : handle_conn no_dice no_literal show_ip resolver dial server_end ≡ some (left, effects)
unfolding run
handled = refl

told : client_end.input ≡ left.output
unfolding run
told = refl

dial_chimera_tcp-handle_conn_example : Connected no_dice client_end target validated effects
dial_chimera_tcp-handle_conn_example =
    dial_chimera_tcp-handle_conn no_dice no_dice no_literal show_ip resolver dial client_end
      server_end left target (3 ∷ 1 ∷ 104 ∷ 0 ∷ 80 ∷ []) validated effects target-IsEncodable
      written refl refl refl refl refl handled told safe refl
