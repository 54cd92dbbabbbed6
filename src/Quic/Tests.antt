-- ===== src/Quic/Tests.antt =====
-- A CONNECT to "h:80" in internal/quicx/server.go, with a good token.
use chimera_core.Prelude.{◌≡◌, refl, true, false, List, [], ◌∷◌, some, arith, ℕ_discrete}
use chimera_core.Prelude.Bytes.{bytes_discrete, read_full}
use chimera_core.Prelude.Base64.{encode64, decode64}
use chimera_core.Prelude.Dict.{lookup, insert, delete}
use chimera_core.Prelude.Text.{
  trim_space, to_lower, to_upper, fields, split_host_port, index_byte, last_index_byte, split_plain,
}
use chimera_core.Auth.Replay.{prune_loop, evict_loop, add_fresh, add}
use chimera_core.Auth.Replay.Order.{IsOrder}
use chimera_core.Auth.Token.{
  check_request, normalize_auth_fields, canonical_auth_input, out_of_time, any_key, token_of,
  mac_matches, record_nonce, validate,
}
use chimera_core.Chimera.Resolve.{
  split_authority, parse_uint16, parse_digits, check_ips, addresses, join_host_port, format_uint,
  resolve_and_validate_authority,
}
use chimera_core.Chimera.Guard.{is_forbidden_ip}
use chimera_core.Limiter.{allow, release}
use chimera_core.Limiter.Invariant.{IsValid as IsLimiter}
use chimera_core.Quic.Admission.{Server, authenticate, limit, enter, leave, entered, take_slot}
use chimera_core.Quic.Admission.System.{Flight, System, came_in, took_slot, Reach, started, stepped}
use chimera_core.Quic.Admission.System.Bounds.{IsBounded, Reach-IsBounded}
use chimera_core.Quic.Sample.{toy_hmac, request, limiter, server, served, network, effects}
use chimera_core.Quic.Handler.{Effect, serve_target, serve_tcp, dispatch, serve_http}
use chimera_core.Quic.Handler.Guarded.{Outcome, serve_http-Outcome}
use chimera_core.Quic.Handler.Balance.{Back, serve_http-Balanced}

program : Unit {0}
unfolding authenticate limit enter leave serve_target serve_tcp dispatch serve_http allow release
    validate token_of mac_matches any_key record_nonce out_of_time fields encode64 decode64
    normalize_auth_fields check_request canonical_auth_input trim_space to_lower to_upper read_full
    add add_fresh prune_loop evict_loop lookup insert delete bytes_discrete ℕ_discrete
    split_authority parse_uint16 parse_digits check_ips addresses join_host_port format_uint
    resolve_and_validate_authority is_forbidden_ip split_host_port index_byte last_index_byte
    split_plain
program = tt

run : serve_http network toy_hmac server request 9000000000 9000000000 ≡ some (served, effects)
unfolding program
run = refl

limiter-IsValid : IsLimiter limiter
limiter-IsValid = record {
  in_use_le = omega arith;
  tracked_pos = omega arith;
  tracked_le = omega arith;
  held = tt;
}

fresh-IsOrder : IsOrder 4 []
fresh-IsOrder = record { positive = omega arith; distinct = tt; bounded = omega arith }

serve_http-Outcome_example : Outcome network toy_hmac server request 9000000000 effects
serve_http-Outcome_example =
    serve_http-Outcome network toy_hmac server served request 9000000000 9000000000 effects run

serve_http-Balanced_example :
    (q : Server × List Effect) × (serve_http network toy_hmac server request 9000000000 9000000000
      ≡ some q)
    × Back network server q.0 q.1
serve_http-Balanced_example =
    serve_http-Balanced network toy_hmac 4 5000000000 [] server request 9000000000 9000000000
      fresh-IsOrder refl limiter-IsValid

-- The same request, come in and with a slot.
abbrev inside : Server
inside = record served { limiter = record limiter { in_use = 1 } }

coming : enter toy_hmac server request 9000000000 9000000000 ≡ some (inside, entered true)
unfolding program
coming = refl

abbrev flight : Flight
flight = record { request = request; authenticated = true; holds_slot = false }

abbrev holding : Server
holding = record inside { udp_slots = some (record { size = 1; used = 1 }) }

slot : take_slot inside ≡ some holding
unfolding take_slot
slot = refl

abbrev busy : System
busy = record { server = holding; flights = record flight { holds_slot = true } ∷ [] }

busy-Reach : Reach toy_hmac server busy
busy-Reach =
    stepped (stepped started (came_in request 9000000000 9000000000 coming))
      (took_slot [] [] flight refl refl refl slot)

Reach-IsBounded_example : IsBounded server busy
Reach-IsBounded_example = Reach-IsBounded toy_hmac server busy limiter-IsValid refl refl busy-Reach
