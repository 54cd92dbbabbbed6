-- ===== src/Quic/UdpConn/Tests.antt =====
-- A packet of two fragments through internal/quicx/udp_client.go and udp.go, both ways.
use chimera_core.Prelude.{
  ℕ, ◌≡◌, refl, true, false, List, [], ◌∷◌, none, some, ok, err, arith, replicate,
}
use chimera_core.Prelude.Dict.{lookup}
use chimera_core.Prelude.Int.{pos}
use chimera_core.Udp.Frame.{put_frame}
use chimera_core.Udp.Encoder.{Encoder, new_udp_fragment_encoder, fragment_loop, advance, encode}
use chimera_core.Udp.Decoder.{new_udp_fragment_decoder}
use chimera_core.Udp.Roundtrip.{pick}
use chimera_core.Quic.Handler.{UdpAddr}
use chimera_core.Quic.UdpSession.{
  Source, udp, ip_equal, udp_source_matches_target, Session, new_session, Event, client_datagram,
  target_packet, active, timer, step, run,
}
use chimera_core.Quic.UdpSession.Safe.{IsSafe}
use chimera_core.Quic.UdpSession.Runs.{run_new-IsSafe}
use chimera_core.Quic.UdpConn.{
  UdpConn, UdpError, new_udp_conn, send_packet, write_to, read_from, close_conn, set_write_deadline,
}
use chimera_core.Quic.UdpConn.Relay.{to_server, to_client, write_to-run, target_packet-read_from}

abbrev packet : List ℕ
packet = replicate 1001 7

abbrev frames : List (List ℕ)
frames =
    put_frame (record { sequence = 0; index = 0; count = 2; payload = replicate 1000 7 })
    ∷ put_frame (record { sequence = 0; index = 1; count = 2; payload = 7 ∷ [] })
    ∷ []

abbrev encoder : Encoder
encoder = record { max_packet = 1200; next_seq = 0; exhausted = false }

abbrev target : UdpAddr
target = record { ip = some (8 ∷ 8 ∷ 8 ∷ 8 ∷ []); port = 53 }

abbrev session : Session
session = record {
  max_packet = 1200;
  idle_timeout = 60;
  target = target;
  from_client = record { max_packet = 1200; pending = [] };
  to_client = encoder;
  client_runs = true;
  target_runs = true;
  activity = false;
  done = 0;
  deadline = 65;
  over = false;
  written = [];
  sent = [];
}

started : new_session 1200 60 target 5 ≡ session
unfolding new_session new_udp_fragment_decoder new_udp_fragment_encoder
started = refl

abbrev client : UdpConn
client = record {
  stream = true;
  target = 104 ∷ [];
  max_packet = 1200;
  encoder = encoder;
  decoder = record { max_packet = 1200; pending = [] };
  read_deadline = none;
  write_deadline = none;
  close_once = false;
  close_err = none;
  canceled = false;
  sent = [];
}

made : new_udp_conn (104 ∷ []) (pos 1200) ≡ client
unfolding new_udp_conn new_udp_fragment_decoder new_udp_fragment_encoder
made = refl

-- A second Close returns the error of the first.
closed_twice : (close_conn none (close_conn (some (1 ∷ [])) client).0).1 ≡ some (1 ∷ [])
unfolding close_conn
closed_twice = refl

too_late :
    (write_to 9 true packet 5 (set_write_deadline (some 8) none client).0).1
    ≡ err UdpError.deadline_exceeded
unfolding write_to set_write_deadline
too_late = refl

abbrev wrote : UdpConn
wrote = record client { encoder = record encoder { next_seq = 1 }; sent = frames }

writing : write_to 3 true packet 5 client ≡ (wrote, ok 1001)
unfolding write_to send_packet encode advance fragment_loop
writing = refl

write_to-run_example :
    (run session (to_server (pick frames ((0, 1) ∷ (5, 0) ∷ [])))).written ≡ packet ∷ []
unfolding lookup
write_to-run_example =
    write_to-run 3 1001 5 true packet client wrote frames session 0 1 ((5, 0) ∷ []) (omega arith)
      writing refl refl (omega arith) refl (omega arith) (ground arith) refl

encoded : (encode encoder packet).1 ≡ ok frames
unfolding encode advance fragment_loop
encoded = refl

-- The target's address in 16 bytes.
abbrev mapped : Source
mapped = udp (record {
  ip = some (0 ∷ 0 ∷ 0 ∷ 0 ∷ 0 ∷ 0 ∷ 0 ∷ 0 ∷ 0 ∷ 0 ∷ 255 ∷ 255 ∷ 8 ∷ 8 ∷ 8 ∷ 8 ∷ []);
  port = 53;
})

own : udp_source_matches_target mapped (some target) ≡ true
unfolding udp_source_matches_target ip_equal
own = refl

target_packet-read_from_example :
    ((step session (target_packet mapped packet 2)).sent ≡ frames)
    × ((read_from 9 (to_client (pick frames ((0, 1) ∷ (5, 0) ∷ []))) client).1
        ≡ some (ok (replicate 9 7, 104 ∷ [])))
unfolding lookup
target_packet-read_from_example =
    target_packet-read_from mapped packet 2 9 frames session client 0 1 ((5, 0) ∷ []) refl own
      (omega arith, omega arith) (omega arith) encoded (omega arith) refl (omega arith) refl
      (omega arith) (ground arith) refl

-- A packet of the target, a broken datagram of the client, and the end.
abbrev events : List Event
events =
    target_packet mapped (7 ∷ []) 2 ∷ active 6 ∷ client_datagram 7 (1 ∷ []) true ∷ timer 70 ∷ []

run_new-IsSafe_example : IsSafe (λ p. p ≡ 7 ∷ []) (run (new_session 1200 60 target 5) events)
run_new-IsSafe_example =
    run_new-IsSafe (λ p. p ≡ 7 ∷ []) 1200 60 target 5 events (omega arith)
      ((λ e. refl), (tt, (tt, (tt, tt))))
