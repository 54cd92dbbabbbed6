-- ===== src/Quic/UdpSession.antt =====
-- The relay of `serveUDPSession` in internal/quicx/udp.go. Its two goroutines and its loop of `select` are
-- the events of `step`, in any order; what the network does is in the events.
pub mod Safe
pub mod Runs
use chimera_core.Prelude.{
  ℕ, ◌+◌, ◌≡◌, Bool, true, false, not, ◌&&◌, ◌||◌, ◌==◌, List, [], ◌∷◌, ◌++◌, Option, none, some,
  Result, ok, err, ltb, leb, if◌then◌else◌, length, take, drop,
}
use chimera_core.Prelude.Int.{pos}
use chimera_core.Chimera.Ip.{Ip, bytes_equal, v4_in_v6_prefix}
use chimera_core.Udp.Encoder.{Encoder, new_udp_fragment_encoder, encode}
use chimera_core.Udp.Frame.{DecodeError}
use chimera_core.Udp.Decoder.{Decoder, new_udp_fragment_decoder, decode}
use chimera_core.Quic.Handler.{UdpAddr, is_nil}

-- A net.Addr: a *net.UDPAddr or another type.
pub data Source : Type 0 where
  udp : UdpAddr → Source
  other_addr : Source

-- net.IP.Equal.
unfoldable pub ip_equal : List ℕ → List ℕ → Bool
ip_equal a b =
    if length a == length b
    then bytes_equal a b
    else if length a == 4 && length b == 16
    then bytes_equal (take 12 b) v4_in_v6_prefix && bytes_equal a (drop 12 b)
    else if length a == 16 && length b == 4
    then bytes_equal (take 12 a) v4_in_v6_prefix && bytes_equal (drop 12 a) b
    else false

abbrev pub same_ip : Ip → Ip → Bool
same_ip (some a) (some b) = ip_equal a b
same_ip _ _ = false

-- `udpSourceMatchesTarget`.
unfoldable pub udp_source_matches_target : Source → Option UdpAddr → Bool
unfolding ip_equal
udp_source_matches_target source none = false
udp_source_matches_target other_addr (some target) = false
udp_source_matches_target (udp source) (some target) =
    if is_nil target.ip || target.port == 0
    then false
    else if is_nil source.ip || not (source.port == target.port)
    then false
    else same_ip source.ip target.ip

-- `activity` and `done` are the channels; `over` is that the handler has closed the stream and returned.
-- The last two fields are the packets written to the target and the datagrams sent to the client.
pub record Session : Type 0 where
  pub max_packet : ℕ
  pub idle_timeout : ℕ
  pub target : UdpAddr
  pub from_client : Decoder
  pub to_client : Encoder
  pub client_runs : Bool
  pub target_runs : Bool
  pub activity : Bool
  pub done : ℕ
  pub deadline : ℕ
  pub over : Bool
  pub written : List (List ℕ)
  pub sent : List (List ℕ)

-- `serveUDPSession` where its loops start, at the time `now`.
unfoldable pub new_session : ℕ → ℕ → UdpAddr → ℕ → Session
new_session max_packet idle_timeout target now = record {
  max_packet = max_packet;
  idle_timeout = idle_timeout;
  target = target;
  from_client = new_udp_fragment_decoder (pos max_packet);
  to_client = new_udp_fragment_encoder (pos max_packet);
  client_runs = true;
  target_runs = true;
  activity = false;
  done = 0;
  deadline = now + idle_timeout;
  over = false;
  written = [];
  sent = [];
}

-- The end of either goroutine, with its error in `done`.
abbrev pub stop_client : Session → Session
stop_client s = record s { client_runs = false; done = s.done + 1 }

abbrev pub stop_target : Session → Session
stop_target s = record s { target_runs = false; done = s.done + 1 }

-- The first goroutine from `WriteTo` on.
unfoldable pub write_packet : Bool → List ℕ → Session → Session
write_packet write_ok packet s =
    if write_ok
    then record s { written = s.written ++ (packet ∷ []); activity = true }
    else stop_client s

-- The first goroutine from the result of `Decode` on.
unfoldable pub take_answer : Bool → Result DecodeError (Option (List ℕ)) → Session → Session
unfolding write_packet
take_answer write_ok (err _) s = stop_client s
take_answer write_ok (ok none) s = s
take_answer write_ok (ok (some packet)) s = write_packet write_ok packet s

-- A round of the first goroutine, on a datagram from the client.
unfoldable pub client_round : ℕ → List ℕ → Bool → Session → Session
unfolding take_answer
client_round now datagram write_ok s =
    let (d, answer) = decode now s.from_client datagram in
    take_answer write_ok answer (record s { from_client = d })

-- The loop over the frames, of which `room` can be sent.
unfoldable pub send_frames : ℕ → List (List ℕ) → Session → Session
send_frames room frames s =
    if leb (length frames) room
    then record s { sent = s.sent ++ frames; activity = true }
    else stop_target (record s { sent = s.sent ++ take room frames })

-- A round of the second goroutine, on a packet from the network: the buffer has one byte more than the
-- limit, and cuts what is longer.
unfoldable pub target_round : Source → List ℕ → ℕ → Session → Session
unfolding send_frames
target_round source packet room s =
    let buf = take (s.max_packet + 1) packet in
    let (e, made) = encode s.to_client buf in
    if length buf == 0 || ltb s.max_packet (length buf)
    then s
    else if not (udp_source_matches_target source (some s.target))
    then s
    else elim made [
      | err _ ↦ stop_target (record s { to_client = e })
      | ok frames ↦ send_frames room frames (record s { to_client = e })
    ]

pub data Event : Type 0 where
  client_datagram : ℕ → List ℕ → Bool → Event
  client_failed : Event
  target_packet : Source → List ℕ → ℕ → Event
  target_failed : Event
  active : ℕ → Event
  finished : Event
  cancelled : Event
  timer : ℕ → Event

-- One event; one that cannot happen in the state leaves it.
unfoldable pub step : Session → Event → Session
unfolding client_round target_round
step s (client_datagram now datagram write_ok) =
    if s.client_runs then client_round now datagram write_ok s else s
step s client_failed = if s.client_runs then stop_client s else s
step s (target_packet source packet room) =
    if s.target_runs then target_round source packet room s else s
step s target_failed = if s.target_runs then stop_target s else s
step s (active now) =
    if s.activity && not s.over
    then record s { activity = false; deadline = now + s.idle_timeout }
    else s
step s finished = if s.done == 0 then s else record s { over = true }
step s cancelled = record s { over = true }
step s (timer now) = if leb s.deadline now then record s { over = true } else s

unfoldable pub run : Session → List Event → Session
run s [] = s
run s (e ∷ es) = run (step s e) es
