-- ===== src/Quic/UdpConn.antt =====
-- The methods of UDPConn in internal/quicx/udp_client.go. The HTTP/3 stream is what is sent on it, what
-- arrives on it and whether its calls fail.
pub mod Relay
mod Tests
use chimera_core.Prelude.{
  ℕ, ◌≡◌, Bool, true, false, not, ◌&&◌, ◌||◌, ◌==◌, List, [], ◌∷◌, ◌++◌, Option, none, some, Result,
  ok, err, ltb, leb, if◌then◌else◌, length, take,
}
use chimera_core.Prelude.Int.{ℤ, pos, or_default}
use chimera_core.Udp.Frame.{default_udp_max_packet_size, DecodeError}
use chimera_core.Udp.Encoder.{Encoder, EncodeError, new_udp_fragment_encoder, encode}
use chimera_core.Udp.Decoder.{Decoder, new_udp_fragment_decoder, decode}

-- `stream` is that there is one; `sent` are the datagrams sent on it; `canceled` that `cancel`,
-- `CancelRead` and `CancelWrite` were called. A zero time.Time is `none`.
pub record UdpConn : Type 0 where
  pub stream : Bool
  pub target : List ℕ
  pub max_packet : ℕ
  pub encoder : Encoder
  pub decoder : Decoder
  pub read_deadline : Option ℕ
  pub write_deadline : Option ℕ
  pub close_once : Bool
  pub close_err : Option (List ℕ)
  pub canceled : Bool
  pub sent : List (List ℕ)

unfoldable pub new_udp_conn : List ℕ → ℤ → UdpConn
new_udp_conn target max_packet =
    let max = or_default max_packet default_udp_max_packet_size in
    record {
      stream = true;
      target = target;
      max_packet = max;
      encoder = new_udp_fragment_encoder (pos max);
      decoder = new_udp_fragment_decoder (pos max);
      read_deadline = none;
      write_deadline = none;
      close_once = false;
      close_err = none;
      canceled = false;
      sent = [];
    }

pub data UdpError : Type 0 where
  conn_closed empty_datagram too_large deadline_exceeded deadline_failed send_failed : UdpError
  receive_failed : UdpError
  decode_failed : DecodeError → UdpError
  encode_failed : EncodeError → UdpError

-- What `ReceiveDatagram` returns: a datagram at a time, or one of two kinds of error.
pub data Arrival : Type 0 where
  datagram : ℕ → List ℕ → Arrival
  out_of_time failed : Arrival

-- The loop of `ReadFrom` into `size` bytes; `none` if it still waits.
unfoldable pub read_loop :
    ℕ → List Arrival → UdpConn → UdpConn × Option (Result UdpError (List ℕ × List ℕ))
read_loop size [] c = (c, none)
read_loop size (out_of_time ∷ _) c = (c, some (err deadline_exceeded))
read_loop size (failed ∷ _) c = (c, some (err receive_failed))
read_loop size (datagram now bytes ∷ more) c =
    let (d, answer) = decode now c.decoder bytes in
    let waits = read_loop size more (record c { decoder = d }) in
    elim answer [
      | err e ↦ (record c { decoder = d }, some (err (decode_failed e)))
      | ok none ↦ waits
      | ok (some packet) ↦ (record c { decoder = d }, some (ok (take size packet, c.target)))
    ]

unfoldable pub read_from :
    ℕ → List Arrival → UdpConn → UdpConn × Option (Result UdpError (List ℕ × List ℕ))
unfolding read_loop
read_from size arrivals c =
    if not c.stream then (c, some (err conn_closed)) else read_loop size arrivals c

abbrev pub expired : Option ℕ → ℕ → Bool
expired none now = false
expired (some t) now = ltb t now

-- `WriteTo` from `Encode` on; `room` datagrams can be sent.
unfoldable pub send_packet : List ℕ → ℕ → UdpConn → UdpConn × Result UdpError ℕ
send_packet p room c =
    let (e, made) = encode c.encoder p in
    elim made [
      | err x ↦ (record c { encoder = e }, err (encode_failed x))
      | ok frames ↦
          if leb (length frames) room
          then (record c { encoder = e; sent = c.sent ++ frames }, ok (length p))
          else (record c { encoder = e; sent = c.sent ++ take room frames }, err send_failed)
    ]

-- `WriteTo` at the time `now`; `set_ok` says whether `SetWriteDeadline` of the stream succeeds.
unfoldable pub write_to : ℕ → Bool → List ℕ → ℕ → UdpConn → UdpConn × Result UdpError ℕ
unfolding send_packet
write_to now set_ok p room c =
    if not c.stream
    then (c, err conn_closed)
    else if length p == 0
    then (c, err empty_datagram)
    else if ltb c.max_packet (length p)
    then (c, err too_large)
    else if expired c.write_deadline now
    then (c, err deadline_exceeded)
    else if not set_ok
    then (c, err deadline_failed)
    else send_packet p room c

-- `Close`; `closing` is what the stream's Close returns.
unfoldable pub close_conn : Option (List ℕ) → UdpConn → UdpConn × Option (List ℕ)
close_conn closing c =
    if c.close_once
    then (c, c.close_err)
    else if c.stream
    then (record c { close_once = true; canceled = true; close_err = closing }, closing)
    else (record c { close_once = true; canceled = true }, c.close_err)

-- `SetDeadline`, `SetReadDeadline` and `SetWriteDeadline`; `setting` is what the stream's method
-- returns.
abbrev pub or_closed : UdpConn → Option UdpError → UdpConn × Option UdpError
or_closed c setting = if not c.stream then (c, some conn_closed) else (c, setting)

unfoldable pub set_deadline : Option ℕ → Option UdpError → UdpConn → UdpConn × Option UdpError
set_deadline t setting c = or_closed (record c { read_deadline = t; write_deadline = t }) setting

unfoldable pub set_read_deadline : Option ℕ → Option UdpError → UdpConn → UdpConn × Option UdpError
set_read_deadline t setting c = or_closed (record c { read_deadline = t }) setting

unfoldable pub set_write_deadline : Option ℕ → Option UdpError → UdpConn → UdpConn × Option UdpError
set_write_deadline t setting c = or_closed (record c { write_deadline = t }) setting
