-- ===== src/Quic/UdpSession/Safe.antt =====
-- What internal/quicx/udp.go relays, whatever the client, the network and the scheduler do.
use chimera_core.Prelude.{
  ℕ, ◌+◌, ◌≤◌, ◌<◌, ◌≡◌, refl, Bool, true, false, List, [], ◌∷◌, ◌++◌, Option, none, some, Result,
  ok, err, ltb, leb, ◌||◌, ◌==◌, length, take, All, All-append, All-take, arith, Bool-cases,
  Result-cases, inl, inr, subst, sym, ap, ◌∙◌, if◌then◌else◌, append_assoc,
}
use chimera_core.Udp.Encoder.{Encoder, encode}
use chimera_core.Udp.Frame.{DecodeError}
use chimera_core.Udp.Decoder.{Decoder, decode}
use chimera_core.Udp.Decoder.Invariant.{IsValid as IsDecoder, decode-IsSound}
use chimera_core.Quic.Handler.{UdpAddr}
use chimera_core.Quic.UdpSession.{
  Source, udp_source_matches_target, Session, stop_client, stop_target, write_packet, take_answer,
  client_round, send_frames, target_round, Event, target_packet,
}

-- A packet of a size that a session may relay.
abbrev pub Sized : ℕ → List ℕ → Type 0
Sized max packet = (0 < length packet) × (length packet ≤ max)

-- A frame of a packet with the property `P`.
pub record FrameOf (P : List ℕ → Type 0) (max : ℕ) (frame : List ℕ) : Type 0 where
  pub packet : List ℕ
  pub encoder : Encoder
  pub before : List (List ℕ)
  pub behind : List (List ℕ)
  pub has : P packet
  pub sized : Sized max packet
  pub encoded : (encode encoder packet).1 ≡ ok (before ++ (frame ∷ behind))

-- What the source of the target sends has the property `P`.
abbrev pub Sends : (List ℕ → Type 0) → UdpAddr → ℕ → Event → Type 0
Sends P target max (target_packet source packet room) =
    udp_source_matches_target source (some target) ≡ true → P (take (max + 1) packet)
Sends P target max _ = Unit

abbrev pub one : Bool → ℕ
one b = if b then 1 else 0

pub record IsSafe (P : List ℕ → Type 0) (s : Session) : Type 0 where
  pub decoder_valid : IsDecoder s.from_client
  pub decoder_max : s.from_client.max_packet ≡ s.max_packet
  pub written_sized : All (Sized s.max_packet) s.written
  pub sent_of_target : All (FrameOf P s.max_packet) s.sent
  pub done_count : s.done + (one s.client_runs + one s.target_runs) ≡ 2

module _ (P : List ℕ → Type 0) where
  pub stop_client-IsSafe :
      (s : Session) → s.client_runs ≡ true → IsSafe P s → IsSafe P (stop_client s)
  stop_client-IsSafe s runs v = record {
    decoder_valid = v.decoder_valid;
    decoder_max = v.decoder_max;
    written_sized = v.written_sized;
    sent_of_target = v.sent_of_target;
    done_count = ground (arith, v.done_count);
  }

  pub stop_target-IsSafe :
      (s : Session) → s.target_runs ≡ true → IsSafe P s → IsSafe P (stop_target s)
  stop_target-IsSafe s runs v = record {
    decoder_valid = v.decoder_valid;
    decoder_max = v.decoder_max;
    written_sized = v.written_sized;
    sent_of_target = v.sent_of_target;
    done_count = ground (arith, v.done_count);
  }

  write_packet-IsSafe :
      (write_ok : Bool) (packet : List ℕ) (s : Session)
      → s.client_runs ≡ true
      → Sized s.max_packet packet
      → IsSafe P s
      → IsSafe P (write_packet write_ok packet s)
  unfolding write_packet
  write_packet-IsSafe false packet s runs sized v = stop_client-IsSafe s runs v
  write_packet-IsSafe true packet s runs sized v = record {
    decoder_valid = v.decoder_valid;
    decoder_max = v.decoder_max;
    written_sized =
        All-append (Sized s.max_packet) s.written (packet ∷ []) v.written_sized (sized, tt);
    sent_of_target = v.sent_of_target;
    done_count = v.done_count;
  }

  -- The session with another decoder.
  decoder-IsSafe :
      (s : Session) (d : Decoder)
      → IsDecoder d
      → d.max_packet ≡ s.max_packet
      → IsSafe P s
      → IsSafe P (record s { from_client = d })
  decoder-IsSafe s d valid same v = record {
    decoder_valid = valid;
    decoder_max = same;
    written_sized = v.written_sized;
    sent_of_target = v.sent_of_target;
    done_count = v.done_count;
  }

  take_answer-IsSafe :
      (write_ok : Bool) (answer : Result DecodeError (Option (List ℕ))) (s : Session)
      → s.client_runs ≡ true
      → ((packet : List ℕ) → answer ≡ ok (some packet) → Sized s.max_packet packet)
      → IsSafe P s
      → IsSafe P (take_answer write_ok answer s)
  unfolding take_answer
  take_answer-IsSafe write_ok (err _) s runs sized v = stop_client-IsSafe s runs v
  take_answer-IsSafe write_ok (ok none) s runs sized v = v
  take_answer-IsSafe write_ok (ok (some packet)) s runs sized v =
      write_packet-IsSafe write_ok packet s runs (sized packet refl) v

  pub client_round-IsSafe :
      (now : ℕ) (datagram : List ℕ) (write_ok : Bool) (s : Session)
      → s.client_runs ≡ true
      → IsSafe P s
      → IsSafe P (client_round now datagram write_ok s)
  unfolding client_round
  client_round-IsSafe now datagram write_ok s runs v =
      let sound = decode-IsSound now s.from_client datagram v.decoder_valid in
      let (d, answer) = decode now s.from_client datagram in
      take_answer-IsSafe write_ok answer (record s { from_client = d }) runs
        (λ packet e. subst (λ m. Sized m packet) v.decoder_max (sound.bounded packet e))
        (decoder-IsSafe s d sound.valid (sound.max_kept ∙ v.decoder_max) v)

  -- Each frame that `Encode` makes of a packet.
  frames_of :
      (e : Encoder) (packet : List ℕ) (max : ℕ) (front frames : List (List ℕ))
      → P packet
      → Sized max packet
      → (encode e packet).1 ≡ ok (front ++ frames)
      → All (FrameOf P max) frames
  frames_of e packet max front [] p sized made = tt
  frames_of e packet max front (frame ∷ frames) p sized made = (
    record {
      packet = packet;
      encoder = e;
      before = front;
      behind = frames;
      has = p;
      sized = sized;
      encoded = made;
    },
    frames_of e packet max (front ++ (frame ∷ [])) frames p sized
        (made ∙ ap (λ (l : List (List ℕ)). ok l) (sym (append_assoc front (frame ∷ []) frames))),
  )

  -- The session with another encoder and more frames sent.
  sent-IsSafe :
      (s : Session) (e : Encoder) (frames : List (List ℕ))
      → All (FrameOf P s.max_packet) frames
      → IsSafe P s
      → IsSafe P (record s { to_client = e; sent = s.sent ++ frames })
  sent-IsSafe s e frames all v = record {
    decoder_valid = v.decoder_valid;
    decoder_max = v.decoder_max;
    written_sized = v.written_sized;
    sent_of_target = All-append (FrameOf P s.max_packet) s.sent frames v.sent_of_target all;
    done_count = v.done_count;
  }

  -- Activity does not matter.
  pub active-IsSafe :
      (s : Session) (b : Bool) (deadline : ℕ) (over : Bool)
      → IsSafe P s
      → IsSafe P (record s { activity = b; deadline = deadline; over = over })
  active-IsSafe s b deadline over v = record {
    decoder_valid = v.decoder_valid;
    decoder_max = v.decoder_max;
    written_sized = v.written_sized;
    sent_of_target = v.sent_of_target;
    done_count = v.done_count;
  }

  encoder-IsSafe : (s : Session) (e : Encoder) → IsSafe P s → IsSafe P (record s { to_client = e })
  encoder-IsSafe s e v = record {
    decoder_valid = v.decoder_valid;
    decoder_max = v.decoder_max;
    written_sized = v.written_sized;
    sent_of_target = v.sent_of_target;
    done_count = v.done_count;
  }

  send_frames-IsSafe :
      (room : ℕ) (frames : List (List ℕ)) (s : Session) (e : Encoder)
      → s.target_runs ≡ true
      → All (FrameOf P s.max_packet) frames
      → IsSafe P s
      → IsSafe P (send_frames room frames (record s { to_client = e }))
  unfolding send_frames
  send_frames-IsSafe room frames s e runs all v = elim (Bool-cases (leb (length frames) room)) [
    | inl all_fit ↦
        rw (all_fit, send_frames)
          (active-IsSafe _ true s.deadline s.over (sent-IsSafe s e frames all v))
    | inr some_fit ↦
        rw (some_fit, send_frames)
          (stop_target-IsSafe _ runs (
            sent-IsSafe s e (take room frames) (All-take (FrameOf P s.max_packet) room frames all)
              v))
  ]

  pub target_round-IsSafe :
      (source : Source) (packet : List ℕ) (room : ℕ) (s : Session)
      → s.target_runs ≡ true
      → Sends P s.target s.max_packet (target_packet source packet room)
      → IsSafe P s
      → IsSafe P (target_round source packet room s)
  unfolding target_round
  target_round-IsSafe source packet room s runs sends v =
      let buf = take (s.max_packet + 1) packet in
      elim (Bool-cases (length buf == 0 || ltb s.max_packet (length buf))) [
        | inl bad ↦ rw (bad, target_round) v
        | inr sized ↦ elim (Bool-cases (udp_source_matches_target source (some s.target))) [
          | inr foreign ↦ rw (sized, target_round) (rw (foreign, target_round) v)
          | inl own ↦ elim (Result-cases (encode s.to_client buf).1) [
            | inr (x, bad) ↦
                rw (sized, target_round)
                  (rw (own, target_round)
                    (rw (bad, target_round) (stop_target-IsSafe _ runs (encoder-IsSafe s _ v))))
            | inl (frames, made) ↦
                rw (sized, target_round)
                  (rw (own, target_round)
                    (rw (made, target_round)
                      (send_frames-IsSafe room frames s _ runs
                        (frames_of s.to_client buf s.max_packet [] frames (sends own) (ground arith)
                          made)
                        v)))
          ]
        ]
      ]
