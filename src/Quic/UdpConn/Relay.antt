-- ===== src/Quic/UdpConn/Relay.antt =====
-- UDP from end to end: udp_client.go, udp.go and udp_codec.go of internal/quicx.
use chimera_core.Prelude.{
  ℕ, zero, suc, ◌+◌, ◌≤◌, ◌<◌, ◌≡◌, refl, Bool, true, false, ◌||◌, ◌==◌, List, [], ◌∷◌, ◌++◌, map,
  none, some, ok, ltb, leb, length, take, All, arith, Result-cases, inl, inr, ap, ◌∙◌, ℕ_discrete,
}
use chimera_core.Prelude.Dict.{lookup}
use chimera_core.Udp.Frame.{udp_fragment_assembly_ttl}
use chimera_core.Udp.Encoder.{max_sequence, encode}
use chimera_core.Udp.Decoder.{Decoder, decode}
use chimera_core.Udp.Decoder.Reassembly.{decode_all, InTime, Distinct, answers}
use chimera_core.Udp.Roundtrip.{pick, decode-encode}
use chimera_core.Quic.UdpSession.{
  Session, take_answer, write_packet, client_round, Event, client_datagram, step, run, Source,
  udp_source_matches_target, target_packet, target_round, send_frames,
}
use chimera_core.Quic.UdpConn.{
  UdpConn, Arrival, datagram, read_loop, read_from, send_packet, write_to,
}

-- Datagrams that come to the server, and that it can write to the target.
abbrev pub to_server : List (ℕ × List ℕ) → List Event
to_server = map (λ e. client_datagram e.0 e.1 true)

-- Datagrams that come to the client.
abbrev pub to_client : List (ℕ × List ℕ) → List Arrival
to_client = map (λ e. datagram e.0 e.1)

decode_all_nil : (d : Decoder) (l : List (ℕ × List ℕ)) → (decode_all d l).1 ≡ [] → l ≡ []
unfolding decode_all
decode_all_nil d [] e = refl
decode_all_nil d (p ∷ l) e = absurd (ground arith)

step_last :
    (now : ℕ) (frame packet : List ℕ) (s : Session)
    → s.client_runs ≡ true
    → (decode now s.from_client frame).1 ≡ ok (some packet)
    → (step s (client_datagram now frame true)).written ≡ s.written ++ (packet ∷ [])
unfolding step client_round take_answer write_packet
step_last now frame packet s runs got = ground arith

step_more :
    (now : ℕ) (frame : List ℕ) (s : Session)
    → s.client_runs ≡ true
    → (decode now s.from_client frame).1 ≡ ok none
    → step s (client_datagram now frame true)
      ≡ record s { from_client = (decode now s.from_client frame).0 }
unfolding step client_round take_answer
step_more now frame s runs got = ground arith

run-to_server :
    (n : ℕ) (packet : List ℕ) (l : List (ℕ × List ℕ)) (s : Session)
    → s.client_runs ≡ true
    → (decode_all s.from_client l).1 ≡ answers n packet
    → (run s (to_server l)).written ≡ s.written ++ (packet ∷ [])
unfolding decode_all run
run-to_server zero packet [] s runs e = absurd (ground arith)
run-to_server (suc n) packet [] s runs e = absurd (ground arith)
run-to_server zero packet ((now, frame) ∷ l) s runs e =
    let d = (decode now s.from_client frame).0 in
    let none_left : l ≡ [] = decode_all_nil d l (ground arith) in
    let got : (decode now s.from_client frame).1 ≡ ok (some packet) = ground arith in
    let s' = step s (client_datagram now frame true) in
    ap (λ (m : List (ℕ × List ℕ)). (run s' (to_server m)).written) none_left
    ∙ step_last now frame packet s runs got
run-to_server (suc n) packet ((now, frame) ∷ l) s runs e =
    let d = (decode now s.from_client frame).0 in
    let got : (decode now s.from_client frame).1 ≡ ok none = ground arith in
    let rest : (decode_all d l).1 ≡ answers n packet = ground arith in
    ap (λ (t : Session). (run t (to_server l)).written) (step_more now frame s runs got)
    ∙ run-to_server n packet l (record s { from_client = d }) runs rest

read_loop-to_client :
    (n size : ℕ) (packet : List ℕ) (l : List (ℕ × List ℕ)) (c : UdpConn)
    → (decode_all c.decoder l).1 ≡ answers n packet
    → (read_loop size (to_client l) c).1 ≡ some (ok (take size packet, c.target))
unfolding decode_all read_loop
read_loop-to_client zero size packet [] c e = absurd (ground arith)
read_loop-to_client (suc n) size packet [] c e = absurd (ground arith)
read_loop-to_client zero size packet ((now, frame) ∷ l) c e =
    let got : (decode now c.decoder frame).1 ≡ ok (some packet) = ground arith in ground arith
read_loop-to_client (suc n) size packet ((now, frame) ∷ l) c e =
    let d = (decode now c.decoder frame).0 in
    let got : (decode now c.decoder frame).1 ≡ ok none = ground arith in
    let rest : (decode_all d l).1 ≡ answers n packet = ground arith in
    ground (arith, read_loop-to_client n size packet l (record c { decoder = d }) rest)

append_cancel : (xs ys zs : List (List ℕ)) → xs ++ ys ≡ xs ++ zs → ys ≡ zs
append_cancel [] ys zs e = e
append_cancel (x ∷ xs) ys zs e = append_cancel xs ys zs (ground arith)

-- The frames that a successful `WriteTo` sends.
write_to-encode :
    (now n room : ℕ) (set_ok : Bool) (p : List ℕ) (c c' : UdpConn) (frames : List (List ℕ))
    → write_to now set_ok p room c ≡ (c', ok n)
    → c'.sent ≡ c.sent ++ frames
    → (encode c.encoder p).1 ≡ ok frames
unfolding write_to send_packet
write_to-encode now n room set_ok p c c' frames e sent =
    elim (Result-cases (encode c.encoder p).1) [
      | inr (x, bad) ↦ absurd (ground arith)
      | inl (made, good) ↦
          let same : c.sent ++ made ≡ c.sent ++ frames = ground arith in
          good ∙ ap (λ (l : List (List ℕ)). ok l) (append_cancel c.sent made frames same)
    ]

-- If `WriteTo` of a connection with sequence numbers left sends the frames of a packet without an
-- error, and these reach a session that can take them (its goroutine runs, its limit is no smaller, and
-- its decoder holds nothing under the sequence number), each once, in any order and within two
-- seconds of the first, and its writes to the target succeed, then the server writes exactly the packet
-- to the target.
pub write_to-run :
    (sent_at n room : ℕ) (set_ok : Bool) (p : List ℕ) (c c' : UdpConn) (frames : List (List ℕ))
    (s : Session) (t i : ℕ) (order : List (ℕ × ℕ))
    → c.encoder.next_seq ≤ max_sequence
    → write_to sent_at set_ok p room c ≡ (c', ok n)
    → c'.sent ≡ c.sent ++ frames
    → s.client_runs ≡ true
    → length p ≤ s.from_client.max_packet
    → lookup ℕ_discrete c.encoder.next_seq s.from_client.pending ≡ none
    → All (InTime (t + udp_fragment_assembly_ttl) (length frames)) ((t, i) ∷ order)
    → Distinct ((t, i) ∷ order)
    → suc (length order) ≡ length frames
    → (run s (to_server (pick frames ((t, i) ∷ order)))).written ≡ s.written ++ (p ∷ [])
write_to-run sent_at n room set_ok p c c' frames s t i order range wrote sent runs fits fresh times
      distinct all =
    let made = write_to-encode sent_at n room set_ok p c c' frames wrote sent in
    run-to_server (length order) p (pick frames ((t, i) ∷ order)) s runs (
      decode-encode c.encoder p frames s.from_client t i order range made fits fresh times distinct
        all)

take_all : (n : ℕ) (xs : List ℕ) → length xs ≤ n → take n xs ≡ xs
take_all zero [] h = refl
take_all zero (x ∷ xs) h = absurd (omega (arith, h))
take_all (suc n) [] h = refl
take_all (suc n) (x ∷ xs) h = ap (◌∷◌ x) (take_all n xs (omega (arith, h)))

-- The event that the target sends a packet, all of whose frames can be sent.
target_packet-sent :
    (source : Source) (p : List ℕ) (room : ℕ) (frames : List (List ℕ)) (s : Session)
    → s.target_runs ≡ true
    → udp_source_matches_target source (some s.target) ≡ true
    → (0 < length p) × (length p ≤ s.max_packet)
    → (encode s.to_client p).1 ≡ ok frames
    → length frames ≤ room
    → (step s (target_packet source p room)).sent ≡ s.sent ++ frames
unfolding step target_round send_frames
target_packet-sent source p room frames s runs own sized made fits =
    let whole : take (s.max_packet + 1) p ≡ p =
      take_all (s.max_packet + 1) p (omega (arith, sized.1)) in
    let small : (length p == 0 || ltb s.max_packet (length p)) ≡ false = ground (arith, sized) in
    let enough : leb (length frames) room ≡ true = ground (arith, fits) in ground arith

-- If the target of a session whose goroutine runs, from its own address, sends a packet that is not
-- empty nor above the limit and that the session's encoder cuts into frames, all of which can be sent,
-- then these are sent to the client; and a client of no smaller limit, with nothing under the sequence
-- number, that gets each of them once, in any order and within two seconds of the first, reads exactly
-- the packet, cut to its buffer, as from the target it asked for.
pub target_packet-read_from :
    (source : Source) (p : List ℕ) (room size : ℕ) (frames : List (List ℕ)) (s : Session)
    (c : UdpConn) (t i : ℕ) (order : List (ℕ × ℕ))
    → s.target_runs ≡ true
    → udp_source_matches_target source (some s.target) ≡ true
    → (0 < length p) × (length p ≤ s.max_packet)
    → s.to_client.next_seq ≤ max_sequence
    → (encode s.to_client p).1 ≡ ok frames
    → length frames ≤ room
    → c.stream ≡ true
    → length p ≤ c.decoder.max_packet
    → lookup ℕ_discrete s.to_client.next_seq c.decoder.pending ≡ none
    → All (InTime (t + udp_fragment_assembly_ttl) (length frames)) ((t, i) ∷ order)
    → Distinct ((t, i) ∷ order)
    → suc (length order) ≡ length frames
    → ((step s (target_packet source p room)).sent ≡ s.sent ++ frames)
      × ((read_from size (to_client (pick frames ((t, i) ∷ order))) c).1
          ≡ some (ok (take size p, c.target)))
unfolding read_from
target_packet-read_from source p room size frames s c t i order runs own sized range made fits
      stream small fresh times distinct all =
    let reads = read_loop-to_client (length order) size p (pick frames ((t, i) ∷ order)) c (
      decode-encode s.to_client p frames c.decoder t i order range made small fresh times distinct
        all) in
    (target_packet-sent source p room frames s runs own sized made fits, ground arith)
