-- ===== src/Quic/UdpSession/Runs.antt =====
-- Runs of a session of internal/quicx/udp.go over any events.
use chimera_core.Prelude.{
  ℕ, zero, suc, ◌+◌, ◌<◌, ◌≡◌, refl, Bool, true, false, not, ◌&&◌, List, [], ◌∷◌, leb, ◌==◌, All,
  arith, subst, sym, if◌then◌else◌,
}
use chimera_core.Udp.Decoder.{new_udp_fragment_decoder}
use chimera_core.Quic.Handler.{UdpAddr}
use chimera_core.Quic.UdpSession.Safe.{
  Sends, IsSafe, stop_client-IsSafe, stop_target-IsSafe, active-IsSafe, client_round-IsSafe,
  target_round-IsSafe,
}
use chimera_core.Quic.UdpSession.{
  Session, stop_client, stop_target, write_packet, take_answer, client_round, send_frames,
  target_round, Event, client_datagram, client_failed, target_packet, target_failed, active,
  finished, cancelled, timer, step, run, new_session,
}

module _ (P : List ℕ → Type 0) where
  if-IsSafe :
      (b : Bool) (s t : Session)
      → (b ≡ true → IsSafe P s)
      → (b ≡ false → IsSafe P t)
      → IsSafe P (if b then s else t)
  if-IsSafe true s t f g = f refl
  if-IsSafe false s t f g = g refl

  step-IsSafe :
      (s : Session) (e : Event) → Sends P s.target s.max_packet e → IsSafe P s → IsSafe P (step s e)
  unfolding step
  step-IsSafe s (client_datagram now datagram write_ok) h v =
      if-IsSafe s.client_runs (client_round now datagram write_ok s) s
        (λ runs. client_round-IsSafe P now datagram write_ok s runs v) (λ _. v)
  step-IsSafe s client_failed h v =
      if-IsSafe s.client_runs (stop_client s) s (λ runs. stop_client-IsSafe P s runs v) (λ _. v)
  step-IsSafe s (target_packet source packet room) h v =
      if-IsSafe s.target_runs (target_round source packet room s) s
        (λ runs. target_round-IsSafe P source packet room s runs h v) (λ _. v)
  step-IsSafe s target_failed h v =
      if-IsSafe s.target_runs (stop_target s) s (λ runs. stop_target-IsSafe P s runs v) (λ _. v)
  step-IsSafe s (active now) h v =
      let deadline = now + s.idle_timeout in
      if-IsSafe (s.activity && not s.over) (record s { activity = false; deadline = deadline }) s
        (λ _. active-IsSafe P s false deadline s.over v) (λ _. v)
  step-IsSafe s finished h v =
      if-IsSafe (s.done == 0) s (record s { over = true }) (λ _. v)
        (λ _. active-IsSafe P s s.activity s.deadline true v)
  step-IsSafe s cancelled h v = active-IsSafe P s s.activity s.deadline true v
  step-IsSafe s (timer now) h v =
      if-IsSafe (leb s.deadline now) (record s { over = true }) s
        (λ _. active-IsSafe P s s.activity s.deadline true v) (λ _. v)

  step_same :
      (s : Session) (e : Event)
      → ((step s e).target ≡ s.target) × ((step s e).max_packet ≡ s.max_packet)
  unfolding step client_round take_answer write_packet target_round send_frames
  step_same s (client_datagram now datagram write_ok) = ground arith
  step_same s client_failed = ground arith
  step_same s (target_packet source packet room) = ground arith
  step_same s target_failed = ground arith
  step_same s (active now) = ground arith
  step_same s finished = ground arith
  step_same s cancelled = ground arith
  step_same s (timer now) = ground arith

  run-IsSafe :
      (s : Session) (es : List Event)
      → All (Sends P s.target s.max_packet) es
      → IsSafe P s
      → IsSafe P (run s es)
  unfolding run
  run-IsSafe s [] h v = v
  run-IsSafe s (e ∷ es) h v =
      let (target, max) = step_same s e in
      let h' = subst (λ t. All (Sends P t s.max_packet) es) (sym target) h.1 in
      run-IsSafe (step s e) es (subst (λ m. All (Sends P (step s e).target m) es) (sym max) h')
        (step-IsSafe s e h.0 v)

  new-IsSafe :
      (max idle : ℕ) (target : UdpAddr) (now : ℕ)
      → 0 < max
      → IsSafe P (new_session max idle target now)
  unfolding new_session new_udp_fragment_decoder
  new-IsSafe zero idle target now h = absurd (omega (arith, h))
  new-IsSafe (suc n) idle target now h = record {
    decoder_valid = record { few = omega arith; held = tt };
    decoder_max = refl;
    written_sized = tt;
    sent_of_target = tt;
    done_count = refl;
  }

  -- In a session with a positive packet limit, whatever the events and their order, if what the
  -- target's own address sends has the property P: all packets written to the target are neither empty
  -- nor above the limit, all datagrams sent to the client are frames of such packets with P, and the
  -- goroutines put at most two errors into the channel `done`, which has room for two.
  pub run_new-IsSafe :
      (max idle : ℕ) (target : UdpAddr) (now : ℕ) (es : List Event)
      → 0 < max
      → All (Sends P target max) es
      → IsSafe P (run (new_session max idle target now) es)
  unfolding new_session
  run_new-IsSafe max idle target now es h sends =
      run-IsSafe (new_session max idle target now) es sends (new-IsSafe max idle target now h)
