-- ===== src/Client/Select/Ledger.antt =====
-- The connections that cmd/chimera-client/main.go has open while it chooses the transport.
use chimera_core.Prelude.{
  ℕ, zero, suc, ◌<◌, ◌≡◌, refl, ap, ◌∙◌, Bool, true, false, List, [], ◌∷◌, ◌++◌, append_assoc,
  append-nil, sym, All, All-append, Option, none, some, arith, Option-cases, Bool-cases, inl, inr,
}
use chimera_core.Prelude.Int.{ℤ, pos, negsuc}
use chimera_core.Client.Select.{
  SelectError, Mode, tcp, quic, automatic, other, Dial, lift, fall_back, positive, select_transport,
  OwnedConn, close_owned,
}

-- What happens while the transport is chosen: a dial with its timeout, the connection it returned and
-- whether it failed; and the closing of a connection.
pub data Event (C : Type 0) : Type 0 where
  quic_dialed tcp_dialed : Option ℕ → Option C → Bool → Event C
  shut : C → Event C

abbrev pub is_some : {A : Type 0} → Option A → Bool
is_some none = false
is_some (some _) = true

-- A run that holds one connection at most. It goes from whether the last dial failed, or none was made,
-- and the connection that is held, to the same at its end. A dial is made only after a failure and while
-- nothing is held, and only the connection of a failed dial is closed.
pub data Run {C : Type 0} : Bool → Option C → List (Event C) → Bool → Option C → Type 0 where
  ended : {failed : Bool} {held : Option C} → Run failed held [] failed held
  by_quic :
      {t : Option ℕ} {conn held : Option C} {bad failed : Bool} {es : List (Event C)}
      → Run bad conn es failed held
      → Run true none (quic_dialed t conn bad ∷ es) failed held
  by_tcp :
      {t : Option ℕ} {conn held : Option C} {bad failed : Bool} {es : List (Event C)}
      → Run bad conn es failed held
      → Run true none (tcp_dialed t conn bad ∷ es) failed held
  by_shut :
      {c : C} {held : Option C} {failed : Bool} {es : List (Event C)}
      → Run true none es failed held
      → Run true (some c) (shut c ∷ es) failed held

-- The transports of a mode and their timeouts.
abbrev pub Allows : {C : Type 0} → Mode → ℤ → Event C → Type 0
Allows tcp timeout (tcp_dialed t _ _) = t ≡ none
Allows quic timeout (quic_dialed t _ _) = t ≡ none
Allows automatic timeout (quic_dialed t _ _) = (n : ℕ) × (t ≡ some n) × (timeout ≡ pos n) × (0 < n)
Allows automatic timeout (tcp_dialed t _ _) = t ≡ none
Allows automatic timeout (shut _) = Unit
Allows _ _ _ = ⊥

positive-eq-some : (z : ℤ) (n : ℕ) → positive z ≡ some n → (z ≡ pos n) × (0 < n)
positive-eq-some (pos zero) n e = absurd (ground arith)
positive-eq-some (pos (suc m)) n e =
    let same : suc m ≡ n = ground arith in (ap pos same, omega (arith, same))
positive-eq-some (negsuc m) n e = absurd (ground arith)

module _ {W C E : Type 0} (close : C → W → W) (log : W → List (Event C)) where
  -- The world keeps a log of the dials and of the closing.
  pub record Logs (dial_quic dial_tcp : Dial W C E) : Type 0 where
    pub quic_logs :
        (t : Option ℕ) (w : W)
        → log (dial_quic t w).0
          ≡ log w ++ (quic_dialed t (dial_quic t w).1.0 (is_some (dial_quic t w).1.1) ∷ [])
    pub tcp_logs :
        (t : Option ℕ) (w : W)
        → log (dial_tcp t w).0
          ≡ log w ++ (tcp_dialed t (dial_tcp t w).1.0 (is_some (dial_tcp t w).1.1) ∷ [])
    pub close_logs : (c : C) (w : W) → log (close c w) ≡ log w ++ (shut c ∷ [])

  -- What has happened since `w`, up to a result.
  pub record Chosen (mode : Mode) (timeout : ℤ) (w : W)
      (r : W × (Option C × Option (SelectError E))) : Type 0 where
    pub events : List (Event C)
    pub log_eq : log r.0 ≡ log w ++ events
    pub run : Run true none events (is_some r.1.1) r.1.0
    pub allowed : All (Allows mode timeout) events

  -- An error of a dial is passed on.
  lift-Chosen :
      (mode : Mode) (timeout : ℤ) (w : W) (r : W × (Option C × Option E)) (events : List (Event C))
      → log r.0 ≡ log w ++ events
      → Run true none events (is_some r.1.1) r.1.0
      → All (Allows mode timeout) events
      → Chosen mode timeout w (lift r)
  lift-Chosen mode timeout w (w1, (conn, none)) events logged run allowed = record {
    events = events;
    log_eq = logged;
    run = run;
    allowed = allowed;
  }
  lift-Chosen mode timeout w (w1, (conn, some e)) events logged run allowed = record {
    events = events;
    log_eq = logged;
    run = run;
    allowed = allowed;
  }

  module _ (dial_quic dial_tcp : Dial W C E) (logs : Logs dial_quic dial_tcp) where
    -- TCP after a dial of QUIC that has failed, once nothing is held.
    tcp-Chosen :
        (timeout : ℤ) (start w : W) (events : List (Event C))
        → log w ≡ log start ++ events
        → ((more : List (Event C)) (failed : Bool) (held : Option C)
            → Run true none more failed held
            → Run true none (events ++ more) failed held)
        → All (Allows automatic timeout) events
        → Chosen automatic timeout start (lift (dial_tcp none w))
    tcp-Chosen timeout start w events before runs allowed =
        let r = dial_tcp none w in
        let last : Event C = tcp_dialed none r.1.0 (is_some r.1.1) in
        lift-Chosen automatic timeout start r (events ++ (last ∷ []))
          (logs.tcp_logs none w
            ∙ ap (λ (l : List (Event C)). l ++ (last ∷ [])) before
            ∙ append_assoc (log start) events (last ∷ []))
          (runs (last ∷ []) (is_some r.1.1) r.1.0 (by_tcp ended))
          (All-append (Allows automatic timeout) events (last ∷ []) allowed (refl, tt))

    fall_back-Chosen :
        (timeout : ℤ) (start : W) (n : ℕ) (r : W × (Option C × Option E))
        → timeout ≡ pos n
        → 0 < n
        → log r.0 ≡ log start ++ (quic_dialed (some n) r.1.0 (is_some r.1.1) ∷ [])
        → Chosen automatic timeout start (fall_back close dial_tcp r)
    fall_back-Chosen timeout start n (w, (conn, none)) value above logged = record {
      events = quic_dialed (some n) conn false ∷ [];
      log_eq = logged;
      run = by_quic ended;
      allowed = ((n, refl, value, above), tt);
    }
    fall_back-Chosen timeout start n (w, (none, some e)) value above logged =
        tcp-Chosen timeout start w (quic_dialed (some n) none true ∷ []) logged
          (λ more failed held run. by_quic run) ((n, refl, value, above), tt)
    fall_back-Chosen timeout start n (w, (some c, some e)) value above logged =
        let first : Event C = quic_dialed (some n) (some c) true in
        tcp-Chosen timeout start (close c w) (first ∷ shut c ∷ [])
          (logs.close_logs c w
            ∙ ap (λ (l : List (Event C)). l ++ (shut c ∷ [])) logged
            ∙ append_assoc (log start) (first ∷ []) (shut c ∷ []))
          (λ more failed held run. by_quic (by_shut run)) ((n, refl, value, above), (tt, tt))

    -- Whatever the mode and the outcome of the dials: `selectTransport` makes a dial only if none before
    -- has succeeded and no connection is held, so that the connection of a QUIC dial that failed is
    -- closed before TCP is dialed, and it closes no other; the connection that it returns is the one
    -- that is held at the end, and it returns an error exactly if its last dial failed or it made none.
    -- It uses only the transports of the mode: in the automatic one QUIC with the timeout, which is
    -- positive.
    pub select_transport-Chosen :
        (mode : Mode) (timeout : ℤ) (w : W)
        → Chosen mode timeout w (select_transport close mode timeout dial_quic dial_tcp w)
    unfolding select_transport
    select_transport-Chosen tcp timeout w =
        lift-Chosen tcp timeout w (dial_tcp none w) _ (logs.tcp_logs none w) (by_tcp ended)
          (refl, tt)
    select_transport-Chosen quic timeout w =
        lift-Chosen quic timeout w (dial_quic none w) _ (logs.quic_logs none w) (by_quic ended)
          (refl, tt)
    select_transport-Chosen (other m) timeout w = record {
      events = [];
      log_eq = sym (append-nil (log w));
      run = ended;
      allowed = tt;
    }
    select_transport-Chosen automatic timeout w = elim (Option-cases (positive timeout)) [
      | inl e ↦
          rw (e, select_transport)
            (record { events = []; log_eq = sym (append-nil (log w)); run = ended; allowed = tt })
      | inr (n, e) ↦
          let (value, more_than_zero) = positive-eq-some timeout n e in
          rw (e, select_transport)
            (fall_back-Chosen timeout w n (dial_quic (some n) w) value more_than_zero
              (logs.quic_logs (some n) w))
    ]

close_owned_done :
    {W E : Type 0} (c : OwnedConn W E) (w : W) → c.done ≡ true → close_owned c w ≡ (c, w, c.error)
unfolding close_owned
close_owned_done c w e = rw e

again_fresh :
    {W E : Type 0} (c : OwnedConn W E) (w later : W)
    → c.done ≡ false
    → let r = close_owned c w in close_owned r.0 later ≡ (r.0, later, r.2)
unfolding close_owned
again_fresh c w later e = rw e

-- `Close` of an `ownedConn` a second time, in any later world, changes nothing, closes nothing and
-- returns the error of the first time.
pub close_owned_again :
    {W E : Type 0} (c : OwnedConn W E) (w later : W)
    → let r = close_owned c w in close_owned r.0 later ≡ (r.0, later, r.2)
close_owned_again c w later = elim (Bool-cases c.done) [
  | inl closed ↦ rw (close_owned_done c w closed) (close_owned_done c later closed)
  | inr fresh ↦ again_fresh c w later fresh
]
