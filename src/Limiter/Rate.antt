-- ===== src/Limiter/Rate.antt =====
-- How many requests internal/quicx/limiter.go lets through for one address.
use chimera_core.Prelude.{
  ℕ, ◌+◌, ◌-◌, ◌*◌, ◌≤◌, ◌<◌, ◌≡◌, refl, sym, subst, Bool, true, false, List, [], ◌∷◌, Option, none,
  some, arith, ◌&&◌, leb, if◌then◌else◌, length, All, Bool-cases, inl, inr, ite, if_pos, if_neg,
  not,
}
use chimera_core.Prelude.Bytes.{bytes_discrete}
use chimera_core.Prelude.Dict.{lookup}
use chimera_core.Limiter.{IpLimitState, Limiter, take_ip, remote_ip, settle, allow, release}
use chimera_core.Limiter.Bucket.{
  mul_add, credit, InTime, take_ip-Paid, take_ip-lookup_ne, take_ip-length,
}

-- What happens to a limiter: a call of `Allow`, or a call of a function that it returned.
pub data Event : Type 0 where
  call : (remote_addr : List ℕ) (authenticated : Bool) (now : ℕ) → Event
  give_back : (done : Bool) → Event

unfoldable pub step : Limiter → Event → Limiter × Bool
step l (call addr authenticated now) = allow l addr authenticated now
step l (give_back done) = ((release done l).1, false)

-- Whether the event is a call for the address that is not authenticated.
unfoldable pub is_guest : List ℕ → Event → Bool
is_guest ip (call addr authenticated now) =
    not authenticated && ite (bytes_discrete ip (remote_ip addr)) true false
is_guest ip (give_back done) = false

-- The limiter after the events, and how many requests of the address were let through without
-- authentication.
unfoldable pub run : List ℕ → Limiter → List Event → Limiter × ℕ
run ip l [] = (l, 0)
run ip l (e ∷ es) =
    let (l1, allowed) = step l e in
    let (l2, n) = run ip l1 es in (l2, if is_guest ip e && allowed then n + 1 else n)

abbrev pub Within : ℕ → ℕ → Event → Type 0
Within start end (call addr authenticated now) = (start ≤ now) × (now ≤ end)
Within start end (give_back done) = Unit {0}

-- A step that keeps the limits and in which the address has paid.
record Spends (start end : ℕ) (ip : List ℕ) (l : Limiter) (paid : Bool) (l' : Limiter)
    : Type 0 where
  burst_eq : l'.burst ≡ l.burst
  window_eq : l'.window ≡ l.window
  tracked_eq : l'.max_tracked ≡ l.max_tracked
  grows : length l'.ips ≤ length l.ips + 1
  in_time : InTime end (lookup bytes_discrete ip l'.ips)
  spends :
      (if paid then l.window else 0) + credit l start end (lookup bytes_discrete ip l'.ips)
      ≤ credit l start end (lookup bytes_discrete ip l.ips)

idle :
    (start end : ℕ) (ip : List ℕ) (l : Limiter) (n : ℕ)
    → InTime end (lookup bytes_discrete ip l.ips)
    → Spends start end ip l false (record l { in_use = n })
idle start end ip l n h = record {
  burst_eq = refl;
  window_eq = refl;
  tracked_eq = refl;
  grows = omega arith;
  in_time = h;
  spends = omega arith;
}

guest-Spends :
    (start end : ℕ) (ip q : List ℕ) (l : Limiter) (now : ℕ)
    → InTime end (lookup bytes_discrete ip l.ips)
    → length l.ips < l.max_tracked
    → start ≤ now
    → now ≤ end
    → let r = settle l (take_ip l q now) in
      Spends start end ip l (ite (bytes_discrete ip q) true false && r.1) r.0
guest-Spends start end ip q l now h free first last = elim (bytes_discrete ip q) [
  | yes same ↦
      let p = take_ip-Paid l start end ip now h first last in
      rw (← same, if_pos (bytes_discrete ip ip) refl true false)
        (record {
          burst_eq = refl;
          window_eq = refl;
          tracked_eq = refl;
          grows = take_ip-length l ip now free;
          in_time = subst (InTime end) (sym p.found) p.in_time;
          spends = rw p.found p.paid;
        })
  | no ne ↦
      let same = take_ip-lookup_ne l q ip now free ne in
      record {
        burst_eq = refl;
        window_eq = refl;
        tracked_eq = refl;
        grows = take_ip-length l q now free;
        in_time = subst (InTime end) (sym same) h;
        spends = rw (same, if_neg (bytes_discrete ip q) ne true false) (omega arith);
      }
]

no_pay :
    {start end : ℕ} {ip : List ℕ} {l l' : Limiter} (b : Bool)
    → Spends start end ip l false l'
    → Spends start end ip l (b && false) l'
no_pay true s = s
no_pay false s = s

credit_limits :
    (l l' : Limiter) (start end : ℕ) (s : Option IpLimitState)
    → l'.burst ≡ l.burst
    → l'.window ≡ l.window
    → credit l' start end s ≡ credit l start end s
credit_limits l l' start end none b w = rw (b, w)
credit_limits l l' start end (some s) b w = rw b

counted_le :
    {old new : ℕ} (paid : Bool) (n window : ℕ)
    → (if paid then window else 0) + new ≤ old
    → n * window ≤ new
    → (if paid then n + 1 else n) * window ≤ old
counted_le true n window h k = omega (arith, mul_add n 1 window)
counted_le false n window h k = omega arith

step-Spends :
    (start end : ℕ) (ip : List ℕ) (l : Limiter) (e : Event)
    → InTime end (lookup bytes_discrete ip l.ips)
    → length l.ips < l.max_tracked
    → Within start end e
    → Spends start end ip l (is_guest ip e && (step l e).1) (step l e).0
unfolding step is_guest release allow
step-Spends start end ip l (give_back true) h free w = idle start end ip l l.in_use h
step-Spends start end ip l (give_back false) h free w = idle start end ip l (l.in_use - 1) h
step-Spends start end ip l (call addr authenticated now) h free w =
    elim (Bool-cases (leb l.max_concurrent l.in_use)) [
      | inl closed ↦ rw closed (no_pay _ (idle start end ip l l.in_use h))
      | inr room ↦ elim (Bool-cases authenticated) [
        | inl auth ↦ rw (room, auth) (idle start end ip l (l.in_use + 1) h)
        | inr guest ↦
            rw (room, guest) (guest-Spends start end ip (remote_ip addr) l now h free w.0 w.1)
      ]
    ]

run-credit :
    (start end : ℕ) (ip : List ℕ) (es : List Event) (l : Limiter)
    → InTime end (lookup bytes_discrete ip l.ips)
    → length l.ips + length es ≤ l.max_tracked
    → All (Within start end) es
    → (run ip l es).1 * l.window ≤ credit l start end (lookup bytes_discrete ip l.ips)
unfolding run
run-credit start end ip [] l h room w = omega arith
run-credit start end ip (e ∷ es) l h room w =
    let (l1, allowed) = step l e in
    let s = step-Spends start end ip l e h (omega arith) w.0 in
    let rest = run-credit start end ip es l1 s.in_time (omega (arith, s.grows, s.tracked_eq)) w.1 in
    let n = (run ip l1 es).1 in
    let same : credit l1 start end (lookup bytes_discrete ip l1.ips)
        ≡ credit l start end (lookup bytes_discrete ip l1.ips) =
      credit_limits l l1 start end (lookup bytes_discrete ip l1.ips) s.burst_eq s.window_eq in
    let rest' : n * l.window ≤ credit l1 start end (lookup bytes_discrete ip l1.ips) =
      subst (λ x. n * x ≤ credit l1 start end (lookup bytes_discrete ip l1.ips)) s.window_eq rest in
    counted_le (is_guest ip e && allowed) n l.window s.spends (omega (arith, rest', same))

-- The rate. A limiter that does not know the address, with room in its table for every event to
-- come, sees events between `start` and `end`, in any order and mixed with other callers. Of the
-- requests of the address without authentication it lets through at most a burst and what the time
-- brings: n requests take n windows, and n * window ≤ burst * window + (end - start) * burst.
pub run_rate :
    (start end : ℕ) (ip : List ℕ) (l : Limiter) (es : List Event)
    → All (Within start end) es
    → lookup bytes_discrete ip l.ips ≡ none
    → length l.ips + length es ≤ l.max_tracked
    → (run ip l es).1 * l.window ≤ l.burst * l.window + (end - start) * l.burst
run_rate start end ip l es within new room =
    let pays = run-credit start end ip es l (subst (InTime end) (sym new) tt) room within in
    let start_credit : credit l start end (lookup bytes_discrete ip l.ips)
        ≡ l.burst * l.window + (end - start) * l.burst =
      rw new in
    omega (arith, pays, start_credit)
