-- ===== src/Quic/Admission/System/Bounds.antt =====
-- The counts of internal/quicx/server.go under any interleaving.
use chimera_core.Prelude.{
  ℕ, suc, ◌+◌, ◌-◌, ◌≤◌, ◌<◌, ◌≡◌, refl, Bool, true, false, List, [], ◌∷◌, ◌++◌, Option, some,
  length, arith, Option-cases, inl, inr, if◌then◌else◌, subst, sym, ap, ◌∙◌,
}
use chimera_core.Limiter.{Limiter, release}
use chimera_core.Limiter.Invariant.{IsValid as IsLimiter, allow-IsValid}
use chimera_core.Quic.Admission.{
  Slots, Server, HttpRequest, Entry, refused, entered, enter, limit, authenticate, leave, take_slot,
  free_slot,
}
use chimera_core.Quic.Admission.System.{
  Flight, System, slots_held, used_of, size_of, Step, turned_away, came_in, took_slot, gave_slot,
  went, refreshed, Reach, started, stepped,
}

-- No more requests than the semaphore has places, nor more UDP sessions than slots: the counts are those
-- of the requests that run.
pub record IsBounded (start : Server) (x : System) : Type 0 where
  pub limiter_valid : IsLimiter x.server.limiter
  pub places : x.server.limiter.in_use ≡ length x.flights
  pub places_le : length x.flights ≤ start.limiter.max_concurrent
  pub slots : used_of x.server.udp_slots ≡ slots_held x.flights
  pub slots_le : slots_held x.flights ≤ size_of start.udp_slots
  pub same_places : x.server.limiter.max_concurrent ≡ start.limiter.max_concurrent
  pub same_slots : size_of x.server.udp_slots ≡ size_of start.udp_slots

-- The places that an entry takes.
abbrev pub taken : Entry → ℕ
taken refused = 0
taken (entered _) = 1

-- The slot that a request holds.
abbrev weight : Flight → ℕ
weight f = if f.holds_slot then 1 else 0

length_middle :
    (before behind : List Flight) (f : Flight)
    → length (before ++ (f ∷ behind)) ≡ suc (length (before ++ behind))
length_middle [] behind f = refl
length_middle (g ∷ before) behind f = ap suc (length_middle before behind f)

slots_held_middle :
    (before behind : List Flight) (f : Flight)
    → slots_held (before ++ (f ∷ behind)) ≡ weight f + slots_held (before ++ behind)
slots_held_middle [] behind f = refl
slots_held_middle (g ∷ before) behind f = omega (arith, slots_held_middle before behind f)

-- The counts with one request, which holds a slot or not, and without it.
abbrev Without : List Flight → List Flight → Bool → Type 0
Without fs rest holds =
    (length fs ≡ suc (length rest)) × (slots_held fs ≡ (if holds then 1 else 0) + slots_held rest)

without :
    (fs before behind : List Flight) (f : Flight) (holds : Bool)
    → fs ≡ before ++ (f ∷ behind)
    → f.holds_slot ≡ holds
    → Without fs (before ++ behind) holds
without fs before behind f holds place slot = (
  ap (λ (l : List Flight). length l) place ∙ length_middle before behind f,
  ap slots_held place
      ∙ slots_held_middle before behind f
      ∙ ap (λ (b : Bool). (if b then 1 else 0) + slots_held (before ++ behind)) slot,
)

-- What a request does to the counts when it enters, from a limiter and the channel.
abbrev pub Entering : Limiter → Option Slots → Server × Entry → Type 0
Entering l c (t, e) =
    IsLimiter t.limiter
    × (t.limiter.max_concurrent ≡ l.max_concurrent)
    × (t.limiter.in_use ≡ l.in_use + taken e)
    × (t.udp_slots ≡ c)

pub leave-IsValid :
    (s : Server)
    → IsLimiter s.limiter
    → IsLimiter (leave s).limiter
      × ((leave s).limiter.in_use ≡ s.limiter.in_use - 1)
      × ((leave s).limiter.max_concurrent ≡ s.limiter.max_concurrent)
      × ((leave s).udp_slots ≡ s.udp_slots)
unfolding leave release
leave-IsValid s v = (
  record {
    in_use_le = omega (arith, v.in_use_le);
    tracked_pos = v.tracked_pos;
    tracked_le = v.tracked_le;
    held = v.held;
  },
  refl,
  refl,
  refl,
)

take_slot_lem :
    (s t : Server)
    → take_slot s ≡ some t
    → (used_of t.udp_slots ≡ used_of s.udp_slots + 1)
      × (size_of t.udp_slots ≡ size_of s.udp_slots)
      × (used_of s.udp_slots < size_of s.udp_slots)
      × (t.limiter ≡ s.limiter)
unfolding take_slot
take_slot_lem s t e = elim (Option-cases s.udp_slots) [
  | inl bad ↦ absurd (ground arith)
  | inr (c, found) ↦ ground arith
]

free_slot_lem :
    (s : Server)
    → (used_of (free_slot s).udp_slots ≡ used_of s.udp_slots - 1)
      × (size_of (free_slot s).udp_slots ≡ size_of s.udp_slots)
      × ((free_slot s).limiter ≡ s.limiter)
unfolding free_slot
free_slot_lem s = elim (Option-cases s.udp_slots) [
  | inl bad ↦ ground arith
  | inr (c, found) ↦ ground arith
]

module _ (hmac : List ℕ → List ℕ → List ℕ) where
  limit-Entering :
      (s : Server) (r : HttpRequest) (authenticated : Bool) (time : ℕ)
      → IsLimiter s.limiter
      → Entering s.limiter s.udp_slots (limit hmac s r authenticated time)
  unfolding limit
  limit-Entering s r authenticated time v =
      let (valid, same, count) = allow-IsValid s.limiter r.remote_addr authenticated time v in
      (valid, same.0, ground arith, refl)

  authenticate_lem :
      (s t : Server) (r : HttpRequest) (now : ℕ) (good : Bool)
      → authenticate hmac s r now ≡ some (t, good)
      → (t.limiter ≡ s.limiter) × (t.udp_slots ≡ s.udp_slots)
  unfolding authenticate
  authenticate_lem s t r now good e = ground arith

  pub enter-Entering :
      (s t : Server) (r : HttpRequest) (now time : ℕ) (entry : Entry)
      → enter hmac s r now time ≡ some (t, entry)
      → IsLimiter s.limiter
      → Entering s.limiter s.udp_slots (t, entry)
  unfolding enter
  enter-Entering s t r now time entry e v = elim (Option-cases (authenticate hmac s r now)) [
    | inl bad ↦ absurd (ground arith)
    | inr ((s', good), run) ↦
        let (same_limiter, same_slots) = authenticate_lem s s' r now good run in
        let whole : limit hmac s' r good time ≡ (t, entry) = ground arith in
        subst (λ l. Entering l s.udp_slots (t, entry)) same_limiter
          (subst (λ c. Entering s'.limiter c (t, entry)) same_slots
            (subst (Entering s'.limiter s'.udp_slots) whole
              (limit-Entering s' r good time (subst IsLimiter (sym same_limiter) v))))
  ]

  next-IsBounded :
      (start : Server) (x y : System) → IsBounded start x → Step hmac x y → IsBounded start y
  next-IsBounded start x _ b (turned_away r now time {s} e) =
      let (valid, same, count, slots) =
        enter-Entering x.server s r now time refused e b.limiter_valid in
      record {
        limiter_valid = valid;
        places = omega (arith, count, b.places);
        places_le = b.places_le;
        slots = subst (λ c. used_of c ≡ slots_held x.flights) (sym slots) b.slots;
        slots_le = b.slots_le;
        same_places = same ∙ b.same_places;
        same_slots = ap size_of slots ∙ b.same_slots;
      }
  next-IsBounded start x _ b (came_in r now time {s} {authenticated} e) =
      let (valid, same, count, slots) =
        enter-Entering x.server s r now time (entered authenticated) e b.limiter_valid in
      record {
        limiter_valid = valid;
        places = omega (arith, count, b.places);
        places_le = omega (arith, count, b.places, valid.in_use_le, same, b.same_places);
        slots = omega (arith, subst (λ c. used_of c ≡ slots_held x.flights) (sym slots) b.slots);
        slots_le = omega (arith, b.slots_le);
        same_places = same ∙ b.same_places;
        same_slots = ap size_of slots ∙ b.same_slots;
      }
  next-IsBounded start x _ b (took_slot before behind f {s} place known free e) =
      let (used, size, room, same) = take_slot_lem x.server s e in
      let (old, old_held) = without x.flights before behind f false place free in
      let holder : Flight = record f { holds_slot = true } in
      let (new, new_held) =
        without (before ++ (holder ∷ behind)) before behind holder true refl refl in
      record {
        limiter_valid = subst IsLimiter (sym same) b.limiter_valid;
        places = ap (λ (l : Limiter). l.in_use) same ∙ b.places ∙ old ∙ sym new;
        places_le = omega (arith, old, new, b.places_le);
        slots = omega (arith, used, b.slots, old_held, new_held);
        slots_le = omega (arith, b.slots, room, b.same_slots, old_held, new_held);
        same_places = ap (λ (l : Limiter). l.max_concurrent) same ∙ b.same_places;
        same_slots = size ∙ b.same_slots;
      }
  next-IsBounded start x _ b (gave_slot before behind f place held) =
      let (used, size, same) = free_slot_lem x.server in
      let (old, old_held) = without x.flights before behind f true place held in
      let quitter : Flight = record f { holds_slot = false } in
      let (new, new_held) =
        without (before ++ (quitter ∷ behind)) before behind quitter false refl refl in
      record {
        limiter_valid = subst IsLimiter (sym same) b.limiter_valid;
        places = ap (λ (l : Limiter). l.in_use) same ∙ b.places ∙ old ∙ sym new;
        places_le = omega (arith, old, new, b.places_le);
        slots = omega (arith, used, b.slots, old_held, new_held);
        slots_le = omega (arith, old_held, new_held, b.slots_le);
        same_places = ap (λ (l : Limiter). l.max_concurrent) same ∙ b.same_places;
        same_slots = size ∙ b.same_slots;
      }
  next-IsBounded start x _ b (went before behind f place free) =
      let (valid, count, same, slots) = leave-IsValid x.server b.limiter_valid in
      let (old, old_held) = without x.flights before behind f false place free in
      record {
        limiter_valid = valid;
        places = omega (arith, count, b.places, old);
        places_le = omega (arith, old, b.places_le);
        slots = omega (arith, b.slots, old_held, ap used_of slots);
        slots_le = omega (arith, old_held, b.slots_le);
        same_places = same ∙ b.same_places;
        same_slots = ap size_of slots ∙ b.same_slots;
      }
  next-IsBounded start x _ b (refreshed fetched) = record {
    limiter_valid = b.limiter_valid;
    places = b.places;
    places_le = b.places_le;
    slots = b.slots;
    slots_le = b.slots_le;
    same_places = b.same_places;
    same_slots = b.same_slots;
  }

  -- From a server with a valid limiter and nothing in use, however the requests interleave: the places
  -- in use are those of the requests that run, at most as many as the limiter allows, the UDP slots in
  -- use are those of the sessions that run, at most as many as the channel has, and the limiter is
  -- valid.
  pub Reach-IsBounded :
      (start : Server) (x : System)
      → IsLimiter start.limiter
      → start.limiter.in_use ≡ 0
      → used_of start.udp_slots ≡ 0
      → Reach hmac start x
      → IsBounded start x
  Reach-IsBounded start _ v idle empty started = record {
    limiter_valid = v;
    places = idle;
    places_le = omega arith;
    slots = empty;
    slots_le = omega arith;
    same_places = refl;
    same_slots = refl;
  }
  Reach-IsBounded start _ v idle empty (stepped {x} {y} run step) =
      next-IsBounded start x y (Reach-IsBounded start x v idle empty run) step
