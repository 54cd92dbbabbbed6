-- ===== src/Udp/Decoder/Eviction.antt =====
-- How the decoder of internal/quicx/udp_codec.go makes room: pruning and eviction.
use chimera_core.Prelude.{
  ℕ, ◌+◌, ◌≤◌, ◌<◌, ◌≡◌, refl, ◌⊎◌, inl, inr, List, [], ◌∷◌, none, some, arith, ltb, length, All,
  Bool-cases, Option-cases, ℕ_discrete,
}
use chimera_core.Prelude.Dict.{delete, All-delete, length-delete-le}
use chimera_core.Udp.Frame.{udp_fragment_max_assemblies}
use chimera_core.Udp.Decoder.{Assembly, prune_expired, oldest, evict_oldest, make_room}

pub prune_expired-length :
    (now : ℕ) (m : List (ℕ × Assembly)) → length (prune_expired now m) ≤ length m
unfolding prune_expired
prune_expired-length now [] = omega arith
prune_expired-length now ((k, a) ∷ m) = ground (arith, prune_expired-length now m)

pub prune_expired-All :
    (P : ℕ × Assembly → Type 0) (now : ℕ) (m : List (ℕ × Assembly))
    → All P m
    → All P (prune_expired now m)
unfolding prune_expired
prune_expired-All P now [] h = tt
prune_expired-All P now ((k, a) ∷ m) h = ground (arith, prune_expired-All P now m h.1)

abbrev pub NoOlder : ℕ → ℕ × Assembly → Type 0
NoOlder e p = e ≤ p.1.expires_at

-- The loop ends with the least expiry, at the entry it began with or at a key of the map.
abbrev Found : ℕ × ℕ → List (ℕ × Assembly) → ℕ × ℕ → Type 0
Found f m r =
    (r.1 ≤ f.1)
    × All (NoOlder r.1) m
    × ((r ≡ f) ⊎ (length (delete ℕ_discrete r.0 m) + 1 ≤ length m))

oldest_lem :
    (f : ℕ × ℕ) (m : List (ℕ × Assembly)) → (r : ℕ × ℕ) × (oldest (some f) m ≡ some r) × Found f m r
unfolding oldest delete
oldest_lem f [] = (f, refl, (omega arith, tt, inl refl))
oldest_lem (s, e) ((k, a) ∷ m) = elim (Bool-cases (ltb a.expires_at e)) [
  | inl older ↦
      let (r, run, found) = oldest_lem (k, a.expires_at) m in
      (
        r,
        rw older run,
        (ground arith, ground arith, ground (arith, length-delete-le ℕ_discrete r.0 m)),
      )
  | inr newer ↦
      let (r, run, found) = oldest_lem (s, e) m in
      (
        r,
        rw newer run,
        (ground arith, ground arith, ground (arith, length-delete-le ℕ_discrete r.0 m)),
      )
]

evict_oldest-length :
    (m : List (ℕ × Assembly)) → 0 < length m → length (evict_oldest m) + 1 ≤ length m
unfolding evict_oldest oldest delete
evict_oldest-length [] h = absurd (omega arith)
evict_oldest-length ((k, a) ∷ m) h =
    let (r, run, found) = oldest_lem (k, a.expires_at) m in
    ground (arith, length-delete-le ℕ_discrete r.0 m)

evict_oldest-All :
    (P : ℕ × Assembly → Type 0) (m : List (ℕ × Assembly)) → All P m → All P (evict_oldest m)
unfolding evict_oldest
evict_oldest-All P m h = elim (Option-cases (oldest none m)) [
  | inl e ↦ rw (e, evict_oldest) h
  | inr ((s, x), e) ↦ rw (e, evict_oldest) (All-delete ℕ_discrete P s m h)
]

pub make_room-few :
    (m : List (ℕ × Assembly))
    → length m ≤ udp_fragment_max_assemblies
    → length (make_room m) + 1 ≤ udp_fragment_max_assemblies
unfolding make_room
make_room-few m h = ground (arith, evict_oldest-length m)

pub make_room-All :
    (P : ℕ × Assembly → Type 0) (m : List (ℕ × Assembly)) → All P m → All P (make_room m)
unfolding make_room
make_room-All P m h = ground (arith, evict_oldest-All P m h)
