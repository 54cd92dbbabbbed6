-- ===== src/Udp/Decoder/Agrees.antt =====
-- The slots of an assembly against the pieces of one packet.
use chimera_core.Prelude.{
  ℕ, zero, suc, ◌+◌, ◌≤◌, ◌<◌, ◌≡◌, ◌≢◌, refl, ap, List, [], ◌∷◌, Option, none, some, arith, length,
  set, replicate, concat, get_or, length-append,
}
use chimera_core.Udp.Decoder.Parts.{Slots, part_at, join, arrived, part_bytes, arrived-le}

-- Each slot is empty or holds the piece of its place.
abbrev pub Agrees : Slots → List (List ℕ) → Type 0
Agrees [] [] = Unit {0}
Agrees [] (c ∷ cs) = ⊥
Agrees (p ∷ ps) [] = ⊥
Agrees (none ∷ ps) (c ∷ cs) = Agrees ps cs
Agrees (some p ∷ ps) (c ∷ cs) = (p ≡ c) × Agrees ps cs

pub Agrees-length : (ps : Slots) (cs : List (List ℕ)) → Agrees ps cs → length ps ≡ length cs
Agrees-length [] [] h = refl
Agrees-length [] (c ∷ cs) h = absurd h
Agrees-length (p ∷ ps) [] h = absurd h
Agrees-length (none ∷ ps) (c ∷ cs) h = ap suc (Agrees-length ps cs h)
Agrees-length (some p ∷ ps) (c ∷ cs) h = ap suc (Agrees-length ps cs h.1)

pub Agrees-replicate : (cs : List (List ℕ)) → Agrees (replicate (length cs) none) cs
Agrees-replicate [] = tt
Agrees-replicate (c ∷ cs) = Agrees-replicate cs

pub Agrees-set :
    (ps : Slots) (cs : List (List ℕ)) (i : ℕ)
    → Agrees ps cs
    → Agrees (set ps i (some (get_or cs i []))) cs
Agrees-set [] [] i h = h
Agrees-set [] (c ∷ cs) i h = absurd h
Agrees-set (p ∷ ps) [] i h = absurd h
Agrees-set (none ∷ ps) (c ∷ cs) zero h = (refl, h)
Agrees-set (some p ∷ ps) (c ∷ cs) zero h = (refl, h.1)
Agrees-set (none ∷ ps) (c ∷ cs) (suc i) h = Agrees-set ps cs i h
Agrees-set (some p ∷ ps) (c ∷ cs) (suc i) h = (h.0, Agrees-set ps cs i h.1)

pub join-Agrees :
    (ps : Slots) (cs : List (List ℕ))
    → Agrees ps cs
    → arrived ps ≡ length ps
    → join ps ≡ some (concat cs)
unfolding join arrived
join-Agrees [] [] h full = refl
join-Agrees [] (c ∷ cs) h full = absurd h
join-Agrees (p ∷ ps) [] h full = absurd h
join-Agrees (none ∷ ps) (c ∷ cs) h full = absurd (omega (arith, arrived-le ps))
join-Agrees (some p ∷ ps) (c ∷ cs) h full = ground (arith, join-Agrees ps cs h.1)

part_bytes-le :
    (ps : Slots) (cs : List (List ℕ)) → Agrees ps cs → part_bytes ps ≤ length (concat cs)
unfolding part_bytes
part_bytes-le [] [] h = omega arith
part_bytes-le [] (c ∷ cs) h = absurd h
part_bytes-le (p ∷ ps) [] h = absurd h
part_bytes-le (none ∷ ps) (c ∷ cs) h =
    omega (arith, part_bytes-le ps cs h, length-append c (concat cs))
part_bytes-le (some p ∷ ps) (c ∷ cs) h =
    omega (arith, part_bytes-le ps cs h.1, length-append c (concat cs), ap length h.0)

-- A piece that is still missing fits beside those that have arrived.
pub part_bytes-add-le :
    (ps : Slots) (cs : List (List ℕ)) (i : ℕ)
    → Agrees ps cs
    → i < length cs
    → part_at ps i ≡ none
    → part_bytes ps + length (get_or cs i []) ≤ length (concat cs)
unfolding part_bytes part_at
part_bytes-add-le [] [] i h lt e = absurd (omega arith)
part_bytes-add-le [] (c ∷ cs) i h lt e = absurd h
part_bytes-add-le (p ∷ ps) [] i h lt e = absurd h
part_bytes-add-le (none ∷ ps) (c ∷ cs) zero h lt e =
    omega (arith, part_bytes-le ps cs h, length-append c (concat cs))
part_bytes-add-le (some p ∷ ps) (c ∷ cs) zero h lt e = absurd (ground arith)
part_bytes-add-le (none ∷ ps) (c ∷ cs) (suc i) h lt e =
    omega (arith, part_bytes-add-le ps cs i h (omega arith) e, length-append c (concat cs))
part_bytes-add-le (some p ∷ ps) (c ∷ cs) (suc i) h lt e = omega (
  arith,
  part_bytes-add-le ps cs i h.1 (omega arith) e,
  length-append c (concat cs),
  ap length h.0,
)

pub part_at-set_ne :
    (ps : Slots) (i j : ℕ) (v : Option (List ℕ)) → j ≢ i → part_at (set ps i v) j ≡ part_at ps j
unfolding part_at
part_at-set_ne [] i j v h = refl
part_at-set_ne (p ∷ ps) zero zero v h = absurd (h refl)
part_at-set_ne (p ∷ ps) zero (suc j) v h = refl
part_at-set_ne (p ∷ ps) (suc i) zero v h = refl
part_at-set_ne (p ∷ ps) (suc i) (suc j) v h = part_at-set_ne ps i j v (λ e. h (ap suc e))
