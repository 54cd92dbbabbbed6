-- ===== src/Udp/Decoder/Parts.antt =====
-- The `parts` of an assembly: a slot for each fragment, empty until it has arrived.
use chimera_core.Prelude.{
  ℕ, zero, suc, ◌+◌, ◌≤◌, ◌<◌, ◌≡◌, refl, List, [], ◌∷◌, ◌++◌, Option, none, some, arith, length,
  set, replicate, length-append,
}

abbrev pub Slots : Type 0
Slots = List (Option (List ℕ))

-- `assembly.parts[index]`; the caller has checked the index.
unfoldable pub part_at : Slots → ℕ → Option (List ℕ)
part_at [] i = none
part_at (p ∷ ps) zero = p
part_at (p ∷ ps) (suc i) = part_at ps i

-- The loop that appends the parts; `none` if one is missing.
unfoldable pub join : Slots → Option (List ℕ)
join [] = some []
join (none ∷ ps) = none
join (some p ∷ ps) = elim (join ps) [ none ↦ none | some rest ↦ some (p ++ rest) ]

-- How many parts are there, and how many bytes they hold.
unfoldable pub arrived : Slots → ℕ
arrived [] = 0
arrived (none ∷ ps) = arrived ps
arrived (some _ ∷ ps) = arrived ps + 1

unfoldable pub part_bytes : Slots → ℕ
part_bytes [] = 0
part_bytes (none ∷ ps) = part_bytes ps
part_bytes (some p ∷ ps) = length p + part_bytes ps

pub arrived-le : (ps : Slots) → arrived ps ≤ length ps
unfolding arrived
arrived-le [] = omega arith
arrived-le (none ∷ ps) = omega (arith, arrived-le ps)
arrived-le (some p ∷ ps) = omega (arith, arrived-le ps)

pub arrived-set :
    (ps : Slots) (i : ℕ) (p : List ℕ)
    → i < length ps
    → part_at ps i ≡ none
    → arrived (set ps i (some p)) ≡ arrived ps + 1
unfolding arrived part_at
arrived-set [] i p h e = absurd (omega arith)
arrived-set (none ∷ ps) zero p h e = refl
arrived-set (some q ∷ ps) zero p h e = absurd (ground arith)
arrived-set (none ∷ ps) (suc i) p h e = arrived-set ps i p (omega arith) e
arrived-set (some q ∷ ps) (suc i) p h e = omega (arith, arrived-set ps i p (omega arith) e)

pub part_bytes-set :
    (ps : Slots) (i : ℕ) (p : List ℕ)
    → i < length ps
    → part_at ps i ≡ none
    → part_bytes (set ps i (some p)) ≡ part_bytes ps + length p
unfolding part_bytes part_at
part_bytes-set [] i p h e = absurd (omega arith)
part_bytes-set (none ∷ ps) zero p h e = omega arith
part_bytes-set (some q ∷ ps) zero p h e = absurd (ground arith)
part_bytes-set (none ∷ ps) (suc i) p h e = part_bytes-set ps i p (omega arith) e
part_bytes-set (some q ∷ ps) (suc i) p h e = omega (arith, part_bytes-set ps i p (omega arith) e)

pub arrived-replicate : (n : ℕ) → arrived (replicate n none) ≡ 0
unfolding arrived
arrived-replicate zero = refl
arrived-replicate (suc n) = arrived-replicate n

pub part_bytes-replicate : (n : ℕ) → part_bytes (replicate n none) ≡ 0
unfolding part_bytes
part_bytes-replicate zero = refl
part_bytes-replicate (suc n) = part_bytes-replicate n

pub part_at-replicate : (n i : ℕ) → part_at (replicate n none) i ≡ none
unfolding part_at
part_at-replicate zero i = refl
part_at-replicate (suc n) zero = refl
part_at-replicate (suc n) (suc i) = part_at-replicate n i

-- When every part has arrived they join, to as many bytes as they hold.
pub join_complete :
    (ps : Slots)
    → arrived ps ≡ length ps
    → (packet : List ℕ) × (join ps ≡ some packet) × (length packet ≡ part_bytes ps)
unfolding join arrived part_bytes
join_complete [] h = ([], refl, refl)
join_complete (none ∷ ps) h = absurd (omega (arith, arrived-le ps))
join_complete (some p ∷ ps) h =
    let (rest, e, size) = join_complete ps (omega arith) in
    (p ++ rest, rw e, omega (arith, length-append p rest))
