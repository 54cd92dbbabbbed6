-- ===== src/Prelude/Text/Laws.antt =====
-- Texts that are trimmed or in lower case stay as they are.
use chimera_core.Prelude.{ℕ, ◌≡◌, refl, false, List, [], ◌∷◌, arith, Bool-cases, inl, inr, ap, ◌∙◌}
use chimera_core.Prelude.Text.{is_space, trim_left, trim_right, trim_space, lower, to_lower}

-- The text does not start with white space.
abbrev Solid : List ℕ → Type 0
Solid [] = Unit
Solid (b ∷ s) = is_space b ≡ false

trim_left-Solid : (s : List ℕ) → Solid (trim_left s)
unfolding trim_left
trim_left-Solid [] = tt
trim_left-Solid (b ∷ s) = elim (Bool-cases (is_space b)) [
  | inl space ↦ rw (space, trim_left) (trim_left-Solid s)
  | inr solid ↦ rw (solid, trim_left) solid
]

trim_left_same : (s : List ℕ) → Solid s → trim_left s ≡ s
unfolding trim_left
trim_left_same [] h = refl
trim_left_same (b ∷ s) h = ground (arith, h)

trim_right-Solid : (s : List ℕ) → Solid s → Solid (trim_right s)
unfolding trim_right
trim_right-Solid [] h = tt
trim_right-Solid (b ∷ s) h = ground (arith, h)

trim_right_twice : (s : List ℕ) → trim_right (trim_right s) ≡ trim_right s
unfolding trim_right
trim_right_twice [] = refl
trim_right_twice (b ∷ s) = ground (arith, trim_right_twice s)

pub trim_space_twice : (s : List ℕ) → trim_space (trim_space s) ≡ trim_space s
unfolding trim_space
trim_space_twice s =
    let t = trim_right (trim_left s) in
    let solid : trim_left t ≡ t =
      trim_left_same t (trim_right-Solid (trim_left s) (trim_left-Solid s)) in
    ap trim_right solid ∙ trim_right_twice (trim_left s)

is_space-lower : (b : ℕ) → is_space (lower b) ≡ is_space b
is_space-lower b = ground arith

lower_twice : (b : ℕ) → lower (lower b) ≡ lower b
lower_twice b = ground arith

trim_left-to_lower : (s : List ℕ) → trim_left (to_lower s) ≡ to_lower (trim_left s)
unfolding trim_left to_lower
trim_left-to_lower [] = refl
trim_left-to_lower (b ∷ s) = ground (arith, trim_left-to_lower s, is_space-lower b)

trim_right-to_lower : (s : List ℕ) → trim_right (to_lower s) ≡ to_lower (trim_right s)
unfolding trim_right to_lower
trim_right-to_lower [] = refl
trim_right-to_lower (b ∷ s) = ground (arith, trim_right-to_lower s, is_space-lower b)

to_lower_twice : (s : List ℕ) → to_lower (to_lower s) ≡ to_lower s
unfolding to_lower
to_lower_twice [] = refl
to_lower_twice (b ∷ s) = ground (arith, to_lower_twice s, lower_twice b)

-- The names of servers are normalised once.
pub to_lower-trim_space_twice :
    (s : List ℕ) → to_lower (trim_space (to_lower (trim_space s))) ≡ to_lower (trim_space s)
unfolding trim_space
to_lower-trim_space_twice s =
    let t = trim_right (trim_left s) in
    ap (λ (x : List ℕ). to_lower (trim_right x)) (trim_left-to_lower t)
    ∙ ap to_lower (trim_right-to_lower (trim_left t))
    ∙ to_lower_twice (trim_right (trim_left t))
    ∙ ap to_lower (trim_space_twice s)
