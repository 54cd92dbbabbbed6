-- ===== src/Prelude/Base64.antt =====
-- base64.RawURLEncoding of encoding/base64.
use chimera_core.Prelude.{
  ℕ, ◌+◌, ◌-◌, ◌*◌, ◌/◌, ◌%◌, ◌<◌, ◌≡◌, refl, Bool, false, ◌||◌, List, [], ◌∷◌, Option, none, some,
  arith, ◌==◌, ltb, leb, ◌&&◌, if◌then◌else◌, All,
}
use chimera_core.Prelude.Bytes.{IsBytes}
use chimera_core.Prelude.Text.{is_space}

-- The character of six bits, and back.
abbrev pub char_of : ℕ → ℕ
char_of v =
    if ltb v 26
    then 65 + v
    else if ltb v 52
    then 71 + v
    else if ltb v 62
    then v - 4
    else if v == 62
    then 45
    else 95

abbrev pub value_of : ℕ → Option ℕ
value_of c =
    if leb 65 c && leb c 90
    then some (c - 65)
    else if leb 97 c && leb c 122
    then some (c - 71)
    else if leb 48 c && leb c 57
    then some (c + 4)
    else if c == 45
    then some 62
    else if c == 95
    then some 63
    else none

unfoldable pub encode64 : List ℕ → List ℕ
encode64 [] = []
encode64 (a ∷ []) = char_of (a / 4) ∷ char_of (a % 4 * 16) ∷ []
encode64 (a ∷ b ∷ []) = char_of (a / 4) ∷ char_of (a % 4 * 16 + b / 16) ∷ char_of (b % 16 * 4) ∷ []
encode64 (a ∷ b ∷ c ∷ s) =
    char_of (a / 4)
    ∷ char_of (a % 4 * 16 + b / 16)
    ∷ char_of (b % 16 * 4 + c / 64)
    ∷ char_of (c % 64)
    ∷ encode64 s

-- The decoder passes over line breaks.
abbrev pub is_break : ℕ → Bool
is_break c = c == 10 || c == 13

unfoldable pub sextets : List ℕ → Option (List ℕ)
sextets [] = some []
sextets (c ∷ s) =
    let rest = sextets s in
    if is_break c then rest else elim (value_of c) [
      | none ↦ none
      | some v ↦ elim rest [ none ↦ none | some vs ↦ some (v ∷ vs) ]
    ]

unfoldable pub join64 : List ℕ → Option (List ℕ)
join64 [] = some []
join64 (v ∷ []) = none
join64 (v ∷ w ∷ []) = some ((v * 4 + w / 16) ∷ [])
join64 (v ∷ w ∷ x ∷ []) = some ((v * 4 + w / 16) ∷ (w % 16 * 16 + x / 4) ∷ [])
join64 (v ∷ w ∷ x ∷ y ∷ s) = elim (join64 s) [
  | none ↦ none
  | some bs ↦ some ((v * 4 + w / 16) ∷ (w % 16 * 16 + x / 4) ∷ (x % 4 * 64 + y) ∷ bs)
]

unfoldable pub decode64 : List ℕ → Option (List ℕ)
unfolding sextets join64
decode64 s = elim (sextets s) [ none ↦ none | some vs ↦ join64 vs ]

-- The six bits that `encode64` writes.
values : List ℕ → List ℕ
values [] = []
values (a ∷ []) = (a / 4) ∷ (a % 4 * 16) ∷ []
values (a ∷ b ∷ []) = (a / 4) ∷ (a % 4 * 16 + b / 16) ∷ (b % 16 * 4) ∷ []
values (a ∷ b ∷ c ∷ s) =
    (a / 4) ∷ (a % 4 * 16 + b / 16) ∷ (b % 16 * 4 + c / 64) ∷ (c % 64) ∷ values s

value_of-char_of :
    (v : ℕ) → v < 64 → (value_of (char_of v) ≡ some v) × (is_break (char_of v) ≡ false)
value_of-char_of v h = ground arith

sextet :
    (v : ℕ) (s vs : List ℕ) → v < 64 → sextets s ≡ some vs → sextets (char_of v ∷ s) ≡ some (v ∷ vs)
unfolding sextets
sextet v s vs h e = let (a, b) = value_of-char_of v h in rw (b, a) (rw e)

sextets-encode64 : (bs : List ℕ) → IsBytes bs → sextets (encode64 bs) ≡ some (values bs)
unfolding encode64 values
sextets-encode64 [] h = unfold sextets in refl
sextets-encode64 (a ∷ []) h =
    sextet (a / 4) _ _ (omega arith)
      (sextet (a % 4 * 16) [] [] (omega arith) (unfold sextets in refl))
sextets-encode64 (a ∷ b ∷ []) h = sextet (a / 4) _ _ (omega arith) (
    sextet (a % 4 * 16 + b / 16) _ _ (omega arith)
      (sextet (b % 16 * 4) [] [] (omega arith) (unfold sextets in refl)))
sextets-encode64 (a ∷ b ∷ c ∷ s) h = sextet (a / 4) _ _ (omega arith) (
    sextet (a % 4 * 16 + b / 16) _ _ (omega arith) (
      sextet (b % 16 * 4 + c / 64) _ _ (omega arith)
        (sextet (c % 64) _ _ (omega arith) (sextets-encode64 s h.1.1.1))))

join64-values : (bs : List ℕ) → IsBytes bs → join64 (values bs) ≡ some bs
unfolding join64 values
join64-values [] h = refl
join64-values (a ∷ []) h = ground arith
join64-values (a ∷ b ∷ []) h = ground arith
join64-values (a ∷ b ∷ c ∷ s) h = ground (arith, join64-values s h.1.1.1)

pub decode64-encode64 : (bs : List ℕ) → IsBytes bs → decode64 (encode64 bs) ≡ some bs
unfolding decode64
decode64-encode64 bs h = rw (sextets-encode64 bs h, decode64) (join64-values bs h)

-- No character of the encoding is white space.
abbrev pub NoSpace : ℕ → Type 0
NoSpace b = is_space b ≡ false

char_of-NoSpace : (v : ℕ) → NoSpace (char_of v)
char_of-NoSpace v = ground arith

pub encode64-NoSpace : (bs : List ℕ) → All NoSpace (encode64 bs)
unfolding encode64
encode64-NoSpace [] = tt
encode64-NoSpace (a ∷ []) = (char_of-NoSpace (a / 4), (char_of-NoSpace (a % 4 * 16), tt))
encode64-NoSpace (a ∷ b ∷ []) = (
  char_of-NoSpace (a / 4),
  (char_of-NoSpace (a % 4 * 16 + b / 16), (char_of-NoSpace (b % 16 * 4), tt)),
)
encode64-NoSpace (a ∷ b ∷ c ∷ s) = (
  char_of-NoSpace (a / 4),
  (
    char_of-NoSpace (a % 4 * 16 + b / 16),
    (char_of-NoSpace (b % 16 * 4 + c / 64), (char_of-NoSpace (c % 64), encode64-NoSpace s)),
  ),
)
