-- ===== src/Prelude/Text.antt =====
-- The parts of Go's `strings` and `net` on texts, as lists of ASCII codes.
pub mod Laws
use chimera_core.Prelude.{
  ℕ, suc, ◌+◌, ◌-◌, Bool, true, false, not, ◌&&◌, ◌||◌, List, [], ◌∷◌, map, Option, none, some,
  ◌==◌, leb, if◌then◌else◌, length, take, drop,
}

-- `unicode.IsSpace`.
abbrev pub is_space : ℕ → Bool
is_space b = (leb 9 b && leb b 13) || b == 32

-- The text without the white space at its start, and at its end.
unfoldable pub trim_left : List ℕ → List ℕ
trim_left [] = []
trim_left (b ∷ s) = let rest = trim_left s in if is_space b then rest else b ∷ s

unfoldable pub trim_right : List ℕ → List ℕ
trim_right [] = []
trim_right (b ∷ s) = elim (trim_right s) [
  | [] ↦ if is_space b then [] else b ∷ []
  | c ∷ t ↦ b ∷ c ∷ t
]

-- strings.TrimSpace.
unfoldable pub trim_space : List ℕ → List ℕ
unfolding trim_left trim_right
trim_space s = trim_right (trim_left s)

abbrev pub lower : ℕ → ℕ
lower b = if leb 65 b && leb b 90 then b + 32 else b

abbrev pub upper : ℕ → ℕ
upper b = if leb 97 b && leb b 122 then b - 32 else b

-- strings.ToLower and ToUpper.
unfoldable pub to_lower : List ℕ → List ℕ
to_lower s = map lower s

unfoldable pub to_upper : List ℕ → List ℕ
to_upper s = map upper s

-- strings.IndexByte and LastIndexByte.
unfoldable pub index_byte : ℕ → List ℕ → Option ℕ
index_byte b [] = none
index_byte b (c ∷ s) =
    let rest = index_byte b s in
    if c == b then some 0 else (elim rest [ none ↦ none | some i ↦ some (suc i) ])

unfoldable pub last_index_byte : ℕ → List ℕ → Option ℕ
last_index_byte b [] = none
last_index_byte b (c ∷ s) = elim (last_index_byte b s) [
  | some i ↦ some (suc i)
  | none ↦ if c == b then some 0 else none
]

abbrev pub has_byte : ℕ → List ℕ → Bool
has_byte b s = elim (index_byte b s) [ none ↦ false | some _ ↦ true ]

-- The host in brackets, whose last colon stands at `i`.
unfoldable pub split_bracketed : List ℕ → ℕ → Option (List ℕ × List ℕ)
split_bracketed s i = elim (index_byte 93 s) [
  | none ↦ none
  | some end ↦
      if not (end + 1 == i) || has_byte 91 (drop 1 s) || has_byte 93 (drop (end + 1) s)
      then none
      else some (take (end - 1) (drop 1 s), drop (i + 1) s)
]

-- The host before the last colon, which stands at `i`.
unfoldable pub split_plain : List ℕ → ℕ → Option (List ℕ × List ℕ)
split_plain s i =
    if has_byte 58 (take i s) || has_byte 91 s || has_byte 93 s
    then none
    else some (take i s, drop (i + 1) s)

-- net.SplitHostPort: the host and the port, `none` for its errors.
unfoldable pub split_host_port : List ℕ → Option (List ℕ × List ℕ)
unfolding split_bracketed split_plain index_byte last_index_byte
split_host_port s = elim (last_index_byte 58 s) [
  | none ↦ none
  | some i ↦ if has_byte 91 (take 1 s) then split_bracketed s i else split_plain s i
]

-- strings.Fields: the words between white space. The word that has begun, and those behind it.
unfoldable pub begun : List ℕ → List ℕ × List (List ℕ)
begun [] = ([], [])
begun (b ∷ s) =
    let (word, words) = begun s in
    if is_space b
    then ([], (if length word == 0 then words else word ∷ words))
    else (b ∷ word, words)

unfoldable pub fields : List ℕ → List (List ℕ)
unfolding begun
fields s = let (word, words) = begun s in if length word == 0 then words else word ∷ words
