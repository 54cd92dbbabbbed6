-- ===== src/Chimera/Ip.antt =====
-- The parts of net.IP that internal/chimera uses. `net.IP` is a byte slice; `none` is the nil slice.
use chimera_core.Prelude.{
  ℕ, ◌≡◌, refl, Bool, true, false, ◌&&◌, List, [], ◌∷◌, ◌++◌, Option, none, some, arith, ◌==◌, ap,
  ◌∙◌, if◌then◌else◌, length, take, drop, length-drop,
}

abbrev pub Ip : Type 0
Ip = Option (List ℕ)

-- The bytes of a slice that may be nil.
abbrev pub bytes : Ip → List ℕ
bytes none = []
bytes (some b) = b

-- bytes.Equal.
abbrev pub bytes_equal : List ℕ → List ℕ → Bool
bytes_equal [] [] = true
bytes_equal [] (_ ∷ _) = false
bytes_equal (_ ∷ _) [] = false
bytes_equal (a ∷ as') (b ∷ bs) = a == b && bytes_equal as' bs

pub bytes_equal-eq : (a b : List ℕ) → bytes_equal a b ≡ true → a ≡ b
bytes_equal-eq [] [] e = refl
bytes_equal-eq [] (y ∷ b) e = absurd (ground arith)
bytes_equal-eq (x ∷ a) [] e = absurd (ground arith)
bytes_equal-eq (x ∷ a) (y ∷ b) e =
    let rest = bytes_equal-eq a b (ground arith) in
    let first : x ≡ y = ground arith in ap (λ (z : ℕ). z ∷ a) first ∙ ap (◌∷◌ y) rest

pub bytes_equal_refl : (b : List ℕ) → bytes_equal b b ≡ true
bytes_equal_refl [] = refl
bytes_equal_refl (x ∷ b) = ground (arith, bytes_equal_refl b)

-- ::ffff:0:0/96, the prefix of an IPv4 address in 16 bytes.
abbrev pub v4_in_v6_prefix : List ℕ
v4_in_v6_prefix = 0 ∷ 0 ∷ 0 ∷ 0 ∷ 0 ∷ 0 ∷ 0 ∷ 0 ∷ 0 ∷ 0 ∷ 255 ∷ 255 ∷ []

unfoldable pub is_4in6 : List ℕ → Bool
is_4in6 b = length b == 16 && bytes_equal (take 12 b) v4_in_v6_prefix

-- net.IP.To4 and To16.
unfoldable pub to4 : List ℕ → Ip
to4 b = if length b == 4 then some b else if is_4in6 b then some (drop 12 b) else none

unfoldable pub to16 : List ℕ → Ip
to16 b =
    if length b == 4 then some (v4_in_v6_prefix ++ b) else if length b == 16 then some b else none

pub to4_four : (b : List ℕ) → length b ≡ 4 → to4 b ≡ some b
unfolding to4
to4_four b h = ground arith

pub to16_sixteen : (b : List ℕ) → length b ≡ 16 → to16 b ≡ some b
unfolding to16
to16_sixteen b h = ground arith

pub is_4in6_mapped : (b : List ℕ) → length b ≡ 4 → is_4in6 (v4_in_v6_prefix ++ b) ≡ true
unfolding is_4in6
is_4in6_mapped b h = ground arith

length_of_is_4in6 : (b : List ℕ) → is_4in6 b ≡ true → length b ≡ 16
unfolding is_4in6
length_of_is_4in6 b h = ground arith

pub length-to4 : (b r : List ℕ) → to4 b ≡ some r → length r ≡ 4
unfolding to4
length-to4 b r e = ground (arith, length_of_is_4in6 b, length-drop 12 b)

pub length-to16 : (b r : List ℕ) → to16 b ≡ some r → length r ≡ 16
unfolding to16
length-to16 b r e = ground arith
