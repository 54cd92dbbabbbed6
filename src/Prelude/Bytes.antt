-- ===== src/Prelude/Bytes.antt =====
-- Byte strings as lists of numbers below 256; the big-endian words of encoding/binary, and
-- `io.ReadFull` on a reader that holds the bytes that are still to come.
use chimera_core.Prelude.{
  ℕ, zero, suc, ◌+◌, ◌*◌, ◌/◌, ◌%◌, ◌<◌, ◌≡◌, refl, List, [], ◌∷◌, ◌++◌, Option, none, some, arith,
  length, Option-cases, inl, inr, ℕ_discrete, All, Result, ok, err,
}

abbrev pub IsByte : ℕ → Type 0
IsByte b = b < 256

abbrev pub IsBytes : List ℕ → Type 0
IsBytes = All IsByte

-- binary.BigEndian.PutUint16 and Uint16.
abbrev pub put_uint16 : ℕ → List ℕ
put_uint16 n = (n / 256 % 256) ∷ (n % 256) ∷ []

abbrev pub uint16 : ℕ → ℕ → ℕ
uint16 a b = a * 256 + b

-- binary.BigEndian.PutUint32 and Uint32.
abbrev pub put_uint32 : ℕ → List ℕ
put_uint32 n = (n / 16777216 % 256) ∷ (n / 65536 % 256) ∷ (n / 256 % 256) ∷ (n % 256) ∷ []

abbrev pub uint32 : ℕ → ℕ → ℕ → ℕ → ℕ
uint32 a b c d = a * 16777216 + b * 65536 + c * 256 + d

pub uint16-put_uint16 : (n : ℕ) → n < 65536 → uint16 (n / 256 % 256) (n % 256) ≡ n
uint16-put_uint16 n h = omega arith

pub put_uint16-uint16 : (a b : ℕ) → IsByte a → IsByte b → put_uint16 (uint16 a b) ≡ a ∷ b ∷ []
put_uint16-uint16 a b ha hb = ground arith

pub uint32-put_uint32 :
    (n : ℕ)
    → n < 4294967296
    → uint32 (n / 16777216 % 256) (n / 65536 % 256) (n / 256 % 256) (n % 256) ≡ n
uint32-put_uint32 n h = omega arith

pub IsBytes-put_uint16 : (n : ℕ) → IsBytes (put_uint16 n)
IsBytes-put_uint16 n = omega arith

pub IsBytes-put_uint32 : (n : ℕ) → IsBytes (put_uint32 n)
IsBytes-put_uint32 n = omega arith

-- What ends a read.
pub data IoError : Type 0 where
  eof unexpected_eof : IoError

-- The first `n` bytes of the reader and what is left, if there are so many.
abbrev pub split_at? : ℕ → List ℕ → Option (List ℕ × List ℕ)
split_at? zero s = some ([], s)
split_at? (suc n) [] = none
split_at? (suc n) (x ∷ s) = elim (split_at? n s) [
  | none ↦ none
  | some (xs, rest) ↦ some (x ∷ xs, rest)
]

abbrev pub short_error : List ℕ → IoError
short_error [] = eof
short_error (x ∷ s) = unexpected_eof

-- io.ReadFull: io.EOF if nothing was read, io.ErrUnexpectedEOF after a part.
unfoldable pub read_full : ℕ → List ℕ → Result IoError (List ℕ × List ℕ)
read_full n s = elim (split_at? n s) [ none ↦ err (short_error s) | some p ↦ ok p ]

pub split_at?-append : (xs rest : List ℕ) → split_at? (length xs) (xs ++ rest) ≡ some (xs, rest)
split_at?-append [] rest = refl
split_at?-append (x ∷ xs) rest = ground (arith, split_at?-append xs rest)

pub split_at?-eq-some :
    (n : ℕ) (s xs rest : List ℕ)
    → split_at? n s ≡ some (xs, rest)
    → (s ≡ xs ++ rest) × (length xs ≡ n)
split_at?-eq-some zero s xs rest h = ground arith
split_at?-eq-some (suc n) [] xs rest h = ground arith
split_at?-eq-some (suc n) (x ∷ s) xs rest h = elim (Option-cases (split_at? n s)) [
  | inl e ↦ ground arith
  | inr (p, e) ↦ ground (arith, split_at?-eq-some n s p.0 p.1)
]

pub read_full-append :
    (n : ℕ) (xs rest : List ℕ) → length xs ≡ n → read_full n (xs ++ rest) ≡ ok (xs, rest)
unfolding read_full
read_full-append n xs rest h = ground (arith, split_at?-append xs rest)

pub read_full-eq-ok :
    (n : ℕ) (s xs rest : List ℕ)
    → read_full n s ≡ ok (xs, rest)
    → (s ≡ xs ++ rest) × (length xs ≡ n)
unfolding read_full
read_full-eq-ok n s xs rest h = ground (arith, split_at?-eq-some n s xs rest)

-- Equality of Go strings and byte arrays.
unfoldable pub bytes_discrete : Discrete (List ℕ)
bytes_discrete = hlevel ℕ_discrete
