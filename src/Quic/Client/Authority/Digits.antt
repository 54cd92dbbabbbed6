-- ===== src/Quic/Client/Authority/Digits.antt =====
-- The digits of a port: strconv.FormatUint and ParseUint in internal/chimera/guard.go.
use chimera_core.Prelude.{
  ℕ, zero, suc, ◌+◌, ◌-◌, ◌*◌, ◌/◌, ◌%◌, ◌≤◌, ◌<◌, ◌≡◌, false, List, [], ◌∷◌, ◌++◌, some, ltb,
  length, All, All-append, length-append, arith, Bool-cases, inl, inr, sym, ap, ◌∙◌, subst,
}
use chimera_core.Chimera.Resolve.{parse_digits, parse_uint16, format_uint}

abbrev pub IsDigit : ℕ → Type 0
IsDigit c = (48 ≤ c) × (c ≤ 57)

-- One more digit at the end.
parse_digits-append :
    (m d k : ℕ) (s : List ℕ)
    → d < 10
    → k * 10 + d ≤ 65535
    → parse_digits m s ≡ some k
    → parse_digits m (s ++ ((48 + d) ∷ [])) ≡ some (k * 10 + d)
unfolding parse_digits
parse_digits-append m d k [] small fits e = ground arith
parse_digits-append m d k (c ∷ s) small fits e =
    ground (arith, parse_digits-append (m * 10 + (c - 48)) d k s small fits)

-- A number of more than one digit.
format_uint_more :
    (fuel n : ℕ)
    → ltb n 10 ≡ false
    → format_uint (suc fuel) n ≡ format_uint fuel (n / 10) ++ ((48 + n % 10) ∷ [])
unfolding format_uint
format_uint_more fuel n big = ground arith

pub format_uint-Digits : (fuel n : ℕ) → All IsDigit (format_uint fuel n)
unfolding format_uint
format_uint-Digits zero n = tt
format_uint-Digits (suc fuel) n = elim (Bool-cases (ltb n 10)) [
  | inl small ↦ ground arith
  | inr big ↦
      let front = format_uint fuel (n / 10) in
      let last : All IsDigit ((48 + n % 10) ∷ []) = ((omega arith, omega arith), tt) in
      subst (All IsDigit) (sym (format_uint_more fuel n big))
        (All-append IsDigit front ((48 + n % 10) ∷ []) (format_uint-Digits fuel (n / 10)) last)
]

abbrev tens : ℕ → ℕ
tens zero = 10
tens (suc fuel) = 10 * tens fuel

parse_digits-format_uint :
    (fuel n : ℕ) → n < tens fuel → n ≤ 65535 → parse_digits 0 (format_uint (suc fuel) n) ≡ some n
unfolding format_uint parse_digits
parse_digits-format_uint zero n h fits = ground arith
parse_digits-format_uint (suc fuel) n h fits = elim (Bool-cases (ltb n 10)) [
  | inl small ↦ ground arith
  | inr big ↦
      let front = parse_digits-format_uint fuel (n / 10) (omega (arith, h)) (omega (arith, fits)) in
      let whole : n / 10 * 10 + n % 10 ≡ n = omega arith in
      ap (parse_digits 0) (format_uint_more (suc fuel) n big)
      ∙ parse_digits-append 0 (n % 10) (n / 10) (format_uint (suc fuel) (n / 10)) (omega arith)
          (omega (arith, fits)) front
      ∙ ap (λ (m : ℕ). some m) whole
]

format_uint_some : (fuel n : ℕ) → 0 < length (format_uint (suc fuel) n)
unfolding format_uint
format_uint_some fuel n = elim (Bool-cases (ltb n 10)) [
  | inl small ↦ ground arith
  | inr big ↦
      subst (λ (s : List ℕ). 0 < length s) (sym (format_uint_more fuel n big))
        (omega (arith, length-append (format_uint fuel (n / 10)) ((48 + n % 10) ∷ [])))
]

pub parse_uint16-format_uint : (n : ℕ) → n ≤ 65535 → parse_uint16 (format_uint 5 n) ≡ some n
unfolding parse_uint16
parse_uint16-format_uint n fits =
    nonempty (format_uint 5 n) (format_uint_some 4 n)
      (parse_digits-format_uint 4 n (omega (arith, fits)) fits)
  where
    nonempty : (s : List ℕ) → 0 < length s → parse_digits 0 s ≡ some n → parse_uint16 s ≡ some n
    nonempty [] h e = absurd (omega (arith, h))
    nonempty (c ∷ s) h e = e
