-- ===== src/Prelude/Int.antt =====
-- Signed integers, for Go's `int` and time.Duration where a value may be negative.
use chimera_core.Prelude.{ℕ, zero, suc}

-- `negsuc n` is -(n + 1).
pub data ℤ : Type 0 where
  pos : ℕ → ℤ
  negsuc : ℕ → ℤ

-- `if z <= 0 { z = d }`.
abbrev pub or_default : ℤ → ℕ → ℕ
or_default (pos zero) d = d
or_default (pos (suc n)) d = suc n
or_default (negsuc n) d = d
