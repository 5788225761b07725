-- ===== src/Prelude/Int.antt =====
-- Python's `int`: `negsuc n` is -(n + 1).
use Prim.Native.Nat.{ℕ}

pub data ℤ : Type 0 where
  pos : ℕ → ℤ
  negsuc : ℕ → ℤ

-- `x if x >= 0 else 0`
abbrev pub clip : ℤ → ℕ
clip (pos n) = n
clip (negsuc n) = 0
