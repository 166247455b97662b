-- ===== src/Prelude/Signed.antt =====
-- The integers that a difference of two counters may be, over the native numbers.
use hndl_dev.Prelude.{ℕ, suc, ◌+◌, ◌-◌, ◌≡◌, leb, if◌then◌else◌, arith}

-- `negsuc n` is -(n + 1).
pub data ℤ : Type 0 where
  pos : ℕ → ℤ
  negsuc : ℕ → ℤ

-- `a - b` of two counters.
unfoldable pub sub_ℕ : ℕ → ℕ → ℤ
sub_ℕ a b = if leb b a then pos (a - b) else negsuc (b - a - 1)

infixl 65 ◌+ℤ◌ ◌-ℤ◌
unfoldable pub ◌+ℤ◌ : ℤ → ℤ → ℤ
pos a +ℤ pos b = pos (a + b)
pos a +ℤ negsuc b = sub_ℕ a (suc b)
negsuc a +ℤ pos b = sub_ℕ b (suc a)
negsuc a +ℤ negsuc b = negsuc (suc (a + b))

unfoldable pub ◌-ℤ◌ : ℤ → ℤ → ℤ
pos a -ℤ pos b = sub_ℕ a b
pos a -ℤ negsuc b = pos (a + suc b)
negsuc a -ℤ pos b = negsuc (a + b)
negsuc a -ℤ negsuc b = sub_ℕ b a

-- The operations on differences.
pub sub_ℕ-add : (a b c d : ℕ) → sub_ℕ a b +ℤ sub_ℕ c d ≡ sub_ℕ (a + c) (b + d)
unfolding sub_ℕ ◌+ℤ◌
sub_ℕ-add a b c d = ground arith

pub sub_ℕ-sub : (a b c d : ℕ) → sub_ℕ a b -ℤ sub_ℕ c d ≡ sub_ℕ (a + d) (b + c)
unfolding sub_ℕ ◌-ℤ◌
sub_ℕ-sub a b c d = ground arith

pub sub_ℕ-pos : (a b c : ℕ) → sub_ℕ a b +ℤ pos c ≡ sub_ℕ (a + c) b
unfolding sub_ℕ ◌+ℤ◌
sub_ℕ-pos a b c = ground arith

pub sub_ℕ-less : (a b c : ℕ) → sub_ℕ a b -ℤ pos c ≡ sub_ℕ a (b + c)
unfolding sub_ℕ ◌-ℤ◌
sub_ℕ-less a b c = ground arith
