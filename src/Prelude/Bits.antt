-- ===== src/Prelude/Bits.antt =====
-- `&`, `|`, `<<` and `>>` of Python's integers at the masks and shifts that the codecs use.
use Prim.Native.Nat.{
  ℕ, zero, suc, ◌+◌, ◌*◌, ◌/◌, ◌%◌, ◌^◌, ◌≤◌, ◌<◌, max, bit_or, digits, bit_or-bitwise,
}
use mathlib.Core.Path.{◌≡◌, ap, ◌∙◌}
use mathlib.Core.Bool.{Bool}
use native.Mathlib.Omega.{arith}
use native.Mathlib.Nat.{pow-suc}
use hndl_dev.Prelude.Tests.{◌==◌}

-- `x >> k`, `x << k`, `x & (2 ** k - 1)`, and the test `x & (1 << k)`.
abbrev pub shr : ℕ → ℕ → ℕ
shr x k = x / 2 ^ k

abbrev pub shl : ℕ → ℕ → ℕ
shl x k = x * 2 ^ k

abbrev pub low_bits : ℕ → ℕ → ℕ
low_bits x k = x % 2 ^ k

abbrev pub has_bit : ℕ → ℕ → Bool
has_bit x k = x / 2 ^ k % 2 == 1

abbrev or_digits : ℕ → ℕ → ℕ → ℕ
or_digits n a b = digits (λ c. c) max n a b

pub pow-suc_two : (s : ℕ) → 2 ^ suc s ≡ 2 ^ s * 2
pow-suc_two s = pow-suc 2 s

double : (g s : ℕ) → g * 2 ^ suc s ≡ g * 2 ^ s * 2
double g s = omega (arith, ap (λ (t : ℕ). g * t) (pow-suc_two s))

or_digits-disjoint : (n s a g : ℕ) → a ≤ n → a < 2 ^ s → or_digits n a (g * 2 ^ s) ≡ a + g * 2 ^ s
or_digits-disjoint zero s zero g h lt = omega arith
or_digits-disjoint zero s (suc a) g h lt = absurd (omega arith)
or_digits-disjoint (suc n) s zero g h lt = omega arith
or_digits-disjoint (suc n) zero (suc a) g h lt = absurd (omega arith)
or_digits-disjoint (suc n) (suc s) (suc a) g h lt = rw (double g s) (
    rw (halved (g * 2 ^ s)) (
      omega
        (arith, or_digits-disjoint n s (suc a / 2) g (omega arith) (omega (arith, pow-suc_two s)))))
  where
    halved : (m : ℕ) → m * 2 / 2 ≡ m
    halved m = omega arith

-- Parts that share no bit: `|` is `+`.
pub bit_or-disjoint : (s a g : ℕ) → a < 2 ^ s → bit_or a (g * 2 ^ s) ≡ a + g * 2 ^ s
bit_or-disjoint s a g lt =
    bit_or-bitwise a (g * 2 ^ s) ∙ or_digits-disjoint a s a g (omega arith) lt
