-- ===== src/Prelude/Endian.antt =====
-- `int.from_bytes(_, "big")` and the big-endian fields of `int.to_bytes` and `struct.pack`.
use Prim.Native.Nat.{ℕ, zero, suc, ◌+◌, ◌*◌, ◌/◌, ◌%◌, ◌^◌, ◌<◌}
use mathlib.Core.Path.{◌≡◌, refl, ◌∙◌}
use mathlib.Core.List.{List, [], ◌∷◌, ◌++◌, foldl, foldl-append}
use native.Mathlib.Omega.{arith}
use native.Mathlib.Nat.{pow-suc}
use hndl_dev.Prelude.Lists.{length, length-append, All, All-append}

abbrev pub IsByte : ℕ → Type 0
IsByte b = b < 256

abbrev shift_in : ℕ → ℕ → ℕ
shift_in acc b = acc * 256 + b

-- `int.from_bytes(bytes, "big")`
unfoldable pub from_bytes_big : List ℕ → ℕ
from_bytes_big = foldl shift_in 0

-- The `width` bytes of `value`, most significant first; higher bits are dropped.
unfoldable pub to_bytes_big : ℕ → ℕ → List ℕ
to_bytes_big zero value = []
to_bytes_big (suc width) value = to_bytes_big width (value / 256) ++ (value % 256 ∷ [])

pub length-to_bytes_big : (width value : ℕ) → length (to_bytes_big width value) ≡ width
unfolding to_bytes_big
length-to_bytes_big zero value = refl
length-to_bytes_big (suc width) value = omega (
  arith,
  length-append (to_bytes_big width (value / 256)) (value % 256 ∷ []),
  length-to_bytes_big width (value / 256),
)

pub to_bytes_big-IsByte : (width value : ℕ) → All IsByte (to_bytes_big width value)
unfolding to_bytes_big
to_bytes_big-IsByte zero value = tt
to_bytes_big-IsByte (suc width) value =
    All-append IsByte (to_bytes_big width (value / 256)) (value % 256 ∷ [])
      (to_bytes_big-IsByte width (value / 256)) (omega arith)

pow-suc_256 : (w : ℕ) → 256 ^ suc w ≡ 256 ^ w * 256
pow-suc_256 w = pow-suc 256 w

-- A value that fits the field is read back.
pub from_bytes_big-to_bytes_big :
    (width value : ℕ) → value < 256 ^ width → from_bytes_big (to_bytes_big width value) ≡ value
unfolding from_bytes_big to_bytes_big
from_bytes_big-to_bytes_big zero value h = omega arith
from_bytes_big-to_bytes_big (suc width) value h =
    foldl-append shift_in 0 (to_bytes_big width (value / 256)) (value % 256 ∷ [])
    ∙ omega
        (arith, from_bytes_big-to_bytes_big width (value / 256) (omega (arith, pow-suc_256 width)))

-- Two bytes and four bytes, spelled out.
pub from_bytes_two : (a b : ℕ) → from_bytes_big (a ∷ b ∷ []) ≡ a * 256 + b
unfolding from_bytes_big
from_bytes_two a b = omega arith
