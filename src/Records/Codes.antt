-- ===== src/Records/Codes.antt =====
-- The tag byte of a record, and the codes for content types and versions.
use hndl_dev.Prelude.{
  ℕ, ◌+◌, ◌*◌, ◌/◌, ◌%◌, ◌<◌, ◌≡◌, ◌≢◌, refl, Bool, true, false, some, [], ◌∷◌, arith, ◌==◌, ==_iff,
  if◌then◌else◌, bytes_eq→eq, holds_below, holds_below_at,
}
use hndl_dev.Prelude.Bits.{shr, low_bits, has_bit}
use hndl_dev.Binary.{Bytes}
use hndl_dev.Records.Encode.{content_code, version_code, tag_byte}
use hndl_dev.Records.Decode.{code_content, code_version}

tag_table :
    holds_below 256 (λ n. tag_byte (n / 128) (n / 64 % 2 == 1) (n / 8 % 8) (n % 8) == n) ≡ true
unfolding tag_byte holds_below
tag_table = refl

tag_sum : (d v c : ℕ) (o : Bool) → ℕ
tag_sum d v c o = d * 128 + (if o then 64 else 0) + v * 8 + c

tag_at :
    (n d v c : ℕ) (o : Bool)
    → n / 128 ≡ d
    → (n / 64 % 2 == 1) ≡ o
    → n / 8 % 8 ≡ v
    → n % 8 ≡ c
    → n < 256
    → tag_byte d o v c ≡ n
tag_at n d v c o hd ho hv hc lt =
    let whole : tag_byte (n / 128) (n / 64 % 2 == 1) (n / 8 % 8) (n % 8) ≡ n =
      (==_iff _ n).0 (holds_below_at 256 _ n tag_table lt) in
    cc

tag_byte-sum : (d v c : ℕ) (o : Bool) → d < 2 → v < 8 → c < 8 → tag_byte d o v c ≡ tag_sum d v c o
unfolding tag_sum
tag_byte-sum d v c true hd hv hc =
    tag_at (tag_sum d v c true) d v c true (omega arith) (ground arith) (omega arith) (omega arith)
      (omega arith)
tag_byte-sum d v c false hd hv hc =
    tag_at (tag_sum d v c false) d v c false (omega arith) (ground arith) (omega arith)
      (omega arith) (omega arith)

-- The decoder's view of a tag.
pub tag_fields :
    (d v c : ℕ) (o : Bool)
    → d < 2
    → v < 8
    → c < 8
    → (low_bits (tag_byte d o v c) 3 ≡ c)
      × (low_bits (shr (tag_byte d o v c) 3) 3 ≡ v)
      × (has_bit (tag_byte d o v c) 6 ≡ o)
      × (shr (tag_byte d o v c) 7 ≡ d)
tag_fields d v c true hd hv hc =
    rw (tag_byte-sum d v c true hd hv hc) (unfold tag_sum in ground arith)
tag_fields d v c false hd hv hc =
    rw (tag_byte-sum d v c false hd hv hc) (unfold tag_sum in ground arith)

pub content_code-lt : (t : ℕ) → content_code t < 8
unfolding content_code
content_code-lt t = ground arith

pub code_content-content_code :
    (t : ℕ) → content_code t ≢ 7 → code_content (content_code t) ≡ some t
unfolding content_code code_content
code_content-content_code t h = ground arith

pub version_code-lt : (v : Bytes) → version_code v < 8
unfolding version_code
version_code-lt v = ground arith

pub code_version-version_code :
    (v : Bytes) → version_code v ≢ 7 → code_version (version_code v) ≡ some v
unfolding version_code code_version
code_version-version_code v h = ground (
  arith,
  bytes_eq→eq v (3 ∷ 3 ∷ []),
  bytes_eq→eq v (3 ∷ 1 ∷ []),
  bytes_eq→eq v (3 ∷ 2 ∷ []),
  bytes_eq→eq v (3 ∷ 4 ∷ []),
)
