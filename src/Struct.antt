-- ===== src/Struct.antt =====
-- `struct.pack` and `struct.unpack` on unsigned fields in network byte order: a format is the list
-- of the fields' widths in bytes.
use hndl_dev.Prelude.{
  ℕ, ◌+◌, ◌^◌, ◌<◌, ◌≡◌, refl, sym, ap, ◌∙◌, Bool, true, false, List, [], ◌∷◌, ◌++◌, append_assoc,
  arith, ltb, ltb→lt, length, take, drop, length-append, take-length-append, drop-length-append,
  All, All-append,
}
use hndl_dev.Prelude.Endian.{
  from_bytes_big, to_bytes_big, length-to_bytes_big, IsByte, to_bytes_big-IsByte,
  from_bytes_big-to_bytes_big,
}
use mathlib.Core.Path.{subst}
use hndl_dev.Result.{Error, Result, ok, struct_error, require, >>=-eq-ok, ◌>>=◌, ◌>>◌}
use hndl_dev.Binary.{Bytes}

-- A value that does not fit its field is refused.
unfoldable pub pack : List (ℕ × ℕ) → Result Bytes
pack [] = ok []
pack ((width, value) ∷ fields) = do
  require (ltb value (256 ^ width)) struct_error
  rest ← pack fields
  ok (to_bytes_big width value ++ rest)

unfoldable pub unpack : List ℕ → Bytes → List ℕ
unpack [] bytes = []
unpack (width ∷ widths) bytes = from_bytes_big (take width bytes) ∷ unpack widths (drop width bytes)

abbrev pub widths : List (ℕ × ℕ) → List ℕ
widths [] = []
widths ((w, v) ∷ fields) = w ∷ widths fields

abbrev pub values : List (ℕ × ℕ) → List ℕ
values [] = []
values ((w, v) ∷ fields) = v ∷ values fields

abbrev pub total : List ℕ → ℕ
total [] = 0
total (w ∷ ws) = w + total ws

take-to_bytes_big : (w v : ℕ) (rest : Bytes) → take w (to_bytes_big w v ++ rest) ≡ to_bytes_big w v
take-to_bytes_big w v rest =
    ap (λ n. take n (to_bytes_big w v ++ rest)) (sym (length-to_bytes_big w v))
    ∙ take-length-append (to_bytes_big w v) rest

drop-to_bytes_big : (w v : ℕ) (rest : Bytes) → drop w (to_bytes_big w v ++ rest) ≡ rest
drop-to_bytes_big w v rest =
    ap (λ n. drop n (to_bytes_big w v ++ rest)) (sym (length-to_bytes_big w v))
    ∙ drop-length-append (to_bytes_big w v) rest

pub require-true : (b : Bool) (e : Error) {u : Unit {0}} → require b e ≡ ok u → b ≡ true
require-true true e h = refl
require-true false e h = cc

-- What was packed has the size of its format and is unpacked to the same values.
pub unpack-pack :
    (fields : List (ℕ × ℕ)) (bytes rest : Bytes)
    → pack fields ≡ ok bytes
    → (length bytes ≡ total (widths fields))
      × (unpack (widths fields) (bytes ++ rest) ≡ values fields)
unfolding pack unpack
unpack-pack [] bytes rest h = let e : [] ≡ bytes = cc in (ap length (sym e), refl)
unpack-pack ((w, v) ∷ fields) bytes rest h =
    let (u, fits, h') = >>=-eq-ok (require (ltb v (256 ^ w)) struct_error) _ h in
    let (tail, packed, done) = >>=-eq-ok (pack fields) _ h' in
    let (size, same) = unpack-pack fields tail rest packed in
    let e : to_bytes_big w v ++ tail ≡ bytes = cc in
    let small : v < 256 ^ w = ltb→lt v (256 ^ w) (require-true _ _ fits) in
    subst
      (λ b.
        (length b ≡ w + total (widths fields))
        × (from_bytes_big (take w (b ++ rest)) ∷ unpack (widths fields) (drop w (b ++ rest))
            ≡ v ∷ values fields))
      e
      (
        omega (arith, length-append (to_bytes_big w v) tail, length-to_bytes_big w v, size),
        rw (append_assoc (to_bytes_big w v) tail rest) (
            rw (take-to_bytes_big, drop-to_bytes_big)
              (cc (from_bytes_big-to_bytes_big w v small, same))),
      )

pack_cons :
    (w v : ℕ) (xs : List (ℕ × ℕ)) (a : Bytes) {u : Unit {0}}
    → require (ltb v (256 ^ w)) struct_error ≡ ok u
    → pack xs ≡ ok a
    → pack ((w, v) ∷ xs) ≡ ok (to_bytes_big w v ++ a)
unfolding pack
pack_cons w v xs a fits first = rw (fits, first) refl

-- The first field of what was packed.
pub pack-first :
    (w v : ℕ) (xs : List (ℕ × ℕ)) (bytes : Bytes)
    → pack ((w, v) ∷ xs) ≡ ok bytes
    → (rest : Bytes) × (pack xs ≡ ok rest) × (bytes ≡ to_bytes_big w v ++ rest)
unfolding pack
pack-first w v xs bytes h =
    let (u, fits, h') = >>=-eq-ok (require (ltb v (256 ^ w)) struct_error) _ h in
    let (rest, packed, done) = >>=-eq-ok (pack xs) _ h' in (rest, packed, cc)

-- A format in two parts.
pub pack-append :
    (xs ys : List (ℕ × ℕ)) (bytes : Bytes)
    → pack (xs ++ ys) ≡ ok bytes
    → (a : Bytes) × (b : Bytes) × (pack xs ≡ ok a) × (pack ys ≡ ok b) × (bytes ≡ a ++ b)
unfolding pack
pack-append [] ys bytes h = ([], bytes, refl, h, refl)
pack-append ((w, v) ∷ xs) ys bytes h =
    let (u, fits, h') = >>=-eq-ok (require (ltb v (256 ^ w)) struct_error) _ h in
    let (tail, packed, done) = >>=-eq-ok (pack (xs ++ ys)) _ h' in
    let (a, b, first, second, e) = pack-append xs ys tail packed in
    let same : to_bytes_big w v ++ tail ≡ bytes = cc in
    (
      to_bytes_big w v ++ a,
      b,
      pack_cons w v xs a fits first,
      second,
      sym same ∙ ap (λ t. to_bytes_big w v ++ t) e ∙ sym (append_assoc (to_bytes_big w v) a b),
    )

pub pack-IsByte : (xs : List (ℕ × ℕ)) (bytes : Bytes) → pack xs ≡ ok bytes → All IsByte bytes
unfolding pack
pack-IsByte [] bytes h = let same : [] ≡ bytes = cc in subst (All IsByte) same tt
pack-IsByte ((w, v) ∷ xs) bytes h =
    let (u, fits, h') = >>=-eq-ok (require (ltb v (256 ^ w)) struct_error) _ h in
    let (tail, packed, done) = >>=-eq-ok (pack xs) _ h' in
    let same : to_bytes_big w v ++ tail ≡ bytes = cc in
    subst (All IsByte) same (
      All-append IsByte (to_bytes_big w v) tail (to_bytes_big-IsByte w v)
        (pack-IsByte xs tail packed))
