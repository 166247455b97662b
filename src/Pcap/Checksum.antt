-- ===== src/Pcap/Checksum.antt =====
-- minarx/pcap.py: `_checksum`, the Internet checksum of the headers.
use hndl_dev.Prelude.{
  ℕ, zero, suc, ◌+◌, ◌-◌, ◌*◌, ◌%◌, ◌<◌, ◌≤◌, ◌≡◌, ap, ◌∙◌, true, [], ◌∷◌, ◌++◌, arith, ◌==◌,
  if◌then◌else◌, ◌/◌, length, All, All-append, Bool-cases, inl, inr,
}
use hndl_dev.Prelude.Bits.{shr, low_bits}
use hndl_dev.Prelude.Endian.{IsByte, to_bytes_big, to_bytes_big-IsByte}
use hndl_dev.Binary.{Bytes}

-- `sum(struct.unpack(f">{len(data) // 2}H", data))`, after a zero byte for an odd length.
unfoldable pub words_sum : Bytes → ℕ
words_sum [] = 0
words_sum (b ∷ []) = b * 256
words_sum (b ∷ c ∷ bs) = b * 256 + c + words_sum bs

-- `while total >> 16`. A sum of `n` words needs at most `n` rounds.
unfoldable pub fold_carries : ℕ → ℕ → ℕ
fold_carries zero total = total
fold_carries (suc fuel) total =
    let rest = fold_carries fuel (low_bits total 16 + shr total 16) in
    if shr total 16 == 0 then total else rest

-- `(~total) & 0xFFFF`, where `total` has 16 bits at most.
unfoldable pub checksum : Bytes → ℕ
checksum bytes = 65535 - fold_carries (length bytes) (words_sum bytes)

-- What is left of a sum when its carries are folded in.
record Folded (total folded : ℕ) : Type 0 where
  rounds : ℕ
  same_residue : total ≡ folded + 65535 * rounds
  word : folded < 65536
  positive : 1 ≤ total → 1 ≤ folded

fold_carries-Folded :
    (fuel total : ℕ) → total ≤ 65535 * suc fuel → Folded total (fold_carries fuel total)
unfolding fold_carries
fold_carries-Folded zero total h = record {
  rounds = 0;
  same_residue = omega arith;
  word = omega arith;
  positive = λ p. p;
}
fold_carries-Folded (suc fuel) total h = elim (Bool-cases (shr total 16 == 0)) [
  | inl small ↦ rw small (record {
    rounds = 0;
    same_residue = omega arith;
    word = ground (arith, small);
    positive = λ p. p;
  })
  | inr large ↦
      let q = total / 65536 in
      let some_carry : 1 ≤ total / 65536 = ground (arith, large) in
      let f =
        fold_carries-Folded fuel (total % 65536 + total / 65536) (omega (arith, h, some_carry)) in
      rw large (record {
        rounds = f.rounds + total / 65536;
        same_residue = omega (arith, f.same_residue);
        word = f.word;
        positive = λ p. f.positive (omega (arith, some_carry));
      })
]

words_sum_bound : (bytes : Bytes) → All IsByte bytes → words_sum bytes ≤ 65535 * suc (length bytes)
unfolding words_sum
words_sum_bound [] h = omega arith
words_sum_bound (b ∷ []) (hb, h) = omega arith
words_sum_bound (b ∷ c ∷ bs) (hb, (hc, h)) = omega (arith, words_sum_bound bs h)

-- The even prefix of a packet.
words_sum-append :
    (k : ℕ) (xs ys : Bytes) → length xs ≡ k + k → words_sum (xs ++ ys) ≡ words_sum xs + words_sum ys
unfolding words_sum
words_sum-append zero [] ys h = omega arith
words_sum-append (suc k) [] ys h = omega arith
words_sum-append zero (b ∷ xs) ys h = absurd (omega arith)
words_sum-append (suc k) (b ∷ []) ys h = absurd (omega arith)
words_sum-append (suc k) (b ∷ c ∷ xs) ys h = omega (arith, words_sum-append k xs ys (omega arith))

-- `_checksum(...) or 0xFFFF`
abbrev pub or_ones : ℕ → ℕ
or_ones value = if value == 0 then 65535 else value

zero_checksum : (bytes : Bytes) → (checksum bytes == 0) ≡ true → checksum bytes ≡ 0
zero_checksum bytes h = ground (arith, h)

pub checksum_bound : (bytes : Bytes) → checksum bytes < 65536
unfolding checksum
checksum_bound bytes = omega arith

-- A sum that a nonzero multiple of 65535 is verifies.
verified :
    (bytes : Bytes) (n : ℕ)
    → All IsByte bytes
    → words_sum bytes ≡ 65535 * suc n
    → checksum bytes ≡ 0
unfolding checksum
verified bytes n h e =
    let f = fold_carries-Folded (length bytes) (words_sum bytes) (words_sum_bound bytes h) in
    omega (arith, f.same_residue, f.word, f.positive (omega (arith, e)), e)

-- The checksum completes its sum to a multiple of 65535, also where zero is sent as 65535.
pub checksum_completes :
    (bytes : Bytes)
    → All IsByte bytes
    → (n : ℕ) × (words_sum bytes + checksum bytes ≡ 65535 * suc n)
unfolding checksum
checksum_completes bytes h =
    let f = fold_carries-Folded (length bytes) (words_sum bytes) (words_sum_bound bytes h) in
    (f.rounds, omega (arith, f.same_residue, f.word))

pub or_ones_completes :
    (bytes : Bytes)
    → All IsByte bytes
    → (n : ℕ) × (words_sum bytes + or_ones (checksum bytes) ≡ 65535 * suc n)
or_ones_completes bytes h =
    let (n, e) = checksum_completes bytes h in
    elim (Bool-cases (checksum bytes == 0)) [
      | inl none_left ↦ (suc n, rw none_left (omega (arith, e, zero_checksum bytes none_left)))
      | inr some_left ↦ (n, rw some_left e)
    ]

-- A packet of bytes with a word that is zero until the checksum is known.
module _ (before first rest : Bytes) where
  abbrev pub whole : Bytes → Bytes
  whole word = before ++ (first ++ (word ++ rest))

  words_sum-whole :
      (j k a b : ℕ)
      → length before ≡ j + j
      → length first ≡ k + k
      → words_sum (whole (a ∷ b ∷ []))
        ≡ words_sum before + (words_sum first + (a * 256 + b + words_sum rest))
  unfolding words_sum
  words_sum-whole j k a b hj hk =
      words_sum-append j before (first ++ (a ∷ b ∷ rest)) hj
      ∙ ap (λ n. words_sum before + n) (words_sum-append k first (a ∷ b ∷ rest) hk)

  -- A word that completes the sum.
  pub words_sum-completed :
      (j k value n : ℕ)
      → length before ≡ j + j
      → length first ≡ k + k
      → value < 65536
      → words_sum (whole (0 ∷ 0 ∷ [])) + value ≡ 65535 * suc n
      → words_sum (whole (to_bytes_big 2 value)) ≡ 65535 * suc n
  unfolding to_bytes_big
  words_sum-completed j k value n hj hk small e = omega (
    arith,
    words_sum-whole j k (value / 256 % 256) (value % 256) hj hk,
    words_sum-whole j k 0 0 hj hk,
    e,
  )

  -- With it, the packet verifies.
  pub checksum-whole :
      (j k value n : ℕ)
      → length before ≡ j + j
      → length first ≡ k + k
      → All IsByte before
      → All IsByte first
      → All IsByte rest
      → value < 65536
      → words_sum (whole (0 ∷ 0 ∷ [])) + value ≡ 65535 * suc n
      → checksum (whole (to_bytes_big 2 value)) ≡ 0
  checksum-whole j k value n hj hk hb hf hr small e =
      verified (whole (to_bytes_big 2 value)) n
        (All-append IsByte before _ hb (
          All-append IsByte first _ hf
            (All-append IsByte (to_bytes_big 2 value) rest (to_bytes_big-IsByte 2 value) hr)))
        (words_sum-completed j k value n hj hk small e)
