-- ===== src/Pcap/Frames/Words.antt =====
-- minarx/pcap.py: setting the word of a checksum in a packet.
use hndl_dev.Prelude.{
  ℕ, suc, ◌+◌, ◌*◌, ◌<◌, ◌≡◌, refl, sym, ap, ◌∙◌, [], ◌∷◌, ◌++◌, append-nil, arith, true, length,
  take, drop, take-length-append, drop-length-append, drop-drop, ltb, ◌^◌, All,
}
use hndl_dev.Prelude.Endian.{IsByte, to_bytes_big}
use hndl_dev.Result.{ok, require, struct_error, >>=-eq-ok}
use hndl_dev.Binary.{Bytes}
use hndl_dev.Pcap.Frames.Receiver.{ones_sum, SumsToOnes}
use hndl_dev.Struct.{pack}
use hndl_dev.Pcap.Checksum.{checksum, checksum-whole, words_sum, words_sum-completed}
use hndl_dev.Pcap.Frames.{with_word}

-- The code's sum is that of the receiver.
words_sum-ones_sum : (bytes : Bytes) → words_sum bytes ≡ ones_sum true bytes
unfolding words_sum ones_sum
words_sum-ones_sum [] = refl
words_sum-ones_sum (b ∷ []) = omega arith
words_sum-ones_sum (b ∷ c ∷ bytes) = omega (arith, words_sum-ones_sum bytes)

pub word_form :
    (value : ℕ) (word : Bytes) → pack ((2, value) ∷ []) ≡ ok word → word ≡ to_bytes_big 2 value
unfolding pack
word_form value word h =
    let (u, fits, h1) = >>=-eq-ok (require (ltb value (256 ^ 2)) struct_error) _ h in
    let same : to_bytes_big 2 value ++ [] ≡ word = cc in
    sym same ∙ append-nil (to_bytes_big 2 value)

-- Setting a word behind `first`.
with_word-form :
    (first rest result : Bytes) (k value : ℕ)
    → length first ≡ k
    → with_word k value (first ++ (0 ∷ 0 ∷ rest)) ≡ ok result
    → result ≡ first ++ (to_bytes_big 2 value ++ rest)
unfolding with_word
with_word-form first rest result k value size h =
    let packet = first ++ (0 ∷ 0 ∷ rest) in
    let (word, packed, done) = >>=-eq-ok (pack ((2, value) ∷ [])) _ h in
    let same : take k packet ++ (word ++ drop (k + 2) packet) ≡ result = cc in
    sym same
    ∙ ap (λ w. take k packet ++ (w ++ drop (k + 2) packet)) (word_form value word packed)
    ∙ ap (λ t. t ++ (to_bytes_big 2 value ++ drop (k + 2) packet))
        (ap (λ n. take n packet) (sym size) ∙ take-length-append first (0 ∷ 0 ∷ rest))
    ∙ ap (λ t. first ++ (to_bytes_big 2 value ++ t)) behind
  where
    behind : drop (k + 2) (first ++ (0 ∷ 0 ∷ rest)) ≡ rest
    behind =
        sym (drop-drop 2 k (first ++ (0 ∷ 0 ∷ rest)))
        ∙ ap (λ n. drop 2 (drop n (first ++ (0 ∷ 0 ∷ rest)))) (sym size)
        ∙ ap (drop 2) (drop-length-append first (0 ∷ 0 ∷ rest))

pub two_zeros : (bytes : Bytes) → pack ((2, 0) ∷ []) ≡ ok bytes → bytes ≡ 0 ∷ 0 ∷ []
unfolding pack to_bytes_big
two_zeros bytes h = cc

-- A packet before and after its checksum is set.
pub completed_verifies :
    (before first rest result : Bytes) (j k value n : ℕ)
    → length before ≡ j + j
    → length first ≡ k + k
    → All IsByte before
    → All IsByte first
    → All IsByte rest
    → value < 65536
    → words_sum (before ++ (first ++ (0 ∷ 0 ∷ rest))) + value ≡ 65535 * suc n
    → with_word (k + k) value (first ++ (0 ∷ 0 ∷ rest)) ≡ ok result
    → (checksum (before ++ result) ≡ 0)
      × (result ≡ first ++ (to_bytes_big 2 value ++ rest))
      × SumsToOnes (before ++ result)
completed_verifies before first rest result j k value n hj hk hb hf hr small e set =
    let form = with_word-form first rest result (k + k) value hk set in
    (
      ap (λ p. checksum (before ++ p)) form
          ∙ checksum-whole before first rest j k value n hj hk hb hf hr small e,
      form,
      (
        n,
        sym (words_sum-ones_sum (before ++ result))
            ∙ ap (λ p. words_sum (before ++ p)) form
            ∙ words_sum-completed before first rest j k value n hj hk small e,
      ),
    )
