-- ===== src/Pcap/Extract/Slices.antt =====
-- minarx/pcap.py: the chunks that `extract_tcp_chunks` returns against what each side sent.
use hndl_dev.Prelude.{
  ℕ, zero, suc, ◌+◌, ◌-◌, ◌≡◌, refl, sym, ap, ◌∙◌, true, false, List, [], ◌∷◌, ◌++◌, append_assoc,
  append-nil, arith, ◌==◌, if◌then◌else◌, length, take, drop, length-append, length-drop, drop-drop,
  Bool-cases, inl, inr,
}
use hndl_dev.Binary.{Bytes}
use hndl_dev.Pcap.{Chunk, stream}
use hndl_dev.Pcap.Extract.{add_chunk}

take_nil : (n : ℕ) → ◌≡◌ {A = Bytes} (take n []) []
take_nil zero = refl
take_nil (suc n) = refl

take_eq : (m n : ℕ) (xs : Bytes) → m ≡ n → take m xs ≡ take n xs
take_eq m n xs h = ap (λ k. take k xs) h

drop_nil : (n : ℕ) → ◌≡◌ {A = Bytes} (drop n []) []
drop_nil zero = refl
drop_nil (suc n) = refl

take-add : (m n : ℕ) (xs : Bytes) → take (m + n) xs ≡ take m xs ++ take n (drop m xs)
take-add zero n xs = take_eq (0 + n) n xs (omega arith)
take-add (suc m) n [] = take_nil (suc m + n) ∙ sym (take_nil n)
take-add (suc m) n (x ∷ xs) =
    take_eq (suc m + n) (suc (m + n)) (x ∷ xs) (omega arith) ∙ ap (λ t. x ∷ t) (take-add m n xs)

drop-take : (k n : ℕ) (xs : Bytes) → drop k (take n xs) ≡ take (n - k) (drop k xs)
drop-take zero n xs = take_eq n (n - 0) xs (omega arith)
drop-take (suc k) zero xs = drop_nil (suc k) ∙ take_eq 0 (0 - suc k) (drop (suc k) xs) (omega arith)
drop-take (suc k) (suc n) [] = sym (take_nil (suc n - suc k))
drop-take (suc k) (suc n) (x ∷ xs) =
    drop-take k n xs ∙ take_eq (n - k) (suc n - suc k) (drop k xs) (omega arith)

-- The bytes are those that stand in `sent` from `first` on.
pub record SliceAt (sent : Bytes) (first : ℕ) (bytes : Bytes) : Type 0 where
  pub slice : bytes ≡ take (length bytes) (drop first sent)

-- A later part of a slice.
pub drop-SliceAt :
    (sent bytes : Bytes) (first k : ℕ)
    → SliceAt sent first bytes
    → SliceAt sent (first + k) (drop k bytes)
drop-SliceAt sent bytes first k s = record {
  slice =
      ap (drop k) s.slice
      ∙ drop-take k (length bytes) (drop first sent)
      ∙ ap (λ n. take n (drop k (drop first sent))) (sym (length-drop k bytes))
      ∙ ap (take (length (drop k bytes))) (drop-drop k first sent);
}

pub append-SliceAt :
    (sent xs ys : Bytes) (first : ℕ)
    → SliceAt sent first xs
    → SliceAt sent (first + length xs) ys
    → SliceAt sent first (xs ++ ys)
append-SliceAt sent xs ys first s t = record {
  slice =
      ap (λ z. z ++ ys) s.slice
      ∙ ap (λ z. take (length xs) (drop first sent) ++ z)
          (t.slice ∙ ap (take (length ys)) (sym (drop-drop (length xs) first sent)))
      ∙ sym (take-add (length xs) (length ys) (drop first sent))
      ∙ ap (λ n. take n (drop first sent)) (sym (length-append xs ys));
}

-- The part of a chunk that is of one side.
abbrev pub side : ℕ → ℕ → Bytes → Bytes
side d direction novel = if direction == d then novel else []

pub side-append :
    (d direction : ℕ) (xs ys : Bytes)
    → side d direction (xs ++ ys) ≡ side d direction xs ++ side d direction ys
side-append d direction xs ys =
    elim (direction == d)
      as (λ b. (if b then xs ++ ys else []) ≡ (if b then xs else []) ++ (if b then ys else [])) [
        | true ↦ refl
        | false ↦ refl
      ]

pub stream_cons :
    (d : ℕ) (c : Chunk) (cs : List Chunk)
    → stream d (c ∷ cs) ≡ side d c.direction c.contents ++ stream d cs
unfolding stream
stream_cons d c cs = ground arith

stream_one :
    (d direction : ℕ) (xs : Bytes)
    → stream d (record { direction = direction; contents = xs } ∷ []) ≡ side d direction xs
unfolding stream
stream_one d direction xs = ground (arith, append-nil xs)

merged :
    (d direction : ℕ) (novel : Bytes) (c : Chunk)
    → c.direction ≡ direction
    → stream d (record { direction = direction; contents = c.contents ++ novel } ∷ [])
      ≡ stream d (c ∷ []) ++ side d direction novel
merged d direction novel c same =
    stream_one d direction (c.contents ++ novel)
    ∙ side-append d direction c.contents novel
    ∙ ap (λ k. side d k c.contents ++ side d direction novel) (sym same)
    ∙ ap (λ z. z ++ side d direction novel) (sym (stream_one d c.direction c.contents))

separate :
    (d direction : ℕ) (novel : Bytes) (c : Chunk)
    → stream d (c ∷ record { direction = direction; contents = novel } ∷ [])
      ≡ stream d (c ∷ []) ++ side d direction novel
separate d direction novel c =
    stream_cons d c _
    ∙ ap (λ z. side d c.direction c.contents ++ z) (stream_one d direction novel)
    ∙ ap (λ z. z ++ side d direction novel) (sym (stream_one d c.direction c.contents))

grown :
    (d direction : ℕ) (novel : Bytes) (c : Chunk)
    → stream d (add_chunk (c ∷ []) direction novel) ≡ stream d (c ∷ []) ++ side d direction novel
unfolding add_chunk
grown d direction novel c = elim (Bool-cases (c.direction == direction)) [
  | inl same ↦ rw same (merged d direction novel c (ground (arith, same)))
  | inr other ↦ rw other (separate d direction novel c)
]

pub stream-add_chunk :
    (cs : List Chunk) (d direction : ℕ) (novel : Bytes)
    → stream d (add_chunk cs direction novel) ≡ stream d cs ++ side d direction novel
unfolding add_chunk stream
stream-add_chunk [] d direction novel = stream_one d direction novel
stream-add_chunk (c ∷ []) d direction novel = grown d direction novel c
stream-add_chunk (c ∷ c' ∷ cs) d direction novel =
    stream_cons d c (add_chunk (c' ∷ cs) direction novel)
    ∙ ap (λ z. side d c.direction c.contents ++ z) (stream-add_chunk (c' ∷ cs) d direction novel)
    ∙ sym
        (append_assoc (side d c.direction c.contents) (stream d (c' ∷ cs)) (side d direction novel))
    ∙ ap (λ z. z ++ side d direction novel) (sym (stream_cons d c (c' ∷ cs)))
