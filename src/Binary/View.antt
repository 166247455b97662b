-- ===== src/Binary/View.antt =====
-- What a `Reader` has still to deliver, and its methods in those terms.
use hndl_dev.Prelude.{
  ℕ, zero, suc, ◌+◌, ◌≤◌, ◌≡◌, refl, ap, some, [], ◌∷◌, ◌++◌, arith, length, drop, get_elem?,
  length-append, length-drop, drop-drop, take-length-append, drop-length-append, le→ltb,
}
use hndl_dev.Exec.{Yields}
use hndl_dev.Binary.{Bytes, Reader, open_reader, byte, take_bytes, finish}

-- `r` has delivered a prefix of its bytes, and `ys` is the rest.
pub record Unread (r : Reader) (ys : Bytes) : Type 0 where
  pub within : r.offset ≤ length r.contents
  pub rest : drop r.offset r.contents ≡ ys

pub Unread-open_reader : (bytes : Bytes) → Unread (open_reader bytes) bytes
Unread-open_reader bytes = record { within = omega arith; rest = refl }

module _ (r : Reader) (xs ys : Bytes) (u : Unread r (xs ++ ys)) where
  room : r.offset + length xs ≤ length r.contents
  room =
      omega
        (arith, u.within, ap length u.rest, length-drop r.offset r.contents, length-append xs ys)

  -- A method that moves past `xs` leaves `ys`.
  Unread-advance : Unread (record r { offset = r.offset + length xs }) ys
  Unread-advance = record { within = room; rest = cut }
    where
      cut : drop (r.offset + length xs) r.contents ≡ ys
      cut = rw (← drop-drop (length xs) r.offset r.contents) (rw u.rest (drop-length-append xs ys))

get_elem?-drop : (n : ℕ) (xs ys : Bytes) {b : ℕ} → drop n xs ≡ b ∷ ys → get_elem? xs n ≡ some b
get_elem?-drop zero [] ys h = cc
get_elem?-drop zero (x ∷ xs) ys h = cc
get_elem?-drop (suc n) [] ys h = cc
get_elem?-drop (suc n) (x ∷ xs) ys h = get_elem?-drop n xs ys h

pub byte-Yields :
    (r : Reader) (b : ℕ) (ys : Bytes) → Unread r (b ∷ ys) → Yields byte r b (λ t. Unread t ys)
unfolding byte
byte-Yields r b ys u = record {
  after = record r { offset = r.offset + 1 };
  runs = rw (get_elem?-drop r.offset r.contents ys u.rest, byte);
  holds = Unread-advance r (b ∷ []) ys u;
}

pub take_bytes-Yields :
    (r : Reader) (xs ys : Bytes)
    → Unread r (xs ++ ys)
    → Yields (take_bytes (length xs)) r xs (λ t. Unread t ys)
unfolding take_bytes
take_bytes-Yields r xs ys u = record {
  after = record r { offset = r.offset + length xs };
  runs = rw (le→ltb _ _ (room r xs ys u)) (rw u.rest (rw take-length-append));
  holds = Unread-advance r xs ys u;
}

pub finish-Yields : (r : Reader) → Unread r [] → Yields finish r tt (λ t. Unread t [])
unfolding finish
finish-Yields r u = record { after = r; runs = ground (arith, at_end); holds = u }
  where
    at_end : r.offset ≡ length r.contents
    at_end = omega (arith, u.within, ap length u.rest, length-drop r.offset r.contents)
