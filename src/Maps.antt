-- ===== src/Maps.antt =====
-- Python dictionaries with number keys, as association lists.
use hndl_dev.Prelude.{
  ℕ, ◌≡◌, refl, Bool, true, false, Option, none, some, List, [], ◌∷◌, arith, ◌==◌, if◌then◌else◌,
}

module _ {ℓ} {V : Type ℓ} where
  -- `d.get(key)`
  abbrev pub find : ℕ → List (ℕ × V) → Option V
  find key [] = none
  find key ((k, v) ∷ d) = if k == key then some v else find key d

  -- `d[key] = value`; a key that is there keeps its place.
  abbrev pub insert : ℕ → V → List (ℕ × V) → List (ℕ × V)
  insert key value [] = (key, value) ∷ []
  insert key value ((k, v) ∷ d) = if k == key then (key, value) ∷ d else (k, v) ∷ insert key value d

  -- `key in d`
  abbrev pub has_key : ℕ → List (ℕ × V) → Bool
  has_key key d = elim (find key d) [ none ↦ false | some v ↦ true ]

  abbrev pub keys : List (ℕ × V) → List ℕ
  keys [] = []
  keys ((k, v) ∷ d) = k ∷ keys d

  pub find-insert :
      (key j : ℕ) (value : V) (d : List (ℕ × V))
      → find j (insert key value d) ≡ (if key == j then some value else find j d)
  find-insert key j value [] = refl
  find-insert key j value ((k, v) ∷ d) = ground (arith, find-insert key j value d)
