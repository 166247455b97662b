-- ===== src/Exec.antt =====
-- Code that changes an object and may raise: a function from the state to a result and the state
-- after. No caller looks at the object after an exception, so an error carries no state.
use hndl_dev.Prelude.{Bool, true, false, ◌≡◌, refl, ap, ◌∙◌}
use hndl_dev.Result.{Error, Result, ok, err}

abbrev pub Exec {ℓ} : Type ℓ → Type ℓ → Type ℓ
Exec S A = S → Result (A × S)

module _ {ℓ} {S A : Type ℓ} where
  abbrev pub pure : A → Exec S A
  pure a s = ok (a, s)

  abbrev pub raise : Error → Exec S A
  raise e s = err e

abbrev pub guard {ℓ} : {S : Type ℓ} → Bool → Error → Exec S (Unit {ℓ})
guard true e s = ok (tt, s)
guard false e s = err e

module _ {ℓ} {S A B : Type ℓ} where
  abbrev pub continue : Result (A × S) → (A → Exec S B) → Result (B × S)
  continue (ok (a, s)) f = f a s
  continue (err e) f = err e

  infixl 5 ◌>>=◌
  abbrev pub ◌>>=◌ : Exec S A → (A → Exec S B) → Exec S B
  ◌>>=◌ m f s = continue (m s) f

infixl 5 ◌>>◌
abbrev pub ◌>>◌ {ℓ} : {S B : Type ℓ} → Exec S (Unit {ℓ}) → Exec S B → Exec S B
◌>>◌ m n = m >>= λ _. n

-- `m` returns `a` from `s`, in a state of which `Q` holds.
pub record Yields {ℓ κ} {S A : Type ℓ} (m : Exec S A) (s : S) (a : A) (Q : S → Type κ)
    : Type (ℓ ⊔ κ) where
  pub after : S
  pub runs : m s ≡ ok (a, after)
  pub holds : Q after

module _ {ℓ κ} {S A : Type ℓ} where
  pub Yields-pure : {Q : S → Type κ} {s : S} (a : A) → Q s → Yields (pure a) s a Q
  Yields-pure {s = s} a q = record { after = s; runs = refl; holds = q }

module _ {ℓ κ ν} {S A B : Type ℓ} where
  -- The rule for a `do` block.
  pub Yields-bind :
      {Q : S → Type κ} {R : S → Type ν} {s : S} {a : A} {b : B} {m : Exec S A} (f : A → Exec S B)
      → Yields m s a Q
      → ((t : S) → Q t → Yields (f a) t b R)
      → Yields (m >>= f) s b R
  Yields-bind f y k =
      let z = k y.after y.holds in
      record { after = z.after; runs = ap (λ r. continue r f) y.runs ∙ z.runs; holds = z.holds }

module _ {ℓ κ} {S A B : Type ℓ} where
  -- A block raises if what follows its first action raises from every state it may leave.
  pub raises-bind :
      {Q : S → Type κ} {s : S} {a : A} {m : Exec S A} {e : Error} (f : A → Exec S B)
      → Yields m s a Q
      → ((t : S) → Q t → f a t ≡ err e)
      → (m >>= f) s ≡ err e
  raises-bind f y k = ap (λ r. continue r f) y.runs ∙ k y.after y.holds

module _ {ℓ} {S A B : Type ℓ} where
  -- Inversion of a block that returned.
  pub bind-eq-ok :
      (m : Exec S A) (f : A → Exec S B) (s u : S) {b : B}
      → (m >>= f) s ≡ ok (b, u)
      → (a : A) × (t : S) × (m s ≡ ok (a, t)) × (f a t ≡ ok (b, u))
  bind-eq-ok m f s u {b = b} h = go (m s) refl h
    where
      go :
          (r : Result (A × S))
          → m s ≡ r
          → continue r f ≡ ok (b, u)
          → (a : A) × (t : S) × (m s ≡ ok (a, t)) × (f a t ≡ ok (b, u))
      go (ok (a, t)) e h' = (a, t, e, h')
      go (err x) e h' = cc
