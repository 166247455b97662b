-- ===== src/Profiles/Identifiers.antt =====
-- The identifiers of the archive format name the profiles one to one.
use text.Mathlib.Text.{◌==◌ as str_eq}
use text.Mathlib.TextEquality.{eq_iff}
use mathlib.Core.Path.{subst}
use native.Mathlib.Decide.{dec_lt}
use hndl_dev.Prelude.{
  ℕ, zero, suc, ◌+◌, ◌≤◌, String, ◌≡◌, refl, ap, ◌∙◌, Bool, true, false, none, some, List, [], ◌∷◌,
  arith, ◌==◌, get_elem?, holds_below, holds_below_at, length, All, Bool-cases, inl, inr,
}
use hndl_dev.Profiles.Registry.{ProtocolProfile, profiles}
use hndl_dev.Profiles.{
  profile_names, find_profile, profile_named, index_from, profile_id, profile_by_id,
}

pub find_profile-name :
    (name : String) (ps : List ProtocolProfile) (p : ProtocolProfile)
    → find_profile name ps ≡ some p
    → p.name ≡ name
unfolding find_profile
find_profile-name name [] p h = cc
find_profile-name name (q ∷ ps) p h =
    ground (arith, eq_iff q.name name, find_profile-name name ps p)

-- An index is that of its name.
index_from-get_elem? :
    (name : String) (ns : List String) (k i : ℕ)
    → index_from k name ns ≡ some i
    → (j : ℕ) × (i ≡ k + j) × (get_elem? ns j ≡ some name)
unfolding index_from
index_from-get_elem? name [] k i h = cc
index_from-get_elem? name (n ∷ ns) k i h = elim (Bool-cases (str_eq n name)) [
  | inl same ↦
      let h' : some k ≡ some i = rw same at h in
      let e : k ≡ i = cc in (0, omega (arith, e), ap some ((eq_iff n name).0 same))
  | inr other ↦
      let (j, e, at) = index_from-get_elem? name ns (k + 1) i (rw other at h) in
      (suc j, omega (arith, e), at)
]

-- Every name with an identifier is registered.
registered : String → Bool
registered name = elim (profile_named name) [ none ↦ false | some p ↦ true ]

each_registered : All (λ n. registered n ≡ true) profile_names
unfolding registered profile_names profiles find_profile
each_registered = (
  refl,
  (
    refl,
    (
      refl,
      (
        refl,
        (
          refl,
          (
            refl,
            (refl, (refl, (refl, (refl, (refl, (refl, (refl, (refl, (refl, (refl, tt)))))))))),
          ),
        ),
      ),
    ),
  ),
)

All-get_elem? :
    (P : String → Type 0) (ns : List String) (j : ℕ) (n : String)
    → All P ns
    → get_elem? ns j ≡ some n
    → P n
All-get_elem? P [] j n h e = cc
All-get_elem? P (m ∷ ns) zero n (h, hs) e = let same : m ≡ n = cc in subst P same h
All-get_elem? P (m ∷ ns) (suc j) n (h, hs) e = All-get_elem? P ns j n hs e

registered-named :
    (name : String) → registered name ≡ true → (p : ProtocolProfile) × (profile_named name ≡ some p)
unfolding registered
registered-named name h = ground arith

by_index :
    (j : ℕ) (name : String)
    → get_elem? profile_names j ≡ some name
    → profile_by_id (1 + j) ≡ profile_named name
unfolding profile_by_id
by_index j name h = let e : 1 + j ≡ suc j = omega arith in rw e (rw (h, profile_by_id))

-- The profile that a reader finds for the identifier of a name is the one registered under it.
pub profile_named-profile_id :
    (name : String) (i : ℕ)
    → profile_id name ≡ some i
    → (p : ProtocolProfile) × (profile_by_id i ≡ some p) × (profile_named name ≡ some p)
profile_named-profile_id name i h =
    let (j, e, at) = index_from-get_elem? name profile_names 1 i h in
    let (p, found) =
      registered-named name
        (All-get_elem? (λ n. registered n ≡ true) profile_names j name each_registered at) in
    (p, ap profile_by_id e ∙ by_index j name at ∙ found, found)

-- The identifier that a writer stores for a name is read back as a profile of that name.
pub profile_by_id-profile_id :
    (name : String) (i : ℕ)
    → profile_id name ≡ some i
    → (p : ProtocolProfile) × (profile_by_id i ≡ some p) × (p.name ≡ name)
profile_by_id-profile_id name i h =
    let (p, known, found) = profile_named-profile_id name i h in
    (p, known, find_profile-name name profiles p found)

agrees : ℕ → Bool
agrees i = elim (profile_by_id i) [
  | none ↦ true
  | some p ↦ elim (profile_id p.name) [ none ↦ false | some j ↦ j == i ]
]

identifier_table : holds_below 17 agrees ≡ true
unfolding holds_below agrees profile_by_id profile_names profiles find_profile index_from
identifier_table = refl

get_elem?-beyond : (ns : List String) (j : ℕ) → length ns ≤ j → get_elem? ns j ≡ none
get_elem?-beyond [] j h = refl
get_elem?-beyond (n ∷ ns) zero h = absurd (omega arith)
get_elem?-beyond (n ∷ ns) (suc j) h = get_elem?-beyond ns j (omega arith)

beyond_table : (j : ℕ) → 16 ≤ j → profile_by_id (suc j) ≡ none
unfolding profile_by_id
beyond_table j h = rw (get_elem?-beyond profile_names j (unfold profile_names in h), profile_by_id)

agrees-eq :
    (i : ℕ) (p : ProtocolProfile)
    → agrees i ≡ true
    → profile_by_id i ≡ some p
    → profile_id p.name ≡ some i
unfolding agrees
agrees-eq i p h e = ground arith

-- Different identifiers are of different names: a profile that a reader finds has the identifier
-- under which it was found.
pub profile_id-profile_by_id :
    (i : ℕ) (p : ProtocolProfile) → profile_by_id i ≡ some p → profile_id p.name ≡ some i
profile_id-profile_by_id zero p h = unfold profile_by_id in cc
profile_id-profile_by_id (suc j) p h = elim (dec_lt j 16) [
  | yes small ↦
      agrees-eq (suc j) p (holds_below_at 17 agrees (suc j) identifier_table (omega arith)) h
  | no large ↦ let over = beyond_table j (omega arith) in cc
]
