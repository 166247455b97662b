-- ===== src/Protocols/Tls/Unique.antt =====
-- minarx/protocols/tls12.py and tls13.py: a trace does not fit two profiles of the registry.
use text.Mathlib.Text.{◌==◌ as str_eq}
use text.Mathlib.TextEquality.{eq_iff}
use hndl_dev.Prelude.{
  ℕ, ◌≡◌, refl, sym, ap, ◌∙◌, Bool, true, false, not, ◌&&◌, ◌||◌, Option, none, some, List, [], ◌∷◌,
  arith, if◌then◌else◌, String, Bool-cases, inl, inr,
}
use mathlib.Core.Path.{subst}
use hndl_dev.Result.{
  Error, value_error, cipher_suite_mismatch, resumption_mismatch, early_data_mismatch,
  no_x25519_share, unexpected_key_share, ok, refuse_if, refuse-then, >>=-eq-ok,
}
use hndl_dev.Pcap.{Chunk}
use hndl_dev.Profiles.Registry.{ProtocolProfile, profiles}
use hndl_dev.Profiles.{find_profile, profile_named}
use hndl_dev.Hello.Parameters.{HelloParameters, tls_hello_parameters}
use hndl_dev.Protocols.Tls.{
  same_number, same_flag, is_flag, suite_of, ems_of, share_of, no_number, resumption_of,
  expected_resumption, expected_early_data, expected_keyshare, check_tls12, validate_tls12,
  check_tls13, validate_tls13,
}

same_number-eq : (a b : Option ℕ) → same_number a b ≡ true → a ≡ b
same_number-eq none none h = refl
same_number-eq none (some b) h = cc
same_number-eq (some a) none h = cc
same_number-eq (some a) (some b) h = ap some (ground arith)

is_flag-eq : (a : Bool) (o : Option Bool) → is_flag a o ≡ true → o ≡ some a
is_flag-eq a none h = cc
is_flag-eq true (some b) h = ap some h
is_flag-eq false (some true) h = cc
is_flag-eq false (some false) h = refl

accepted : (b : Bool) → not b ≡ false → b ≡ true
accepted true h = refl
accepted false h = cc

not_refused : (b : Bool) (e : Error) → refuse_if b e ≡ ok tt → b ≡ false
not_refused true e h = cc
not_refused false e h = refl

-- A test that every profile of the registry passes.
passed_by : (ProtocolProfile → Bool) → List ProtocolProfile → Bool
passed_by test [] = true
passed_by test (p ∷ ps) = test p && passed_by test ps

passed_by-find_profile :
    (test : ProtocolProfile → Bool) (name : String) (ps : List ProtocolProfile)
    (p : ProtocolProfile)
    → passed_by test ps ≡ true
    → find_profile name ps ≡ some p
    → test p ≡ true
unfolding passed_by find_profile
passed_by-find_profile test name [] p t h = cc
passed_by-find_profile test name (q ∷ ps) p t h = elim (Bool-cases (str_eq q.name name)) [
  | inl same ↦
      let h' : some q ≡ some p = rw same at h in
      let e : q ≡ p = cc in subst (λ x. test x ≡ true) e (ground (arith, t))
  | inr other ↦ passed_by-find_profile test name ps p (ground (arith, t)) (rw other at h)
]

-- The name of a TLS 1.2 profile by what the trace shows.
name_tls12 : Option ℕ → Option Bool → String
name_tls12 suite (some true) =
    if same_number suite (some 0x002f)
    then "tls12-rsa-aes128-sha-ems"
    else "tls12-rsa-aes128gcm-ems"
name_tls12 suite (some false) = "tls12-rsa-aes128-sha-noems"
name_tls12 suite none = ""

told_tls12 : ProtocolProfile → Bool
told_tls12 p =
    not (str_eq p.protocol "tls12")
    || str_eq (name_tls12 p.cipher_suite_id p.extended_master_secret) p.name

each_told_tls12 : passed_by told_tls12 profiles ≡ true
unfolding passed_by told_tls12 name_tls12 profiles
each_told_tls12 = refl

told_tls12-eq :
    (name : String) (p : ProtocolProfile)
    → profile_named name ≡ some p
    → p.protocol ≡ "tls12"
    → name_tls12 p.cipher_suite_id p.extended_master_secret ≡ p.name
unfolding told_tls12
told_tls12-eq name p found h =
    let t = passed_by-find_profile told_tls12 name profiles p each_told_tls12 found in
    ground (
      arith,
      t,
      eq_iff p.protocol "tls12",
      eq_iff (name_tls12 p.cipher_suite_id p.extended_master_secret) p.name,
    )

check_tls12-eq :
    (p : ProtocolProfile) (parameters : HelloParameters)
    → check_tls12 p parameters ≡ ok tt
    → (p.cipher_suite_id ≡ suite_of parameters.server)
      × (p.extended_master_secret ≡ some (ems_of parameters.server))
unfolding check_tls12
check_tls12-eq p parameters h =
    let (suite, h1) =
      refuse-then (not (same_number (suite_of parameters.server) p.cipher_suite_id)) _ _ h in
    (
      sym (same_number-eq _ _ (accepted _ suite)),
      is_flag-eq _ _ (
          accepted _
            (not_refused (not (is_flag (ems_of parameters.server) p.extended_master_secret)) _ h1)),
    )

-- A trace that is accepted under two TLS 1.2 profiles of the registry has been accepted under one:
-- they have the same name.
pub validate_tls12_unique :
    (first second : String) (p q : ProtocolProfile) (chunks : List Chunk) (i j : ℕ)
    → profile_named first ≡ some p
    → profile_named second ≡ some q
    → p.protocol ≡ "tls12"
    → q.protocol ≡ "tls12"
    → validate_tls12 p chunks i ≡ ok tt
    → validate_tls12 q chunks j ≡ ok tt
    → p.name ≡ q.name
unfolding validate_tls12
validate_tls12_unique first second p q chunks i j fp fq hp hq vp vq =
    let (a, read, cp) = >>=-eq-ok (tls_hello_parameters chunks) _ vp in
    let (b, again, cq) = >>=-eq-ok (tls_hello_parameters chunks) _ vq in
    let some_parameters : ok a ≡ ok b = sym read ∙ again in
    let same : a ≡ b = cc in
    let (suite_p, ems_p) = check_tls12-eq p a cp in
    let (suite_q, ems_q) =
      check_tls12-eq q a (subst (λ x. check_tls12 q x ≡ ok tt) (sym same) cq) in
    sym (told_tls12-eq first p fp hp)
    ∙ ap (λ s. name_tls12 s p.extended_master_secret) (suite_p ∙ sym suite_q)
    ∙ ap (name_tls12 q.cipher_suite_id) (ems_p ∙ sym ems_q)
    ∙ told_tls12-eq second q fq hq

-- The last file of a mode, and the name of a TLS 1.3 profile by what its trace shows there.
abbrev pub last_index : String → ℕ
last_index mode = if str_eq mode "0rtt" then 1 else 0

name_tls13 : String → Option ℕ → Bool → String
name_tls13 mode suite share =
    if str_eq mode "1rtt"
    then (if same_number suite (some 0x1301)
        then "tls13-full-aes128gcm"
        else if same_number suite (some 0x1302)
        then "tls13-full-aes256gcm"
        else "tls13-full-chacha20")
    else if str_eq mode "0rtt"
    then (if same_number suite (some 0x1301)
        then "tls13-ticket-0rtt-aes128gcm"
        else if share
        then "tls13-ticket-0rtt-aes256gcm"
        else "tls13-ticket-0rtt-psk-only-aes256gcm")
    else if same_number suite (some 0x1302)
    then "tls13-external-psk-aes256gcm"
    else "tls13-external-psk-chacha20"

told_tls13 : ProtocolProfile → Bool
told_tls13 p =
    not (str_eq p.protocol "tls13")
    || str_eq (name_tls13 p.mode p.cipher_suite_id (expected_keyshare p p.mode (last_index p.mode)))
        p.name

each_told_tls13 : passed_by told_tls13 profiles ≡ true
unfolding passed_by told_tls13 name_tls13 profiles
each_told_tls13 = refl

told_tls13-eq :
    (name : String) (p : ProtocolProfile)
    → profile_named name ≡ some p
    → p.protocol ≡ "tls13"
    → name_tls13 p.mode p.cipher_suite_id (expected_keyshare p p.mode (last_index p.mode)) ≡ p.name
unfolding told_tls13
told_tls13-eq name p found h =
    let t = passed_by-find_profile told_tls13 name profiles p each_told_tls13 found in
    let told =
      name_tls13 p.mode p.cipher_suite_id (expected_keyshare p p.mode (last_index p.mode)) in
    (eq_iff told p.name).0 (either _ _ t (ap not ((eq_iff p.protocol "tls13").1 h)))
  where
    either : (a b : Bool) → (a || b) ≡ true → a ≡ false → b ≡ true
    either true b h k = cc
    either false b h k = h

share_expected :
    (expected : Bool) (o : Option ℕ)
    → (expected && not (same_number o (some 0x001d))) ≡ false
    → (not expected && not (no_number o)) ≡ false
    → expected ≡ not (no_number o)
share_expected true none h k = cc
share_expected true (some n) h k = refl
share_expected false none h k = refl
share_expected false (some n) h k = cc

check_tls13-eq :
    (p : ProtocolProfile) (mode : String) (index : ℕ) (parameters : HelloParameters)
    → check_tls13 p mode index parameters ≡ ok tt
    → (p.cipher_suite_id ≡ suite_of parameters.server)
      × (expected_keyshare p mode index ≡ not (no_number (share_of parameters.server)))
unfolding check_tls13
check_tls13-eq p mode index parameters h =
    let (suite, h1) =
      refuse-then (not (same_number (suite_of parameters.server) p.cipher_suite_id))
        (value_error cipher_suite_mismatch) _ h in
    let (resumption, h2) =
      refuse-then
        (not (same_flag (resumption_of parameters.server) (expected_resumption p mode index)))
        (value_error resumption_mismatch) _ h1 in
    let (early, h3) =
      refuse-then (not (same_flag parameters.early_data_offered (expected_early_data p mode index)))
        (value_error early_data_mismatch) _ h2 in
    let (share, h4) =
      refuse-then
        (expected_keyshare p mode index
          && not (same_number (share_of parameters.server) (some 0x001d)))
        (value_error no_x25519_share) _ h3 in
    (
      sym (same_number-eq _ _ (accepted _ suite)),
      share_expected (expected_keyshare p mode index) (share_of parameters.server) share (
          not_refused
            (not (expected_keyshare p mode index) && not (no_number (share_of parameters.server)))
            (value_error unexpected_key_share) h4),
    )

-- A trace whose last file is accepted under two TLS 1.3 profiles of one mode has been accepted under
-- one: they have the same name. The last file is the second of the mode "0rtt", and else the first.
pub validate_tls13_unique :
    (first second mode : String) (p q : ProtocolProfile) (chunks : List Chunk)
    → profile_named first ≡ some p
    → profile_named second ≡ some q
    → p.protocol ≡ "tls13"
    → q.protocol ≡ "tls13"
    → p.mode ≡ mode
    → q.mode ≡ mode
    → validate_tls13 p mode chunks (last_index mode) ≡ ok tt
    → validate_tls13 q mode chunks (last_index mode) ≡ ok tt
    → p.name ≡ q.name
unfolding validate_tls13
validate_tls13_unique first second mode p q chunks fp fq hp hq mp mq vp vq =
    let (a, read, cp) = >>=-eq-ok (tls_hello_parameters chunks) _ vp in
    let (b, again, cq) = >>=-eq-ok (tls_hello_parameters chunks) _ vq in
    let some_parameters : ok a ≡ ok b = sym read ∙ again in
    let same : a ≡ b = cc in
    let (suite_p, share_p) = check_tls13-eq p mode (last_index mode) a cp in
    let (suite_q, share_q) =
      check_tls13-eq q mode (last_index mode) a
        (subst (λ x. check_tls13 q mode (last_index mode) x ≡ ok tt) (sym same) cq) in
    sym (told_tls13-eq first p fp hp)
    ∙ ap (λ m. name_tls13 m p.cipher_suite_id (expected_keyshare p m (last_index m))) mp
    ∙ ap (λ s. name_tls13 mode s (expected_keyshare p mode (last_index mode)))
        (suite_p ∙ sym suite_q)
    ∙ ap (name_tls13 mode q.cipher_suite_id) (share_p ∙ sym share_q)
    ∙ ap (λ m. name_tls13 m q.cipher_suite_id (expected_keyshare q m (last_index m))) (sym mq)
    ∙ told_tls13-eq second q fq hq
