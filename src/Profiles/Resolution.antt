-- ===== src/Profiles/Resolution.antt =====
-- `resolve_profile` never returns a profile of another protocol or mode.
use text.Mathlib.Text.{◌==◌ as str_eq}
use text.Mathlib.TextEquality.{eq_iff}
use hndl_dev.Prelude.{String, ◌≡◌, refl, Bool, true, false, ◌&&◌, Option, none, some, arith}
use hndl_dev.Result.{ok, >>=-eq-ok}
use hndl_dev.Profiles.Registry.{ProtocolProfile, profiles}
use hndl_dev.Profiles.{
  find_profile, profile_named, default_profile, Selector, unspecified, by_name, given, or_raise,
  or_no_default, for_mode, named_default, resolve_profile,
}

module _ (protocol mode : String) where
  for_mode-eq :
      (q p : ProtocolProfile)
      → for_mode protocol mode q ≡ ok p
      → (p.protocol ≡ protocol) × (p.mode ≡ mode)
  for_mode-eq q p h = ground (arith, eq_iff q.protocol protocol, eq_iff q.mode mode)

-- The profile `name` is of the given protocol and mode.
is_for : String → String → String → Bool
is_for protocol mode name = elim (profile_named name) [
  | none ↦ false
  | some p ↦ str_eq p.protocol protocol && str_eq p.mode mode
]

-- The rows of the table of defaults.
default_rows :
    (is_for "tls12" "rsa" "tls12-rsa-aes128-sha-ems" ≡ true)
    × (is_for "tls13" "1rtt" "tls13-full-aes128gcm" ≡ true)
    × (is_for "tls13" "0rtt" "tls13-ticket-0rtt-aes128gcm" ≡ true)
    × (is_for "tls13" "external-psk" "tls13-external-psk-aes256gcm" ≡ true)
    × (is_for "quic" "default" "quic-v1-aes128gcm" ≡ true)
    × (is_for "ssh" "default" "ssh-curve25519-chacha20" ≡ true)
unfolding is_for profiles find_profile
default_rows = (refl, refl, refl, refl, refl, refl)

default_profile-is_for :
    (protocol mode name : String)
    → default_profile protocol mode ≡ some name
    → is_for protocol mode name ≡ true
unfolding default_profile
default_profile-is_for protocol mode name h = ground (
  arith,
  default_rows,
  eq_iff protocol "tls12",
  eq_iff protocol "tls13",
  eq_iff protocol "quic",
  eq_iff protocol "ssh",
  eq_iff mode "rsa",
  eq_iff mode "1rtt",
  eq_iff mode "0rtt",
  eq_iff mode "external-psk",
  eq_iff mode "default",
)

is_for-eq :
    (protocol mode name : String) (p : ProtocolProfile)
    → is_for protocol mode name ≡ true
    → profile_named name ≡ some p
    → (p.protocol ≡ protocol) × (p.mode ≡ mode)
unfolding is_for
is_for-eq protocol mode name p h e = ground (arith, eq_iff p.protocol protocol, eq_iff p.mode mode)

or_no_default-eq :
    (o : Option ProtocolProfile) (p : ProtocolProfile) → or_no_default o ≡ ok p → o ≡ some p
or_no_default-eq none p h = cc
or_no_default-eq (some q) p h = cc

named_default-is_for :
    (protocol mode : String) (o : Option String) (p : ProtocolProfile)
    → default_profile protocol mode ≡ o
    → named_default o ≡ some p
    → (p.protocol ≡ protocol) × (p.mode ≡ mode)
named_default-is_for protocol mode none p e h = cc
named_default-is_for protocol mode (some name) p e h =
    is_for-eq protocol mode name p (default_profile-is_for protocol mode name e) h

-- Whatever profile is selected, by default, by name or as an object, it is returned only for its
-- own protocol and mode. No default needs the test that the other two selections make.
pub resolve_profile-for_mode :
    (protocol mode : String) (selector : Selector) (p : ProtocolProfile)
    → resolve_profile protocol mode selector ≡ ok p
    → (p.protocol ≡ protocol) × (p.mode ≡ mode)
unfolding resolve_profile
resolve_profile-for_mode protocol mode unspecified p h =
    named_default-is_for protocol mode (default_profile protocol mode) p refl
      (or_no_default-eq (named_default (default_profile protocol mode)) p h)
resolve_profile-for_mode protocol mode (by_name name) p h =
    let (q, found, checked) = >>=-eq-ok (or_raise (profile_named name)) _ h in
    for_mode-eq protocol mode q p checked
resolve_profile-for_mode protocol mode (given q) p h = for_mode-eq protocol mode q p h
