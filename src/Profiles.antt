-- ===== src/Profiles.antt =====
-- minarx/profiles.py: the registry, the identifiers of the format, and `resolve_profile`.
pub mod Registry
pub mod Identifiers
pub mod Resolution
use text.Mathlib.Text.{◌==◌}
use hndl_dev.Prelude.{
  ℕ, zero, suc, ◌+◌, ◌-◌, String, Bool, true, false, not, ◌&&◌, ◌||◌, Option, none, some, List, [],
  ◌∷◌, if◌then◌else◌, get_elem?,
}
use hndl_dev.Result.{
  Result, ok, err, value_error, no_default_profile, profile_unknown, profile_for_other_mode, ◌>>=◌,
  ◌>>◌, refuse_if,
}
use Registry.{ProtocolProfile, profiles}

-- `PROFILE_NAMES`: the index of a name, from 1, is its identifier in an archive.
unfoldable pub profile_names : List String
profile_names =
    "tls12-rsa-aes128-sha-noems" ∷ "tls12-rsa-aes128-sha-ems" ∷ "tls12-rsa-aes128gcm-ems"
    ∷ "tls13-full-aes128gcm" ∷ "tls13-full-aes256gcm" ∷ "tls13-full-chacha20"
    ∷ "tls13-ticket-0rtt-aes128gcm" ∷ "quic-v1-aes128gcm" ∷ "quic-v1-aes256gcm" ∷ "quic-v1-chacha20"
    ∷ "ssh-curve25519-chacha20" ∷ "ssh-curve25519-aes128gcm" ∷ "tls13-ticket-0rtt-aes256gcm"
    ∷ "tls13-ticket-0rtt-psk-only-aes256gcm" ∷ "tls13-external-psk-aes256gcm"
    ∷ "tls13-external-psk-chacha20" ∷ []

unfoldable pub find_profile : String → List ProtocolProfile → Option ProtocolProfile
find_profile name [] = none
find_profile name (p ∷ ps) = if p.name == name then some p else find_profile name ps

-- `PROFILES.get(name)`
abbrev pub profile_named : String → Option ProtocolProfile
profile_named name = find_profile name profiles

unfoldable pub index_from : ℕ → String → List String → Option ℕ
index_from i name [] = none
index_from i name (n ∷ ns) = if n == name then some i else index_from (i + 1) name ns

-- `PROFILE_IDS.get(name)`
abbrev pub profile_id : String → Option ℕ
profile_id name = index_from 1 name profile_names

-- `PROFILES_BY_ID.get(identifier)`
unfoldable pub profile_by_id : ℕ → Option ProtocolProfile
profile_by_id zero = none
profile_by_id (suc i) = elim (get_elem? profile_names i) [ none ↦ none | some n ↦ profile_named n ]

-- `DEFAULT_PROFILE.get((protocol, mode))`
unfoldable pub default_profile : String → String → Option String
default_profile protocol mode =
    if protocol == "tls12" && mode == "rsa"
    then some "tls12-rsa-aes128-sha-ems"
    else if protocol == "tls13" && mode == "1rtt"
    then some "tls13-full-aes128gcm"
    else if protocol == "tls13" && mode == "0rtt"
    then some "tls13-ticket-0rtt-aes128gcm"
    else if protocol == "tls13" && mode == "external-psk"
    then some "tls13-external-psk-aes256gcm"
    else if protocol == "quic" && mode == "default"
    then some "quic-v1-aes128gcm"
    else if protocol == "ssh" && mode == "default"
    then some "ssh-curve25519-chacha20"
    else none

-- The argument `profile`: absent, a name, or a profile.
pub data Selector : Type 0 where
  unspecified : Selector
  by_name : String → Selector
  given : ProtocolProfile → Selector

abbrev pub or_raise : Option ProtocolProfile → Result ProtocolProfile
or_raise none = err (value_error profile_unknown)
or_raise (some p) = ok p

abbrev pub or_no_default : Option ProtocolProfile → Result ProtocolProfile
or_no_default none = err (value_error no_default_profile)
or_no_default (some p) = ok p

abbrev pub for_mode : String → String → ProtocolProfile → Result ProtocolProfile
for_mode protocol mode selected =
    if not (selected.protocol == protocol) || not (selected.mode == mode)
    then err (value_error profile_for_other_mode)
    else ok selected

abbrev pub named_default : Option String → Option ProtocolProfile
named_default none = none
named_default (some name) = profile_named name

-- A `KeyError` of either look-up becomes the same `ValueError`.
unfoldable pub resolve_profile : String → String → Selector → Result ProtocolProfile
resolve_profile protocol mode unspecified =
    or_no_default (named_default (default_profile protocol mode))
resolve_profile protocol mode (by_name name) = do
  selected ← or_raise (profile_named name)
  for_mode protocol mode selected
resolve_profile protocol mode (given selected) = for_mode protocol mode selected
