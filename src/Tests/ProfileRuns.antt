-- ===== src/Tests/ProfileRuns.antt =====
-- The registry at concrete names.
use hndl_dev.Prelude.{◌≡◌, refl, some}
use hndl_dev.Result.{ok, err, value_error, profile_for_other_mode}
use hndl_dev.Profiles.Registry.{ProtocolProfile, profiles, ssh_curve25519_chacha20}
use hndl_dev.Profiles.{
  profile_names, find_profile, index_from, profile_id, profile_by_id, default_profile, unspecified,
  by_name, resolve_profile,
}
use hndl_dev.Profiles.Identifiers.{profile_by_id-profile_id, profile_id-profile_by_id}
use hndl_dev.Profiles.Resolution.{resolve_profile-for_mode}

id_run : profile_id "ssh-curve25519-chacha20" ≡ some 11
unfolding index_from profile_names
id_run = refl

by_id_run : profile_by_id 11 ≡ some ssh_curve25519_chacha20
unfolding profile_by_id profile_names find_profile profiles
by_id_run = refl

default_run : resolve_profile "ssh" "default" unspecified ≡ ok ssh_curve25519_chacha20
unfolding resolve_profile default_profile find_profile profiles
default_run = refl

other_mode_run :
    resolve_profile "ssh" "default" (by_name "quic-v1-chacha20")
    ≡ err (value_error profile_for_other_mode)
unfolding resolve_profile find_profile profiles
other_mode_run = refl

profile_by_id-profile_id_example :
    (p : ProtocolProfile) × (profile_by_id 11 ≡ some p) × (p.name ≡ "ssh-curve25519-chacha20")
profile_by_id-profile_id_example = profile_by_id-profile_id "ssh-curve25519-chacha20" 11 id_run

profile_id-profile_by_id_example : profile_id "ssh-curve25519-chacha20" ≡ some 11
profile_id-profile_by_id_example = profile_id-profile_by_id 11 ssh_curve25519_chacha20 by_id_run

resolve_profile-for_mode_example :
    (ssh_curve25519_chacha20.protocol ≡ "ssh") × (ssh_curve25519_chacha20.mode ≡ "default")
resolve_profile-for_mode_example =
    resolve_profile-for_mode "ssh" "default" unspecified ssh_curve25519_chacha20 default_run
