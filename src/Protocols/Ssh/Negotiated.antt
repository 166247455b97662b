-- ===== src/Protocols/Ssh/Negotiated.antt =====
-- minarx/protocols/ssh.py: what `_validate_profile` accepts.
use hndl_dev.Prelude.{
  ◌≡◌, refl, sym, ap, ◌∙◌, Bool, true, false, not, ◌&&◌, Bool-cases, inl, inr, List, [], ◌∷◌, ◌++◌,
  get_or, bytes_eq, bytes_eq→eq, All,
}
use mathlib.Core.Path.{subst}
use hndl_dev.Result.{
  Error, ok, value_error, key_exchange_mismatch, ssh_cipher_mismatch, refuse_if, refuse-then,
  >>=-eq-ok,
}
use hndl_dev.Binary.{Bytes}
use hndl_dev.Pcap.{Chunk, stream}
use hndl_dev.Protocols.Ssh.Kexinit.{first_kexinit}
use hndl_dev.Protocols.Ssh.{is_name_in, negotiate, SshNames, check_ssh, validate_ssh}

-- The first of the client's names that the server has too (RFC 4253, section 7.1).
pub record FirstCommon (client server : List Bytes) (name : Bytes) : Type 0 where
  pub before : List Bytes
  pub after : List Bytes
  pub place : client ≡ before ++ (name ∷ after)
  pub common : is_name_in name server ≡ true
  pub earlier : All (λ n. is_name_in n server ≡ false) before

negotiate-FirstCommon :
    (client server : List Bytes) (name : Bytes)
    → negotiate client server ≡ ok name
    → FirstCommon client server name
unfolding negotiate
negotiate-FirstCommon [] server name h = cc
negotiate-FirstCommon (n ∷ client) server name h = elim (Bool-cases (is_name_in n server)) [
  | inl there ↦
      let h' : ok n ≡ ok name = rw there at h in
      let same : n ≡ name = cc in
      record {
        before = [];
        after = client;
        place = ap (λ x. x ∷ client) same;
        common = ap (λ x. is_name_in x server) (sym same) ∙ there;
        earlier = tt;
      }
  | inr missing ↦
      let f = negotiate-FirstCommon client server name (rw missing at h) in
      record {
        before = n ∷ f.before;
        after = f.after;
        place = ap (λ x. n ∷ x) f.place;
        common = f.common;
        earlier = (missing, f.earlier);
      }
]

accepted : (b : Bool) (e : Error) → refuse_if (not b) e ≡ ok tt → b ≡ true
accepted true e h = refl
accepted false e h = cc

was_accepted : (b : Bool) → not b ≡ false → b ≡ true
was_accepted true h = refl
was_accepted false h = cc

both : (a b : Bool) → (a && b) ≡ true → (a ≡ true) × (b ≡ true)
both true b h = (refl, h)
both false b h = cc

-- A trace that is accepted has a KEXINIT on each side, and in them the first common names of the key
-- exchange and of the ciphers in both directions are those of the profile.
pub validate_ssh_negotiated :
    (profile : SshNames) (chunks : List Chunk)
    → validate_ssh profile chunks ≡ ok tt
    → (client : List (List Bytes)) × (server : List (List Bytes)) × (first_kexinit (stream 0 chunks)
        ≡ ok client)
      × (first_kexinit (stream 1 chunks) ≡ ok server)
      × FirstCommon (get_or client 0 []) (get_or server 0 []) profile.key_exchange
      × FirstCommon (get_or client 2 []) (get_or server 2 []) profile.cipher_suite
      × FirstCommon (get_or client 3 []) (get_or server 3 []) profile.cipher_suite
unfolding validate_ssh check_ssh
validate_ssh_negotiated profile chunks h =
    let (client, read_client, h1) = >>=-eq-ok (first_kexinit (stream 0 chunks)) _ h in
    let (server, read_server, h2) = >>=-eq-ok (first_kexinit (stream 1 chunks)) _ h1 in
    let (kex, k, h3) = >>=-eq-ok (negotiate (get_or client 0 []) (get_or server 0 [])) _ h2 in
    let (up, u, h4) = >>=-eq-ok (negotiate (get_or client 2 []) (get_or server 2 [])) _ h3 in
    let (down, d, h5) = >>=-eq-ok (negotiate (get_or client 3 []) (get_or server 3 [])) _ h4 in
    let (same_kex, h6) =
      refuse-then (not (bytes_eq kex profile.key_exchange)) (value_error key_exchange_mismatch) _
        h5 in
    let (same_up, same_down) =
      both (bytes_eq up profile.cipher_suite) (bytes_eq down profile.cipher_suite) (
        accepted (bytes_eq up profile.cipher_suite && bytes_eq down profile.cipher_suite)
          (value_error ssh_cipher_mismatch) h6) in
    (
      client,
      server,
      read_client,
      read_server,
      subst (FirstCommon (get_or client 0 []) (get_or server 0 []))
          (bytes_eq→eq kex profile.key_exchange (was_accepted _ same_kex))
          (negotiate-FirstCommon (get_or client 0 []) (get_or server 0 []) kex k),
      subst (FirstCommon (get_or client 2 []) (get_or server 2 []))
          (bytes_eq→eq up profile.cipher_suite same_up)
          (negotiate-FirstCommon (get_or client 2 []) (get_or server 2 []) up u),
      subst (FirstCommon (get_or client 3 []) (get_or server 3 []))
          (bytes_eq→eq down profile.cipher_suite same_down)
          (negotiate-FirstCommon (get_or client 3 []) (get_or server 3 []) down d),
    )
