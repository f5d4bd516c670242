-- ===== src/Pki/Faults.antt =====
-- What a run of EnsurePKI that does not go through leaves, and what becomes of the files that were there.
use openconnect_ubuntu_touch.Common.{
  ◌≡◌, ◌≢◌, refl, sym, ap, ◌∙◌, Bool, true, false, some, Result, ok, err, Result-cases, Bool-cases,
  inl, inr,
}
use openconnect_ubuntu_touch.Common.Text.{Text, codes}
use openconnect_ubuntu_touch.Files.{FileSystem, read_file}
use openconnect_ubuntu_touch.Files.Contents.{succeeds}
use openconnect_ubuntu_touch.Config.{Paths}
use openconnect_ubuntu_touch.Pki.{
  Crypto, Draws, Material, PkiError, no_directory, not_written, concluded, pki_paths, ca_key_path,
  complete, generate, write_material, renew, ensure_pki,
}
use openconnect_ubuntu_touch.Pki.Written.{
  exists-read_file, fs3, write_material_lem, ca_cert_text, ca_key_text, ca_cert-fs3, ca_key-fs3,
  server_cert-fs3, server_key-fs3,
}
use openconnect_ubuntu_touch.Pki.Kept.{ensure_pki-complete, ensure_pki-renew}

-- If one of the four files is missing while a server certificate and key are there, and a run makes its
-- material and writes the CA's certificate and key but not the server's certificate, then the run fails,
-- and every later run whose MkdirAll succeeds takes the files as they are: the new CA's certificate and
-- the old server certificate.
pub ensure_pki_mixed :
    (C : Crypto) (d later : Draws C) (dir : Text) (fs : FileSystem) (m : Material C)
    (old_cert old_key : Text)
    → d.mkdir_ok ≡ true
    → later.mkdir_ok ≡ true
    → complete fs dir ≡ false
    → read_file fs (pki_paths dir).server_cert ≡ some old_cert
    → read_file fs (pki_paths dir).server_key ≡ some old_key
    → generate C d ≡ ok m
    → succeeds d.ca_cert_write ≡ true
    → succeeds d.ca_key_write ≡ true
    → succeeds d.server_cert_write ≡ false
    → (fs' : FileSystem) × (ensure_pki C d dir fs ≡ (fs', err not_written))
      × (ensure_pki C later dir fs' ≡ (fs', ok (pki_paths dir)))
      × (read_file fs' (pki_paths dir).ca_cert ≡ some (C.encode_pem (codes "CERTIFICATE") m.ca_der))
      × (read_file fs' (pki_paths dir).server_cert ≡ some old_cert)
unfolding renew complete
ensure_pki_mixed C d later dir fs m old_cert old_key made made' partial cert key generated w1 w2
      w3 =
    let files = fs3 C d dir m fs in
    let ca = ca_cert-fs3 C d dir m fs ∙ rw w1 refl in
    let ca_key = ca_key-fs3 C d dir m fs ∙ rw w2 refl in
    let server = server_cert-fs3 C d dir m fs ∙ rw w3 cert in
    let server_key = server_key-fs3 C d dir m fs ∙ key in
    let wrote : write_material C d dir m fs ≡ (files, false) =
      write_material_lem C d dir m fs ∙ rw (w1, w2, w3) refl in
    let renewed : renew C d dir fs ≡ (files, err not_written) =
      rw (generated, renew) (ap (concluded dir) wrote) in
    let first = ensure_pki-renew C d dir fs made partial in
    let e1 = exists-read_file files (pki_paths dir).ca_cert (ca_cert_text C d dir m fs) ca in
    let e2 = exists-read_file files (pki_paths dir).server_cert old_cert server in
    let e3 = exists-read_file files (pki_paths dir).server_key old_key server_key in
    let e4 = exists-read_file files (ca_key_path dir) (ca_key_text C d dir m fs) ca_key in
    let full : complete files dir ≡ true = rw (e1, e2, e3, e4) refl in
    (files, first ∙ renewed, ensure_pki-complete C later dir files made' full, ca, server)

files_of : FileSystem × Result PkiError Paths → FileSystem
files_of r = r.0

result_of : FileSystem × Result PkiError Paths → Result PkiError Paths
result_of r = r.1

-- If MkdirAll fails, or the material cannot be made, EnsurePKI returns an error and no file changes.
ensure_pki_unmade :
    (C : Crypto) (d : Draws C) (dir : Text) (fs fs' : FileSystem) (e : PkiError)
    → ensure_pki C d dir fs ≡ (fs', err e)
    → e ≢ not_written
    → fs' ≡ fs
unfolding ensure_pki renew files_of result_of
ensure_pki_unmade C d dir fs fs' e h other = elim (Bool-cases d.mkdir_ok) [
  | inr none_made ↦
      let step : ensure_pki C d dir fs ≡ (fs, err no_directory) = rw none_made refl in
      sym (ap files_of (sym step ∙ h))
  | inl made ↦ elim (Bool-cases (complete fs dir)) [
    | inl full ↦ absurd (cc (ap result_of (sym (ensure_pki-complete C d dir fs made full) ∙ h)))
    | inr partial ↦ elim (Result-cases (generate C d)) [
      | inr (x, failed) ↦
          let step : renew C d dir fs ≡ (fs, err x) = rw (failed, renew) refl in
          sym (ap files_of (sym step ∙ sym (ensure_pki-renew C d dir fs made partial) ∙ h))
      | inl (m, generated) ↦
          let step : renew C d dir fs ≡ concluded dir (write_material C d dir m fs) =
            rw (generated, renew) refl in
          absurd (
            written (write_material C d dir m fs)
              (sym step ∙ sym (ensure_pki-renew C d dir fs made partial) ∙ h))
    ]
  ]
]
  where
    written : (r : FileSystem × Bool) → concluded dir r ≡ (fs', err e) → ⊥
    written (files, true) p = cc (ap result_of p)
    written (files, false) p = other (cc (ap result_of p))
