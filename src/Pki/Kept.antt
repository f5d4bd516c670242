-- ===== src/Pki/Kept.antt =====
-- What EnsurePKI finds on a later call.
use openconnect_ubuntu_touch.Common.{
  ◌≡◌, refl, sym, ap, ◌∙◌, subst, Bool, true, false, not, Result, ok, err, Result-cases,
  if◌then◌else◌, Bool-cases, inl, inr,
}
use openconnect_ubuntu_touch.Common.Text.{Text}
use openconnect_ubuntu_touch.Files.{FileSystem}
use openconnect_ubuntu_touch.Files.Contents.{succeeds}
use openconnect_ubuntu_touch.Config.{Paths}
use openconnect_ubuntu_touch.Pki.{
  Crypto, Draws, Material, PkiError, no_directory, concluded, pki_paths, ca_key_path, complete,
  generate, write_material, renew, ensure_pki,
}
use openconnect_ubuntu_touch.Pki.Written.{
  exists-read_file, fs1, fs2, fs3, fs4, write_material_lem, ca_cert_text, ca_key_text,
  server_cert_text, server_key_text, ca_cert-fs4, ca_key-fs4, server_cert-fs4, server_key-fs4,
}

module _ (C : Crypto) (d : Draws C) (dir : Text) (fs : FileSystem) where
  -- Every write of a run went through.
  abbrev pub AllWritten : Type 0
  AllWritten =
      (succeeds d.ca_cert_write ≡ true)
      × (succeeds d.ca_key_write ≡ true)
      × (succeeds d.server_cert_write ≡ true)
      × (succeeds d.server_key_write ≡ true)

  written_all :
      (m : Material C) (fs' : FileSystem)
      → write_material C d dir m fs ≡ (fs', true)
      → AllWritten × (fs4 C d dir m fs ≡ fs')
  written_all m fs' h =
      split (succeeds d.ca_cert_write) (succeeds d.ca_key_write) (succeeds d.server_cert_write)
        (succeeds d.server_key_write) (sym (write_material_lem C d dir m fs) ∙ h)
    where
      split :
          (a b c e : Bool)
          → ◌≡◌ {A = FileSystem × Bool}
              (if not a
                then (fs1 C d dir m fs, false)
                else if not b
                then (fs2 C d dir m fs, false)
                else if not c
                then (fs3 C d dir m fs, false)
                else (fs4 C d dir m fs, e))
              (fs', true)
          → ((a ≡ true) × (b ≡ true) × (c ≡ true) × (e ≡ true)) × (fs4 C d dir m fs ≡ fs')
      split false b c e p = cc
      split true false c e p = cc
      split true true false e p = cc
      split true true true e p = (
        (refl, refl, refl, ap (λ (t : FileSystem × Bool). t.1) p),
        ap (λ (t : FileSystem × Bool). t.0) p,
      )

  -- A run that succeeds made its material and wrote it.
  pub renew_inv :
      (fs' : FileSystem) (p : Paths)
      → renew C d dir fs ≡ (fs', ok p)
      → (m : Material C) × (generate C d ≡ ok m)
        × AllWritten
        × (fs4 C d dir m fs ≡ fs')
        × (pki_paths dir ≡ p)
  unfolding renew
  renew_inv fs' p h = elim (Result-cases (generate C d)) [
    | inl (m, made) ↦
        let step : renew C d dir fs ≡ concluded dir (write_material C d dir m fs) =
          rw (made, renew) refl in
        let (wrote, same) = ended (write_material C d dir m fs) (sym step ∙ h) in
        let (all, files) = written_all m fs' wrote in (m, made, all, files, same)
    | inr (e, failed) ↦
        let step : renew C d dir fs ≡ (fs, err e) = rw (failed, renew) refl in
        absurd (cc (ap (λ (t : FileSystem × Result PkiError Paths). t.1) (sym step ∙ h)))
  ]
    where
      ended :
          (r : FileSystem × Bool)
          → concluded dir r ≡ (fs', ok p)
          → (r ≡ (fs', true)) × (pki_paths dir ≡ p)
      ended (files, true) e =
          ((λ i. ((e i).0, true)), cc (ap (λ (t : FileSystem × Result PkiError Paths). t.1) e))
      ended (files, false) e = cc (ap (λ (t : FileSystem × Result PkiError Paths). t.1) e)

  -- The files of a run that wrote everything are complete.
  fs4-complete : (m : Material C) → AllWritten → complete (fs4 C d dir m fs) dir ≡ true
  unfolding complete
  fs4-complete m (w1, w2, w3, w4) =
      let files = fs4 C d dir m fs in
      let e1 =
        exists-read_file files (pki_paths dir).ca_cert (ca_cert_text C d dir m fs)
          (ca_cert-fs4 C d dir m fs ∙ rw w1 refl) in
      let e2 =
        exists-read_file files (pki_paths dir).server_cert (server_cert_text C d dir m fs)
          (server_cert-fs4 C d dir m fs ∙ rw w3 refl) in
      let e3 =
        exists-read_file files (pki_paths dir).server_key (server_key_text C d dir m fs)
          (server_key-fs4 C d dir m fs ∙ rw w4 refl) in
      let e4 =
        exists-read_file files (ca_key_path dir) (ca_key_text C d dir m fs)
          (ca_key-fs4 C d dir m fs ∙ rw w2 refl) in
      rw (e1, e2, e3, e4) refl

  pub ensure_pki-complete :
      d.mkdir_ok ≡ true → complete fs dir ≡ true → ensure_pki C d dir fs ≡ (fs, ok (pki_paths dir))
  unfolding ensure_pki
  ensure_pki-complete made full = rw (made, full) refl

  pub ensure_pki-renew :
      d.mkdir_ok ≡ true → complete fs dir ≡ false → ensure_pki C d dir fs ≡ renew C d dir fs
  unfolding ensure_pki
  ensure_pki-renew made partial = rw (made, partial) refl

  -- A run that succeeds leaves all four files.
  pub complete-ensure_pki :
      (fs' : FileSystem) (p : Paths)
      → ensure_pki C d dir fs ≡ (fs', ok p)
      → (complete fs' dir ≡ true) × (pki_paths dir ≡ p)
  unfolding ensure_pki
  complete-ensure_pki fs' p h = elim (Bool-cases d.mkdir_ok) [
    | inr none_made ↦
        let step : ensure_pki C d dir fs ≡ (fs, err no_directory) = rw none_made refl in
        absurd (cc (ap (λ (t : FileSystem × Result PkiError Paths). t.1) (sym step ∙ h)))
    | inl made ↦ elim (Bool-cases (complete fs dir)) [
      | inl full ↦
          let files : fs ≡ fs' =
            ap (λ (t : FileSystem × Result PkiError Paths). t.0)
              (sym (ensure_pki-complete made full) ∙ h) in
          (
            subst (λ (t : FileSystem). complete t dir ≡ true) files full,
            cc (
                ap (λ (t : FileSystem × Result PkiError Paths). t.1)
                  (sym (ensure_pki-complete made full) ∙ h)),
          )
      | inr partial ↦
          let step = ensure_pki-renew made partial in
          let (m, _, all, files, same) = renew_inv fs' p (sym step ∙ h) in
          (subst (λ (t : FileSystem). complete t dir ≡ true) files (fs4-complete m all), same)
    ]
  ]

-- With all four files there, a run that succeeds changes nothing.
pub ensure_pki_later :
    (C : Crypto) (d : Draws C) (dir : Text) (fs fs' : FileSystem) (p : Paths)
    → complete fs dir ≡ true
    → ensure_pki C d dir fs ≡ (fs', ok p)
    → (fs ≡ fs') × (pki_paths dir ≡ p)
unfolding ensure_pki
ensure_pki_later C d dir fs fs' p full h = elim (Bool-cases d.mkdir_ok) [
  | inr none_made ↦
      let step : ensure_pki C d dir fs ≡ (fs, err no_directory) = rw none_made refl in
      absurd (cc (ap (λ (t : FileSystem × Result PkiError Paths). t.1) (sym step ∙ h)))
  | inl made ↦
      let step = sym (ensure_pki-complete C d dir fs made full) ∙ h in
      (
        ap (λ (t : FileSystem × Result PkiError Paths). t.0) step,
        cc (ap (λ (t : FileSystem × Result PkiError Paths). t.1) step),
      )
]

-- After a run of EnsurePKI that succeeds, every later run whose MkdirAll succeeds returns the same paths
-- and leaves all files alone, whatever randomness, time and disk it meets.
pub ensure_pki_stable :
    (C : Crypto) (d later : Draws C) (dir : Text) (fs fs' : FileSystem) (p : Paths)
    → ensure_pki C d dir fs ≡ (fs', ok p)
    → later.mkdir_ok ≡ true
    → ensure_pki C later dir fs' ≡ (fs', ok p)
ensure_pki_stable C d later dir fs fs' p h made =
    let (full, same) = complete-ensure_pki C d dir fs fs' p h in
    subst (λ (t : Paths). ensure_pki C later dir fs' ≡ (fs', ok t)) same
      (ensure_pki-complete C later dir fs' made full)
