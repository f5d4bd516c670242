-- ===== src/Pki/Written.antt =====
-- The four files behind a run of EnsurePKI that wrote them.
use openconnect_ubuntu_touch.Common.{
  ℕ, ◌≡◌, refl, sym, ap, ◌∙◌, true, false, not, Option, none, some, [], ◌∷◌, ◌++◌, if◌then◌else◌,
  arith,
}
use openconnect_ubuntu_touch.Common.Text.{Text, codes, text_eq}
use openconnect_ubuntu_touch.FilePath.{join}
use openconnect_ubuntu_touch.FilePath.Names.{IsName, last_name-join}
use openconnect_ubuntu_touch.Files.{File, FileSystem, read_file, Outcome, write_file}
use openconnect_ubuntu_touch.Files.Contents.{
  succeeds, write_file-succeeds, text_of, read_file-text_of, read_file-write_file,
  read_file_elsewhere,
}
use openconnect_ubuntu_touch.Pki.{
  Crypto, Draws, Material, pki_paths, ca_key_path, exists, write_material,
}

ca_crt-IsName : IsName (codes "ca.crt")
unfolding text_eq
ca_crt-IsName = record { part = omega arith; nonempty = refl; not_dot = refl; not_dots = refl }

server_crt-IsName : IsName (codes "server.crt")
unfolding text_eq
server_crt-IsName = record { part = omega arith; nonempty = refl; not_dot = refl; not_dots = refl }

server_key-IsName : IsName (codes "server.key")
unfolding text_eq
server_key-IsName = record { part = omega arith; nonempty = refl; not_dot = refl; not_dots = refl }

ca_key-IsName : IsName (codes "ca.key")
unfolding text_eq
ca_key-IsName = record { part = omega arith; nonempty = refl; not_dot = refl; not_dots = refl }

pub exists-read_file : (fs : FileSystem) (q t : Text) → read_file fs q ≡ some t → exists fs q ≡ true
exists-read_file fs q t h = cases (fs q) (sym (read_file-text_of fs q) ∙ h)
  where
    cases :
        (f : Option File) → text_of f ≡ some t → (elim f [ none ↦ false | some g ↦ true ]) ≡ true
    cases none e = cc
    cases (some f) e = refl

-- Joining a directory with two names gives two files.
beside :
    {n m : Text} (o : Outcome) (dir content : Text) (perm : ℕ) (fs : FileSystem)
    → IsName n
    → IsName m
    → text_eq m n ≡ false
    → text_eq m (n ++ codes ".tmp") ≡ false
    → read_file (write_file o (join (dir ∷ n ∷ [])) content perm fs).0 (join (dir ∷ m ∷ []))
      ≡ read_file fs (join (dir ∷ m ∷ []))
beside {n} {m} o dir content perm fs hn hm =
    read_file_elsewhere o (join (dir ∷ n ∷ [])) content perm fs (join (dir ∷ m ∷ [])) n m
      (last_name-join dir n hn) (last_name-join dir m hm)

module _ (C : Crypto) (d : Draws C) (dir : Text) (m : Material C) (fs : FileSystem) where
  abbrev pub ca_cert_text : Text
  ca_cert_text = C.encode_pem (codes "CERTIFICATE") m.ca_der

  abbrev pub ca_key_text : Text
  ca_key_text = C.encode_pem (codes "RSA PRIVATE KEY") (C.marshal_key m.ca_private)

  abbrev pub server_cert_text : Text
  server_cert_text = C.encode_pem (codes "CERTIFICATE") m.server_der

  abbrev pub server_key_text : Text
  server_key_text = C.encode_pem (codes "RSA PRIVATE KEY") (C.marshal_key m.server_private)

  abbrev pub fs1 : FileSystem
  fs1 = (write_file d.ca_cert_write (pki_paths dir).ca_cert ca_cert_text 0o644 fs).0

  abbrev pub fs2 : FileSystem
  fs2 = (write_file d.ca_key_write (ca_key_path dir) ca_key_text 0o600 fs1).0

  abbrev pub fs3 : FileSystem
  fs3 = (write_file d.server_cert_write (pki_paths dir).server_cert server_cert_text 0o644 fs2).0

  abbrev pub fs4 : FileSystem
  fs4 = (write_file d.server_key_write (pki_paths dir).server_key server_key_text 0o600 fs3).0

  -- The outcome of the writes, by the outcomes of each.
  pub write_material_lem : write_material C d dir m fs ≡ (
      if not (succeeds d.ca_cert_write)
      then (fs1, false)
      else if not (succeeds d.ca_key_write)
      then (fs2, false)
      else if not (succeeds d.server_cert_write)
      then (fs3, false)
      else (fs4, succeeds d.server_key_write))
  unfolding write_material
  write_material_lem =
      rw
        (
          write_file-succeeds d.ca_cert_write (pki_paths dir).ca_cert ca_cert_text 0o644 fs,
          write_file-succeeds d.ca_key_write (ca_key_path dir) ca_key_text 0o600 fs1,
          write_file-succeeds d.server_cert_write (pki_paths dir).server_cert server_cert_text 0o644
              fs2,
          write_file-succeeds d.server_key_write (pki_paths dir).server_key server_key_text 0o600
              fs3,
        )
        refl

  pub ca_cert-fs3 : read_file fs3 (pki_paths dir).ca_cert ≡ (
      if succeeds d.ca_cert_write then some ca_cert_text else read_file fs (pki_paths dir).ca_cert)
  unfolding text_eq
  ca_cert-fs3 =
      beside d.server_cert_write dir server_cert_text 0o644 fs2 server_crt-IsName ca_crt-IsName refl
        refl
      ∙ beside d.ca_key_write dir ca_key_text 0o600 fs1 ca_key-IsName ca_crt-IsName refl refl
      ∙ read_file-write_file d.ca_cert_write (pki_paths dir).ca_cert ca_cert_text 0o644 fs

  pub ca_key-fs3 :
      read_file fs3 (ca_key_path dir)
      ≡ (if succeeds d.ca_key_write then some ca_key_text else read_file fs (ca_key_path dir))
  unfolding text_eq
  ca_key-fs3 =
      beside d.server_cert_write dir server_cert_text 0o644 fs2 server_crt-IsName ca_key-IsName refl
        refl
      ∙ read_file-write_file d.ca_key_write (ca_key_path dir) ca_key_text 0o600 fs1
      ∙ ap (λ (t : Option Text). if succeeds d.ca_key_write then some ca_key_text else t)
          (beside d.ca_cert_write dir ca_cert_text 0o644 fs ca_crt-IsName ca_key-IsName refl refl)

  pub server_cert-fs3 : read_file fs3 (pki_paths dir).server_cert ≡ (
      if succeeds d.server_cert_write
      then some server_cert_text
      else read_file fs (pki_paths dir).server_cert)
  unfolding text_eq
  server_cert-fs3 =
      read_file-write_file d.server_cert_write (pki_paths dir).server_cert server_cert_text 0o644
        fs2
      ∙ ap (λ (t : Option Text). if succeeds d.server_cert_write then some server_cert_text else t)
          (beside d.ca_key_write dir ca_key_text 0o600 fs1 ca_key-IsName server_crt-IsName refl refl
            ∙ beside d.ca_cert_write dir ca_cert_text 0o644 fs ca_crt-IsName server_crt-IsName refl
                refl)

  pub server_key-fs3 :
      read_file fs3 (pki_paths dir).server_key ≡ read_file fs (pki_paths dir).server_key
  unfolding text_eq
  server_key-fs3 =
      beside d.server_cert_write dir server_cert_text 0o644 fs2 server_crt-IsName server_key-IsName
        refl refl
      ∙ beside d.ca_key_write dir ca_key_text 0o600 fs1 ca_key-IsName server_key-IsName refl refl
      ∙ beside d.ca_cert_write dir ca_cert_text 0o644 fs ca_crt-IsName server_key-IsName refl refl

  -- What the four files hold when all four writes were made, each by its own outcome.
  pub ca_cert-fs4 : read_file fs4 (pki_paths dir).ca_cert ≡ (
      if succeeds d.ca_cert_write then some ca_cert_text else read_file fs (pki_paths dir).ca_cert)
  unfolding text_eq
  ca_cert-fs4 =
      beside d.server_key_write dir server_key_text 0o600 fs3 server_key-IsName ca_crt-IsName refl
        refl
      ∙ ca_cert-fs3

  pub ca_key-fs4 :
      read_file fs4 (ca_key_path dir)
      ≡ (if succeeds d.ca_key_write then some ca_key_text else read_file fs (ca_key_path dir))
  unfolding text_eq
  ca_key-fs4 =
      beside d.server_key_write dir server_key_text 0o600 fs3 server_key-IsName ca_key-IsName refl
        refl
      ∙ ca_key-fs3

  pub server_cert-fs4 : read_file fs4 (pki_paths dir).server_cert ≡ (
      if succeeds d.server_cert_write
      then some server_cert_text
      else read_file fs (pki_paths dir).server_cert)
  unfolding text_eq
  server_cert-fs4 =
      beside d.server_key_write dir server_key_text 0o600 fs3 server_key-IsName server_crt-IsName
        refl refl
      ∙ server_cert-fs3

  pub server_key-fs4 : read_file fs4 (pki_paths dir).server_key ≡ (
      if succeeds d.server_key_write
      then some server_key_text
      else read_file fs (pki_paths dir).server_key)
  server_key-fs4 =
      read_file-write_file d.server_key_write (pki_paths dir).server_key server_key_text 0o600 fs3
      ∙ ap (λ (t : Option Text). if succeeds d.server_key_write then some server_key_text else t)
          server_key-fs3
