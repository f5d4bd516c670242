-- ===== src/Setup/Init/Kept.antt =====
-- What EnsureCreds and the later writes of run leave of the files of src/ocbridge/pki.go.
use openconnect_ubuntu_touch.Common.{
  ℕ, ◌≡◌, refl, sym, ap, ◌∙◌, true, false, List, [], ◌∷◌, ◌++◌, Option, none, some, arith,
  Option-cases, inl, inr,
}
use openconnect_ubuntu_touch.Common.Text.{Text, codes, text_eq}
use openconnect_ubuntu_touch.FilePath.{join, last_name}
use openconnect_ubuntu_touch.FilePath.Names.{IsName, last_name-join}
use openconnect_ubuntu_touch.Files.{FileSystem, Outcome}
use openconnect_ubuntu_touch.Files.Named.{write_file_elsewhere}
use openconnect_ubuntu_touch.Creds.{token, save_creds, fresh_creds, stored_creds, ensure_creds}
use openconnect_ubuntu_touch.Pki.{exists, complete}
use openconnect_ubuntu_touch.Files.{read_file}
use openconnect_ubuntu_touch.Files.Contents.{text_of, read_file-text_of}
use openconnect_ubuntu_touch.Setup.Run.Files.{IsElse}
use openconnect_ubuntu_touch.Setup.Run.{creds_path}

-- A name that no write of the credentials touches.
abbrev pub IsKept : Text → Type 0
IsKept m =
    (text_eq m (codes "vpn-creds") ≡ false)
    × (text_eq m (codes "vpn-creds" ++ codes ".tmp") ≡ false)

pub creds-IsName : IsName (codes "vpn-creds")
unfolding text_eq
creds-IsName = record { part = omega arith; nonempty = refl; not_dot = refl; not_dots = refl }

module _ (r6 r15 : Option (List ℕ)) (o : Outcome) (dd : Text) (fs : FileSystem) (q m : Text)
    (hq : last_name q ≡ m) (kept : IsKept m) where
  save_creds_elsewhere : (u p : Text) → (save_creds u p o (creds_path dd) fs).0 q ≡ fs q
  unfolding save_creds
  save_creds_elsewhere u p =
      write_file_elsewhere o (creds_path dd) _ 0o600 fs q (codes "vpn-creds") m
        (last_name-join dd (codes "vpn-creds") creds-IsName) hq kept.0 kept.1

  fresh_creds_elsewhere : (fresh_creds r6 r15 o (creds_path dd) fs).0 q ≡ fs q
  unfolding fresh_creds
  fresh_creds_elsewhere = elim (Option-cases (token r6)) [
    | inl no_user ↦ rw (no_user, fresh_creds) refl
    | inr (t, user) ↦ elim (Option-cases (token r15)) [
      | inl no_pass ↦ rw (user, no_pass, fresh_creds) refl
      | inr (pass, made) ↦
          rw (user, made, fresh_creds) (save_creds_elsewhere (codes "ubt-" ++ t) pass)
    ]
  ]

  -- EnsureCreds leaves the files of other names alone.
  pub ensure_creds_elsewhere : (ensure_creds r6 r15 o (creds_path dd) fs).0 q ≡ fs q
  unfolding ensure_creds
  ensure_creds_elsewhere = elim (Option-cases (stored_creds fs (creds_path dd))) [
    | inl missing ↦ rw (missing, ensure_creds) fresh_creds_elsewhere
    | inr (pair, found) ↦ rw (found, ensure_creds) refl
  ]

ca_cert-IsName : IsName (codes "ca.crt")
unfolding text_eq
ca_cert-IsName = record { part = omega arith; nonempty = refl; not_dot = refl; not_dots = refl }

ca_key-IsName : IsName (codes "ca.key")
unfolding text_eq
ca_key-IsName = record { part = omega arith; nonempty = refl; not_dot = refl; not_dots = refl }

server_cert-IsName : IsName (codes "server.crt")
unfolding text_eq
server_cert-IsName = record { part = omega arith; nonempty = refl; not_dot = refl; not_dots = refl }

server_key-IsName : IsName (codes "server.key")
unfolding text_eq
server_key-IsName = record { part = omega arith; nonempty = refl; not_dot = refl; not_dots = refl }

-- Whether the four files are there depends on the files of their names alone.
pub complete_cong :
    (dd : Text) (fs fs' : FileSystem)
    → ((m : Text) → IsKept m → IsElse m → (x : Text) → last_name x ≡ m → fs' x ≡ fs x)
    → complete fs' dd ≡ complete fs dd
unfolding complete text_eq
complete_cong dd fs fs' same =
    rw
      (
        there (codes "ca.crt") ca_cert-IsName (
            same (codes "ca.crt") (refl, refl)
              ((refl, refl), (refl, refl), (refl, refl), (refl, refl), (refl, refl))),
        there (codes "server.crt") server_cert-IsName (
            same (codes "server.crt") (refl, refl)
              ((refl, refl), (refl, refl), (refl, refl), (refl, refl), (refl, refl))),
        there (codes "server.key") server_key-IsName (
            same (codes "server.key") (refl, refl)
              ((refl, refl), (refl, refl), (refl, refl), (refl, refl), (refl, refl))),
        there (codes "ca.key") ca_key-IsName (
            same (codes "ca.key") (refl, refl)
              ((refl, refl), (refl, refl), (refl, refl), (refl, refl), (refl, refl))),
      )
      refl
  where
    there :
        (n : Text)
        → IsName n
        → ((x : Text) → last_name x ≡ n → fs' x ≡ fs x)
        → exists fs' (join (dd ∷ n ∷ [])) ≡ exists fs (join (dd ∷ n ∷ []))
    there n name at_name =
        ap (λ t. elim t [ none ↦ false | some f ↦ true ])
          (at_name (join (dd ∷ n ∷ [])) (last_name-join dd n name))

pub stored_creds_cong :
    (fs fs' : FileSystem) (p : Text) → fs' p ≡ fs p → stored_creds fs' p ≡ stored_creds fs p
unfolding stored_creds
stored_creds_cong fs fs' p h =
    let same : read_file fs' p ≡ read_file fs p =
      read_file-text_of fs' p ∙ ap text_of h ∙ sym (read_file-text_of fs p) in
    rw (stored_creds, same) refl
