-- ===== src/Setup/Init/Agree.antt =====
-- runInit and run of src/ocbridge/main.go on the same directory.
use openconnect_ubuntu_touch.Common.{
  ℕ, ◌≡◌, refl, sym, ap, ◌∙◌, subst, true, List, Option, some, Result, ok, length,
}
use openconnect_ubuntu_touch.Common.Text.{Text, codes, text_eq}
use openconnect_ubuntu_touch.FilePath.{last_name}
use openconnect_ubuntu_touch.FilePath.Names.{last_name-join}
use openconnect_ubuntu_touch.Files.{FileSystem}
use openconnect_ubuntu_touch.Creds.{CredsError, stored_creds, ensure_creds}
use openconnect_ubuntu_touch.Creds.Stored.{ensure_creds-stored, stored-ensure_creds}
use openconnect_ubuntu_touch.Pki.{Crypto, complete, ensure_pki}
use openconnect_ubuntu_touch.Pki.Kept.{complete-ensure_pki, ensure_pki_later}
use openconnect_ubuntu_touch.Config.{Paths}
use openconnect_ubuntu_touch.Setup.{dirs_of, choose_port, resolve_proto}
use openconnect_ubuntu_touch.Setup.World.{World}
use openconnect_ubuntu_touch.Setup.Run.Writes.{Keeps}
use openconnect_ubuntu_touch.Setup.Run.Files.{IsElse}
use openconnect_ubuntu_touch.Setup.Run.{Inputs, Prepared, creds_path, prepare}
use openconnect_ubuntu_touch.Setup.Init.{SetupInfo, run_init}
use openconnect_ubuntu_touch.Setup.Init.Kept.{
  IsKept, creds-IsName, ensure_creds_elsewhere, complete_cong, stored_creds_cong,
}
use openconnect_ubuntu_touch.Setup.Init.Provided.{the_dir, Provided, run_init_inv, prepare_inv}

creds-IsElse : IsElse (codes "vpn-creds")
unfolding text_eq
creds-IsElse = ((refl, refl), (refl, refl), (refl, refl), (refl, refl), (refl, refl))

-- The pair that one call provided is stored, if it had random bytes, 15 of them for the password.
pub Provided-stored :
    (C : Crypto) (i : Inputs C) (b6 b15 : List ℕ) (fs fs' : FileSystem) (generated : Paths)
    (pair : Text × Text)
    → i.user_bytes ≡ some b6
    → i.pass_bytes ≡ some b15
    → length b15 ≡ 15
    → Provided C i fs fs' generated pair
    → stored_creds fs' (creds_path (the_dir C i)) ≡ some pair
Provided-stored C i b6 b15 fs fs' generated pair r6 r15 len (mid, made, got) =
    let path = creds_path (the_dir C i) in
    stored-ensure_creds b6 b15 i.creds_write path mid fs' pair len (
      ap (λ (t : Option (List ℕ)). ensure_creds t (some b15) i.creds_write path mid) (sym r6)
      ∙ ap (λ (t : Option (List ℕ)). ensure_creds i.user_bytes t i.creds_write path mid) (sym r15)
      ∙ got)

-- What one call provided on `fs`, a later call on files that keep it provides again, without a change.
prepare-Provided :
    (C : Crypto) (i j : Inputs C) (b6 b15 : List ℕ) (fs fs' : FileSystem) (generated : Paths)
    (pair : Text × Text) (later later' : FileSystem) (generated' : Paths) (pair' : Text × Text)
    → j.env ≡ i.env
    → j.data_dir ≡ i.data_dir
    → i.user_bytes ≡ some b6
    → i.pass_bytes ≡ some b15
    → length b15 ≡ 15
    → Provided C i fs fs' generated pair
    → ((m : Text) → IsElse m → (x : Text) → last_name x ≡ m → later x ≡ fs' x)
    → Provided C j later later' generated' pair'
    → (generated' ≡ generated) × (pair' ≡ pair) × (later' ≡ later)
prepare-Provided C i j b6 b15 fs fs' generated pair later later' generated' pair' same_env same_flag
      r6 r15 len (mid, made, got) keeps (mid', made', got') =
    let dd = the_dir C i in
    let dirs : the_dir C j ≡ dd = λ k. (dirs_of (same_env k) (same_flag k)).data_dir in
    let (full, paths_of) = complete-ensure_pki C i.draws dd fs mid generated made in
    let creds_kept : (x m : Text) → last_name x ≡ m → IsKept m → fs' x ≡ mid x = λ x m hx kept.
      ap (λ (t : FileSystem × Result CredsError (Text × Text)). t.0 x) (sym got)
      ∙ ensure_creds_elsewhere i.user_bytes i.pass_bytes i.creds_write dd mid x m hx kept in
    let full' : complete later dd ≡ true =
      complete_cong dd mid later (λ m kept other x hx. keeps m other x hx ∙ creds_kept x m hx kept)
      ∙ full in
    let (still, paths_of') =
      ensure_pki_later C j.draws dd later mid' generated' full'
        (subst (λ (t : Text). ensure_pki C j.draws t later ≡ (mid', ok generated')) dirs made') in
    let stored : stored_creds fs' (creds_path dd) ≡ some pair =
      Provided-stored C i b6 b15 fs fs' generated pair r6 r15 len (mid, made, got) in
    let stored' : stored_creds mid' (creds_path dd) ≡ some pair =
      stored_creds_cong fs' mid' (creds_path dd) (
        ap (λ (t : FileSystem). t (creds_path dd)) (sym still)
        ∙ keeps (codes "vpn-creds") creds-IsElse (creds_path dd)
            (last_name-join dd (codes "vpn-creds") creds-IsName))
      ∙ stored in
    let again =
      sym (
        ensure_creds-stored j.user_bytes j.pass_bytes j.creds_write (creds_path dd) mid' pair
          stored')
      ∙ subst
          (λ (t : Text).
            ensure_creds j.user_bytes j.pass_bytes j.creds_write (creds_path t) mid'
            ≡ (later', ok pair'))
          dirs got' in
    (
      sym paths_of' ∙ paths_of,
      sym (cc (ap (λ (t : FileSystem × Result CredsError (Text × Text)). t.1) again)),
      ap (λ (t : FileSystem × Result CredsError (Text × Text)). t.0) (sym again) ∙ sym still,
    )

-- If runInit prints its settings, with random bytes for its two tokens, 15 of them for the password, and
-- run then gets as far as its first status in the same environment and with the same flags, on files that
-- differ from what runInit left at most in those that run writes from its first status on, then run uses
-- the authority, the name, the password, the port and the transport that were printed, and has changed no
-- file so far.
pub run_init-prepare :
    (C : Crypto) (i j : Inputs C) (b6 b15 : List ℕ) (w v w' v' : World) (info : SetupInfo)
    (q : Prepared)
    → i.user_bytes ≡ some b6
    → i.pass_bytes ≡ some b15
    → length b15 ≡ 15
    → j.env ≡ i.env
    → j.data_dir ≡ i.data_dir
    → j.port ≡ i.port
    → j.proto ≡ i.proto
    → run_init C i w ≡ (v, ok info)
    → ((m : Text) → IsElse m → Keeps m v w')
    → prepare C j w' ≡ (v', ok q)
    → (q.paths.ca_cert ≡ info.ca_cert)
      × (q.creds ≡ (info.vpn_user, info.vpn_pass))
      × (q.port ≡ info.port)
      × (q.proto ≡ info.protocol)
      × (v'.files ≡ w'.files)
run_init-prepare C i j b6 b15 w v w' v' info q r6 r15 len same_env same_flag same_port same_proto
      first keeps second =
    let (generated, pair, provided, printed) = run_init_inv C i w v info first in
    let (generated', pair', provided', ca, creds, port_of, proto_of) =
      prepare_inv C j w' v' q second in
    let (same, same_pair, files) =
      prepare-Provided C i j b6 b15 w.files v.files generated pair w'.files v'.files generated'
        pair' same_env same_flag r6 r15 len provided keeps provided' in
    (
      ca ∙ ap (λ (t : Paths). t.ca_cert) same ∙ ap (λ (t : SetupInfo). t.ca_cert) (sym printed),
      creds ∙ same_pair ∙ ap (λ (t : SetupInfo). (t.vpn_user, t.vpn_pass)) (sym printed),
      port_of
          ∙ (λ k. choose_port (same_port k) (same_env k))
          ∙ ap (λ (t : SetupInfo). t.port) (sym printed),
      proto_of
          ∙ (λ k. resolve_proto (same_proto k) (same_env k))
          ∙ ap (λ (t : SetupInfo). t.protocol) (sym printed),
      files,
    )
