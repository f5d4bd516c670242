-- ===== src/Setup/Command/Accepted.antt =====
-- The credentials that `ocbridge -init` of src/ocbridge/main.go prints, and `ocbridge -auth`.
use mathlib.Core.Option.{some-injective}
use openconnect_ubuntu_touch.Common.{
  ℕ, ◌≡◌, ◌↔◌, refl, sym, ap, ◌∙◌, true, false, List, [], ◌∷◌, Option, some, Result, ok, err,
  length,
}
use openconnect_ubuntu_touch.Common.Text.{Text, codes, text_eq, is_empty}
use openconnect_ubuntu_touch.FilePath.{last_name}
use openconnect_ubuntu_touch.FilePath.Names.{last_name-join}
use openconnect_ubuntu_touch.Pki.{Crypto}
use openconnect_ubuntu_touch.Status.{Status}
use openconnect_ubuntu_touch.Creds.{stored_creds}
use openconnect_ubuntu_touch.Creds.Check.{AuthError, env_or, read_creds, run_auth_check}
use openconnect_ubuntu_touch.Creds.Check.Laws.{run_auth_check_iff, stored-read_creds}
use openconnect_ubuntu_touch.Setup.World.{World, RunError}
use openconnect_ubuntu_touch.Setup.Run.{Inputs, creds_path}
use openconnect_ubuntu_touch.Setup.Init.{SetupInfo, run_init}
use openconnect_ubuntu_touch.Setup.Init.Kept.{creds-IsName, stored_creds_cong}
use openconnect_ubuntu_touch.Setup.Init.Provided.{the_dir, run_init_inv}
use openconnect_ubuntu_touch.Setup.Init.Agree.{Provided-stored}
use openconnect_ubuntu_touch.Setup.Serve.{Occurrence}
use openconnect_ubuntu_touch.Setup.Bridge.{Ending}
use openconnect_ubuntu_touch.Setup.Command.{
  Flags, Returned, auth_fails, checked, printed, exit_status, run_command, main_process,
}

creds_path_named : (dd : Text) → is_empty (creds_path dd) ≡ false
unfolding last_name text_eq
creds_path_named dd = named (creds_path dd) (last_name-join dd (codes "vpn-creds") creds-IsName)
  where
    named : (x : Text) → last_name x ≡ codes "vpn-creds" → is_empty x ≡ false
    named [] h = cc h
    named (c ∷ x) h = refl

abbrev pub init_flags : List Text → Flags
init_flags args = record { auth_check = false; init_only = true; args = args }

abbrev pub auth_flags : List Text → Flags
auth_flags args = record { auth_check = true; init_only = false; args = args }

module _ (C : Crypto) (i : Inputs C) (encode : Status → Text) (cs : List Occurrence)
    (z : Ending) where
  -- `ocbridge -init` that exits with 0 has run runInit, and printed its settings.
  init_printed :
      (args : List Text) (w v : World) (returned : Returned)
      → main_process C i encode cs z (init_flags args) w ≡ some (v, 0, returned)
      → (info : SetupInfo) × (returned ≡ ok (some info)) × (run_init C i w ≡ (v, ok info))
  unfolding main_process run_command
  init_printed args w v returned h = split (run_init C i w) h
    where
      split :
          (r : World × Result RunError SetupInfo)
          → ◌≡◌ {A = Option (World × ℕ × Returned)}
              (some ((printed r).0, exit_status (printed r).1, (printed r).1))
              (some (v, 0, returned))
          → (info : SetupInfo) × (returned ≡ ok (some info)) × (r ≡ (v, ok info))
      split (u, ok info) e =
          let same = some-injective _ _ e in
          (info, ap (λ (t : World × ℕ × Returned). t.2) (sym same), λ k. ((same k).0, ok info))
      split (u, err x) e = cc (ap (λ (t : World × ℕ × Returned). t.1) (some-injective _ _ e))

  -- What `ocbridge -auth` exits with.
  auth_exits :
      (file : Text) (rest : List Text) (w : World)
      → (k : ℕ) × (returned : Returned) × (main_process C i encode cs z (auth_flags (file ∷ rest)) w
          ≡ some (w, k, returned))
        × ((k ≡ 0)
            ↔ (run_auth_check w.files (i.env (codes "OCBRIDGE_CREDS")) (file ∷ rest) ≡ ok tt))
  unfolding main_process run_command
  auth_exits file rest w =
      (_, _, refl, split (run_auth_check w.files (i.env (codes "OCBRIDGE_CREDS")) (file ∷ rest)))
    where
      split : (r : Result AuthError (Unit {0})) → (exit_status (checked r) ≡ 0) ↔ (r ≡ ok tt)
      split (ok u) = (λ h. refl, λ h. refl)
      split (err e) =
          (λ (h : exit_status (err (auth_fails e)) ≡ 0). cc h, λ (h : err e ≡ ok tt). cc h)

-- If `ocbridge -init` exits with 0 after it had random bytes for its two tokens, 15 of them for the
-- password: then it has printed settings, and every later `ocbridge -auth` that has the credentials file of
-- that directory in OCBRIDGE_CREDS, on files that agree with those of -init in that one file, exits with 0
-- exactly if the file that openvpn passes holds the printed name and password, and changes nothing.
pub main_process-init :
    (C : Crypto) (i j : Inputs C) (encode : Status → Text) (cs : List Occurrence) (z : Ending)
    (args : List Text) (b6 b15 : List ℕ) (w v w' : World) (returned : Returned) (file : Text)
    (rest : List Text)
    → i.user_bytes ≡ some b6
    → i.pass_bytes ≡ some b15
    → length b15 ≡ 15
    → main_process C i encode cs z (init_flags args) w ≡ some (v, 0, returned)
    → env_or (j.env (codes "OCBRIDGE_CREDS")) [] ≡ creds_path (the_dir C i)
    → w'.files (creds_path (the_dir C i)) ≡ v.files (creds_path (the_dir C i))
    → (info : SetupInfo) × (k : ℕ) × (later : Returned) × (returned ≡ ok (some info))
      × (main_process C j encode cs z (auth_flags (file ∷ rest)) w' ≡ some (w', k, later))
      × ((k ≡ 0) ↔ (read_creds w'.files file ≡ ok (info.vpn_user, info.vpn_pass)))
main_process-init C i j encode cs z args b6 b15 w v w' returned file rest r6 r15 len first env_set
      kept =
    let (info, prints, runs) = init_printed C i encode cs z args w v returned first in
    let (generated, pair, provided, shown) = run_init_inv C i w v info runs in
    let path = creds_path (the_dir C i) in
    let stored : stored_creds w'.files path ≡ some pair =
      stored_creds_cong v.files w'.files path kept
      ∙ Provided-stored C i b6 b15 w.files v.files generated pair r6 r15 len provided in
    let pair_of : pair ≡ (info.vpn_user, info.vpn_pass) =
      ap (λ (t : SetupInfo). (t.vpn_user, t.vpn_pass)) (sym shown) in
    let wanted : read_creds w'.files (env_or (j.env (codes "OCBRIDGE_CREDS")) [])
        ≡ ok (info.vpn_user, info.vpn_pass) =
      ap (read_creds w'.files) env_set
      ∙ stored-read_creds w'.files path pair (creds_path_named (the_dir C i)) stored
      ∙ ap ok pair_of in
    let (k, later, exits, zero) = auth_exits C j encode cs z file rest w' in
    let (accepts, matches) =
      run_auth_check_iff w'.files (j.env (codes "OCBRIDGE_CREDS")) file rest
        (info.vpn_user, info.vpn_pass) wanted in
    (info, k, later, prints, exits, (λ h. accepts (zero.0 h), λ h. zero.1 (matches h)))
