-- ===== src/Setup/Init/Provided.antt =====
-- What EnsurePKI and EnsureCreds give runInit and run of src/ocbridge/main.go.
use openconnect_ubuntu_touch.Common.{
  ◌≡◌, sym, ap, ◌∙◌, subst, Bool, true, false, [], ◌∷◌, Option, none, some, ok, if◌then◌else◌,
}
use openconnect_ubuntu_touch.Common.Text.{Text, codes}
use openconnect_ubuntu_touch.FilePath.{join}
use openconnect_ubuntu_touch.Files.{FileSystem}
use openconnect_ubuntu_touch.Creds.{ensure_creds}
use openconnect_ubuntu_touch.Pki.{Crypto, ensure_pki}
use openconnect_ubuntu_touch.Params.Env.{parse_params}
use openconnect_ubuntu_touch.Parent.{die_with_parent}
use openconnect_ubuntu_touch.Params.Addresses.{server_ip}
use openconnect_ubuntu_touch.Config.{Paths}
use openconnect_ubuntu_touch.Setup.{Places, make_dirs, paths, dirs_of, choose_port, resolve_proto}
use openconnect_ubuntu_touch.Setup.World.{
  World, no_dirs, no_tool, no_executable, no_pki, no_creds, bad_params, bad_addresses, parent_gone,
  lift_result, lift_option, with_files, >>=-eq-ok, lift_result-eq-ok, lift_option-eq-ok,
  with_files-eq-ok, finished-eq-ok,
}
use openconnect_ubuntu_touch.Setup.Run.{
  Inputs, Prepared, make_places, find_openvpn, creds_path, prepare,
}
use openconnect_ubuntu_touch.Setup.Init.{SetupInfo, run_init}

make_places-eq-ok :
    {pl : Places} {v : World} (mkdir : Text → Bool) (e : Text → Text) (flag : Text) (w : World)
    → make_places mkdir e flag w ≡ (v, ok pl)
    → (dirs_of e flag ≡ pl) × (v.files ≡ w.files)
unfolding make_places paths
make_places-eq-ok {pl} {v} mkdir e flag w h =
    let (made, world) = lift_option-eq-ok no_dirs (paths mkdir e flag).1 h in
    (
      settled
          (make_dirs mkdir
            (pl0.data_dir ∷ pl0.run_dir ∷ join (pl0.data_dir ∷ codes "ccd" ∷ []) ∷ [])).1
          made,
      ap (λ (t : World). t.files) (sym world),
    )
  where
    pl0 : Places
    pl0 = dirs_of e flag

    settled :
        (b : Bool) → ◌≡◌ {A = Option Places} (if b then some pl0 else none) (some pl) → pl0 ≡ pl
    settled true p = cc p
    settled false p = cc p

module _ (C : Crypto) (i : Inputs C) where
  -- The directory of one run, and the file of its credentials.
  abbrev pub the_dir : Text
  the_dir = (dirs_of i.env i.data_dir).data_dir

  -- The material and the credentials, found or made on `fs`.
  abbrev pub Provided : FileSystem → FileSystem → Paths → Text × Text → Type 0
  Provided fs fs' generated pair =
      (mid : FileSystem) × (ensure_pki C i.draws the_dir fs ≡ (mid, ok generated))
      × (ensure_creds i.user_bytes i.pass_bytes i.creds_write (creds_path the_dir) mid
          ≡ (fs', ok pair))

  pub run_init_inv :
      (w v : World) (info : SetupInfo)
      → run_init C i w ≡ (v, ok info)
      → (generated : Paths) × (pair : Text × Text) × Provided w.files v.files generated pair
        × (info ≡ record {
          ca_cert = generated.ca_cert;
          vpn_user = pair.0;
          vpn_pass = pair.1;
          remote = codes "127.0.0.1";
          port = choose_port i.port i.env;
          protocol = resolve_proto i.proto i.env;
        })
  unfolding run_init
  run_init_inv w v info h =
      let (pl, w1, s1, h1) = >>=-eq-ok (make_places i.mkdir i.env i.data_dir) _ w h in
      let (same, files) = make_places-eq-ok i.mkdir i.env i.data_dir w s1 in
      let (generated, w2, s2, h2) =
        >>=-eq-ok (with_files no_pki (ensure_pki C i.draws pl.data_dir)) _ w1 h1 in
      let (pair, w3, s3, h3) =
        >>=-eq-ok
          (with_files no_creds
            (ensure_creds i.user_bytes i.pass_bytes i.creds_write (creds_path pl.data_dir)))
          _ w2 h2 in
      let (made, _) = with_files-eq-ok no_pki (ensure_pki C i.draws pl.data_dir) w1 s2 in
      let (got, _) =
        with_files-eq-ok no_creds
          (ensure_creds i.user_bytes i.pass_bytes i.creds_write (creds_path pl.data_dir)) w2 s3 in
      let (result, last) = finished-eq-ok h3 in
      (
        generated,
        pair,
        (
          w2.files,
          subst (λ (t : FileSystem). ensure_pki C i.draws the_dir t ≡ (w2.files, ok generated))
              files (ap (λ (t : Places). ensure_pki C i.draws t.data_dir w1.files) same ∙ made),
          ap
                (λ (t : Places).
                  ensure_creds i.user_bytes i.pass_bytes i.creds_write (creds_path t.data_dir)
                    w2.files)
                same
              ∙ got
              ∙ (λ k. ((last k).files, ok pair)),
        ),
        sym result,
      )

  pub prepare_inv :
      (w v : World) (q : Prepared)
      → prepare C i w ≡ (v, ok q)
      → (generated : Paths) × (pair : Text × Text) × Provided w.files v.files generated pair
        × (q.paths.ca_cert ≡ generated.ca_cert)
        × (q.creds ≡ pair)
        × (q.port ≡ choose_port i.port i.env)
        × (q.proto ≡ resolve_proto i.proto i.env)
  unfolding prepare find_openvpn
  prepare_inv w v q h =
      let (_, w1, s1, h1) = >>=-eq-ok (lift_result bad_params (parse_params i.env)) _ w h in
      let (_, w2, s2, h2) =
        >>=-eq-ok
          (lift_result parent_gone (die_with_parent i.gaps i.reaper i.prctl_errno i.kernel).1) _ w1
          h1 in
      let (pl, w3, s3, h3) = >>=-eq-ok (make_places i.mkdir i.env i.data_dir) _ w2 h2 in
      let (generated, w4, s4, h4) =
        >>=-eq-ok (with_files no_pki (ensure_pki C i.draws pl.data_dir)) _ w3 h3 in
      let (exe, w5, s5, h5) = >>=-eq-ok (lift_option no_executable i.executable) _ w4 h4 in
      let (_, w6, s6, h6) = >>=-eq-ok (find_openvpn i.env exe) _ w5 h5 in
      let (pair, w7, s7, h7) =
        >>=-eq-ok
          (with_files no_creds
            (ensure_creds i.user_bytes i.pass_bytes i.creds_write (creds_path pl.data_dir)))
          _ w6 h6 in
      let (_, w8, s8, h8) = >>=-eq-ok (lift_result bad_addresses (server_ip _)) _ w7 h7 in
      let before : w ≡ w2 =
        (lift_result-eq-ok bad_params (parse_params i.env) s1).1
        ∙ (lift_result-eq-ok parent_gone (die_with_parent i.gaps i.reaper i.prctl_errno i.kernel).1
            s2).1 in
      let between : w4 ≡ w6 =
        (lift_option-eq-ok no_executable i.executable s5).1 ∙ (lift_option-eq-ok no_tool _ s6).1 in
      let (same, files) = make_places-eq-ok i.mkdir i.env i.data_dir w2 s3 in
      let (made, _) = with_files-eq-ok no_pki (ensure_pki C i.draws pl.data_dir) w3 s4 in
      let (got, _) =
        with_files-eq-ok no_creds
          (ensure_creds i.user_bytes i.pass_bytes i.creds_write (creds_path pl.data_dir)) w6 s7 in
      let (result, last) = finished-eq-ok h8 in
      let after : w7 ≡ v = (lift_result-eq-ok bad_addresses (server_ip _) s8).1 ∙ last in
      (
        generated,
        pair,
        (
          w4.files,
          subst (λ (t : FileSystem). ensure_pki C i.draws the_dir t ≡ (w4.files, ok generated))
              (files ∙ ap (λ (t : World). t.files) (sym before))
              (ap (λ (t : Places). ensure_pki C i.draws t.data_dir w3.files) same ∙ made),
          ap
                (λ (t : Places).
                  ensure_creds i.user_bytes i.pass_bytes i.creds_write (creds_path t.data_dir)
                    w4.files)
                same
              ∙ ap
                  (λ (t : World).
                    ensure_creds i.user_bytes i.pass_bytes i.creds_write (creds_path pl.data_dir)
                      t.files)
                  between
              ∙ got
              ∙ (λ k. ((after k).files, ok pair)),
        ),
        ap (λ (t : Prepared). t.paths.ca_cert) (sym result),
        ap (λ (t : Prepared). t.creds) (sym result),
        ap (λ (t : Prepared). t.port) (sym result),
        ap (λ (t : Prepared). t.proto) (sym result),
      )
