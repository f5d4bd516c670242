-- ===== src/Samples/Command.antt =====
-- The settings shown before the first run, and a client that logs in with them.
use openconnect_ubuntu_touch.Pki.{complete, ensure_pki}
use openconnect_ubuntu_touch.Strings.{trim_space}
use openconnect_ubuntu_touch.Setup.{data_dir_of, make_dirs, paths}
use openconnect_ubuntu_touch.FilePath.{clean, components, join, path_of}
use openconnect_ubuntu_touch.Common.{none}
use openconnect_ubuntu_touch.Common.{
  ℕ, ◌≡◌, ◌↔◌, refl, ap, true, some, Option, Result, ok, [], ◌∷◌, replicate, if◌then◌else◌,
}
use openconnect_ubuntu_touch.Common.Int.{pos}
use openconnect_ubuntu_touch.Common.Text.{codes, text_eq}
use openconnect_ubuntu_touch.Files.{put, written}
use openconnect_ubuntu_touch.Creds.{creds_text}
use openconnect_ubuntu_touch.Creds.Check.{env_or, read_creds}
use openconnect_ubuntu_touch.Params.Env.{Environment}
use openconnect_ubuntu_touch.Setup.World.{World, RunError, ◌>>=◌}
use openconnect_ubuntu_touch.Setup.Run.{Inputs, creds_path, make_places}
use openconnect_ubuntu_touch.Setup.Init.{SetupInfo, run_init}
use openconnect_ubuntu_touch.Setup.Init.Provided.{the_dir}
use openconnect_ubuntu_touch.Setup.Bridge.{Ending}
use openconnect_ubuntu_touch.Setup.Command.{
  Returned, exit_status, printed, run_command, main_process,
}
use openconnect_ubuntu_touch.Setup.Command.Accepted.{init_flags, auth_flags, main_process-init}
use openconnect_ubuntu_touch.Samples.Pki.{toy}
use openconnect_ubuntu_touch.Samples.Setup.{inputs, fresh, encode, info, shown, init_ends}

abbrev ending : Ending
ending = record {
  late = [];
  bytes_in = 0;
  bytes_out = 0;
  in_time = true;
  now = pos 0;
  outcome = written;
  overtaken = none;
}

init_exits :
    main_process toy inputs encode [] ending (init_flags []) fresh ≡ some (shown, 0, ok (some info))
unfolding main_process run_command
init_exits = ap exits init_ends
  where
    exits : World × Result RunError SetupInfo → Option (World × ℕ × Returned)
    exits r = some ((printed r).0, exit_status (printed r).1, (printed r).1)

-- openvpn runs the helper with the variable that its configuration sets.
abbrev auth_env : Environment
auth_env k = if text_eq k (codes "OCBRIDGE_CREDS") then codes "/data/vpn-creds" else []

abbrev auth_inputs : Inputs toy
auth_inputs = record inputs { env = auth_env }

abbrev login : World
login = record shown {
  files =
      put shown.files (codes "/tmp/login")
        (some (record { content = creds_text info.vpn_user info.vpn_pass; mode = 0o600 }));
}

env_set : env_or (auth_inputs.env (codes "OCBRIDGE_CREDS")) [] ≡ creds_path (the_dir toy inputs)
unfolding join env_or data_dir_of trim_space clean text_eq path_of components
env_set = refl

kept : login.files (creds_path (the_dir toy inputs)) ≡ shown.files (creds_path (the_dir toy inputs))
unfolding run_init text_eq ◌>>=◌ make_places paths make_dirs ensure_pki complete join data_dir_of
    clean path_of components
kept = refl

main_process-init_example :
    (settings : SetupInfo) × (k : ℕ) × (later : Returned) × (◌≡◌ {A = Returned}
      (ok (some info))
      (ok (some settings)))
    × (main_process toy auth_inputs encode [] ending (auth_flags (codes "/tmp/login" ∷ [])) login
        ≡ some (login, k, later))
    × ((k ≡ 0)
        ↔ (read_creds login.files (codes "/tmp/login") ≡ ok (settings.vpn_user, settings.vpn_pass)))
main_process-init_example =
    main_process-init toy inputs auth_inputs encode [] ending [] (replicate 6 9) (replicate 15 23)
      fresh shown login (ok (some info)) (codes "/tmp/login") [] refl refl refl init_exits env_set
      kept
