-- ===== src/Samples/Setup.antt =====
-- Paths, a set-up of the settings and the run that follows.
use openconnect_ubuntu_touch.Net.Mask.{mask_ip, mask_size}
use openconnect_ubuntu_touch.Params.Words.{ip2u32}
use openconnect_ubuntu_touch.Params.Addresses.{broadcast_of, pool_range, server_ip}
use openconnect_ubuntu_touch.Common.{
  ◌≡◌, ◌≢◌, ◌⊎◌, refl, arith, true, false, none, some, Result, ok, err, [], ◌∷◌, replicate,
  if◌then◌else◌,
}
use openconnect_ubuntu_touch.Setup.Watch.{watch_meanwhile}
use openconnect_ubuntu_touch.Common.Int.{pos}
use openconnect_ubuntu_touch.Common.Text.{Text, codes, text_eq, is_empty}
use openconnect_ubuntu_touch.FilePath.{clean, join, base, dir, components, last_name, path_of}
use openconnect_ubuntu_touch.FilePath.Names.{IsName}
use openconnect_ubuntu_touch.Files.{read_file, put, written, rename_fails, write_file}
use openconnect_ubuntu_touch.Params.Env.{
  Environment, parse_params, parse_fd, env, parse_ip4, ip4_of, parse_mtu, parse_dns, parse_routes,
  rounds_of, parse_route,
}
use openconnect_ubuntu_touch.Config.{build_server_config, build_ccd}
use openconnect_ubuntu_touch.Parent.{die_with_parent}
use openconnect_ubuntu_touch.Pki.{pki_paths, ensure_pki, complete, renew, generate, write_material}
use openconnect_ubuntu_touch.Status.{Status}
use openconnect_ubuntu_touch.Setup.{
  runtime_dir, make_dirs, paths, data_dir_of, choose_port, resolve_proto, lookup_tool,
}
use openconnect_ubuntu_touch.Setup.Dirs.{runtime_dir_settled}
use openconnect_ubuntu_touch.Setup.World.{World, running, RunError, idle, ◌>>=◌}
use openconnect_ubuntu_touch.Setup.Run.{
  Inputs, Prepared, config_path, default_path, prepare, launch, announce, open_log, publish,
  start_openvpn, write_config, make_places, find_openvpn, adopt, start_child,
}
use openconnect_ubuntu_touch.Setup.Run.Writes.{Keeps}
use openconnect_ubuntu_touch.Setup.Run.Files.{IsElse, launch_files}
use openconnect_ubuntu_touch.Setup.Run.Failures.{launch_failed}
use openconnect_ubuntu_touch.Descriptors.{no_conn}
use openconnect_ubuntu_touch.Setup.Init.{SetupInfo, run_init}
use openconnect_ubuntu_touch.Setup.Init.Agree.{run_init-prepare}
use openconnect_ubuntu_touch.Samples.Rig.{rig_env, rig, server}
use openconnect_ubuntu_touch.Samples.Pki.{toy, pki_draws}
use openconnect_ubuntu_touch.Samples.Status.{blank}
use openconnect_ubuntu_touch.Creds.{
  ensure_creds, stored_creds, two_lines, fresh_creds, token, save_creds,
}
use openconnect_ubuntu_touch.Creds.Check.{env_or}
use openconnect_ubuntu_touch.Lines.{split_lines}
use openconnect_ubuntu_touch.Strconv.{atoi, itoa}
use openconnect_ubuntu_touch.Strings.{trim_space, fields}
use openconnect_ubuntu_touch.Net.Parse.{parse_ip, to4}

clean_dots : clean (codes "/run//user/../x/.") ≡ codes "/run/x"
unfolding clean path_of components text_eq
clean_dots = refl

join_empty : join ([] ∷ codes "a" ∷ [] ∷ codes "../b" ∷ []) ≡ codes "b"
unfolding join clean path_of components text_eq
join_empty = refl

-- The session's environment, and the one that the app hands down with its own directory.
abbrev outer_env : Environment
outer_env k = if text_eq k (codes "XDG_RUNTIME_DIR") then codes "/run/user/32011/" else rig_env k

abbrev inner_env : Environment
inner_env k =
    if text_eq k (codes "XDG_RUNTIME_DIR") then codes "/run/user/32011/ocvpn" else rig_env k

ocvpn-IsName : IsName (codes "ocvpn")
unfolding text_eq
ocvpn-IsName = record { part = omega arith; nonempty = refl; not_dot = refl; not_dots = refl }

outer_set : is_empty (outer_env (codes "XDG_RUNTIME_DIR")) ≡ false
unfolding text_eq
outer_set = refl

handed_down :
    inner_env (codes "XDG_RUNTIME_DIR") ≡ runtime_dir outer_env (codes "ocvpn") (codes "d")
unfolding text_eq runtime_dir base last_name join clean path_of components
handed_down = refl

runtime_dir_settled_example :
    (base (runtime_dir outer_env (codes "ocvpn") (codes "d")) ≡ codes "ocvpn")
    × (runtime_dir inner_env (codes "ocvpn") (codes "d")
        ≡ runtime_dir outer_env (codes "ocvpn") (codes "d"))
runtime_dir_settled_example =
    runtime_dir_settled outer_env inner_env (codes "ocvpn") (codes "d") outer_set ocvpn-IsName
      handed_down

abbrev pub inputs : Inputs toy
inputs = record {
  env = outer_env;
  data_dir = codes "/data";
  port = pos 0;
  proto = [];
  mkdir = λ d. true;
  gaps = record { before_first = false; before_prctl = false; before_check = false };
  reaper = 1;
  prctl_errno = none;
  kernel = record { parent = 812; alive = true; armed = false; told = false };
  draws = pki_draws;
  executable = some (codes "/click/bin/ocbridge");
  user_bytes = some (replicate 6 9);
  pass_bytes = some (replicate 15 23);
  creds_write = written;
  now = pos 1700000000;
  status_now = pos 1700000000;
  up_now = pos 1700000001;
  status_write = rename_fails;
  pid = 907;
  pid_write = written;
  socketpair_ok = true;
  config_write = written;
  ccd_write = written;
  pipe_ok = true;
  log_ok = true;
  start_ok = true;
  early =
      record {
        text = codes "Peer Connection Initiated";
        now = pos 1700000000;
        outcome = rename_fails;
      }
      ∷ [];
  vpn_conn = ok 11;
  tun_conn = ok 12;
  up_write = written;
}

abbrev pub encode : Status → Text
encode s = s.state

abbrev prepared : Prepared
prepared = record {
  params = rig;
  places = record {
    data_dir = codes "/data";
    run_dir = codes "/run/user/32011/ocvpn.franzthiemann";
  };
  port = pos 1194;
  proto = codes "tcp";
  paths = record (pki_paths (codes "/data")) {
    ccd_dir = codes "/data/ccd";
    auth_helper = codes "/click/bin/ocbridge";
    creds_file = codes "/data/vpn-creds";
  };
  openvpn = codes "/click/bin/openvpn";
  creds = (codes "ubt-jjjjjj", codes "zzzzzzzzzzzzzzz");
  server = server;
}

-- The click's tools alone.
abbrev pub fresh : World
fresh = record {
  files =
      put (λ q. none) (codes "/click/bin/openvpn") (some (record { content = []; mode = 0o755 }));
  status = blank;
  dirs = [];
  child = idle;
}

abbrev text_of_result : {E : Type 0} → Result E Text → Text
text_of_result (ok t) = t
text_of_result (err e) = []

abbrev config : Text
config = text_of_result (build_server_config rig prepared.paths server 3 (pos 1194) (codes "tcp"))

abbrev launched : World
launched = (launch toy inputs encode prepared fresh).0

launch_ends : launch toy inputs encode prepared fresh ≡ (launched, ok config)
unfolding launch ◌>>=◌ announce publish write_file write_config build_server_config pool_range
    broadcast_of ip2u32 mask_ip mask_size start_openvpn open_log start_child adopt watch_meanwhile
launch_ends = refl

launch_files_example :
    (build_server_config rig prepared.paths server 3 (pos 1194) (codes "tcp") ≡ ok config)
    × (read_file launched.files (config_path toy inputs encode prepared) ≡ some config)
    × (read_file launched.files (default_path toy inputs encode prepared) ≡ some (build_ccd rig))
    × (launched.status.state ≡ codes "up")
    × ((m : Text) → IsElse m → Keeps m fresh launched)
launch_files_example = launch_files toy inputs encode prepared fresh launched config launch_ends

-- The descriptor that openconnect hands over is no socket.
abbrev no_vpn : Inputs toy
no_vpn = record inputs { vpn_conn = err no_conn }

launch_failed_example :
    ((text : Text) × ((launch toy no_vpn encode prepared fresh).1 ≡ ok text)
      × ((launch toy no_vpn encode prepared fresh).0.status.state ≡ codes "up")
      × ((launch toy no_vpn encode prepared fresh).0.child ≡ running))
    ⊎ ((e : RunError) × ((launch toy no_vpn encode prepared fresh).1 ≡ err e)
        × (((launch toy no_vpn encode prepared fresh).0.status.state ≡ codes "starting")
            ⊎ ((launch toy no_vpn encode prepared fresh).0.status.state ≡ codes "up"))
        × ((launch toy no_vpn encode prepared fresh).0.status.error_text ≡ [])
        × ((launch toy no_vpn encode prepared fresh).0.child ≢ running))
launch_failed_example = launch_failed toy no_vpn encode prepared fresh refl

-- The settings that are shown before the first run.
abbrev pub info : SetupInfo
info = record {
  ca_cert = (pki_paths (codes "/data")).ca_cert;
  vpn_user = codes "ubt-jjjjjj";
  vpn_pass = codes "zzzzzzzzzzzzzzz";
  remote = codes "127.0.0.1";
  port = pos 1194;
  protocol = codes "tcp";
}

abbrev pub shown : World
shown = (run_init toy inputs fresh).0

-- A run with other random bytes and a disk that fails.
abbrev run_inputs : Inputs toy
run_inputs = record inputs { user_bytes = none; creds_write = rename_fails }

abbrev ready : World
ready = (prepare toy run_inputs shown).0

pub init_ends : run_init toy inputs fresh ≡ (shown, ok info)
unfolding run_init make_places paths make_dirs data_dir_of runtime_dir base last_name ensure_pki
    renew generate write_material complete ensure_creds stored_creds fresh_creds token save_creds
    write_file choose_port resolve_proto env_or trim_space text_eq atoi join clean path_of
    components ◌>>=◌
init_ends = refl

prepare_ends : prepare toy run_inputs shown ≡ (ready, ok prepared)
unfolding prepare find_openvpn lookup_tool dir die_with_parent parse_params parse_fd env parse_ip4
    parse_ip to4 ip4_of mask_ip parse_mtu parse_dns parse_routes fields rounds_of parse_route itoa
    server_ip run_init make_places paths make_dirs data_dir_of runtime_dir base last_name ensure_pki
    renew generate write_material complete ensure_creds stored_creds two_lines split_lines
    fresh_creds token save_creds write_file choose_port resolve_proto env_or trim_space text_eq atoi
    join clean path_of components ◌>>=◌ mask_size
prepare_ends = refl

run_init-prepare_example :
    (prepared.paths.ca_cert ≡ info.ca_cert)
    × (prepared.creds ≡ (info.vpn_user, info.vpn_pass))
    × (prepared.port ≡ info.port)
    × (prepared.proto ≡ info.protocol)
    × (ready.files ≡ shown.files)
run_init-prepare_example =
    run_init-prepare toy inputs run_inputs (replicate 6 9) (replicate 15 23) fresh shown shown ready
      info prepared refl refl refl refl refl refl refl init_ends (λ m other x hx. refl) prepare_ends
