-- ===== src/Setup/Run.antt =====
-- run of src/ocbridge/main.go up to its event loop.
pub mod Writes
pub mod Files
pub mod Failures
pub mod End
use openconnect_ubuntu_touch.Common.{
  ℕ, Bool, true, false, List, [], ◌∷◌, ◌++◌, Option, none, some, Result, ok, err, if◌then◌else◌,
}
use openconnect_ubuntu_touch.Common.Int.{ℤ}
use openconnect_ubuntu_touch.Common.Text.{Text, codes}
use openconnect_ubuntu_touch.Strconv.{itoa}
use openconnect_ubuntu_touch.FilePath.{join, dir}
use openconnect_ubuntu_touch.Lines.{newline}
use openconnect_ubuntu_touch.Files.{FileSystem, Outcome, os_write, write_file}
use openconnect_ubuntu_touch.Net.Ip.{Ip4}
use openconnect_ubuntu_touch.Params.{Params}
use openconnect_ubuntu_touch.Params.Env.{Environment, parse_params}
use openconnect_ubuntu_touch.Params.Addresses.{server_ip}
use openconnect_ubuntu_touch.Config.{Paths, build_server_config, build_ccd}
use openconnect_ubuntu_touch.Creds.{ensure_creds}
use openconnect_ubuntu_touch.Pki.{Crypto, Draws, ensure_pki}
use openconnect_ubuntu_touch.Parent.{Kernel, Gaps, die_with_parent}
use openconnect_ubuntu_touch.Descriptors.{FdError}
use openconnect_ubuntu_touch.Status.{Status, Change, update}
use openconnect_ubuntu_touch.Session.{started, came_up}
use openconnect_ubuntu_touch.Setup.{Places, paths, choose_port, resolve_proto, lookup_tool}
unfoldable pub use openconnect_ubuntu_touch.Setup.Watch.{publish}
use openconnect_ubuntu_touch.Setup.Watch.{WatchedLine, watch_meanwhile}
use openconnect_ubuntu_touch.Setup.World.{
  World, running, killed, RunError, bad_params, parent_gone, no_dirs, no_pki, no_executable,
  no_tool, no_creds, bad_addresses, no_pid_file, no_socketpair, no_config_file, no_ccd_file, no_log,
  not_started, no_vpn_conn, no_tun_conn, Step, ◌>>=◌, ◌>>◌, finished, lift_result, lift_option,
  with_files, with_write,
}

-- What one run meets: its environment and flags, and what each call of the system gives.
pub record Inputs (C : Crypto) : Type 0 where
  pub env : Environment
  pub data_dir : Text
  pub port : ℤ
  pub proto : Text
  pub mkdir : Text → Bool
  pub gaps : Gaps
  pub reaper : ℕ
  pub prctl_errno : Option Text
  pub kernel : Kernel
  pub draws : Draws C
  pub executable : Option Text
  pub user_bytes : Option (List ℕ)
  pub pass_bytes : Option (List ℕ)
  pub creds_write : Outcome
  pub now : ℤ
  pub status_now : ℤ
  pub up_now : ℤ
  pub status_write : Outcome
  pub pid : ℕ
  pub pid_write : Outcome
  pub socketpair_ok : Bool
  pub config_write : Outcome
  pub ccd_write : Outcome
  pub pipe_ok : Bool
  pub log_ok : Bool
  pub start_ok : Bool
  pub early : List WatchedLine
  pub vpn_conn : Result FdError ℕ
  pub tun_conn : Result FdError ℕ
  pub up_write : Outcome

-- What is settled before the status is published for the first time.
pub record Prepared : Type 0 where
  pub params : Params
  pub places : Places
  pub port : ℤ
  pub proto : Text
  pub paths : Paths
  pub openvpn : Text
  pub creds : Text × Text
  pub server : Ip4

-- `paths`, as a step.
unfoldable pub make_places : (Text → Bool) → Environment → Text → Step Places
make_places mkdir e flag w =
    let r = paths mkdir e flag in lift_option no_dirs r.1 (record w { dirs = w.dirs ++ r.0 })

-- `dirOfExecutable()`, from what os.Executable gives.
abbrev pub dir_of_executable : Text → Text
dir_of_executable exe = dir exe

-- `WritePidFile(path)`
abbrev pub write_pid_file : ℕ → Outcome → Text → FileSystem → FileSystem × Bool
write_pid_file pid o path = write_file o path (itoa pid ++ newline ∷ []) 0o644

-- `lookupTool(exeDir, "openvpn", "OCBRIDGE_OPENVPN")`
unfoldable pub find_openvpn : Environment → Text → Step Text
find_openvpn e exe w =
    lift_option no_tool
      (lookup_tool w.files (dir_of_executable exe) (codes "openvpn") (e (codes "OCBRIDGE_OPENVPN")))
      w

-- A call of the system that works or does not.
abbrev pub must : RunError → Bool → Step (Unit {0})
must e true w = (w, ok tt)
must e false w = (w, err e)

-- `cmd.Start()`
unfoldable pub start_child : Bool → Step (Unit {0})
start_child true w = (record w { child = running }, ok tt)
start_child false w = (w, err not_started)

-- A connection; without it the process is killed.
unfoldable pub adopt : (FdError → RunError) → Result FdError ℕ → Step ℕ
adopt wrap (ok n) w = (w, ok n)
adopt wrap (err e) w = (record w { child = killed }, err (wrap e))

-- os.OpenFile of the log, which is emptied.
unfoldable pub open_log : Bool → Text → FileSystem → FileSystem × Bool
open_log works path fs = if works then (os_write path [] 0o600 fs, true) else (fs, false)

abbrev pub creds_path : Text → Text
creds_path dd = join (dd ∷ codes "vpn-creds" ∷ [])

abbrev pub ccd_path : Text → Text
ccd_path dd = join (dd ∷ codes "ccd" ∷ [])

module _ (C : Crypto) (i : Inputs C) where
  -- The paths for the configuration.
  abbrev pub config_paths : Paths → Text → Text → Paths
  config_paths generated dd exe = record generated {
    ccd_dir = ccd_path dd;
    auth_helper = exe;
    creds_file = creds_path dd;
  }

  -- run, from ParseParams to ServerIP.
  unfoldable pub prepare : Step Prepared
  prepare = do
    p ← lift_result bad_params (parse_params i.env)
    lift_result parent_gone (die_with_parent i.gaps i.reaper i.prctl_errno i.kernel).1
    places ← make_places i.mkdir i.env i.data_dir
    generated ← with_files no_pki (ensure_pki C i.draws places.data_dir)
    exe ← lift_option no_executable i.executable
    openvpn ← find_openvpn i.env exe
    creds ←
        with_files no_creds
          (ensure_creds i.user_bytes i.pass_bytes i.creds_write (creds_path places.data_dir))
    server ← lift_result bad_addresses (server_ip p)
    finished (record {
      params = p;
      places = places;
      port = choose_port i.port i.env;
      proto = resolve_proto i.proto i.env;
      paths = config_paths generated places.data_dir exe;
      openvpn = openvpn;
      creds = creds;
      server = server;
    })

  module _ (encode : Status → Text) (q : Prepared) where
    abbrev pub status_path : Text
    status_path = join (q.places.run_dir ∷ codes "status.json" ∷ [])

    abbrev pub config_path : Text
    config_path = join (q.places.data_dir ∷ codes "server.conf" ∷ [])

    abbrev pub default_path : Text
    default_path = join (q.paths.ccd_dir ∷ codes "DEFAULT" ∷ [])

    abbrev pub log_path : Text
    log_path = join (q.places.run_dir ∷ codes "openvpn.log" ∷ [])

    abbrev pub pid_path : Text
    pid_path = join (q.places.run_dir ∷ codes "ocbridge.pid" ∷ [])

    -- The first status, the pid file and the socket pair.
    unfoldable pub announce : Step (Unit {0})
    announce = do
      publish encode status_path (started q.params i.now q.port q.creds q.paths q.proto)
          i.status_now i.status_write
      with_write no_pid_file (write_pid_file i.pid i.pid_write pid_path)
      must no_socketpair i.socketpair_ok

    -- The files for openvpn; its end of the socket pair is descriptor 3 there.
    unfoldable pub write_config : Step Text
    write_config = do
      config ←
          lift_result bad_addresses (build_server_config q.params q.paths q.server 3 q.port q.proto)
      with_write no_config_file (write_file i.config_write config_path config 0o600)
      with_write no_ccd_file (write_file i.ccd_write default_path (build_ccd q.params) 0o600)
      finished config

    -- The process, the lines that the watcher reads before the end of this step, the two connections and the
    -- state "up".
    unfoldable pub start_openvpn : Step (Unit {0})
    start_openvpn = do
      must not_started i.pipe_ok
      with_write no_log (open_log i.log_ok log_path)
      start_child i.start_ok
      watch_meanwhile encode status_path log_path i.early
      vpn ← adopt no_vpn_conn i.vpn_conn
      tun ← adopt no_tun_conn i.tun_conn
      publish encode status_path came_up i.up_now i.up_write

    -- run, from the first status to the state "up".
    unfoldable pub launch : Step Text
    launch = do announce; config ← write_config; start_openvpn; finished config
