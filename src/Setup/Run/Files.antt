-- ===== src/Setup/Run/Files.antt =====
-- The files behind the set-up of run.
use openconnect_ubuntu_touch.Common.{◌≡◌, refl, sym, ap, ◌∙◌, [], ◌∷◌, ◌++◌, some, ok, arith}
use openconnect_ubuntu_touch.Common.Text.{Text, codes, text_eq}
use openconnect_ubuntu_touch.Strconv.{itoa}
use openconnect_ubuntu_touch.FilePath.{last_name}
use openconnect_ubuntu_touch.FilePath.Names.{IsName, last_name-join}
use openconnect_ubuntu_touch.Lines.{newline}
use openconnect_ubuntu_touch.Files.{FileSystem, read_file, write_file}
use openconnect_ubuntu_touch.Files.Contents.{text_of, read_file-text_of}
use openconnect_ubuntu_touch.Config.{build_server_config, build_ccd}
use openconnect_ubuntu_touch.Pki.{Crypto}
use openconnect_ubuntu_touch.Status.{Status}
use openconnect_ubuntu_touch.Session.{started, came_up}
use openconnect_ubuntu_touch.Setup.World.{
  World, bad_addresses, no_pid_file, no_config_file, no_ccd_file, no_log, no_socketpair,
  not_started, no_vpn_conn, no_tun_conn, with_write, lift_result, >>=-eq-ok, lift_result-eq-ok,
  finished-eq-ok,
}
use openconnect_ubuntu_touch.Setup.Run.{
  Inputs, Prepared, publish, must, start_child, adopt, open_log, status_path, config_path,
  default_path, log_path, pid_path, announce, write_config, start_openvpn, launch,
}
use openconnect_ubuntu_touch.Setup.Watch.{watch_meanwhile}
use openconnect_ubuntu_touch.Setup.Run.Writes.{
  Apart, Keeps, must-eq-ok, start_child-eq-ok, adopt-eq-ok, write_step, log_step, publish_step,
  watch_step,
}

-- The names of the files that are written from the first status on.
abbrev pub IsElse : Text → Type 0
IsElse m =
    Apart m (codes "status.json")
    × Apart m (codes "ocbridge.pid")
    × Apart m (codes "server.conf")
    × Apart m (codes "DEFAULT")
    × Apart m (codes "openvpn.log")

status-IsName : IsName (codes "status.json")
unfolding text_eq
status-IsName = record { part = omega arith; nonempty = refl; not_dot = refl; not_dots = refl }

pid-IsName : IsName (codes "ocbridge.pid")
unfolding text_eq
pid-IsName = record { part = omega arith; nonempty = refl; not_dot = refl; not_dots = refl }

config-IsName : IsName (codes "server.conf")
unfolding text_eq
config-IsName = record { part = omega arith; nonempty = refl; not_dot = refl; not_dots = refl }

default-IsName : IsName (codes "DEFAULT")
unfolding text_eq
default-IsName = record { part = omega arith; nonempty = refl; not_dot = refl; not_dots = refl }

log-IsName : IsName (codes "openvpn.log")
unfolding text_eq
log-IsName = record { part = omega arith; nonempty = refl; not_dot = refl; not_dots = refl }

-- The text of a file that no later write touches.
kept_text :
    {m t : Text} (w v : World) (p : Text)
    → last_name p ≡ m
    → Keeps m w v
    → read_file w.files p ≡ some t
    → read_file v.files p ≡ some t
kept_text w v p hp keeps h =
    read_file-text_of v.files p ∙ ap text_of (keeps p hp) ∙ sym (read_file-text_of w.files p) ∙ h

module _ (C : Crypto) (i : Inputs C) (encode : Status → Text) (q : Prepared) where
  status_named : last_name (status_path C i encode q) ≡ codes "status.json"
  status_named = last_name-join q.places.run_dir (codes "status.json") status-IsName

  announce-Keeps :
      {u : Unit {0}} (w v : World)
      → announce C i encode q w ≡ (v, ok u)
      → (m : Text) → IsElse m
      → Keeps m w v
  unfolding announce
  announce-Keeps w v h m (status, pid, _, _, _) x hx =
      let (_, w1, s1, h1) =
        >>=-eq-ok
          (publish encode (status_path C i encode q)
            (started q.params i.now q.port q.creds q.paths q.proto) i.status_now i.status_write)
          _ w h in
      let (_, w2, s2, h2) =
        >>=-eq-ok
          (with_write no_pid_file
            (write_file i.pid_write (pid_path C i encode q) (itoa i.pid ++ newline ∷ []) 0o644))
          _ w1 h1 in
      let first =
        publish_step encode (status_path C i encode q) _ i.status_now i.status_write w
          (codes "status.json") status_named s1 in
      let second =
        write_step no_pid_file i.pid_write (pid_path C i encode q) _ 0o644 w1 (codes "ocbridge.pid")
          (last_name-join q.places.run_dir (codes "ocbridge.pid") pid-IsName) s2 in
      let same = (must-eq-ok no_socketpair i.socketpair_ok h2).1 in
      ap (λ (t : World). t.files x) (sym same) ∙ second.0 m pid x hx ∙ first.0 m status x hx

  write_config_files :
      (w v : World) (config : Text)
      → write_config C i encode q w ≡ (v, ok config)
      → (build_server_config q.params q.paths q.server 3 q.port q.proto ≡ ok config)
        × (read_file v.files (config_path C i encode q) ≡ some config)
        × (read_file v.files (default_path C i encode q) ≡ some (build_ccd q.params))
        × ((m : Text) → Apart m (codes "server.conf") → Apart m (codes "DEFAULT") → Keeps m w v)
  unfolding write_config text_eq
  write_config_files w v config h =
      let (cfg, w1, s1, h1) =
        >>=-eq-ok
          (lift_result bad_addresses
            (build_server_config q.params q.paths q.server 3 q.port q.proto))
          _ w h in
      let (_, w2, s2, h2) =
        >>=-eq-ok
          (with_write no_config_file
            (write_file i.config_write (config_path C i encode q) cfg 0o600))
          _ w1 h1 in
      let (_, w3, s3, h3) =
        >>=-eq-ok
          (with_write no_ccd_file
            (write_file i.ccd_write (default_path C i encode q) (build_ccd q.params) 0o600))
          _ w2 h2 in
      let (built, same) =
        lift_result-eq-ok bad_addresses
          (build_server_config q.params q.paths q.server 3 q.port q.proto) s1 in
      let named = last_name-join q.places.data_dir (codes "server.conf") config-IsName in
      let (keeps2, text2, _) =
        write_step no_config_file i.config_write (config_path C i encode q) cfg 0o600 w1
          (codes "server.conf") named s2 in
      let (keeps3, text3, _) =
        write_step no_ccd_file i.ccd_write (default_path C i encode q) (build_ccd q.params) 0o600 w2
          (codes "DEFAULT") (last_name-join q.paths.ccd_dir (codes "DEFAULT") default-IsName) s3 in
      let (result, last) = finished-eq-ok h3 in
      (
        built ∙ ap (λ (t : Text). ok t) result,
        ap (λ (t : World). read_file t.files (config_path C i encode q)) (sym last)
            ∙ kept_text w2 w3 (config_path C i encode q) named
                (keeps3 (codes "server.conf") (refl, refl)) text2
            ∙ ap (λ (t : Text). some t) result,
        ap (λ (t : World). read_file t.files (default_path C i encode q)) (sym last) ∙ text3,
        λ m in_config in_default x hx.
            ap (λ (t : World). t.files x) (sym last)
            ∙ keeps3 m in_default x hx
            ∙ keeps2 m in_config x hx
            ∙ ap (λ (t : World). t.files x) (sym same),
      )

  start_openvpn-Keeps :
      {u : Unit {0}} (w v : World)
      → start_openvpn C i encode q w ≡ (v, ok u)
      → (v.status.state ≡ codes "up")
        × ((m : Text) → Apart m (codes "openvpn.log") → Apart m (codes "status.json") → Keeps m w v)
  unfolding start_openvpn came_up
  start_openvpn-Keeps w v h =
      let (_, w1, s1, h1) = >>=-eq-ok (must not_started i.pipe_ok) _ w h in
      let (_, w2, s2, h2) =
        >>=-eq-ok (with_write no_log (open_log i.log_ok (log_path C i encode q))) _ w1 h1 in
      let (_, w3, s3, h3) = >>=-eq-ok (start_child i.start_ok) _ w2 h2 in
      let (_, wl, sl, hl) =
        >>=-eq-ok
          (watch_meanwhile encode (status_path C i encode q) (log_path C i encode q) i.early) _ w3
          h3 in
      let (_, w4, s4, h4) = >>=-eq-ok (adopt no_vpn_conn i.vpn_conn) _ wl hl in
      let (_, w5, s5, h5) = >>=-eq-ok (adopt no_tun_conn i.tun_conn) _ w4 h4 in
      let before : w ≡ w1 = (must-eq-ok not_started i.pipe_ok s1).1 in
      let started_child : w2.files ≡ w3.files = start_child-eq-ok w2 w3 i.start_ok s3 in
      let lines =
        watch_step encode (status_path C i encode q) (log_path C i encode q) i.early w3
          (codes "status.json") (codes "openvpn.log") status_named
          (last_name-join q.places.run_dir (codes "openvpn.log") log-IsName) sl in
      let adopted : wl.files ≡ w5.files =
        ap (λ (t : World). t.files)
          (adopt-eq-ok no_vpn_conn i.vpn_conn s4 ∙ adopt-eq-ok no_tun_conn i.tun_conn s5) in
      let log =
        log_step i.log_ok (log_path C i encode q) w1 (codes "openvpn.log")
          (last_name-join q.places.run_dir (codes "openvpn.log") log-IsName) s2 in
      let (keeps, status) =
        publish_step encode (status_path C i encode q) came_up i.up_now i.up_write w5
          (codes "status.json") status_named h5 in
      (
        ap (λ (t : Status). t.state) status,
        λ m in_log in_status x hx.
            keeps m in_status x hx
            ∙ ap (λ (t : FileSystem). t x) (sym adopted)
            ∙ lines m in_status in_log x hx
            ∙ ap (λ (t : FileSystem). t x) (sym started_child)
            ∙ log m in_log x hx
            ∙ ap (λ (t : World). t.files x) (sym before),
      )

-- If run gets from its first status to the state "up", server.conf holds the configuration and DEFAULT
-- the client's directives that are built from the tunnel description, the status says "up", and no file
-- has changed whose name is not status.json, ocbridge.pid, server.conf, DEFAULT or openvpn.log, nor one of
-- these with .tmp behind it.
pub launch_files :
    (C : Crypto) (i : Inputs C) (encode : Status → Text) (q : Prepared) (w w' : World)
    (config : Text)
    → launch C i encode q w ≡ (w', ok config)
    → (build_server_config q.params q.paths q.server 3 q.port q.proto ≡ ok config)
      × (read_file w'.files (config_path C i encode q) ≡ some config)
      × (read_file w'.files (default_path C i encode q) ≡ some (build_ccd q.params))
      × (w'.status.state ≡ codes "up")
      × ((m : Text) → IsElse m → Keeps m w w')
unfolding launch text_eq
launch_files C i encode q w w' config h =
    let (_, w1, s1, h1) = >>=-eq-ok (announce C i encode q) _ w h in
    let (cfg, w2, s2, h2) = >>=-eq-ok (write_config C i encode q) _ w1 h1 in
    let (_, w3, s3, h3) = >>=-eq-ok (start_openvpn C i encode q) _ w2 h2 in
    let (result, last) = finished-eq-ok h3 in
    let first = announce-Keeps C i encode q w w1 s1 in
    let (built, server_text, client_text, second) = write_config_files C i encode q w1 w2 cfg s2 in
    let (up, third) = start_openvpn-Keeps C i encode q w2 w3 s3 in
    (
      built ∙ ap (λ (t : Text). ok t) result,
      ap (λ (t : World). read_file t.files (config_path C i encode q)) (sym last)
          ∙ kept_text w2 w3 (config_path C i encode q)
              (last_name-join q.places.data_dir (codes "server.conf") config-IsName)
              (third (codes "server.conf") (refl, refl) (refl, refl)) server_text
          ∙ ap (λ (t : Text). some t) result,
      ap (λ (t : World). read_file t.files (default_path C i encode q)) (sym last)
          ∙ kept_text w2 w3 (default_path C i encode q)
              (last_name-join q.paths.ccd_dir (codes "DEFAULT") default-IsName)
              (third (codes "DEFAULT") (refl, refl) (refl, refl)) client_text,
      ap (λ (t : World). t.status.state) (sym last) ∙ up,
      λ m (status, pid, server, client, log) x hx.
          ap (λ (t : World). t.files x) (sym last)
          ∙ third m log status x hx
          ∙ second m server client x hx
          ∙ first m (status, pid, server, client, log) x hx,
    )
