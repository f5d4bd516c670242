-- ===== src/Setup.antt =====
-- What run and runInit of src/ocbridge/main.go settle first: the directories (with RuntimeDir of
-- src/ocbridge/status.go), the port, the transport and the tools.
pub mod Dirs
pub mod World
pub mod Watch
pub mod Serve
pub mod Bridge
pub mod Command
pub mod Tunnel
pub mod Run
pub mod Init
use openconnect_ubuntu_touch.Common.{
  ℕ, Bool, true, false, ◌||◌, not, Option, none, some, List, [], ◌∷◌, ◌++◌, Result, ok, err,
  if◌then◌else◌, ◌==◌,
}
use openconnect_ubuntu_touch.Common.Int.{ℤ, pos, negsuc}
use openconnect_ubuntu_touch.Common.Text.{Text, codes, text_eq, is_empty}
use openconnect_ubuntu_touch.Strconv.{atoi}
use openconnect_ubuntu_touch.FilePath.{join, base, dir}
use openconnect_ubuntu_touch.Files.{FileSystem}
use openconnect_ubuntu_touch.Params.Env.{Environment}
use openconnect_ubuntu_touch.Creds.Check.{env_or}
use openconnect_ubuntu_touch.Pki.{exists}

-- `envOr(k, def)` in an environment.
abbrev pub env_default : Environment → Text → Text → Text
env_default e k def = env_or (e k) def

-- os.UserHomeDir, with what the program takes in place of its error.
abbrev pub home_dir : Environment → Text
home_dir e = let h = e (codes "HOME") in if is_empty h then codes "/home/phablet" else h

unfoldable pub xdg_data_home : Environment → Text
xdg_data_home e =
    let d = e (codes "XDG_DATA_HOME") in
    if not (is_empty d) then d else join (home_dir e ∷ codes ".local" ∷ codes "share" ∷ [])

-- `RuntimeDir(pkg, fallback)`
unfoldable pub runtime_dir : Environment → Text → Text → Text
runtime_dir e pkg fallback =
    let d = e (codes "XDG_RUNTIME_DIR") in
    if is_empty d
    then join (fallback ∷ codes "run" ∷ [])
    else if text_eq (base d) pkg
    then d
    else join (d ∷ pkg ∷ [])

abbrev pub package_of : Environment → Text
package_of e = env_default e (codes "OCBRIDGE_PKG") (codes "ocvpn.franzthiemann")

unfoldable pub data_dir_of : Environment → Text → Text
data_dir_of e flag =
    if is_empty flag
    then env_default e (codes "OCBRIDGE_DATA_DIR") (join (xdg_data_home e ∷ package_of e ∷ []))
    else flag

-- MkdirAll of one directory after the other, up to the first that fails: those that were made, and
-- whether all were.
unfoldable pub make_dirs : (Text → Bool) → List Text → List Text × Bool
make_dirs mkdir [] = ([], true)
make_dirs mkdir (d ∷ ds) =
    let rest = make_dirs mkdir ds in if mkdir d then (d ∷ rest.0, rest.1) else ([], false)

-- The data directory and the runtime directory.
pub record Places : Type 0 where
  pub data_dir : Text
  pub run_dir : Text

abbrev pub dirs_of : Environment → Text → Places
dirs_of e flag =
    let dd = data_dir_of e flag in
    record { data_dir = dd; run_dir = runtime_dir e (package_of e) dd }

-- `paths(dataDir)`: the directories that it made, and what it returns.
unfoldable pub paths : (Text → Bool) → Environment → Text → List Text × Option Places
paths mkdir e flag =
    let d = dirs_of e flag in
    let r = make_dirs mkdir (d.data_dir ∷ d.run_dir ∷ join (d.data_dir ∷ codes "ccd" ∷ []) ∷ []) in
    (r.0, if r.1 then some d else none)

unfoldable pub default_port : ℕ
default_port = 1194

abbrev pub is_zero : ℤ → Bool
is_zero (pos n) = n == 0
is_zero (negsuc n) = false

-- The port: the flag, or OCBRIDGE_PORT, or the default.
unfoldable pub choose_port : ℤ → Environment → ℤ
unfolding default_port
choose_port flag e =
    let sent = (atoi (env_default e (codes "OCBRIDGE_PORT") [])).val in
    let prt = if is_zero flag then sent else flag in if is_zero prt then pos default_port else prt

-- `resolveProto(flagValue)`
unfoldable pub resolve_proto : Text → Environment → Text
resolve_proto flag e =
    let v = if is_empty flag then env_default e (codes "OCBRIDGE_PROTO") [] else flag in
    if text_eq v (codes "udp") then codes "udp" else codes "tcp"

-- `lookupTool(dir, name, envVar)`, with the value of the variable.
unfoldable pub lookup_tool : FileSystem → Text → Text → Text → Option Text
lookup_tool fs from name value =
    let p = join (from ∷ name ∷ []) in
    if not (is_empty value)
    then (if exists fs value then some value else none)
    else if exists fs p
    then some p
    else none
