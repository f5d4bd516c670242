-- ===== src/Config/Read/Directives.antt =====
-- The directives in front of the routes in the text of BuildServerConfig of src/ocbridge/config.go, as a
-- reader finds them by their names.
use openconnect_ubuntu_touch.Common.{ℕ, List, [], ◌∷◌, ◌++◌, map, if◌then◌else◌}
use openconnect_ubuntu_touch.Common.Int.{ℤ}
use openconnect_ubuntu_touch.Common.Text.{Text, codes, text_eq}
use openconnect_ubuntu_touch.Strconv.{itoa, itoa_int}
use openconnect_ubuntu_touch.Net.Ip.{Ip4}
use openconnect_ubuntu_touch.Net.Parse.{format_ip}
use openconnect_ubuntu_touch.Params.{Params}
use openconnect_ubuntu_touch.Config.{Paths}
use openconnect_ubuntu_touch.Config.Read.Pushes.{values}

-- What the server is told, by directive.
abbrev pub directives : Params → Paths → Ip4 → Ip4 × Ip4 → ℕ → ℤ → Text → List (Text × Text)
directives p paths server pool tun_fd port proto =
    (codes "dev ", codes "tun")
    ∷ (codes "dev-type ", codes "tun")
    ∷ (codes "dev-node fd:", itoa tun_fd)
    ∷ (codes "ifconfig-noexec", [])
    ∷ (codes "route-noexec", [])
    ∷ (codes "mode ", codes "server")
    ∷ (codes "tls-server", [])
    ∷ (codes "topology ", codes "subnet")
    ∷ (codes "ifconfig ", format_ip server ++ (codes " " ++ format_ip p.netmask))
    ∷ (
      codes "ifconfig-pool ",
      format_ip pool.0 ++ (codes " " ++ (format_ip pool.1 ++ (codes " " ++ format_ip p.netmask))),
    )
    ∷ (codes "client-config-dir ", paths.ccd_dir)
    ∷ (codes "push \"topology ", codes "subnet\"")
    ∷ (codes "push \"route-gateway ", format_ip server ++ codes "\"")
    ∷ (codes "proto ", (if text_eq proto (codes "udp") then codes "udp" else codes "tcp-server"))
    ∷ (codes "local ", codes "127.0.0.1")
    ∷ (codes "port ", itoa_int port)
    ∷ (codes "ca ", paths.ca_cert)
    ∷ (codes "cert ", paths.server_cert)
    ∷ (codes "key ", paths.server_key)
    ∷ (codes "dh ", codes "none")
    ∷ (codes "verify-client-cert ", codes "none")
    ∷ (codes "username-as-common-name", [])
    ∷ (codes "script-security ", codes "2")
    ∷ (codes "setenv OCBRIDGE_CREDS ", paths.creds_file)
    ∷ (
      codes "auth-user-pass-verify ",
      codes "\"" ++ (paths.auth_helper ++ codes " --auth\" via-file"),
    )
    ∷ (codes "tun-mtu ", itoa p.mtu)
    ∷ (codes "push \"tun-mtu ", itoa p.mtu ++ codes "\"")
    ∷ []

abbrev pub each_values : List (Text × Text) → List Text → List (List Text)
each_values [] ls = []
each_values (d ∷ ds) ls = values d.0 ls ∷ each_values ds ls

abbrev appended : List (List Text) → List (List Text) → List (List Text)
appended [] vs = []
appended (u ∷ us) [] = u ∷ us
appended (u ∷ us) (v ∷ vs) = (u ++ v) ∷ appended us vs

module _ (p : Params) (paths : Paths) (server : Ip4) (pool : Ip4 × Ip4) (tun_fd : ℕ) (port : ℤ)
    (proto : Text) where
  abbrev table : List (Text × Text)
  table = directives p paths server pool tun_fd port proto

  abbrev nothing : List (List Text)
  nothing = map (λ d. []) table
