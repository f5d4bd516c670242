-- ===== src/Config.antt =====
-- src/ocbridge/config.go: the configuration of the local OpenVPN server, line by line.
pub mod Pushed
pub mod Client
pub mod Builds
pub mod Read
use openconnect_ubuntu_touch.Common.{
  ℕ, List, [], ◌∷◌, ◌++◌, map, Result, ok, err, ◌>>=◌, if◌then◌else◌, not,
}
use openconnect_ubuntu_touch.Common.Int.{ℤ}
use openconnect_ubuntu_touch.Common.Text.{Text, codes, text_eq, is_empty}
use openconnect_ubuntu_touch.Strconv.{itoa, itoa_int}
use openconnect_ubuntu_touch.Net.Ip.{Ip4}
use openconnect_ubuntu_touch.Net.Parse.{format_ip}
use openconnect_ubuntu_touch.Lines.{render}
use openconnect_ubuntu_touch.Params.{Params, Route}
use openconnect_ubuntu_touch.Params.Addresses.{AddressError, pool_range}
use openconnect_ubuntu_touch.Routes.Split.{split_routes}

pub record Paths : Type 0 where
  pub ca_cert : Text
  pub server_cert : Text
  pub server_key : Text
  pub ccd_dir : Text
  pub auth_helper : Text
  pub creds_file : Text

-- `push "route %s %s"`
unfoldable pub route_line : Route → Text
route_line r =
    codes "push \"route "
    ++ (format_ip r.network ++ (codes " " ++ (format_ip r.mask ++ codes "\"")))

-- `push "dhcp-option DNS %s"`
unfoldable pub dns_line : Ip4 → Text
dns_line d = codes "push \"dhcp-option DNS " ++ (format_ip d ++ codes "\"")

unfoldable pub domain_lines : Text → List Text
domain_lines d =
    if not (is_empty d) then (codes "push \"dhcp-option DOMAIN " ++ (d ++ codes "\"")) ∷ [] else []

unfoldable pub proto_line : Text → Text
proto_line proto =
    if text_eq proto (codes "udp") then codes "proto udp" else codes "proto tcp-server"

-- The lines in front of the routes.
unfoldable pub server_lines : Params → Paths → Ip4 → Ip4 × Ip4 → ℕ → ℤ → Text → List Text
server_lines p paths server pool tun_fd port proto =
    codes "# Generated by ocbridge. Do not edit; it is rewritten on every connect."
    ∷ codes "dev tun"
    ∷ codes "dev-type tun"
    ∷ (codes "dev-node fd:" ++ itoa tun_fd)
    ∷ codes "ifconfig-noexec"
    ∷ codes "route-noexec"
    ∷ []
    ∷ codes "mode server"
    ∷ codes "tls-server"
    ∷ codes "topology subnet"
    ∷ (codes "ifconfig " ++ (format_ip server ++ (codes " " ++ format_ip p.netmask)))
    ∷ (codes "ifconfig-pool "
        ++ (format_ip pool.0
            ++ (codes " " ++ (format_ip pool.1 ++ (codes " " ++ format_ip p.netmask)))))
    ∷ (codes "client-config-dir " ++ paths.ccd_dir)
    ∷ codes "push \"topology subnet\""
    ∷ (codes "push \"route-gateway " ++ (format_ip server ++ codes "\""))
    ∷ []
    ∷ proto_line proto
    ∷ codes "local 127.0.0.1"
    ∷ (codes "port " ++ itoa_int port)
    ∷ []
    ∷ (codes "ca " ++ paths.ca_cert)
    ∷ (codes "cert " ++ paths.server_cert)
    ∷ (codes "key " ++ paths.server_key)
    ∷ codes "dh none"
    ∷ codes "verify-client-cert none"
    ∷ codes "username-as-common-name"
    ∷ codes "script-security 2"
    ∷ (codes "setenv OCBRIDGE_CREDS " ++ paths.creds_file)
    ∷ (codes "auth-user-pass-verify \"" ++ (paths.auth_helper ++ codes " --auth\" via-file"))
    ∷ []
    ∷ (codes "tun-mtu " ++ itoa p.mtu)
    ∷ (codes "push \"tun-mtu " ++ (itoa p.mtu ++ codes "\""))
    ∷ []
    ∷ []

-- The routes, the name servers, the domain, and the end.
unfoldable pub pushed_lines : Params → List Text
pushed_lines p =
    map route_line (split_routes p)
    ++ (map dns_line p.dns
        ++ (domain_lines p.domain
            ++ ([] ∷ codes "keepalive 10 60" ∷ codes "persist-key" ∷ codes "verb 3" ∷ [])))

abbrev pub config_lines : Params → Paths → Ip4 → Ip4 × Ip4 → ℕ → ℤ → Text → List Text
config_lines p paths server pool tun_fd port proto =
    server_lines p paths server pool tun_fd port proto ++ pushed_lines p

-- `BuildServerConfig`
unfoldable pub build_server_config : Params → Paths → Ip4 → ℕ → ℤ → Text → Result AddressError Text
build_server_config p paths server tun_fd port proto = do
  pool ← pool_range p server
  ok (render (config_lines p paths server pool tun_fd port proto))

-- The directive of BuildCCD.
unfoldable pub ccd_line : Params → Text
ccd_line p = codes "ifconfig-push " ++ (format_ip p.address ++ (codes " " ++ format_ip p.netmask))

-- `BuildCCD`
unfoldable pub build_ccd : Params → Text
unfolding ccd_line
build_ccd p = render (codes "# Generated by ocbridge." ∷ ccd_line p ∷ [])
