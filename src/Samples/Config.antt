-- ===== src/Samples/Config.antt =====
-- The configuration at the rig's values.
use openconnect_ubuntu_touch.Params.Words.{ip2u32}
use openconnect_ubuntu_touch.Common.{
  ℕ, ◌≡◌, ◌≢◌, refl, arith, true, some, ok, List, [], ◌∷◌, map, filter_if,
}
use openconnect_ubuntu_touch.Common.Int.{pos}
use openconnect_ubuntu_touch.Common.Text.{Text, codes}
use openconnect_ubuntu_touch.Strings.{fields, trim_space}
use openconnect_ubuntu_touch.Lines.{split_lines, render}
use openconnect_ubuntu_touch.Net.Ip.{Ip4}
use openconnect_ubuntu_touch.Net.Parse.{parse_ip, to4, format_ip}
use openconnect_ubuntu_touch.Net.Parse.RoundTrip.{parse_ip-format_ip}
use openconnect_ubuntu_touch.Params.Env.{ip4_of}
use openconnect_ubuntu_touch.Routes.Split.{split_routes}
use openconnect_ubuntu_touch.Config.{
  Paths, route_line, config_lines, build_server_config, build_ccd,
}
use openconnect_ubuntu_touch.Config.Pushed.{is_route}
use openconnect_ubuntu_touch.Config.Client.{build_ccd_read}
use openconnect_ubuntu_touch.Samples.Rig.{
  rig, rig_env, rig_parsed, rig_prefix, server, client, gateway,
}
use openconnect_ubuntu_touch.Net.Mask.{mask_size, mask_ip, contains}
use openconnect_ubuntu_touch.Params.Addresses.{server_ip, broadcast_of}
use openconnect_ubuntu_touch.Params.Laws.{subnet}
use openconnect_ubuntu_touch.Routes.Split.Coverage.{carried, AreBlocks}
use openconnect_ubuntu_touch.Config.Builds.{parse_params-build_server_config}
use openconnect_ubuntu_touch.Config.Read.Lines.{AreLines}
use openconnect_ubuntu_touch.Config.Read.Routes.{build_server_config-routes}
use openconnect_ubuntu_touch.Config.Read.{lines_with, build_server_config_injected}
use openconnect_ubuntu_touch.Lines.{newline}
use openconnect_ubuntu_touch.Params.{Params}
use openconnect_ubuntu_touch.Params.Env.{
  Environment, parse_params, env, parse_fd, parse_ip4, parse_mtu, parse_dns, parse_routes,
  rounds_of, parse_route,
}
use openconnect_ubuntu_touch.Strings.{trim_space}
use openconnect_ubuntu_touch.Strconv.{atoi, itoa}
use openconnect_ubuntu_touch.Params.Addresses.{pool_range}
use openconnect_ubuntu_touch.Common.{Result, err, ◌++◌, if◌then◌else◌}
use openconnect_ubuntu_touch.Common.Text.{text_eq}

abbrev paths : Paths
paths = record {
  ca_cert = codes "ca.crt";
  server_cert = codes "server.crt";
  server_key = codes "server.key";
  ccd_dir = codes "ccd";
  auth_helper = codes "ocbridge";
  creds_file = codes "vpn-creds";
}

build_ccd_read_example :
    (directive : Text) × (split_lines (build_ccd rig)
      ≡ codes "# Generated by ocbridge." ∷ directive ∷ [])
    × (address : Text) × (netmask : Text) × (fields directive
        ≡ codes "ifconfig-push" ∷ address ∷ netmask ∷ [])
    × (ip4_of address ≡ some rig.address)
    × (ip4_of netmask ≡ some rig.netmask)
build_ccd_read_example = build_ccd_read rig (omega arith) (omega arith)

parse_ip-format_ip_example :
    (bytes : List ℕ) × (parse_ip (format_ip client) ≡ some bytes) × (to4 bytes ≡ some client)
parse_ip-format_ip_example = parse_ip-format_ip client (omega arith)

split-AreBlocks : AreBlocks rig.splits
unfolding mask_size mask_ip
split-AreBlocks = (
  (
    16,
    record { ip_valid = omega arith; mask_valid = omega arith; size = refl; no_host_digits = refl },
  ),
  tt,
)

abbrev text_of_result : {E : Type 0} → Result E Text → Text
text_of_result (ok t) = t
text_of_result (err e) = []

abbrev built_text : Params → Text
built_text p = text_of_result (build_server_config p paths server 3 (pos 1194) (codes "tcp"))

paths-AreLines : AreLines paths
paths-AreLines = record {
  ca_cert_line = omega arith;
  server_cert_line = omega arith;
  server_key_line = omega arith;
  ccd_dir_line = omega arith;
  auth_helper_line = omega arith;
  creds_file_line = omega arith;
}

built : build_server_config rig paths server 3 (pos 1194) (codes "tcp") ≡ ok (built_text rig)
unfolding build_server_config pool_range broadcast_of ip2u32 mask_ip mask_size
built = refl

parse_params-build_server_config_example :
    (s : Ip4) × (range : Ip4 × Ip4) × (text : Text) × (server_ip rig ≡ ok s)
    × (s ≢ rig.address)
    × (pool_range rig s ≡ ok range)
    × (contains (subnet rig) range.0 ≡ true)
    × (contains (subnet rig) range.1 ≡ true)
    × (build_server_config rig paths s 3 (pos 1194) (codes "tcp") ≡ ok text)
    × (text ≡ render (config_lines rig paths s range 3 (pos 1194) (codes "tcp")))
    × (filter_if is_route (split_lines text) ≡ map route_line (split_routes rig))
    × (carried (split_routes rig) gateway ≡ 0)
parse_params-build_server_config_example =
    parse_params-build_server_config rig_env rig 24 gateway paths 3 (pos 1194) (codes "tcp")
      rig_parsed rig_prefix (omega arith) refl split-AreBlocks paths-AreLines tt

build_server_config-routes_example :
    filter_if is_route (split_lines (built_text rig)) ≡ map route_line (split_routes rig)
build_server_config-routes_example =
    build_server_config-routes rig paths server 3 (pos 1194) (codes "tcp") (built_text rig)
      paths-AreLines tt built

-- A gateway that pushes a domain of three lines.
abbrev wide_domain : Text
wide_domain = codes "a" ++ newline ∷ (codes "up /tmp/x" ++ newline ∷ codes "b")

abbrev wide_env : Environment
wide_env k = if text_eq k (codes "CISCO_DEF_DOMAIN") then wide_domain else rig_env k

abbrev wide : Params
wide = record rig { domain = wide_domain }

wide_parsed : parse_params wide_env ≡ ok wide
unfolding parse_params parse_fd env trim_space text_eq atoi parse_ip4 parse_ip to4 ip4_of mask_ip
    parse_mtu parse_dns parse_routes fields rounds_of parse_route itoa
wide_parsed = refl

wide_given : env wide_env (codes "CISCO_DEF_DOMAIN") ≡ wide_domain
unfolding env trim_space text_eq
wide_given = refl

wide_built : build_server_config wide paths server 3 (pos 1194) (codes "tcp") ≡ ok (built_text wide)
unfolding build_server_config pool_range broadcast_of ip2u32 mask_ip mask_size
wide_built = refl

build_server_config_injected_example :
    (range : Ip4 × Ip4) × (pool_range wide server ≡ ok range)
    × (split_lines (built_text wide)
        ≡ lines_with wide paths server range 3 (pos 1194) (codes "tcp") (
            (codes "push \"dhcp-option DOMAIN " ++ codes "a")
            ∷ codes "up /tmp/x"
            ∷ (codes "b" ++ codes "\"")
            ∷ []))
build_server_config_injected_example =
    build_server_config_injected wide_env wide paths server 3 (pos 1194) (codes "tcp")
      (built_text wide) (codes "a") (codes "up /tmp/x") (codes "b") wide_parsed wide_given
      (omega arith) (omega arith) (omega arith) paths-AreLines wide_built
