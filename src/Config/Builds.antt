-- ===== src/Config/Builds.antt =====
-- The steps of run from the environment to the configuration: ParseParams, ServerIP, PoolRange and
-- BuildServerConfig.
use openconnect_ubuntu_touch.Common.{ℕ, ◌≤◌, ◌≡◌, refl, ◌≢◌, true, some, map, ok, filter_if}
use openconnect_ubuntu_touch.Common.Int.{ℤ}
use openconnect_ubuntu_touch.Common.Text.{Text}
use openconnect_ubuntu_touch.Lines.{render, split_lines, IsLine}
use openconnect_ubuntu_touch.Net.Ip.{Ip4}
use openconnect_ubuntu_touch.Net.Mask.{mask_size, contains}
use openconnect_ubuntu_touch.Params.{Params}
use openconnect_ubuntu_touch.Params.Env.{Environment, parse_params}
use openconnect_ubuntu_touch.Params.EnvLaws.{parse_params-IsParsed}
use openconnect_ubuntu_touch.Params.Addresses.{server_ip, pool_range}
use openconnect_ubuntu_touch.Params.Laws.{IsAddressed, subnet, server_ip_place, pool_range_place}
use openconnect_ubuntu_touch.Routes.Split.{split_routes}
use openconnect_ubuntu_touch.Routes.Split.Coverage.{carried, AreBlocks, split_routes-carried}
use openconnect_ubuntu_touch.Config.{Paths, route_line, config_lines, build_server_config}
use openconnect_ubuntu_touch.Config.Pushed.{is_route}
use openconnect_ubuntu_touch.Config.Read.Lines.{AreLines}
use openconnect_ubuntu_touch.Config.Read.Routes.{build_server_config-routes}

-- For a tunnel description that ParseParams returned, with a netmask of at most 29 leading ones
-- and nothing behind them, a known gateway, split routes whose masks have leading ones only and
-- whose networks have no host digits, and a domain and paths without line endings in them:
-- ServerIP gives an endpoint that is not the client's address, PoolRange a pool whose bounds lie in
-- the subnet, and BuildServerConfig succeeds with the text of that pool, in which the lines that are
-- route directives are those of routes of which none carries the gateway.
pub parse_params-build_server_config :
    (e : Environment) (p : Params) (n : ℕ) (gw : Ip4) (paths : Paths) (tun_fd : ℕ) (port : ℤ)
    (proto : Text)
    → parse_params e ≡ ok p
    → mask_size p.netmask ≡ (n, 32)
    → n ≤ 29
    → p.gateway ≡ some gw
    → AreBlocks p.splits
    → AreLines paths
    → IsLine p.domain
    → (server : Ip4) × (pool : Ip4 × Ip4) × (text : Text) × (server_ip p ≡ ok server)
      × (server ≢ p.address)
      × (pool_range p server ≡ ok pool)
      × (contains (subnet p) pool.0 ≡ true)
      × (contains (subnet p) pool.1 ≡ true)
      × (build_server_config p paths server tun_fd port proto ≡ ok text)
      × (text ≡ render (config_lines p paths server pool tun_fd port proto))
      × (filter_if is_route (split_lines text) ≡ map route_line (split_routes p))
      × (carried (split_routes p) gw ≡ 0)
unfolding build_server_config
parse_params-build_server_config e p n gw paths tun_fd port proto parsed size room known blocks h
      one_line =
    let wf = parse_params-IsParsed e p parsed in
    let addressed : IsAddressed p = record {
      net_addr_ip = wf.net_addr_ip;
      netmask_ip = wf.netmask_ip;
    } in
    let (server, placed, valid, other, inside, lo, hi) = server_ip_place p n addressed size room in
    let (pool, ranged, first, last, wide, in0, in1) =
      pool_range_place p n server addressed size room placed in
    let ig = wf.gateway_ip gw known in
    let (clear, others) = split_routes-carried p gw gw known ig ig blocks in
    let text = render (config_lines p paths server pool tun_fd port proto) in
    let built : build_server_config p paths server tun_fd port proto ≡ ok text = rw ranged refl in
    (
      server,
      pool,
      text,
      placed,
      other,
      ranged,
      in0,
      in1,
      built,
      refl,
      build_server_config-routes p paths server tun_fd port proto text h one_line built,
      clear,
    )
