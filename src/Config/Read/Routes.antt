-- ===== src/Config/Read/Routes.antt =====
-- The route directives in the text of BuildServerConfig of src/ocbridge/config.go.
use openconnect_ubuntu_touch.Common.{ℕ, ◌≡◌, ap, ◌∙◌, map, ok, filter_if}
use openconnect_ubuntu_touch.Common.Int.{ℤ}
use openconnect_ubuntu_touch.Common.Text.{Text}
use openconnect_ubuntu_touch.Lines.{split_lines, IsLine}
use openconnect_ubuntu_touch.Net.Ip.{Ip4}
use openconnect_ubuntu_touch.Params.{Params}
use openconnect_ubuntu_touch.Routes.Split.{split_routes}
use openconnect_ubuntu_touch.Config.{Paths, route_line, build_server_config}
use openconnect_ubuntu_touch.Config.Pushed.{is_route, config_lines-routes}
use openconnect_ubuntu_touch.Config.Read.{build_server_config_read}
use openconnect_ubuntu_touch.Config.Read.Lines.{AreLines}

-- Where the domain and the paths have no line ending in them: the lines of the text that
-- BuildServerConfig returns that are `push "route` directives are those of SplitRoutes, in its order.
pub build_server_config-routes :
    (p : Params) (paths : Paths) (server : Ip4) (tun_fd : ℕ) (port : ℤ) (proto text : Text)
    → AreLines paths
    → IsLine p.domain
    → build_server_config p paths server tun_fd port proto ≡ ok text
    → filter_if is_route (split_lines text) ≡ map route_line (split_routes p)
build_server_config-routes p paths server tun_fd port proto text h hd built =
    let (pool, ranged, lines) =
      build_server_config_read p paths server tun_fd port proto text h hd built in
    ap (filter_if is_route) lines ∙ config_lines-routes p paths server pool tun_fd port proto
