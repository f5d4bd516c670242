-- ===== src/Config/Pushed.antt =====
-- Which lines of the configuration push a route, before they are written into one text.
use openconnect_ubuntu_touch.Common.{
  ℕ, List, [], ◌∷◌, map, ◌≡◌, refl, ap, Bool, Bool-cases, inl, inr, filter_if, filter_if-append,
  append-nil,
}
use openconnect_ubuntu_touch.Common.Int.{ℤ}
use openconnect_ubuntu_touch.Common.Text.{Text, codes, text_eq}
use openconnect_ubuntu_touch.Net.Ip.{Ip4}
use openconnect_ubuntu_touch.Strings.{has_prefix}
use openconnect_ubuntu_touch.Params.{Params, Route}
use openconnect_ubuntu_touch.Routes.Split.{split_routes}
use openconnect_ubuntu_touch.Config.{
  Paths, route_line, dns_line, domain_lines, proto_line, server_lines, pushed_lines, config_lines,
}

-- A `push "route` directive; `route-gateway` is another.
abbrev pub is_route : Text → Bool
is_route l = has_prefix (codes "push \"route ") l

server_lines-routes :
    (p : Params) (paths : Paths) (server : Ip4) (pool : Ip4 × Ip4) (tun_fd : ℕ) (port : ℤ)
    (proto : Text)
    → filter_if is_route (server_lines p paths server pool tun_fd port proto) ≡ []
unfolding server_lines has_prefix proto_line
server_lines-routes p paths server pool tun_fd port proto =
    elim (Bool-cases (text_eq proto (codes "udp"))) [ inl udp ↦ rw udp | inr tcp ↦ rw tcp ]

route_lines : (rs : List Route) → filter_if is_route (map route_line rs) ≡ map route_line rs
unfolding route_line has_prefix
route_lines [] = refl
route_lines (r ∷ rs) = ap (λ (t : List Text). route_line r ∷ t) (route_lines rs)

dns_lines : (ds : List Ip4) → filter_if is_route (map dns_line ds) ≡ []
unfolding dns_line has_prefix
dns_lines [] = refl
dns_lines (d ∷ ds) = dns_lines ds

domain_lines-routes : (d : Text) → filter_if is_route (domain_lines d) ≡ []
unfolding domain_lines has_prefix
domain_lines-routes [] = refl
domain_lines-routes (c ∷ d) = refl

pub config_lines-routes :
    (p : Params) (paths : Paths) (server : Ip4) (pool : Ip4 × Ip4) (tun_fd : ℕ) (port : ℤ)
    (proto : Text)
    → filter_if is_route (config_lines p paths server pool tun_fd port proto)
      ≡ map route_line (split_routes p)
unfolding pushed_lines has_prefix
config_lines-routes p paths server pool tun_fd port proto = simp (
  filter_if-append,
  server_lines-routes p paths server pool tun_fd port proto,
  route_lines,
  dns_lines,
  domain_lines-routes,
  append-nil,
)
