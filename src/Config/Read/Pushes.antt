-- ===== src/Config/Read/Pushes.antt =====
-- The values of a directive in the lines of BuildServerConfig of src/ocbridge/config.go, and what it pushes of
-- the name servers and the domain.
use openconnect_ubuntu_touch.Common.{
  ℕ, ◌≡◌, refl, sym, ap, ◌∙◌, Bool-cases, inl, inr, Option, none, some, List, [], ◌∷◌, ◌++◌, map,
  ◌==◌, if◌then◌else◌, append-nil,
}
use openconnect_ubuntu_touch.Common.Int.{ℤ}
use openconnect_ubuntu_touch.Common.Text.{Text, codes, text_eq}
use openconnect_ubuntu_touch.Net.Ip.{Ip4}
use openconnect_ubuntu_touch.Net.Parse.{format_ip}
use openconnect_ubuntu_touch.Params.{Params, Route}
use openconnect_ubuntu_touch.Routes.Split.{split_routes}
use openconnect_ubuntu_touch.Config.{
  Paths, route_line, dns_line, domain_lines, proto_line, server_lines, pushed_lines, config_lines,
}
use openconnect_ubuntu_touch.Config.Read.{last_lines}

-- What stands behind a prefix.
abbrev pub after_prefix : Text → Text → Option Text
after_prefix [] s = some s
after_prefix (c ∷ k) [] = none
after_prefix (c ∷ k) (d ∷ s) = if c == d then after_prefix k s else none

abbrev add_value : Option Text → List Text → List Text
add_value none vs = vs
add_value (some v) vs = v ∷ vs

-- The values of a directive in the lines, in their order.
abbrev pub values : Text → List Text → List Text
values k [] = []
values k (l ∷ ls) = add_value (after_prefix k l) (values k ls)

add_value-append :
    (o : Option Text) (us vs : List Text) → add_value o us ++ vs ≡ add_value o (us ++ vs)
add_value-append none us vs = refl
add_value-append (some v) us vs = refl

pub values-append :
    (k : Text) (ks ls : List Text) → values k (ks ++ ls) ≡ values k ks ++ values k ls
values-append k [] ls = refl
values-append k (l ∷ ks) ls =
    ap (add_value (after_prefix k l)) (values-append k ks ls)
    ∙ sym (add_value-append (after_prefix k l) (values k ks) (values k ls))

abbrev pub dns_key : Text
dns_key = codes "push \"dhcp-option DNS "

abbrev pub domain_key : Text
domain_key = codes "push \"dhcp-option DOMAIN "

-- The values for the name servers, and for the domain if there is one.
abbrev pub dns_pushes : List Ip4 → List Text
dns_pushes [] = []
dns_pushes (d ∷ ds) = (format_ip d ++ codes "\"") ∷ dns_pushes ds

abbrev pub domain_pushes : Text → List Text
domain_pushes [] = []
domain_pushes (c ∷ d) = ((c ∷ d) ++ codes "\"") ∷ []

dns_key-route : (rs : List Route) → values dns_key (map route_line rs) ≡ []
unfolding route_line
dns_key-route [] = refl
dns_key-route (r ∷ rs) = dns_key-route rs

domain_key-route : (rs : List Route) → values domain_key (map route_line rs) ≡ []
unfolding route_line
domain_key-route [] = refl
domain_key-route (r ∷ rs) = domain_key-route rs

dns_key-dns : (ds : List Ip4) → values dns_key (map dns_line ds) ≡ dns_pushes ds
unfolding dns_line
dns_key-dns [] = refl
dns_key-dns (d ∷ ds) = ap (λ (vs : List Text). (format_ip d ++ codes "\"") ∷ vs) (dns_key-dns ds)

domain_key-dns : (ds : List Ip4) → values domain_key (map dns_line ds) ≡ []
unfolding dns_line
domain_key-dns [] = refl
domain_key-dns (d ∷ ds) = domain_key-dns ds

dns_key-domain : (d : Text) → values dns_key (domain_lines d) ≡ []
unfolding domain_lines
dns_key-domain [] = refl
dns_key-domain (c ∷ d) = refl

domain_key-domain : (d : Text) → values domain_key (domain_lines d) ≡ domain_pushes d
unfolding domain_lines
domain_key-domain [] = refl
domain_key-domain (c ∷ d) = refl

module _ (p : Params) (paths : Paths) (server : Ip4) (pool : Ip4 × Ip4) (tun_fd : ℕ) (port : ℤ)
    (proto : Text) where
  server_pushes :
      (values dns_key (server_lines p paths server pool tun_fd port proto) ≡ [])
      × (values domain_key (server_lines p paths server pool tun_fd port proto) ≡ [])
  unfolding server_lines proto_line
  server_pushes = elim (Bool-cases (text_eq proto (codes "udp"))) [
    | inl udp ↦ (rw udp, rw udp)
    | inr tcp ↦ (rw tcp, rw tcp)
  ]

  -- The values of a directive by the parts of the configuration.
  part_values :
      (k : Text)
      → values k (config_lines p paths server pool tun_fd port proto)
        ≡ values k (server_lines p paths server pool tun_fd port proto)
          ++ (values k (map route_line (split_routes p))
              ++ (values k (map dns_line p.dns)
                  ++ (values k (domain_lines p.domain) ++ values k last_lines)))
  unfolding pushed_lines
  part_values k = simp values-append

  pub config_pushes :
      (values dns_key (config_lines p paths server pool tun_fd port proto) ≡ dns_pushes p.dns)
      × (values domain_key (config_lines p paths server pool tun_fd port proto)
          ≡ domain_pushes p.domain)
  config_pushes = (
    part_values dns_key
        ∙ (λ i.
            server_pushes.0 i
            ++ (dns_key-route (split_routes p) i
                ++ (dns_key-dns p.dns i ++ (dns_key-domain p.domain i ++ []))))
        ∙ append-nil (dns_pushes p.dns),
    part_values domain_key
        ∙ (λ i.
            server_pushes.1 i
            ++ (domain_key-route (split_routes p) i
                ++ (domain_key-dns p.dns i ++ (domain_key-domain p.domain i ++ []))))
        ∙ append-nil (domain_pushes p.domain),
  )
