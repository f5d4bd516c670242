-- ===== src/Config/Read.antt =====
-- What a reader of its lines finds in the text of BuildServerConfig of src/ocbridge/config.go.
pub mod Lines
pub mod Routes
pub mod Directives
pub mod Pushes
use openconnect_ubuntu_touch.Common.{
  ℕ, ◌≡◌, refl, sym, ap, ◌∙◌, true, false, List, [], ◌∷◌, ◌++◌, map, Result, ok, err, ◌>>=◌,
  >>=-eq-ok, append_assoc, All, arith,
}
use openconnect_ubuntu_touch.Common.Int.{ℤ}
use openconnect_ubuntu_touch.Common.Text.{Text, codes, is_empty}
use openconnect_ubuntu_touch.Lines.{newline, split_lines, render, IsLine}
use openconnect_ubuntu_touch.Lines.Laws.{split_lines-render}
use openconnect_ubuntu_touch.Net.Ip.{Ip4}
use openconnect_ubuntu_touch.Params.{Params}
use openconnect_ubuntu_touch.Params.Env.{Environment, env, parse_params}
use openconnect_ubuntu_touch.Params.EnvLaws.{parse_params_inv}
use openconnect_ubuntu_touch.Params.Addresses.{pool_range}
use openconnect_ubuntu_touch.Routes.Split.{split_routes}
use openconnect_ubuntu_touch.Config.{
  Paths, route_line, dns_line, domain_lines, server_lines, pushed_lines, config_lines,
  build_server_config,
}
use openconnect_ubuntu_touch.Config.Read.Lines.{
  are_lines-true, are_lines-IsLine, are_lines-append, AreLines, route_lines-true, dns_lines-true,
  domain_lines-IsLine, domain_start-IsLine, domain_end-IsLine, server_lines-true,
}

-- The lines behind the domain.
abbrev pub last_lines : List Text
last_lines = [] ∷ codes "keepalive 10 60" ∷ codes "persist-key" ∷ codes "verb 3" ∷ []

render_cong : (ks ls ms : List Text) → render ls ≡ render ms → render (ks ++ ls) ≡ render (ks ++ ms)
unfolding render
render_cong [] ls ms h = h
render_cong (k ∷ ks) ls ms h = ap (λ (t : Text). k ++ newline ∷ t) (render_cong ks ls ms h)

module _ (p : Params) (paths : Paths) (server : Ip4) (pool : Ip4 × Ip4) (tun_fd : ℕ) (port : ℤ)
    (proto : Text) where
  -- The lines with others in the place of the domain's.
  abbrev pub lines_with : List Text → List Text
  lines_with ds =
      server_lines p paths server pool tun_fd port proto
      ++ (map route_line (split_routes p) ++ (map dns_line p.dns ++ (ds ++ last_lines)))

  lines_with-read :
      (ds : List Text)
      → AreLines paths
      → All IsLine ds
      → split_lines (render (lines_with ds)) ≡ lines_with ds
  lines_with-read ds h hd = split_lines-render (lines_with ds) (
      are_lines-IsLine (lines_with ds) (
        simp (
          are_lines-append,
          server_lines-true p paths server pool tun_fd port proto h,
          route_lines-true,
          dns_lines-true,
          are_lines-true ds hd,
        )))

  -- Other lines for the domain that give the same text.
  lines_with-render :
      (ds es : List Text)
      → render (ds ++ last_lines) ≡ render (es ++ last_lines)
      → render (lines_with ds) ≡ render (lines_with es)
  lines_with-render ds es h =
      render_cong (server_lines p paths server pool tun_fd port proto) _ _
        (render_cong (map route_line (split_routes p)) _ _ (render_cong (map dns_line p.dns) _ _ h))

  -- The text that BuildServerConfig returns.
  text_of_lines :
      (text : Text)
      → build_server_config p paths server tun_fd port proto ≡ ok text
      → (range : Ip4 × Ip4) × (pool_range p server ≡ ok range)
        × (render (config_lines p paths server range tun_fd port proto) ≡ text)
  unfolding build_server_config
  text_of_lines text h =
      let (range, ranged, built) = >>=-eq-ok (pool_range p server) _ h in (range, ranged, cc built)

-- The domain's directive, where the domain has two line endings in it.
domain_text :
    (a b c : Text)
    → render (domain_lines (a ++ newline ∷ (b ++ newline ∷ c)) ++ last_lines)
      ≡ render ((codes "push \"dhcp-option DOMAIN " ++ a) ∷ b ∷ (c ++ codes "\"") ∷ last_lines)
unfolding domain_lines render
domain_text a b c = rw (nonempty a, domain_lines) (simp append_assoc)
  where
    nonempty : (s : Text) → is_empty (s ++ newline ∷ (b ++ newline ∷ c)) ≡ false
    nonempty [] = refl
    nonempty (x ∷ s) = refl

pub build_server_config_read :
    (p : Params) (paths : Paths) (server : Ip4) (tun_fd : ℕ) (port : ℤ) (proto text : Text)
    → AreLines paths
    → IsLine p.domain
    → build_server_config p paths server tun_fd port proto ≡ ok text
    → (pool : Ip4 × Ip4) × (pool_range p server ≡ ok pool)
      × (split_lines text ≡ config_lines p paths server pool tun_fd port proto)
unfolding pushed_lines
build_server_config_read p paths server tun_fd port proto text h hd built =
    let (pool, ranged, rendered) =
      text_of_lines p paths server (server, server) tun_fd port proto text built in
    (
      pool,
      ranged,
      ap split_lines (sym rendered)
          ∙ lines_with-read p paths server pool tun_fd port proto (domain_lines p.domain) h
              (domain_lines-IsLine p.domain hd),
    )

-- If CISCO_DEF_DOMAIN, without the spaces around it, is three texts on lines of their own, and the paths
-- have no line ending in them: what BuildServerConfig returns for the parsed environment is read back
-- with the second text as a directive of its own.
pub build_server_config_injected :
    (e : Environment) (p : Params) (paths : Paths) (server : Ip4) (tun_fd : ℕ) (port : ℤ)
    (proto text a b c : Text)
    → parse_params e ≡ ok p
    → env e (codes "CISCO_DEF_DOMAIN") ≡ a ++ newline ∷ (b ++ newline ∷ c)
    → IsLine a
    → IsLine b
    → IsLine c
    → AreLines paths
    → build_server_config p paths server tun_fd port proto ≡ ok text
    → (pool : Ip4 × Ip4) × (pool_range p server ≡ ok pool)
      × (split_lines text
          ≡ lines_with p paths server pool tun_fd port proto
              ((codes "push \"dhcp-option DOMAIN " ++ a) ∷ b ∷ (c ++ codes "\"") ∷ []))
unfolding pushed_lines
build_server_config_injected e p paths server tun_fd port proto text a b c parsed given ha hb hc h
      built =
    let (fd, address, netmask, _, _, _, same) = parse_params_inv e p parsed in
    let domain : p.domain ≡ a ++ newline ∷ (b ++ newline ∷ c) =
      ap (λ (t : Params). t.domain) (sym same) ∙ given in
    let (pool, ranged, rendered) =
      text_of_lines p paths server (server, server) tun_fd port proto text built in
    let ds : List Text = (codes "push \"dhcp-option DOMAIN " ++ a) ∷ b ∷ (c ++ codes "\"") ∷ [] in
    let same_text =
      lines_with-render p paths server pool tun_fd port proto (domain_lines p.domain) ds
        (ap (λ (t : Text). render (domain_lines t ++ last_lines)) domain ∙ domain_text a b c) in
    (
      pool,
      ranged,
      ap split_lines (sym rendered ∙ same_text)
          ∙ lines_with-read p paths server pool tun_fd port proto ds h
              (domain_start-IsLine a ha, (hb, (domain_end-IsLine c hc, tt))),
    )
