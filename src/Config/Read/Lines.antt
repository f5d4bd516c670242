-- ===== src/Config/Read/Lines.antt =====
-- The lines of BuildServerConfig of src/ocbridge/config.go that have no line ending in them.
use openconnect_ubuntu_touch.Common.{
  ℕ, ◌≡◌, refl, Bool, true, ◌&&◌, ◌||◌, not, ◌==◌, List, [], ◌∷◌, ◌++◌, map, All, arith, Bool-cases,
  inl, inr,
}
use openconnect_ubuntu_touch.Common.Int.{ℤ}
use openconnect_ubuntu_touch.Common.Text.{Text, codes, text_eq}
use openconnect_ubuntu_touch.Strconv.{itoa, itoa_int}
use openconnect_ubuntu_touch.Lines.{newline, carriage_return, IsLine}
use openconnect_ubuntu_touch.Net.Ip.{Ip4}
use openconnect_ubuntu_touch.Net.Parse.{format_ip}
use openconnect_ubuntu_touch.Net.Parse.Print.{
  itoa-IsNumeric, itoa_int-IsNumeric, format_ip-IsNumeric, numeric-IsLine,
}
use openconnect_ubuntu_touch.Params.{Params, Route}
use openconnect_ubuntu_touch.Config.{
  Paths, route_line, dns_line, domain_lines, proto_line, server_lines,
}

-- IsLine as a test: it computes on the literals of a line, and leaves the values.
abbrev pub is_line : Text → Bool
is_line [] = true
is_line (c ∷ s) = not (c == newline || c == carriage_return) && is_line s

abbrev pub are_lines : List Text → Bool
are_lines [] = true
are_lines (l ∷ ls) = is_line l && are_lines ls

is_line-IsLine : (s : Text) → is_line s ≡ true → IsLine s
is_line-IsLine [] h = tt
is_line-IsLine (c ∷ s) h = ground (arith, is_line-IsLine s)

is_line-true : (s : Text) → IsLine s → is_line s ≡ true
is_line-true [] h = refl
is_line-true (c ∷ s) h = ground (arith, is_line-true s)

pub are_lines-IsLine : (ls : List Text) → are_lines ls ≡ true → All IsLine ls
are_lines-IsLine [] h = tt
are_lines-IsLine (l ∷ ls) h = ground (arith, is_line-IsLine l, are_lines-IsLine ls)

pub are_lines-true : (ls : List Text) → All IsLine ls → are_lines ls ≡ true
are_lines-true [] h = refl
are_lines-true (l ∷ ls) (hl, h) = ground (arith, is_line-true l hl, are_lines-true ls h)

is_line-append : (s t : Text) → is_line (s ++ t) ≡ (is_line s && is_line t)
is_line-append [] t = refl
is_line-append (c ∷ s) t = ground (arith, is_line-append s t)

pub are_lines-append : (ks ls : List Text) → are_lines (ks ++ ls) ≡ (are_lines ks && are_lines ls)
are_lines-append [] ls = refl
are_lines-append (k ∷ ks) ls = ground (arith, are_lines-append ks ls)

format_ip-true : (a : Ip4) → is_line (format_ip a) ≡ true
format_ip-true a = is_line-true _ (numeric-IsLine _ (format_ip-IsNumeric a))

itoa-true : (n : ℕ) → is_line (itoa n) ≡ true
itoa-true n = is_line-true _ (numeric-IsLine _ (itoa-IsNumeric n))

itoa_int-true : (n : ℤ) → is_line (itoa_int n) ≡ true
itoa_int-true n = is_line-true _ (numeric-IsLine _ (itoa_int-IsNumeric n))

ruleset line_values = (is_line-append, format_ip-true, itoa-true, itoa_int-true)

pub route_lines-true : (rs : List Route) → are_lines (map route_line rs) ≡ true
unfolding route_line
route_lines-true [] = refl
route_lines-true (r ∷ rs) = simp (line_values, route_lines-true rs)

pub dns_lines-true : (ds : List Ip4) → are_lines (map dns_line ds) ≡ true
unfolding dns_line
dns_lines-true [] = refl
dns_lines-true (d ∷ ds) = simp (line_values, dns_lines-true ds)

pub domain_start-IsLine : (d : Text) → IsLine d → IsLine (codes "push \"dhcp-option DOMAIN " ++ d)
domain_start-IsLine d h =
    is_line-IsLine (codes "push \"dhcp-option DOMAIN " ++ d) (is_line-true d h)

pub domain_end-IsLine : (d : Text) → IsLine d → IsLine (d ++ codes "\"")
domain_end-IsLine d h = is_line-IsLine (d ++ codes "\"") (simp (is_line-append, is_line-true d h))

pub domain_lines-IsLine : (d : Text) → IsLine d → All IsLine (domain_lines d)
unfolding domain_lines
domain_lines-IsLine [] h = tt
domain_lines-IsLine (c ∷ d) h =
    (domain_start-IsLine ((c ∷ d) ++ codes "\"") (domain_end-IsLine (c ∷ d) h), tt)

proto_line-true : (s : Text) → is_line (proto_line s) ≡ true
unfolding proto_line
proto_line-true s = elim (Bool-cases (text_eq s (codes "udp"))) [
  | inl udp ↦ rw udp
  | inr tcp ↦ rw tcp
]

-- The paths have no line ending in them.
pub record AreLines (q : Paths) : Type 0 where
  pub ca_cert_line : IsLine q.ca_cert
  pub server_cert_line : IsLine q.server_cert
  pub server_key_line : IsLine q.server_key
  pub ccd_dir_line : IsLine q.ccd_dir
  pub auth_helper_line : IsLine q.auth_helper
  pub creds_file_line : IsLine q.creds_file

pub server_lines-true :
    (p : Params) (paths : Paths) (server : Ip4) (pool : Ip4 × Ip4) (tun_fd : ℕ) (port : ℤ)
    (proto : Text)
    → AreLines paths
    → are_lines (server_lines p paths server pool tun_fd port proto) ≡ true
unfolding server_lines
server_lines-true p paths server pool tun_fd port proto h = simp (
  line_values,
  proto_line-true,
  is_line-true _ h.ca_cert_line,
  is_line-true _ h.server_cert_line,
  is_line-true _ h.server_key_line,
  is_line-true _ h.ccd_dir_line,
  is_line-true _ h.auth_helper_line,
  is_line-true _ h.creds_file_line,
)
