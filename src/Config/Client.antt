-- ===== src/Config/Client.antt =====
-- The file that BuildCCD writes, for a reader of its lines and fields.
use openconnect_ubuntu_touch.Common.{List, [], ◌∷◌, ◌≡◌, refl, ap, ◌∙◌, arith, some, All-append}
use openconnect_ubuntu_touch.Common.Text.{Text, codes}
use openconnect_ubuntu_touch.Strings.{fields, is_space}
use openconnect_ubuntu_touch.Strings.Laws.{fields-cons, fields-word}
use openconnect_ubuntu_touch.Lines.{split_lines, IsLine}
use openconnect_ubuntu_touch.Lines.Laws.{split_lines-render}
use openconnect_ubuntu_touch.Net.Ip.{Ip4, IsIp4}
use openconnect_ubuntu_touch.Net.Parse.{format_ip}
use openconnect_ubuntu_touch.Net.Parse.RoundTrip.{parse_ip-format_ip, format_ip_nonempty}
use openconnect_ubuntu_touch.Net.Parse.Print.{
  IsWord, format_ip-IsNumeric, numeric-IsLine, numeric-IsWord,
}
use openconnect_ubuntu_touch.Params.{Params}
use openconnect_ubuntu_touch.Params.Env.{ip4_of}
use openconnect_ubuntu_touch.Config.{ccd_line, build_ccd}

pub ip4_of-format_ip : (a : Ip4) → IsIp4 a → ip4_of (format_ip a) ≡ some a
unfolding ip4_of
ip4_of-format_ip a h =
    let (bytes, parsed, four) = parse_ip-format_ip a h in rw (parsed, ip4_of) four

ifconfig_push-IsWord : IsWord (codes "ifconfig-push")
unfolding is_space
ifconfig_push-IsWord = ground arith

ifconfig_push-IsLine : IsLine (codes "ifconfig-push ")
ifconfig_push-IsLine = ground arith

ccd_header-IsLine : IsLine (codes "# Generated by ocbridge.")
ccd_header-IsLine = ground arith

ccd_line-fields :
    (p : Params)
    → IsIp4 p.address
    → IsIp4 p.netmask
    → fields (ccd_line p) ≡ codes "ifconfig-push" ∷ format_ip p.address ∷ format_ip p.netmask ∷ []
unfolding ccd_line
ccd_line-fields p ia im =
    fields-cons (codes "ifconfig-push") _ refl ifconfig_push-IsWord
    ∙ ap (λ (t : List Text). codes "ifconfig-push" ∷ t)
        (fields-cons (format_ip p.address) (format_ip p.netmask) (format_ip_nonempty p.address ia)
            (numeric-IsWord _ (format_ip-IsNumeric p.address))
          ∙ ap (λ (t : List Text). format_ip p.address ∷ t)
              (fields-word (format_ip p.netmask) (format_ip_nonempty p.netmask im)
                (numeric-IsWord _ (format_ip-IsNumeric p.netmask))))

ccd_line-IsLine : (p : Params) → IsLine (ccd_line p)
unfolding ccd_line
ccd_line-IsLine p = All-append _ (codes "ifconfig-push ") _ ifconfig_push-IsLine (
    All-append _ (format_ip p.address) _ (numeric-IsLine _ (format_ip-IsNumeric p.address))
      ((omega arith, omega arith), numeric-IsLine _ (format_ip-IsNumeric p.netmask)))

-- For an address and netmask of four bytes: read back line by line and field by field, the file
-- that BuildCCD writes is one directive behind a comment, and its arguments are parsed to the
-- very address and netmask of the tunnel.
pub build_ccd_read :
    (p : Params)
    → IsIp4 p.address
    → IsIp4 p.netmask
    → (directive : Text) × (split_lines (build_ccd p)
        ≡ codes "# Generated by ocbridge." ∷ directive ∷ [])
      × (address : Text) × (netmask : Text) × (fields directive
          ≡ codes "ifconfig-push" ∷ address ∷ netmask ∷ [])
      × (ip4_of address ≡ some p.address)
      × (ip4_of netmask ≡ some p.netmask)
unfolding build_ccd
build_ccd_read p ia im = (
  ccd_line p,
  split_lines-render _ (ccd_header-IsLine, (ccd_line-IsLine p, tt)),
  format_ip p.address,
  format_ip p.netmask,
  ccd_line-fields p ia im,
  ip4_of-format_ip p.address ia,
  ip4_of-format_ip p.netmask im,
)
