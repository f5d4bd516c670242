-- ===== src/Net/Parse.antt =====
-- net.ParseIP, To4 and the print of an IPv4 address.
pub mod V6
pub mod RoundTrip
pub mod Bytes
pub mod Print
mod Tests
use openconnect_ubuntu_touch.Common.{
  ℕ, ◌+◌, ◌-◌, ◌*◌, Bool, true, false, ◌&&◌, ◌||◌, Option, none, some, List, [], ◌∷◌, ◌++◌, ltb,
  leb, ◌==◌, if◌then◌else◌, length,
}
use openconnect_ubuntu_touch.Common.Text.{Text, is_empty}
use openconnect_ubuntu_touch.Net.Ip.{Ip4}
use openconnect_ubuntu_touch.Strconv.{itoa}
use V6.{parse_ip6}
use V6.Fields.{parse_ip4_fields}

-- The 16 bytes of an IPv4 address.
abbrev pub mapped : List ℕ → List ℕ
mapped four = 0 ∷ 0 ∷ 0 ∷ 0 ∷ 0 ∷ 0 ∷ 0 ∷ 0 ∷ 0 ∷ 0 ∷ 255 ∷ 255 ∷ four

-- `ParseAddr` looks at the first of `.`, `:` and `%`.
unfoldable pub dispatch : Text → Text → Option (List ℕ)
unfolding parse_ip4_fields parse_ip6
dispatch whole [] = none
dispatch whole (c ∷ s) =
    let rest = dispatch whole s in
    if c == b'.'
    then elim (parse_ip4_fields whole) [ none ↦ none | some four ↦ some (mapped four) ]
    else if c == b':'
    then parse_ip6 whole
    else if c == b'%'
    then none
    else rest

-- `net.ParseIP`: the 16 bytes, or nil.
unfoldable pub parse_ip : Text → Option (List ℕ)
unfolding dispatch
parse_ip s = dispatch s s

-- `To4` of 16 bytes: ten zeros and two 0xff in front of the four bytes.
unfoldable pub to4 : List ℕ → Option Ip4
to4 (z0 ∷ z1 ∷ z2 ∷ z3 ∷ z4 ∷ z5 ∷ z6 ∷ z7 ∷ z8 ∷ z9 ∷ f0 ∷ f1 ∷ a ∷ b ∷ c ∷ d ∷ []) =
    if z0 == 0
      && z1 == 0
      && z2 == 0
      && z3 == 0
      && z4 == 0
      && z5 == 0
      && z6 == 0
      && z7 == 0
      && z8 == 0
      && z9 == 0
      && f0 == 255
      && f1 == 255
    then some (record { b0 = a; b1 = b; b2 = c; b3 = d })
    else none
to4 _ = none

-- The dotted print of an address, `%s`.
unfoldable pub format_ip : Ip4 → Text
format_ip a = itoa a.b0 ++ b'.' ∷ (itoa a.b1 ++ b'.' ∷ (itoa a.b2 ++ b'.' ∷ itoa a.b3))
