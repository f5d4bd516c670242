-- ===== src/Net/Parse/V6.antt =====
-- The IPv6 part of ParseIP: groups of hexadecimal digits, one ellipsis, and an IPv4 tail.
pub mod Fields
use openconnect_ubuntu_touch.Common.{
  ℕ, zero, suc, ◌+◌, ◌-◌, ◌*◌, ◌/◌, ◌%◌, Bool, true, false, ◌&&◌, ◌||◌, not, Option, none, some,
  List, [], ◌∷◌, ◌++◌, ltb, leb, ◌==◌, if◌then◌else◌, length, take, drop, replicate, any,
}
use openconnect_ubuntu_touch.Common.Text.{Text, is_empty}
use Fields.{parse_ip4_fields}

unfoldable pub hex_digit : ℕ → Option ℕ
hex_digit c =
    if leb b'0' c && leb c b'9'
    then some (c - b'0')
    else if leb b'a' c && leb c b'f'
    then some (c - b'a' + 10)
    else if leb b'A' c && leb c b'F'
    then some (c - b'A' + 10)
    else none

-- One group: how many digits, their number, and the text behind it. More than four digits fail.
unfoldable pub hex_group : ℕ → ℕ → Text → Option (ℕ × ℕ × Text)
unfolding hex_digit
hex_group off acc [] = some (off, acc, [])
hex_group off acc (c ∷ s) = elim (hex_digit c) [
  | none ↦ some (off, acc, c ∷ s)
  | some d ↦
      if ltb 3 off || ltb 65535 (acc * 16 + d) then none else hex_group (off + 1) (acc * 16 + d) s
]

-- The bytes so far, where the ellipsis stands among them, and the text that is left.
pub record Groups : Type 0 where
  pub out : List ℕ
  pub ellipsis : Option ℕ
  pub rest : Text

-- What follows a group: the end, or a colon and more, perhaps the ellipsis. The second part says
-- whether the loop goes on.
unfoldable pub after_group : Groups → Text → Option (Groups × Bool)
after_group g [] = some (record g { rest = [] }, false)
after_group g (c ∷ []) = none
after_group g (c ∷ d ∷ s) =
    if not (c == b':')
    then none
    else if not (d == b':')
    then some (record g { rest = d ∷ s }, true)
    else elim g.ellipsis [
      | some e ↦ none
      | none ↦ some (record g { ellipsis = some (length g.out); rest = s }, not (is_empty s))
    ]

abbrev pub starts_with_dot : Text → Bool
starts_with_dot [] = false
starts_with_dot (c ∷ s) = c == b'.'

has_double_colon : Text → Bool
has_double_colon [] = false
has_double_colon (c ∷ []) = false
has_double_colon (c ∷ d ∷ s) = c == b':' && d == b':'

-- A group followed by a dot starts an IPv4 tail: the text from the group on is read again.
unfoldable pub ip4_tail : Groups → Option Groups
unfolding parse_ip4_fields
ip4_tail g =
    let no_ellipsis : Bool = elim g.ellipsis [ none ↦ true | some e ↦ false ] in
    if (no_ellipsis && not (length g.out == 12)) || ltb 16 (length g.out + 4)
    then none
    else elim (parse_ip4_fields g.rest) [
      | none ↦ none
      | some four ↦ some (record g { out = g.out ++ four; rest = [] })
    ]

-- Two bytes for one group.
abbrev pub add_chunk : Groups → ℕ → Groups
add_chunk g acc = record g { out = g.out ++ acc / 256 ∷ (acc % 256) ∷ [] }

unfoldable pub proceed : Option (Groups × Bool) → (Groups → Option Groups) → Option Groups
proceed none next = none
proceed (some (g, false)) next = some g
proceed (some (g, true)) next = next g

unfoldable pub parse_group :
    Groups → Option (ℕ × ℕ × Text) → (Groups → Option Groups) → Option Groups
unfolding ip4_tail after_group proceed
parse_group g none next = none
parse_group g (some (off, acc, behind)) next =
    if off == 0
    then none
    else if starts_with_dot behind
    then ip4_tail g
    else proceed (after_group (add_chunk g acc) behind) next

-- The loop over at most eight groups.
unfoldable pub groups_loop : ℕ → Groups → Option Groups
unfolding parse_group hex_group
groups_loop zero g = some g
groups_loop (suc rounds) g = parse_group g (hex_group 0 0 g.rest) (groups_loop rounds)

-- 16 bytes: an ellipsis is filled with at least one zero byte pair.
unfoldable pub expand : Groups → Option (List ℕ)
expand g =
    if not (is_empty g.rest)
    then none
    else if ltb (length g.out) 16
    then elim g.ellipsis [
      | none ↦ none
      | some e ↦ some (take e g.out ++ replicate (16 - length g.out) 0 ++ drop e g.out)
    ]
    else elim g.ellipsis [ none ↦ some g.out | some e ↦ none ]

unfoldable pub from_groups : Groups → Option (List ℕ)
unfolding groups_loop expand
from_groups g = elim (groups_loop 8 g) [ none ↦ none | some g' ↦ expand g' ]

-- A text with a zone is no net.IP.
unfoldable pub parse_ip6 : Text → Option (List ℕ)
unfolding from_groups has_double_colon
parse_ip6 s =
    if any (λ c. c == b'%') s
    then none
    else if has_double_colon s
    then (if is_empty (drop 2 s)
        then some (replicate 16 0)
        else from_groups (record { out = []; ellipsis = some 0; rest = drop 2 s }))
    else from_groups (record { out = []; ellipsis = none; rest = s })
