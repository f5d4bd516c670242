-- ===== src/Net/Parse/V6/Fields.antt =====
-- parseIPv4Fields: four decimal fields with dots between them.
use openconnect_ubuntu_touch.Common.{
  ℕ, ◌+◌, ◌-◌, ◌*◌, ◌&&◌, ◌||◌, Option, none, some, List, [], ◌∷◌, ◌++◌, ltb, leb, ◌==◌,
  if◌then◌else◌, length,
}
use openconnect_ubuntu_touch.Common.Text.{Text, is_empty}

-- The number and the count of digits of the field in progress, the fields before it, and the text left.
-- A dot with no digit in front of it is at the start or behind another dot.
unfoldable pub fields_loop : ℕ → ℕ → List ℕ → Text → Option (List ℕ)
fields_loop val digits done [] = if ltb (length done) 3 then none else some (done ++ val ∷ [])
fields_loop val digits done (c ∷ s) =
    let next = val * 10 + (c - b'0') in
    let digit = fields_loop next (digits + 1) done s in
    let dot = fields_loop 0 0 (done ++ val ∷ []) s in
    if leb b'0' c && leb c b'9'
    then (if (digits == 1 && val == 0) || ltb 255 next then none else digit)
    else if c == b'.'
    then (if digits == 0 || is_empty s || length done == 3 then none else dot)
    else none

unfoldable pub parse_ip4_fields : Text → Option (List ℕ)
unfolding fields_loop
parse_ip4_fields s = fields_loop 0 0 [] s
