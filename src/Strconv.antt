-- ===== src/Strconv.antt =====
-- What the program uses of Go's package strconv: Atoi, and the decimal print of an int.
pub mod RoundTrip
use openconnect_ubuntu_touch.Common.{
  ℕ, zero, suc, ◌+◌, ◌-◌, ◌*◌, ◌/◌, ◌%◌, ◌^◌, Bool, true, false, ◌||◌, List, [], ◌∷◌, ltb, leb,
  ◌==◌, if◌then◌else◌,
}
use openconnect_ubuntu_touch.Common.Text.{Text}
use openconnect_ubuntu_touch.Common.Int.{ℤ, pos, negsuc}

-- What ParseUint finds: a number below 2^64, a bad character, or too many digits.
pub data Parsed : Type 0 where
  number : ℕ → Parsed
  syntax : Parsed
  range : Parsed

-- The loop of ParseUint in base 10: it stops at the first bad character or overflow.
unfoldable pub parse_uint : ℕ → Text → Parsed
parse_uint n [] = number n
parse_uint n (c ∷ s) =
    let next = n * 10 + (c - b'0') in
    let rest = parse_uint next s in
    if ltb c b'0' || ltb b'9' c then syntax else if leb (2 ^ 64) next then range else rest

-- `err` is nil or not; on a syntax error the value is 0, on a range error the nearest int.
pub record Atoi : Type 0 where
  pub val : ℤ
  pub is_ok : Bool

unfoldable pub signed : Bool → Parsed → Atoi
signed minus syntax = record { val = pos 0; is_ok = false }
signed false range = record { val = pos (2 ^ 63 - 1); is_ok = false }
signed true range = record { val = negsuc (2 ^ 63 - 1); is_ok = false }
signed false (number n) =
    if leb (2 ^ 63) n
    then record { val = pos (2 ^ 63 - 1); is_ok = false }
    else record { val = pos n; is_ok = true }
signed true (number zero) = record { val = pos 0; is_ok = true }
signed true (number (suc n)) =
    if ltb (2 ^ 63) (suc n)
    then record { val = negsuc (2 ^ 63 - 1); is_ok = false }
    else record { val = negsuc n; is_ok = true }

unfoldable pub unsigned_text : Text → Parsed
unfolding parse_uint
unsigned_text [] = syntax
unsigned_text (c ∷ s) = parse_uint 0 (c ∷ s)

-- `strconv.Atoi`, for a 64-bit int.
unfoldable pub atoi : Text → Atoi
unfolding signed unsigned_text
atoi [] = record { val = pos 0; is_ok = false }
atoi (c ∷ s) =
    if c == b'-'
    then signed true (unsigned_text s)
    else if c == b'+'
    then signed false (unsigned_text s)
    else signed false (unsigned_text (c ∷ s))

-- The digits of a number in front of a text; an int has at most 19 digits, so fuel 20 is enough.
unfoldable pub digits_of : ℕ → ℕ → Text → Text
digits_of zero n out = out
digits_of (suc fuel) n out =
    let rest = digits_of fuel (n / 10) ((b'0' + n % 10) ∷ out) in
    if ltb n 10 then (b'0' + n) ∷ out else rest

-- `%d` of a non-negative number
unfoldable pub itoa : ℕ → Text
unfolding digits_of
itoa n = digits_of 20 n []

-- `%d` of an int
unfoldable pub itoa_int : ℤ → Text
unfolding itoa
itoa_int (pos n) = itoa n
itoa_int (negsuc n) = b'-' ∷ itoa (suc n)
