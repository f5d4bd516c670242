-- ===== src/Net/Parse/Print.antt =====
-- The runes of a printed number or address.
use openconnect_ubuntu_touch.Common.{
  ℕ, zero, suc, ◌+◌, ◌/◌, ◌%◌, ◌≤◌, ◌≡◌, false, [], ◌∷◌, ◌++◌, arith, All, All-append, All-imp,
}
use openconnect_ubuntu_touch.Common.Text.{Text}
use openconnect_ubuntu_touch.Common.Int.{ℤ, pos, negsuc}
use openconnect_ubuntu_touch.Strings.{is_space}
use openconnect_ubuntu_touch.Strconv.{digits_of, itoa, itoa_int}
use openconnect_ubuntu_touch.Lines.{IsLine}
use openconnect_ubuntu_touch.Net.Ip.{Ip4}
use openconnect_ubuntu_touch.Net.Parse.{format_ip}

-- From `-` to `9` in the code: the minus sign, the dot, the slash and the digits.
abbrev pub IsNumeric : Text → Type 0
IsNumeric = All (λ c. (45 ≤ c) × (c ≤ 57))

digits_of-IsNumeric : (f n : ℕ) (out : Text) → IsNumeric out → IsNumeric (digits_of f n out)
unfolding digits_of
digits_of-IsNumeric zero n out h = h
digits_of-IsNumeric (suc f) n out h =
    ground (arith, digits_of-IsNumeric f (n / 10) ((b'0' + n % 10) ∷ out) (omega arith, h))

pub itoa-IsNumeric : (n : ℕ) → IsNumeric (itoa n)
unfolding itoa
itoa-IsNumeric n = digits_of-IsNumeric 20 n [] tt

pub itoa_int-IsNumeric : (n : ℤ) → IsNumeric (itoa_int n)
unfolding itoa_int
itoa_int-IsNumeric (pos n) = itoa-IsNumeric n
itoa_int-IsNumeric (negsuc n) = (omega arith, itoa-IsNumeric (suc n))

joined-IsNumeric : (s t : Text) → IsNumeric s → IsNumeric t → IsNumeric (s ++ b'.' ∷ t)
joined-IsNumeric s t hs ht = All-append _ s (b'.' ∷ t) hs ((omega arith, omega arith), ht)

pub format_ip-IsNumeric : (a : Ip4) → IsNumeric (format_ip a)
unfolding format_ip
format_ip-IsNumeric a = joined-IsNumeric (itoa a.b0) _ (itoa-IsNumeric a.b0) (
    joined-IsNumeric (itoa a.b1) _ (itoa-IsNumeric a.b1)
      (joined-IsNumeric (itoa a.b2) (itoa a.b3) (itoa-IsNumeric a.b2) (itoa-IsNumeric a.b3)))

pub numeric-IsLine : (s : Text) → IsNumeric s → IsLine s
numeric-IsLine s h = All-imp _ _ s (λ c r. (ground arith, ground arith)) h

-- No rune is a space.
abbrev pub IsWord : Text → Type 0
IsWord = All (λ c. is_space c ≡ false)

numeric_not_space : (c : ℕ) → (45 ≤ c) × (c ≤ 57) → is_space c ≡ false
unfolding is_space
numeric_not_space c h = ground arith

pub numeric-IsWord : (s : Text) → IsNumeric s → IsWord s
numeric-IsWord s h = All-imp _ _ s numeric_not_space h
