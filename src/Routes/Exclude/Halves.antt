-- ===== src/Routes/Exclude/Halves.antt =====
-- The two halves of an aligned block.
use native.Mathlib.Nat.{pow-suc, one-le-pow, div-div-eq-div-mul}
use openconnect_ubuntu_touch.Common.{
  ℕ, suc, ◌+◌, ◌-◌, ◌*◌, ◌/◌, ◌^◌, ◌<◌, ◌≡◌, refl, sym, ap, ◌∙◌, arith, ◌==◌,
}
use openconnect_ubuntu_touch.Common.Bits.{bit_or-eq-add, div-eq_of_between}
use openconnect_ubuntu_touch.Net.Ip.{
  Ip4, IsIp4, value, value-lt, of_value, of_value-IsIp4, value-of_value, of_value-value,
}
use openconnect_ubuntu_touch.Net.Mask.{IpNet, contains}
use openconnect_ubuntu_touch.Net.Mask.Prefix.{contains_block}
use openconnect_ubuntu_touch.Params.Words.{
  u32_mod, shl32-one, ip2u32-value, u32_to_ip-of_value, block_fits,
}
use openconnect_ubuntu_touch.Routes.Exclude.{halves}

-- The host digits below `r` are zero.
abbrev pub IsAligned : ℕ → Ip4 → Type 0
IsAligned r a = value a / 2 ^ r * 2 ^ r ≡ value a

-- `a >> (r + 1)` is `(a >> r) >> 1`.
pub shift_one : (a r : ℕ) → a / 2 ^ suc r ≡ a / 2 ^ r / 2
shift_one a r = ap (λ t. a / t) (pow-suc 2 r) ∙ sym (div-div-eq-div-mul a (2 ^ r) 2)

module _ (r n : ℕ) (cur : IpNet) (len : n + suc r ≡ 32) (valid : IsIp4 cur.ip)
    (aligned : IsAligned (suc r) cur.ip) where
  pub lower_ip : (halves cur (n + 1)).0.ip ≡ cur.ip
  unfolding halves
  lower_ip = rw (ip2u32-value cur.ip valid, u32_to_ip-of_value) (of_value-value cur.ip valid)

  upper_fits : value cur.ip + 2 ^ r < u32_mod
  upper_fits =
      let e : 32 - n ≡ suc r = omega arith in
      let room = rw e at (block_fits n (value cur.ip) (omega arith) (value-lt cur.ip valid)) in
      omega (arith, room, pow-suc 2 r, one-le-pow r 2 (omega arith))

  pub upper_ip : (halves cur (n + 1)).1.ip ≡ of_value (value cur.ip + 2 ^ r)
  unfolding halves
  upper_ip =
      let e : 32 - (n + 1) ≡ r = omega arith in
      let sum =
        bit_or-eq-add (suc r) (value cur.ip / 2 ^ suc r) (2 ^ r)
          (omega (arith, pow-suc 2 r, one-le-pow r 2 (omega arith))) in
      rw (e, ip2u32-value cur.ip valid, shl32-one r (omega arith), u32_to_ip-of_value)
        (ap of_value (rw aligned at sum))

  pub value-upper : value (halves cur (n + 1)).1.ip ≡ value cur.ip + 2 ^ r
  value-upper = rw upper_ip (value-of_value (value cur.ip + 2 ^ r) upper_fits)

  pub lower-IsIp4 : IsIp4 (halves cur (n + 1)).0.ip
  lower-IsIp4 = rw lower_ip valid

  pub upper-IsIp4 : IsIp4 (halves cur (n + 1)).1.ip
  upper-IsIp4 = rw upper_ip (of_value-IsIp4 (value cur.ip + 2 ^ r))

  -- The leading digits of the halves: those of the block, followed by 0 and by 1.
  pub lower_digits : value (halves cur (n + 1)).0.ip / 2 ^ r ≡ value cur.ip / 2 ^ suc r * 2
  lower_digits =
      let double = ap (λ (t : ℕ). value cur.ip / 2 ^ suc r * t) (pow-suc 2 r) in
      let some_room = one-le-pow r 2 (omega arith) in
      rw lower_ip (
        div-eq_of_between (2 ^ r) (value cur.ip) (value cur.ip / 2 ^ suc r * 2)
          (omega (arith, aligned, double)) (omega (arith, aligned, double, some_room)))

  pub upper_digits : value (halves cur (n + 1)).1.ip / 2 ^ r ≡ value cur.ip / 2 ^ suc r * 2 + 1
  upper_digits =
      let double = ap (λ (t : ℕ). value cur.ip / 2 ^ suc r * t) (pow-suc 2 r) in
      let some_room = one-le-pow r 2 (omega arith) in
      rw value-upper (
        div-eq_of_between (2 ^ r) (value cur.ip + 2 ^ r) (value cur.ip / 2 ^ suc r * 2 + 1)
          (omega (arith, aligned, double)) (omega (arith, aligned, double, some_room)))

  pub lower-IsAligned : IsAligned r (halves cur (n + 1)).0.ip
  lower-IsAligned =
      let double = ap (λ (t : ℕ). value cur.ip / 2 ^ suc r * t) (pow-suc 2 r) in
      rw (lower_digits, lower_ip) (omega (arith, aligned, double))

  pub upper-IsAligned : IsAligned r (halves cur (n + 1)).1.ip
  upper-IsAligned =
      let double = ap (λ (t : ℕ). value cur.ip / 2 ^ suc r * t) (pow-suc 2 r) in
      rw (upper_digits, value-upper) (omega (arith, aligned, double))

  -- Which of the two halves an address lies in.
  module _ (x : Ip4) (ix : IsIp4 x) where
    pub contains_lower :
        contains (halves cur (n + 1)).0 x ≡ (value cur.ip / 2 ^ suc r * 2 == value x / 2 ^ r)
    unfolding halves
    contains_lower =
        rw lower_digits at
          (contains_block (n + 1) r (halves cur (n + 1)).0 x (omega arith) refl lower-IsIp4 ix)

    pub contains_upper :
        contains (halves cur (n + 1)).1 x ≡ (value cur.ip / 2 ^ suc r * 2 + 1 == value x / 2 ^ r)
    unfolding halves
    contains_upper =
        rw upper_digits at
          (contains_block (n + 1) r (halves cur (n + 1)).1 x (omega arith) refl upper-IsIp4 ix)
