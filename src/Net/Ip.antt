-- ===== src/Net/Ip.antt =====
-- net.IP after To4, and the number that its four bytes spell.
use openconnect_ubuntu_touch.Common.{
  ℕ, ◌+◌, ◌*◌, ◌/◌, ◌%◌, ◌<◌, ◌≡◌, ap, Bool, true, ◌&&◌, arith, ◌==◌, ==_iff, Bool-ext,
}

pub record Ip4 : Type 0 where
  pub b0 : ℕ
  pub b1 : ℕ
  pub b2 : ℕ
  pub b3 : ℕ

-- Every byte is one.
pub record IsIp4 (a : Ip4) : Type 0 where
  pub b0_lt : a.b0 < 256
  pub b1_lt : a.b1 < 256
  pub b2_lt : a.b2 < 256
  pub b3_lt : a.b3 < 256

-- `Equal`
abbrev pub ip_eq : Ip4 → Ip4 → Bool
ip_eq a b = a.b0 == b.b0 && (a.b1 == b.b1 && (a.b2 == b.b2 && a.b3 == b.b3))

pub ip_eq_sound : (a b : Ip4) → ip_eq a b ≡ true → a ≡ b
ip_eq_sound a b h = ground arith

pub ip_eq_complete : (a b : Ip4) → a ≡ b → ip_eq a b ≡ true
ip_eq_complete a b e = ground arith

-- The address as a number, most significant byte first.
abbrev pub value : Ip4 → ℕ
value a = a.b0 * 16777216 + a.b1 * 65536 + a.b2 * 256 + a.b3

pub value-lt : (a : Ip4) → IsIp4 a → value a < 4294967296
value-lt a h = omega arith

-- The address of a number.
abbrev pub of_value : ℕ → Ip4
of_value n = record {
  b0 = n / 16777216 % 256;
  b1 = n / 65536 % 256;
  b2 = n / 256 % 256;
  b3 = n % 256;
}

pub of_value-IsIp4 : (n : ℕ) → IsIp4 (of_value n)
of_value-IsIp4 n = omega arith

pub value-of_value : (n : ℕ) → n < 4294967296 → value (of_value n) ≡ n
value-of_value n h = omega arith

pub of_value-value : (a : Ip4) → IsIp4 a → of_value (value a) ≡ a
of_value-value a h = ground arith

pub value-injective : (a b : Ip4) → IsIp4 a → IsIp4 b → value a ≡ value b → a ≡ b
value-injective a b ha hb e = ground arith

-- `Equal` compares the numbers.
pub value_eq : (a b : Ip4) → IsIp4 a → IsIp4 b → (value a == value b) ≡ ip_eq a b
value_eq a b ha hb =
    Bool-ext _ _ {P = a ≡ b}
      ((λ e. value-injective a b ha hb ((==_iff _ _).0 e)), (λ e. (==_iff _ _).1 (ap value e)))
      (ip_eq_sound a b, ip_eq_complete a b)
