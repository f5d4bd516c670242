-- ===== src/Params/Words.antt =====
-- ip2u32 and u32toIP, and the uint32 arithmetic of the address code.
use openconnect_ubuntu_touch.Common.{
  ℕ, ◌+◌, ◌-◌, ◌*◌, ◌/◌, ◌%◌, ◌^◌, ◌≤◌, ◌<◌, ◌≡◌, refl, sym, ap, ◌∙◌, true, arith, bit_or, ◌==◌,
  leb, ◌&&◌, ==_iff, all_below, all_below_sound,
}
use openconnect_ubuntu_touch.Common.Bits.{bit_or-eq-add, next_multiple}
use openconnect_ubuntu_touch.Net.Mask.Prefix.{two_pow_add}
use native.Mathlib.Nat.{div-mul-le_self}
use openconnect_ubuntu_touch.Net.Ip.{
  Ip4, IsIp4, value, of_value, of_value-value, of_value-IsIp4, value-of_value,
}

abbrev pub u32_mod : ℕ
u32_mod = 4294967296

-- `x << k` on uint32; a shift of 32 or more gives 0.
unfoldable pub shl32 : ℕ → ℕ → ℕ
shl32 x k = x * 2 ^ k % u32_mod

-- `^x` on uint32
unfoldable pub not32 : ℕ → ℕ
not32 x = u32_mod - 1 - x

unfoldable pub ip2u32 : Ip4 → ℕ
unfolding shl32
ip2u32 v = bit_or (bit_or (bit_or (shl32 v.b0 24) (shl32 v.b1 16)) (shl32 v.b2 8)) v.b3

-- byte(v>>24), byte(v>>16), byte(v>>8), byte(v)
unfoldable pub u32_to_ip : ℕ → Ip4
u32_to_ip v = record {
  b0 = v / 2 ^ 24 % 256;
  b1 = v / 2 ^ 16 % 256;
  b2 = v / 2 ^ 8 % 256;
  b3 = v % 256;
}

-- The number of an address, as positional notation.
pub ip2u32-value : (a : Ip4) → IsIp4 a → ip2u32 a ≡ value a
unfolding ip2u32 shl32
ip2u32-value a h =
    let s0 : a.b0 * 2 ^ 24 % u32_mod ≡ a.b0 * 2 ^ 24 = omega arith in
    let s1 : a.b1 * 2 ^ 16 % u32_mod ≡ a.b1 * 2 ^ 16 = omega arith in
    let s2 : a.b2 * 2 ^ 8 % u32_mod ≡ a.b2 * 2 ^ 8 = omega arith in
    let t1 : a.b0 * 2 ^ 24 + a.b1 * 2 ^ 16 ≡ (a.b0 * 256 + a.b1) * 2 ^ 16 = omega arith in
    let t2 : (a.b0 * 256 + a.b1) * 2 ^ 16 + a.b2 * 2 ^ 8
        ≡ (a.b0 * 65536 + a.b1 * 256 + a.b2) * 2 ^ 8 =
      omega arith in
    rw
      (
        s0,
        s1,
        s2,
        bit_or-eq-add 24 a.b0 (a.b1 * 2 ^ 16) (omega arith),
        t1,
        bit_or-eq-add 16 (a.b0 * 256 + a.b1) (a.b2 * 2 ^ 8) (omega arith),
        t2,
        bit_or-eq-add 8 (a.b0 * 65536 + a.b1 * 256 + a.b2) a.b3 h.b3_lt,
      )
      (omega arith)

pub u32_to_ip-of_value : (v : ℕ) → u32_to_ip v ≡ of_value v
unfolding u32_to_ip
u32_to_ip-of_value v = refl

-- Every four-byte address is recovered from its uint32, and every uint32 from its address.
pub u32_to_ip-ip2u32 :
    (a : Ip4) (v : ℕ)
    → IsIp4 a
    → v < u32_mod
    → (u32_to_ip (ip2u32 a) ≡ a) × (ip2u32 (u32_to_ip v) ≡ v)
u32_to_ip-ip2u32 a v ha hv = (
  rw (ip2u32-value a ha, u32_to_ip-of_value) (of_value-value a ha),
  rw (u32_to_ip-of_value, ip2u32-value (of_value v) (of_value-IsIp4 v)) (value-of_value v hv),
)

ones_mask_table : all_below 33 (λ k. not32 (shl32 (u32_mod - 1) k) == 2 ^ k - 1) ≡ true
unfolding all_below not32 shl32
ones_mask_table = refl

-- `^(^uint32(0) << k)` has the `k` lowest bits.
pub not32-shl32 : (k : ℕ) → k ≤ 32 → not32 (shl32 (u32_mod - 1) k) ≡ 2 ^ k - 1
not32-shl32 k h = (==_iff _ _).0 (all_below_sound 33 _ k ones_mask_table (omega arith))

one_bit_table : all_below 32 (λ k. shl32 1 k == 2 ^ k) ≡ true
unfolding all_below shl32
one_bit_table = refl

pub shl32-one : (k : ℕ) → k < 32 → shl32 1 k ≡ 2 ^ k
shl32-one k h = (==_iff _ _).0 (all_below_sound 32 _ k one_bit_table h)

pow_table : all_below 33 (λ k. leb (2 ^ k) u32_mod && leb 1 (2 ^ k)) ≡ true
unfolding all_below
pow_table = refl

pub two_pow-le-u32 : (k : ℕ) → k ≤ 32 → (2 ^ k ≤ u32_mod) × (1 ≤ 2 ^ k)
two_pow-le-u32 k h = let t = all_below_sound 33 _ k pow_table (omega arith) in ground (arith, t)

-- The numbers of network and host digits make up a word.
pub two_pow_split : (n : ℕ) → n ≤ 32 → 2 ^ n * 2 ^ (32 - n) ≡ u32_mod
two_pow_split n h =
    let e : 32 - n + n ≡ 32 = omega arith in sym (two_pow_add (32 - n) n) ∙ ap (λ (t : ℕ). 2 ^ t) e

-- An aligned block ends inside the address space.
pub block_fits :
    (n v : ℕ) → n ≤ 32 → v < u32_mod → v / 2 ^ (32 - n) * 2 ^ (32 - n) + 2 ^ (32 - n) ≤ u32_mod
block_fits n v h lt =
    let low : v / 2 ^ (32 - n) * 2 ^ (32 - n) < 2 ^ n * 2 ^ (32 - n) =
      omega (arith, two_pow_split n h, div-mul-le_self v (2 ^ (32 - n))) in
    let room = next_multiple (2 ^ (32 - n)) (v / 2 ^ (32 - n)) (2 ^ n) low in
    omega (arith, two_pow_split n h, room)
