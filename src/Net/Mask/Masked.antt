-- ===== src/Net/Mask/Masked.antt =====
-- Mask, and the host digits of an address.
use openconnect_ubuntu_touch.Common.{
  ℕ, zero, suc, ◌+◌, ◌-◌, ◌*◌, ◌/◌, ◌^◌, ◌≤◌, ◌<◌, ◌≡◌, arith, bit_and,
}
use openconnect_ubuntu_touch.Net.Ip.{Ip4, IsIp4, value}
use openconnect_ubuntu_touch.Net.Mask.{cidr_byte, cidr_mask, mask_ip}
use openconnect_ubuntu_touch.Net.Mask.Prefix.{two_pow_add, shift_whole}
use openconnect_ubuntu_touch.Net.Mask.Bytes.{bit_and-cidr_byte, cidr_byte_full}
use native.Mathlib.Nat.{div-mul-le_self}
use native.Mathlib.Decide.{dec_le}

-- Clearing trailing digits leaves the parts in front alone.
clear_low :
    (j h l : ℕ) → j ≤ 8 → l < 256 → (h * 256 + l) / 2 ^ j * 2 ^ j ≡ h * 256 + l / 2 ^ j * 2 ^ j
clear_low zero h l hj hl = omega arith
clear_low (suc zero) h l hj hl = omega arith
clear_low (suc (suc zero)) h l hj hl = omega arith
clear_low (suc (suc (suc zero))) h l hj hl = omega arith
clear_low (suc (suc (suc (suc zero)))) h l hj hl = omega arith
clear_low (suc (suc (suc (suc (suc zero))))) h l hj hl = omega arith
clear_low (suc (suc (suc (suc (suc (suc zero)))))) h l hj hl = omega arith
clear_low (suc (suc (suc (suc (suc (suc (suc zero))))))) h l hj hl = omega arith
clear_low (suc (suc (suc (suc (suc (suc (suc (suc zero)))))))) h l hj hl = omega arith
clear_low (suc (suc (suc (suc (suc (suc (suc (suc (suc j))))))))) h l hj hl = absurd (omega arith)

-- One byte under its mask byte, at every length.
masked_byte : (n b : ℕ) → b < 256 → bit_and b (cidr_byte n) ≡ b / 2 ^ (8 - n) * 2 ^ (8 - n)
masked_byte n b hb = elim (dec_le n 8) [
  | yes small ↦ bit_and-cidr_byte n b small hb
  | no large ↦
      let e : 8 - n ≡ 0 = omega arith in
      rw (e, cidr_byte_full n (omega arith), bit_and-cidr_byte 8 b (omega arith) hb) (omega arith)
]

-- Clearing j + m digits: the upper part is cleared by j, the lower m digits go.
clear_whole : (a j m : ℕ) → a / 2 ^ (j + m) * 2 ^ (j + m) ≡ a / 2 ^ m / 2 ^ j * 2 ^ j * 2 ^ m
clear_whole a j m = rw (shift_whole a j m, two_pow_add j m) (omega arith)

module _ (n : ℕ) (a : Ip4) (ia : IsIp4 a) where
  -- What the four masked bytes spell.
  abbrev cleared : ℕ
  cleared =
      a.b0 / 2 ^ (8 - n) * 2 ^ (8 - n) * 16777216
      + a.b1 / 2 ^ (8 - (n - 8)) * 2 ^ (8 - (n - 8)) * 65536
      + a.b2 / 2 ^ (8 - (n - 16)) * 2 ^ (8 - (n - 16)) * 256
      + a.b3 / 2 ^ (8 - (n - 24)) * 2 ^ (8 - (n - 24))

  abbrev host_cleared : ℕ
  host_cleared = value a / 2 ^ (32 - n) * 2 ^ (32 - n)

  cleared_24 : 24 ≤ n → n ≤ 32 → cleared ≡ host_cleared
  cleared_24 lo hi =
      let e0 : 8 - n ≡ 0 = omega arith in
      let e1 : 8 - (n - 8) ≡ 0 = omega arith in
      let e2 : 8 - (n - 16) ≡ 0 = omega arith in
      let e3 : 8 - (n - 24) ≡ 32 - n = omega arith in
      let wa : value a ≡ (a.b0 * 65536 + a.b1 * 256 + a.b2) * 256 + a.b3 = omega arith in
      rw
        (
          e0,
          e1,
          e2,
          e3,
          wa,
          clear_low (32 - n) (a.b0 * 65536 + a.b1 * 256 + a.b2) a.b3 (omega arith) ia.b3_lt,
        )
        (omega arith)

  cleared_16 : 16 ≤ n → n ≤ 24 → cleared ≡ host_cleared
  cleared_16 lo hi =
      let e0 : 8 - n ≡ 0 = omega arith in
      let e1 : 8 - (n - 8) ≡ 0 = omega arith in
      let e2 : 8 - (n - 16) ≡ 24 - n = omega arith in
      let e3 : 8 - (n - 24) ≡ 8 = omega arith in
      let e4 : 32 - n ≡ 24 - n + 8 = omega arith in
      let wa : value a / 256 ≡ (a.b0 * 256 + a.b1) * 256 + a.b2 = omega arith in
      rw
        (
          e0,
          e1,
          e2,
          e3,
          e4,
          clear_whole (value a) (24 - n) 8,
          wa,
          clear_low (24 - n) (a.b0 * 256 + a.b1) a.b2 (omega arith) ia.b2_lt,
        )
        (omega arith)

  cleared_8 : 8 ≤ n → n ≤ 16 → cleared ≡ host_cleared
  cleared_8 lo hi =
      let e0 : 8 - n ≡ 0 = omega arith in
      let e1 : 8 - (n - 8) ≡ 16 - n = omega arith in
      let e2 : 8 - (n - 16) ≡ 8 = omega arith in
      let e3 : 8 - (n - 24) ≡ 8 = omega arith in
      let e4 : 32 - n ≡ 16 - n + 16 = omega arith in
      let wa : value a / 65536 ≡ a.b0 * 256 + a.b1 = omega arith in
      rw
        (
          e0,
          e1,
          e2,
          e3,
          e4,
          clear_whole (value a) (16 - n) 16,
          wa,
          clear_low (16 - n) a.b0 a.b1 (omega arith) ia.b1_lt,
        )
        (omega arith)

  cleared_0 : n ≤ 8 → cleared ≡ host_cleared
  cleared_0 hi =
      let e1 : 8 - (n - 8) ≡ 8 = omega arith in
      let e2 : 8 - (n - 16) ≡ 8 = omega arith in
      let e3 : 8 - (n - 24) ≡ 8 = omega arith in
      let e4 : 32 - n ≡ 8 - n + 24 = omega arith in
      let wa : value a / 16777216 ≡ a.b0 = omega arith in
      rw (e1, e2, e3, e4, clear_whole (value a) (8 - n) 24, wa) (omega arith)

  cleared_eq : n ≤ 32 → cleared ≡ host_cleared
  cleared_eq hi = elim (dec_le n 8) [
    | yes p ↦ cleared_0 p
    | no p ↦ elim (dec_le n 16) [
      | yes q ↦ cleared_8 (omega arith) q
      | no q ↦ elim (dec_le n 24) [
        | yes r ↦ cleared_16 (omega arith) r
        | no r ↦ cleared_24 (omega arith) hi
      ]
    ]
  ]

-- The number of a masked address: its host digits are zero.
pub value-mask_ip :
    (n : ℕ) (a : Ip4)
    → n ≤ 32
    → IsIp4 a
    → value (mask_ip a (cidr_mask n)) ≡ value a / 2 ^ (32 - n) * 2 ^ (32 - n)
unfolding mask_ip cidr_mask
value-mask_ip n a hn ia =
    rw
      (
        masked_byte n a.b0 ia.b0_lt,
        masked_byte (n - 8) a.b1 ia.b1_lt,
        masked_byte (n - 16) a.b2 ia.b2_lt,
        masked_byte (n - 24) a.b3 ia.b3_lt,
      )
      (cleared_eq n a ia hn)

masked_byte-lt : (n b : ℕ) → b < 256 → bit_and b (cidr_byte n) < 256
masked_byte-lt n b h = rw (masked_byte n b h) (omega (arith, div-mul-le_self b (2 ^ (8 - n))))

pub mask_ip-IsIp4 : (n : ℕ) (a : Ip4) → IsIp4 a → IsIp4 (mask_ip a (cidr_mask n))
unfolding mask_ip cidr_mask
mask_ip-IsIp4 n a ia = record {
  b0_lt = masked_byte-lt n a.b0 ia.b0_lt;
  b1_lt = masked_byte-lt (n - 8) a.b1 ia.b1_lt;
  b2_lt = masked_byte-lt (n - 16) a.b2 ia.b2_lt;
  b3_lt = masked_byte-lt (n - 24) a.b3 ia.b3_lt;
}
