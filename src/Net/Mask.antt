-- ===== src/Net/Mask.antt =====
-- net.IPMask and net.IPNet over four bytes: CIDRMask, Size, Mask and Contains.
pub mod Bytes
pub mod Prefix
pub mod Size
pub mod Masked
use openconnect_ubuntu_touch.Common.{
  ℕ, zero, suc, ◌+◌, ◌-◌, ◌*◌, ◌/◌, ◌%◌, ◌^◌, ◌≡◌, refl, Bool, true, false, ◌&&◌, Option, none,
  some, List, [], ◌∷◌, arith, bit_and, ltb, leb, ◌==◌, if◌then◌else◌,
}
use openconnect_ubuntu_touch.Net.Ip.{Ip4}

-- One byte of `CIDRMask`, where `n` ones are left to place: 0xff, or `^byte(0xff >> n)`.
unfoldable pub cidr_byte : ℕ → ℕ
cidr_byte n = if leb 8 n then 255 else 255 - 255 / 2 ^ n

-- `CIDRMask(ones, 32)` for ones ≤ 32.
unfoldable pub cidr_mask : ℕ → Ip4
cidr_mask n = record {
  b0 = cidr_byte n;
  b1 = cidr_byte (n - 8);
  b2 = cidr_byte (n - 16);
  b3 = cidr_byte (n - 24);
}

-- The loop of `simpleMaskLength` over one byte: shift out leading ones, then nothing may be left.
-- A byte holds at most eight ones, so nine rounds suffice.
unfoldable pub byte_ones : ℕ → ℕ → ℕ → Option ℕ
byte_ones zero v n = none
byte_ones (suc fuel) v n =
    let rest = byte_ones fuel (v * 2 % 256) (n + 1) in
    if leb 128 v then rest else if v == 0 then some n else none

unfoldable pub all_zero : List ℕ → Bool
all_zero [] = true
all_zero (v ∷ m) = v == 0 && all_zero m

-- `simpleMaskLength`; `none` is its -1.
unfoldable pub simple_mask_length : List ℕ → ℕ → Option ℕ
unfolding byte_ones all_zero
simple_mask_length [] n = some n
simple_mask_length (v ∷ m) n =
    let rest = simple_mask_length m (n + 8) in
    if v == 255 then rest else if all_zero m then byte_ones 9 v n else none

-- `Size`, as (ones, bits): a mask whose ones are not all leading has (0, 0).
unfoldable pub mask_size : Ip4 → ℕ × ℕ
unfolding simple_mask_length
mask_size m = elim (simple_mask_length (m.b0 ∷ m.b1 ∷ m.b2 ∷ m.b3 ∷ []) 0) [
  | none ↦ (0, 0)
  | some n ↦ (n, 32)
]

-- `ip.Mask(mask)`
unfoldable pub mask_ip : Ip4 → Ip4 → Ip4
mask_ip a m = record {
  b0 = bit_and a.b0 m.b0;
  b1 = bit_and a.b1 m.b1;
  b2 = bit_and a.b2 m.b2;
  b3 = bit_and a.b3 m.b3;
}

pub record IpNet : Type 0 where
  pub ip : Ip4
  pub mask : Ip4

-- `Contains`: the address agrees with the network under the mask, byte by byte.
unfoldable pub contains : IpNet → Ip4 → Bool
contains n a =
    bit_and n.ip.b0 n.mask.b0 == bit_and a.b0 n.mask.b0
    && (bit_and n.ip.b1 n.mask.b1 == bit_and a.b1 n.mask.b1
        && (bit_and n.ip.b2 n.mask.b2 == bit_and a.b2 n.mask.b2
            && bit_and n.ip.b3 n.mask.b3 == bit_and a.b3 n.mask.b3))
