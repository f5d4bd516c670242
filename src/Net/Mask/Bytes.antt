-- ===== src/Net/Mask/Bytes.antt =====
-- The mask bytes as arithmetic, by tables over all bytes and all lengths.
use openconnect_ubuntu_touch.Common.{
  ℕ, zero, suc, ◌+◌, ◌-◌, ◌*◌, ◌/◌, ◌%◌, ◌^◌, ◌≤◌, ◌<◌, ◌≡◌, refl, sym, ◌∙◌, Bool, true, ◌&&◌,
  Option, none, some, arith, bit_and, ltb, ◌==◌, ==_iff, all_below, all_below_sound,
}
use mathlib.Core.Option
use native.Mathlib.Nat.{add-zero, add_assoc}
use openconnect_ubuntu_touch.Net.Mask.{cidr_byte, byte_ones}

byte_table :
    all_below 9 (λ n. all_below 256 λ b. bit_and b (cidr_byte n) == b / 2 ^ (8 - n) * 2 ^ (8 - n))
    ≡ true
unfolding all_below cidr_byte
byte_table = refl

-- A mask byte with `n` leading ones clears the 8 - n lowest digits.
pub bit_and-cidr_byte :
    (n b : ℕ) → n ≤ 8 → b < 256 → bit_and b (cidr_byte n) ≡ b / 2 ^ (8 - n) * 2 ^ (8 - n)
bit_and-cidr_byte n b hn hb =
    (==_iff _ _).0 (all_below_sound 256 _ b (all_below_sound 9 _ n byte_table (omega arith)) hb)

pub cidr_byte_full : (n : ℕ) → 8 ≤ n → cidr_byte n ≡ cidr_byte 8
unfolding cidr_byte
cidr_byte_full n h = ground arith

pub cidr_byte_ones : (n : ℕ) → 8 ≤ n → cidr_byte n ≡ 255
unfolding cidr_byte
cidr_byte_ones n h = ground arith

pub cidr_byte-lt : (n : ℕ) → cidr_byte n < 256
unfolding cidr_byte
cidr_byte-lt n = ground arith

-- What `byte_ones` finds in a byte, compared with the byte that `CIDRMask` makes.
is_leading : ℕ → Bool
unfolding byte_ones cidr_byte
is_leading v = elim (byte_ones 9 v 0) [ none ↦ true | some k ↦ v == cidr_byte k && ltb k 9 ]

ones_table : all_below 256 is_leading ≡ true
unfolding all_below is_leading
ones_table = refl

byte_ones-zero : (v k : ℕ) → v < 256 → byte_ones 9 v 0 ≡ some k → (v ≡ cidr_byte k) × (k < 9)
byte_ones-zero v k hv h = checked (all_below_sound 256 _ v ones_table hv)
  where
    checked : is_leading v ≡ true → (v ≡ cidr_byte k) × (k < 9)
    checked t = unfold is_leading in ground (arith, h, t)

-- The count starts at the ones of the bytes before.
byte_ones_from : (f v n m : ℕ) → byte_ones f v (n + m) ≡ Option.map (λ j. n + j) (byte_ones f v m)
unfolding byte_ones
byte_ones_from zero v n m = refl
byte_ones_from (suc f) v n m =
    ground (arith, byte_ones_from f (v * 2 % 256) n (m + 1), add_assoc n m 1)

pub byte_ones_sound :
    (v n k : ℕ)
    → v < 256
    → byte_ones 9 v n ≡ some k
    → (n ≤ k) × (k < n + 9) × (v ≡ cidr_byte (k - n))
byte_ones_sound v n k hv h =
    counted (byte_ones 9 v 0) refl (sym (byte_ones_from 9 v n 0) ∙ rw add-zero h)
  where
    counted :
        (o : Option ℕ)
        → byte_ones 9 v 0 ≡ o
        → Option.map (λ j. n + j) o ≡ some k
        → (n ≤ k) × (k < n + 9) × (v ≡ cidr_byte (k - n))
    counted none e t = cc
    counted (some j) e t =
        let (same, small) = byte_ones-zero v j hv e in
        let sum : n + j ≡ k = cc in
        let back : k - n ≡ j = omega arith in (omega arith, omega arith, rw (back, same))
