-- ===== src/Net/Mask/Size.antt =====
-- Size, and the masks that CIDRMask makes.
use openconnect_ubuntu_touch.Common.{
  ℕ, ◌+◌, ◌-◌, ◌*◌, ◌≤◌, ◌<◌, ◌≡◌, refl, sym, ap, ◌∙◌, true, ◌&&◌, All, length, Bool-cases, inl,
  inr, all_below, all_below_sound, Option, none, some, List, [], ◌∷◌, arith, ◌==◌, ==_iff,
}
use openconnect_ubuntu_touch.Net.Ip.{Ip4, IsIp4}
use openconnect_ubuntu_touch.Net.Mask.{
  cidr_byte, cidr_mask, simple_mask_length, mask_size, all_zero, byte_ones,
}
use openconnect_ubuntu_touch.Net.Mask.Bytes.{cidr_byte_ones, cidr_byte-lt, byte_ones_sound}

zero_rest : (m : List ℕ) → all_zero m ≡ true → All (λ v. v ≡ 0) m
unfolding all_zero
zero_rest [] h = tt
zero_rest (v ∷ m) h = (ground arith, zero_rest m (ground arith))

-- The bytes of a mask with `n` leading ones from byte to byte.
abbrev LeadingOnes : List ℕ → ℕ → Type 0
LeadingOnes [] n = Unit
LeadingOnes (v ∷ m) n = (v ≡ cidr_byte n) × LeadingOnes m (n - 8)

zero-LeadingOnes : (m : List ℕ) → All (λ v. v ≡ 0) m → LeadingOnes m 0
unfolding cidr_byte
zero-LeadingOnes [] h = tt
zero-LeadingOnes (v ∷ m) (e, h) = (e, zero-LeadingOnes m h)

simple_mask_length-LeadingOnes :
    (m : List ℕ) (n k : ℕ)
    → All (λ v. v < 256) m
    → simple_mask_length m n ≡ some k
    → (n ≤ k) × (k ≤ n + 8 * length m) × LeadingOnes m (k - n)
unfolding simple_mask_length
simple_mask_length-LeadingOnes [] n k b h = ground arith
simple_mask_length-LeadingOnes (v ∷ m) n k (bv, bm) h = elim (Bool-cases (v == 255)) [
  | inl full ↦
      let deeper : simple_mask_length m (n + 8) ≡ some k = ground arith in
      let (lo, hi, ones) = simple_mask_length-LeadingOnes m (n + 8) k bm deeper in
      let same : k - n - 8 ≡ k - (n + 8) = omega arith in
      let first : v ≡ cidr_byte (k - n) =
        (==_iff v 255).0 full ∙ sym (cidr_byte_ones (k - n) (omega arith)) in
      (omega arith, omega arith, (first, rw same ones))
  | inr part ↦
      let rest : all_zero m ≡ true = ground arith in
      let here : byte_ones 9 v n ≡ some k = ground arith in
      let (lo, hi, first) = byte_ones_sound v n k bv here in
      let none_left : k - n - 8 ≡ 0 = omega arith in
      (lo, omega arith, (first, rw none_left (zero-LeadingOnes m (zero_rest m rest))))
]

-- A mask that `Size` accepts is the one that `CIDRMask` makes from the length it returns.
pub mask_size_sound :
    (m : Ip4) (n : ℕ) → IsIp4 m → mask_size m ≡ (n, 32) → (n ≤ 32) × (m ≡ cidr_mask n)
unfolding mask_size cidr_mask
mask_size_sound m n im h = counted (simple_mask_length (m.b0 ∷ m.b1 ∷ m.b2 ∷ m.b3 ∷ []) 0) refl h
  where
    counted :
        (o : Option ℕ)
        → simple_mask_length (m.b0 ∷ m.b1 ∷ m.b2 ∷ m.b3 ∷ []) 0 ≡ o
        → ◌≡◌ {A = ℕ × ℕ} (elim o [ none ↦ (0, 0) | some k ↦ (k, 32) ]) (n, 32)
        → (n ≤ 32) × (m ≡ cidr_mask n)
    counted none e t = absurd (omega (arith, ap (λ (p : ℕ × ℕ). p.1) t))
    counted (some k) e t =
        let same : k ≡ n = ap (λ (p : ℕ × ℕ). p.0) t in
        let (lo, hi, ones) =
          simple_mask_length-LeadingOnes (m.b0 ∷ m.b1 ∷ m.b2 ∷ m.b3 ∷ []) 0 n
            (im.b0_lt, (im.b1_lt, (im.b2_lt, (im.b3_lt, tt)))) (e ∙ ap some same) in
        let e0 : n - 0 ≡ n = omega arith in
        let e2 : n - 8 - 8 ≡ n - 16 = omega arith in
        let e3 : n - 16 - 8 ≡ n - 24 = omega arith in
        let bytes = rw (e0, e2, e3) at ones in (omega arith, ground (arith, bytes))

size_table :
    all_below 33 (λ n. (mask_size (cidr_mask n)).0 == n && (mask_size (cidr_mask n)).1 == 32) ≡ true
unfolding all_below mask_size cidr_mask cidr_byte
size_table = refl

-- `Size` gives back the length that `CIDRMask` was given.
pub mask_size-cidr_mask : (n : ℕ) → n ≤ 32 → mask_size (cidr_mask n) ≡ (n, 32)
mask_size-cidr_mask n h = ground (arith, all_below_sound 33 _ n size_table (omega arith))

pub cidr_mask-IsIp4 : (n : ℕ) → IsIp4 (cidr_mask n)
unfolding cidr_mask
cidr_mask-IsIp4 n = omega (arith, cidr_byte-lt)
