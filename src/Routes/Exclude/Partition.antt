-- ===== src/Routes/Exclude/Partition.antt =====
-- Which addresses the pieces of ExcludeHost hold, and how many pieces there are.
use openconnect_ubuntu_touch.Common.{
  ℕ, zero, suc, ◌+◌, ◌-◌, ◌*◌, ◌/◌, ◌^◌, ◌≤◌, ◌≡◌, refl, sym, ap, ◌∙◌, Bool, true, false, not, ◌&&◌,
  arith, ◌==◌, List, [], ◌∷◌, some, if◌then◌else◌, count_if, length, ==_iff, Bool-cases, inl, inr,
}
use openconnect_ubuntu_touch.Net.Ip.{Ip4, IsIp4, value, ip_eq, ip_eq_sound, value_eq}
use openconnect_ubuntu_touch.Net.Mask.{IpNet, cidr_mask, mask_size, mask_ip, contains}
use openconnect_ubuntu_touch.Net.Mask.Prefix.{contains_block}
use openconnect_ubuntu_touch.Net.Mask.Size.{mask_size_sound}
use openconnect_ubuntu_touch.Net.Mask.Masked.{value-mask_ip}
use openconnect_ubuntu_touch.Routes.Exclude.{halves, split_loop, exclude_host}
use openconnect_ubuntu_touch.Routes.Exclude.Halves.{
  IsAligned, shift_one, lower-IsIp4, upper-IsIp4, lower-IsAligned, upper-IsAligned, lower_digits,
  upper_digits, contains_lower, contains_upper,
}

-- The pieces that hold an address.
abbrev pub coverage : List IpNet → Ip4 → ℕ
coverage pieces x = count_if (λ b. contains b x) pieces

module _ (h x : Ip4) (ih : IsIp4 h) (ix : IsIp4 x) where
  -- One round, on the leading digits alone: `q` are the block's, `hd` and `xd` the addresses', one
  -- digit more. The host lies in the upper half, or in the lower.
  upper_round :
      (q hd xd rest : ℕ) (other : Bool)
      → q * 2 + 1 ≡ hd
      → (other ≡ true → hd ≡ xd)
      → rest ≡ (if q * 2 + 1 == xd && not other then 1 else 0)
      → (if q * 2 == xd then suc rest else rest) ≡ (if q == xd / 2 && not other then 1 else 0)
  upper_round q hd xd rest other e f g = ground arith

  lower_round :
      (q hd xd rest : ℕ) (other : Bool)
      → q * 2 ≡ hd
      → (other ≡ true → hd ≡ xd)
      → rest ≡ (if q * 2 == xd && not other then 1 else 0)
      → (if q * 2 + 1 == xd then suc rest else rest) ≡ (if q == xd / 2 && not other then 1 else 0)
  lower_round q hd xd rest other e f g = ground arith

  same_digits : (r : ℕ) → (value h == value x) ≡ true → value h / 2 ^ r ≡ value x / 2 ^ r
  same_digits r e = ap (λ t. t / 2 ^ r) ((==_iff (value h) (value x)).0 e)

  split_loop-coverage :
      (r n : ℕ) (cur : IpNet)
      → n + r ≡ 32
      → IsIp4 cur.ip
      → IsAligned r cur.ip
      → value cur.ip / 2 ^ r ≡ value h / 2 ^ r
      → coverage (split_loop r n cur h) x
        ≡ (if value cur.ip / 2 ^ r == value x / 2 ^ r && not (value h == value x) then 1 else 0)
  unfolding split_loop
  split_loop-coverage zero n cur len ic al inside = ground arith
  split_loop-coverage (suc r) n cur len ic al inside =
      let q = value cur.ip / 2 ^ suc r in
      let hi = (halves cur (n + 1)).1 in
      let lo = (halves cur (n + 1)).0 in
      let other = value h == value x in
      elim (Bool-cases (q * 2 + 1 == value h / 2 ^ r)) [
        | inl up ↦
            let digits : q * 2 + 1 ≡ value h / 2 ^ r = (==_iff _ _).0 up in
            let rest =
              split_loop-coverage r (n + 1) hi (omega arith) (upper-IsIp4 r n cur len ic al)
                (upper-IsAligned r n cur len ic al) (upper_digits r n cur len ic al ∙ digits) in
            rw
              (
                contains_upper r n cur len ic al h ih ∙ up,
                contains_lower r n cur len ic al x ix,
                shift_one (value x) r,
              )
              (upper_round q (value h / 2 ^ r) (value x / 2 ^ r)
                (coverage (split_loop r (n + 1) hi h) x) other digits (same_digits r)
                (rw (upper_digits r n cur len ic al) at rest))
        | inr down ↦
            let above : q ≡ value h / 2 ^ r / 2 = inside ∙ shift_one (value h) r in
            let digits : q * 2 ≡ value h / 2 ^ r = ground arith in
            let rest =
              split_loop-coverage r (n + 1) lo (omega arith) (lower-IsIp4 r n cur len ic al)
                (lower-IsAligned r n cur len ic al) (lower_digits r n cur len ic al ∙ digits) in
            rw
              (
                contains_upper r n cur len ic al h ih ∙ down,
                contains_upper r n cur len ic al x ix,
                shift_one (value x) r,
              )
              (lower_round q (value h / 2 ^ r) (value x / 2 ^ r)
                (coverage (split_loop r (n + 1) lo h) x) other digits (same_digits r)
                (rw (lower_digits r n cur len ic al) at rest))
      ]

length-split_loop : (r n : ℕ) (cur : IpNet) (h : Ip4) → length (split_loop r n cur h) ≡ r
unfolding split_loop
length-split_loop zero n cur h = refl
length-split_loop (suc r) n cur h = ap suc (length-split_loop r (n + 1) _ h)

-- A block as net.ParseCIDR gives it: a contiguous mask of `n` ones, and no host digits.
pub record IsBlock (b : IpNet) (n : ℕ) : Type 0 where
  pub ip_valid : IsIp4 b.ip
  pub mask_valid : IsIp4 b.mask
  pub size : mask_size b.mask ≡ (n, 32)
  pub no_host_digits : mask_ip b.ip b.mask ≡ b.ip

module _ (b : IpNet) (n : ℕ) (block : IsBlock b n) where
  pub block_mask : (n ≤ 32) × (b.mask ≡ cidr_mask n)
  block_mask = mask_size_sound b.mask n block.mask_valid block.size

  block-IsAligned : IsAligned (32 - n) b.ip
  block-IsAligned =
      let same : mask_ip b.ip (cidr_mask n) ≡ b.ip = rw block_mask.1 at block.no_host_digits in
      sym (value-mask_ip n b.ip block_mask.0 block.ip_valid) ∙ ap value same

  contains_by_digits :
      (x : Ip4) → IsIp4 x → contains b x ≡ (value b.ip / 2 ^ (32 - n) == value x / 2 ^ (32 - n))
  contains_by_digits x ix =
      let (le, e) = block_mask in contains_block n (32 - n) b x (omega arith) e block.ip_valid ix

  module _ (h : Ip4) (ih : IsIp4 h) (inside : contains b h ≡ true) where
    pub exclude_host-split_loop : exclude_host b (some h) ≡ split_loop (32 - n) n b h
    unfolding exclude_host split_loop
    exclude_host-split_loop =
        let ones = ap (λ (t : ℕ × ℕ). t.0) block.size in
        let bits = ap (λ (t : ℕ × ℕ). t.1) block.size in
        elim (Bool-cases (n == 32)) [
          | inl host ↦ let e : n ≡ 32 = (==_iff n 32).0 host in rw (inside, ones, bits, e)
          | inr more ↦ rw (inside, ones, bits, more)
        ]

    exclude_host_inside :
        (x : Ip4)
        → IsIp4 x
        → coverage (exclude_host b (some h)) x
          ≡ (if contains b x && not (value h == value x) then 1 else 0)
    exclude_host_inside x ix =
        let (le, e) = block_mask in
        rw (exclude_host-split_loop, contains_by_digits x ix)
          (split_loop-coverage h x ih ix (32 - n) n b (omega arith) block.ip_valid block-IsAligned
            ((==_iff _ _).0 (sym (contains_by_digits h ih) ∙ inside)))

  exclude_host_outside : (h : Ip4) → contains b h ≡ false → exclude_host b (some h) ≡ b ∷ []
  unfolding exclude_host
  exclude_host_outside h outside = rw outside

  -- For addresses of four bytes, and a block whose mask has leading ones only and whose
  -- address has no host digits: every address of the block but the host lies in exactly one
  -- piece of ExcludeHost, and every other address in none.
  pub exclude_host-coverage :
      (h x : Ip4)
      → IsIp4 h
      → IsIp4 x
      → coverage (exclude_host b (some h)) x ≡ (if contains b x && not (ip_eq h x) then 1 else 0)
  exclude_host-coverage h x ih ix = elim (Bool-cases (contains b h)) [
    | inl inside ↦ rw (value_eq h x ih ix) at (exclude_host_inside h ih inside x ix)
    | inr outside ↦ rw (exclude_host_outside h outside) (elim (Bool-cases (ip_eq h x)) [
      | inl same ↦
          let gone : contains b x ≡ false =
            ap (contains b) (sym (ip_eq_sound h x same)) ∙ outside in
          rw gone
      | inr other ↦ rw other (ground arith)
    ])
  ]

  -- ExcludeHost cuts a block of n leading ones, without host digits, into 32 - n pieces, if
  -- the host is a four-byte address in it.
  pub length-exclude_host :
      (h : Ip4) → IsIp4 h → contains b h ≡ true → length (exclude_host b (some h)) ≡ 32 - n
  length-exclude_host h ih inside =
      rw (exclude_host-split_loop h ih inside) (length-split_loop (32 - n) n b h)
