-- ===== src/Params/Laws.antt =====
-- Where ServerIP and PoolRange place the local endpoint and the address pool.
use mathlib.Core.Bool.{false≢true}
use native.Mathlib.Nat.{one-le-pow}
use openconnect_ubuntu_touch.Common.{
  ℕ, ◌+◌, ◌-◌, ◌*◌, ◌/◌, ◌%◌, ◌^◌, ◌≤◌, ◌<◌, ◌≡◌, ◌≢◌, ◌↔◌, inl, inr, sym, ap, subst, ◌∙◌, true,
  arith, if◌then◌else◌, ok, Bool-cases,
}
use openconnect_ubuntu_touch.Common.Bits.{bit_or-eq-add, div-eq_of_between}
use openconnect_ubuntu_touch.Net.Ip.{
  Ip4, IsIp4, ip_eq, ip_eq_sound, ip_eq_complete, value, of_value, of_value-IsIp4, value-of_value,
  value-lt,
}
use openconnect_ubuntu_touch.Net.Mask.{IpNet, contains, cidr_mask, mask_size, mask_ip}
use openconnect_ubuntu_touch.Net.Mask.Prefix.{two_pow_add, contains_iff}
use openconnect_ubuntu_touch.Net.Mask.Size.{mask_size_sound}
use openconnect_ubuntu_touch.Net.Mask.Masked.{value-mask_ip, mask_ip-IsIp4}
use openconnect_ubuntu_touch.Params.{Params}
use openconnect_ubuntu_touch.Params.Words.{
  u32_mod, ip2u32, ip2u32-value, u32_to_ip-of_value, not32-shl32, block_fits,
}
use openconnect_ubuntu_touch.Params.Addresses.{bump_last, server_ip, broadcast_of, pool_range}

-- The parsed addresses are addresses.
pub record IsAddressed (p : Params) : Type 0 where
  pub net_addr_ip : IsIp4 p.net_addr
  pub netmask_ip : IsIp4 p.netmask

-- The subnet of the assigned address.
abbrev pub subnet : Params → IpNet
subnet p = record { ip = p.net_addr; mask = p.netmask }

-- The first address of the subnet, and how many it has, as numbers.
abbrev pub base_of : Params → ℕ
base_of p = value (mask_ip p.net_addr p.netmask)

-- The endpoint that `server_ip` places.
chosen : Params → Ip4
chosen p =
    let base = mask_ip p.net_addr p.netmask in
    if ip_eq (bump_last base 1) p.address then bump_last base 2 else bump_last base 1

abbrev IsPlaced : Params → Ip4 → Type 0
IsPlaced p s = IsIp4 s × (s ≢ p.address) × (base_of p < value s) × (value s ≤ base_of p + 2)

module _ (p : Params) (n : ℕ) (wf : IsAddressed p) (size : mask_size p.netmask ≡ (n, 32)) where
  netmask_eq : p.netmask ≡ cidr_mask n
  netmask_eq = (mask_size_sound p.netmask n wf.netmask_ip size).1

  prefix_le : n ≤ 32
  prefix_le = (mask_size_sound p.netmask n wf.netmask_ip size).0

  base_eq : base_of p ≡ value p.net_addr / 2 ^ (32 - n) * 2 ^ (32 - n)
  base_eq = rw netmask_eq (value-mask_ip n p.net_addr prefix_le wf.net_addr_ip)

  base-IsIp4 : IsIp4 (mask_ip p.net_addr p.netmask)
  base-IsIp4 = rw netmask_eq (mask_ip-IsIp4 n p.net_addr wf.net_addr_ip)

  -- Inside the subnet, by number.
  contains_between :
      (a : Ip4)
      → IsIp4 a
      → base_of p ≤ value a
      → value a < base_of p + 2 ^ (32 - n)
      → contains (subnet p) a ≡ true
  contains_between a ia lo hi = rw netmask_eq (
      (contains_iff n p.net_addr a prefix_le wf.net_addr_ip ia).1 (
        sym (
          div-eq_of_between (2 ^ (32 - n)) (value a) (value p.net_addr / 2 ^ (32 - n))
            (omega (arith, base_eq)) (omega (arith, base_eq)))))

  module _ (room : n ≤ 29) where
    base_mod_8 : base_of p % 8 ≡ 0
    base_mod_8 =
        let e : 32 - n ≡ 29 - n + 3 = omega arith in
        let q = value p.net_addr / 2 ^ (32 - n) in
        omega
          (arith, base_eq, ap (λ (t : ℕ). q * t) (ap (λ (t : ℕ). 2 ^ t) e ∙ two_pow_add (29 - n) 3))

    value-bump_last :
        (off : ℕ) → off < 8 → value (bump_last (mask_ip p.net_addr p.netmask) off) ≡ base_of p + off
    unfolding bump_last
    value-bump_last off h = omega (arith, base_mod_8, base-IsIp4)

    bump_last-IsIp4 : (off : ℕ) → IsIp4 (bump_last (mask_ip p.net_addr p.netmask) off)
    unfolding bump_last
    bump_last-IsIp4 off = omega (arith, base-IsIp4)

    server_ip-chosen : server_ip p ≡ ok (chosen p)
    unfolding server_ip chosen
    server_ip-chosen =
        let ones = ap (λ (t : ℕ × ℕ). t.0) size in
        let bits = ap (λ (t : ℕ × ℕ). t.1) size in ground (arith, ones, bits)

    -- Where the endpoint may stand.
    chosen_place : IsPlaced p (chosen p)
    unfolding chosen
    chosen_place =
        let base = mask_ip p.net_addr p.netmask in
        let v1 = value-bump_last 1 (omega arith) in
        let v2 = value-bump_last 2 (omega arith) in
        elim (Bool-cases (ip_eq (bump_last base 1) p.address)) [
          | inl taken ↦
              let same = ip_eq_sound (bump_last base 1) p.address taken in
              rw taken (
                bump_last-IsIp4 2,
                (λ e. absurd (omega (arith, v1, v2, ap value (e ∙ sym same)))),
                omega (arith, v2),
                omega (arith, v2),
              )
          | inr free ↦ rw free (
            bump_last-IsIp4 1,
            (λ e. false≢true (sym free ∙ ip_eq_complete (bump_last base 1) p.address e)),
            omega (arith, v1),
            omega (arith, v1),
          )
        ]

    size_bounds : (8 ≤ 2 ^ (32 - n)) × (base_of p + 2 ^ (32 - n) ≤ u32_mod)
    size_bounds =
        let e : 32 - n ≡ 29 - n + 3 = omega arith in
        let eight = ap (λ (t : ℕ). 2 ^ t) e ∙ two_pow_add (29 - n) 3 in
        (
          omega (arith, eight, one-le-pow (29 - n) 2 (omega arith)),
          omega (
            arith,
            base_eq,
            block_fits n (value p.net_addr) prefix_le (value-lt p.net_addr wf.net_addr_ip),
          ),
        )

    broadcast_eq : broadcast_of p ≡ base_of p + (2 ^ (32 - n) - 1)
    unfolding broadcast_of
    broadcast_eq = joined ∙ omega (arith, base_eq)
      where
        joined :
            broadcast_of p ≡ value p.net_addr / 2 ^ (32 - n) * 2 ^ (32 - n) + (2 ^ (32 - n) - 1)
        joined =
            let ones : (mask_size p.netmask).0 ≡ n = ap (λ (t : ℕ × ℕ). t.0) size in
            let base = ip2u32-value (mask_ip p.net_addr p.netmask) base-IsIp4 ∙ base_eq in
            rw (ones, base, not32-shl32 (32 - n) (omega arith))
              (bit_or-eq-add (32 - n) (value p.net_addr / 2 ^ (32 - n)) (2 ^ (32 - n) - 1)
                (omega (arith, one-le-pow (32 - n) 2 (omega arith))))

    -- The bounds of the pool behind an endpoint near the start of the subnet.
    module _ (s : Ip4) (valid : IsIp4 s) (lo : base_of p < value s)
        (hi : value s ≤ base_of p + 2) where
      pool_start : (ip2u32 s + 1) % u32_mod ≡ value s + 1
      pool_start = omega (arith, ip2u32-value s valid, size_bounds)

      pool_last : (broadcast_of p + u32_mod - 1) % u32_mod ≡ base_of p + 2 ^ (32 - n) - 2
      pool_last = omega (arith, broadcast_eq, size_bounds)

      pool_range_above :
          (pool : Ip4 × Ip4) × (pool_range p s ≡ ok pool)
          × (value pool.0 ≡ value s + 1)
          × (value pool.1 + 2 ≡ base_of p + 2 ^ (32 - n))
          × (value pool.0 < value pool.1)
          × (contains (subnet p) pool.0 ≡ true)
          × (contains (subnet p) pool.1 ≡ true)
      unfolding pool_range
      pool_range_above =
          let start = value s + 1 in
          let last = base_of p + 2 ^ (32 - n) - 2 in
          let bounds = size_bounds in
          let first : value (of_value start) ≡ start = value-of_value start (omega arith) in
          let final : value (of_value last) ≡ last = value-of_value last (omega arith) in
          (
            (of_value start, of_value last),
            rw (pool_start, pool_last, u32_to_ip-of_value, u32_to_ip-of_value) (ground arith),
            first,
            omega arith,
            omega arith,
            contains_between (of_value start) (of_value-IsIp4 start) (omega arith) (omega arith),
            contains_between (of_value last) (of_value-IsIp4 last) (omega arith) (omega arith),
          )

-- For a network address and netmask of four bytes, and a mask of at most 29 leading ones:
-- ServerIP returns an address that is not the client's, lies in the client's subnet, and is the
-- first or second address behind the subnet's own.
pub server_ip_place :
    (p : Params) (n : ℕ)
    → IsAddressed p
    → mask_size p.netmask ≡ (n, 32)
    → n ≤ 29
    → (s : Ip4) × (server_ip p ≡ ok s)
      × IsIp4 s
      × (s ≢ p.address)
      × (contains (subnet p) s ≡ true)
      × (base_of p < value s)
      × (value s ≤ base_of p + 2)
server_ip_place p n wf size room =
    let (valid, other, lo, hi) = chosen_place p n wf size room in
    let (large, fits) = size_bounds p n wf size room in
    (
      chosen p,
      server_ip-chosen p n wf size room,
      valid,
      other,
      contains_between p n wf size (chosen p) valid (omega arith) (omega arith),
      lo,
      hi,
    )

-- For a network address and netmask of four bytes, ServerIP succeeds exactly if the netmask has
-- at most 29 leading ones and nothing behind them.
pub server_ip_ok_iff :
    (p : Params)
    → IsAddressed p
    → ((s : Ip4) × (server_ip p ≡ ok s)) ↔ ((n : ℕ) × (mask_size p.netmask ≡ (n, 32)) × (n ≤ 29))
unfolding server_ip
server_ip_ok_iff p wf = (
  (λ r.
      let e = r.1 in
      let (bits, small) : ((mask_size p.netmask).1 ≡ 32) × ((mask_size p.netmask).0 ≤ 29) =
        ground arith in
      ((mask_size p.netmask).0, ap (λ (t : ℕ). ((mask_size p.netmask).0, t)) bits, small)),
  λ r. (chosen p, server_ip-chosen p r.0 wf r.1 r.2),
)

-- For a network address and netmask of four bytes, a mask of at most 29 leading ones, and the
-- endpoint that ServerIP returned: PoolRange returns the rest of the subnet behind the endpoint,
-- up to the address below the broadcast address; both bounds lie in the subnet, the first below
-- the last.
pub pool_range_place :
    (p : Params) (n : ℕ) (s : Ip4)
    → IsAddressed p
    → mask_size p.netmask ≡ (n, 32)
    → n ≤ 29
    → server_ip p ≡ ok s
    → (pool : Ip4 × Ip4) × (pool_range p s ≡ ok pool)
      × (value pool.0 ≡ value s + 1)
      × (value pool.1 + 2 ≡ base_of p + 2 ^ (32 - n))
      × (value pool.0 < value pool.1)
      × (contains (subnet p) pool.0 ≡ true)
      × (contains (subnet p) pool.1 ≡ true)
pool_range_place p n s wf size room placed =
    let same : chosen p ≡ s = cc (server_ip-chosen p n wf size room) in
    let (valid, other, lo, hi) = subst (IsPlaced p) same (chosen_place p n wf size room) in
    pool_range_above p n wf size room s valid lo hi
