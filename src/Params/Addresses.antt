-- ===== src/Params/Addresses.antt =====
-- ServerIP and PoolRange.
use openconnect_ubuntu_touch.Common.{
  ℕ, ◌+◌, ◌-◌, ◌%◌, not, ◌||◌, bit_or, ltb, ◌==◌, if◌then◌else◌, Result, ok, err,
}
use openconnect_ubuntu_touch.Net.Ip.{Ip4, ip_eq}
use openconnect_ubuntu_touch.Net.Mask.{mask_size, mask_ip}
use openconnect_ubuntu_touch.Params.{Params}
use openconnect_ubuntu_touch.Params.Words.{u32_mod, shl32, not32, ip2u32, u32_to_ip}

-- The errors of the two methods, one constructor for each message.
pub data AddressError : Type 0 where
  not_ipv4_mask : AddressError
  prefix_too_long : ℕ → AddressError
  no_endpoint : ℕ → AddressError
  no_pool : ℕ → AddressError

-- `cand[3] += off`, on a byte
unfoldable pub bump_last : Ip4 → ℕ → Ip4
bump_last base off = record base { b3 = (base.b3 + off) % 256 }

-- `ServerIP`
unfoldable pub server_ip : Params → Result AddressError Ip4
unfolding bump_last
server_ip p =
    let (ones, bits) = mask_size p.netmask in
    let base = mask_ip p.net_addr p.netmask in
    let first = bump_last base 1 in
    let second = bump_last base 2 in
    if not (bits == 32)
    then err not_ipv4_mask
    else if ltb 29 ones
    then err (prefix_too_long ones)
    else if not (ip_eq first p.address)
    then ok first
    else if not (ip_eq second p.address)
    then ok second
    else err (no_endpoint ones)

-- The last address of the subnet: base | ^(^uint32(0) << (32 - ones)).
unfoldable pub broadcast_of : Params → ℕ
unfolding not32 shl32
broadcast_of p =
    bit_or (ip2u32 (mask_ip p.net_addr p.netmask))
      (not32 (shl32 (u32_mod - 1) (32 - (mask_size p.netmask).0)))

-- `PoolRange`: the sums and differences are of uint32.
unfoldable pub pool_range : Params → Ip4 → Result AddressError (Ip4 × Ip4)
pool_range p server =
    let start = (ip2u32 server + 1) % u32_mod in
    let last = (broadcast_of p + u32_mod - 1) % u32_mod in
    if ltb last start || ltb (((last + u32_mod - start) % u32_mod + 1) % u32_mod) 2
    then err (no_pool (mask_size p.netmask).0)
    else ok (u32_to_ip start, u32_to_ip last)
