-- ===== src/Routes/Exclude.antt =====
-- halves and ExcludeHost. The blocks are IPv4: block.IP.To4() is never nil here, and a host that is
-- nil, or no IPv4 address, is none.
pub mod Halves
pub mod Partition
use openconnect_ubuntu_touch.Common.{
  ℕ, zero, suc, ◌+◌, ◌-◌, Bool, not, Option, none, some, List, [], ◌∷◌, bit_or, ◌==◌, if◌then◌else◌,
}
use openconnect_ubuntu_touch.Net.Ip.{Ip4}
use openconnect_ubuntu_touch.Net.Mask.{IpNet, cidr_mask, contains, mask_size}
use openconnect_ubuntu_touch.Params.Words.{shl32, ip2u32, u32_to_ip}

-- `halves(block, prefix)`: the lower half, then the upper.
unfoldable pub halves : IpNet → ℕ → IpNet × IpNet
halves block prefix =
    let mask = cidr_mask prefix in
    let base = ip2u32 block.ip in
    (
      record { ip = u32_to_ip base; mask = mask },
      record { ip = u32_to_ip (bit_or base (shl32 1 (32 - prefix))); mask = mask },
    )

-- The loop of ExcludeHost with its rounds left: keep the half without the host, and go on in the other.
unfoldable pub split_loop : ℕ → ℕ → IpNet → Ip4 → List IpNet
split_loop zero prefix cur host = []
split_loop (suc rounds) prefix cur host =
    let (lo, hi) = halves cur (prefix + 1) in
    let upper = contains hi host in
    let keep = if upper then lo else hi in
    let descend = if upper then hi else lo in keep ∷ split_loop rounds (prefix + 1) descend host

-- `ExcludeHost`
unfoldable pub exclude_host : IpNet → Option Ip4 → List IpNet
exclude_host block none = block ∷ []
exclude_host block (some host) =
    let (ones, bits) = mask_size block.mask in
    if not (contains block host)
    then block ∷ []
    else if not (bits == 32)
    then block ∷ []
    else if ones == 32
    then []
    else split_loop (32 - ones) ones block host
