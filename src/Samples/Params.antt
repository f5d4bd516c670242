-- ===== src/Samples/Params.antt =====
-- The environment and the address code at the rig's values.
use openconnect_ubuntu_touch.Common.{ℕ, ◌≡◌, ◌≢◌, ◌↔◌, ok, ◌≤◌, ◌<◌, ◌+◌, ◌-◌, ◌^◌, arith, true}
use openconnect_ubuntu_touch.Net.Ip.{Ip4, IsIp4, value}
use openconnect_ubuntu_touch.Net.Mask.{mask_size, contains}
use openconnect_ubuntu_touch.Params.{Params}
use openconnect_ubuntu_touch.Params.Env.{parse_params}
use openconnect_ubuntu_touch.Params.EnvLaws.{
  IsParsed, fd_of, address_of, netmask_of, parse_params_ok_iff, parse_params-IsParsed,
}
use openconnect_ubuntu_touch.Params.Addresses.{server_ip, pool_range}
use openconnect_ubuntu_touch.Params.Laws.{
  IsAddressed, subnet, base_of, server_ip_place, server_ip_ok_iff, pool_range_place,
}
use openconnect_ubuntu_touch.Samples.Rig.{
  rig_env, rig, rig_parsed, rig_endpoint, rig_prefix, server,
}

parse_params-IsParsed_example : IsParsed rig
parse_params-IsParsed_example = parse_params-IsParsed rig_env rig rig_parsed

parse_params_ok_iff_example : ((p : Params) × (parse_params rig_env ≡ ok p)) ↔ (
    ((fd : ℕ) × (fd_of rig_env ≡ ok fd))
    × ((a : Ip4) × (address_of rig_env ≡ ok a))
    × ((m : Ip4) × (netmask_of rig_env ≡ ok m)))
parse_params_ok_iff_example = parse_params_ok_iff rig_env

rig-IsAddressed : IsAddressed rig
rig-IsAddressed = record { net_addr_ip = omega arith; netmask_ip = omega arith }

server_ip_place_example :
    (s : Ip4) × (server_ip rig ≡ ok s)
    × IsIp4 s
    × (s ≢ rig.address)
    × (contains (subnet rig) s ≡ true)
    × (base_of rig < value s)
    × (value s ≤ base_of rig + 2)
server_ip_place_example = server_ip_place rig 24 rig-IsAddressed rig_prefix (omega arith)

pool_range_place_example :
    (pool : Ip4 × Ip4) × (pool_range rig server ≡ ok pool)
    × (value pool.0 ≡ value server + 1)
    × (value pool.1 + 2 ≡ base_of rig + 2 ^ (32 - 24))
    × (value pool.0 < value pool.1)
    × (contains (subnet rig) pool.0 ≡ true)
    × (contains (subnet rig) pool.1 ≡ true)
pool_range_place_example =
    pool_range_place rig 24 server rig-IsAddressed rig_prefix (omega arith) rig_endpoint

server_ip_ok_iff_example :
    ((s : Ip4) × (server_ip rig ≡ ok s)) ↔ ((n : ℕ) × (mask_size rig.netmask ≡ (n, 32)) × (n ≤ 29))
server_ip_ok_iff_example = server_ip_ok_iff rig rig-IsAddressed
