-- ===== src/Samples/Routes.antt =====
-- The routes at the rig's values, and at two routes that are no blocks.
use openconnect_ubuntu_touch.Common.{
  ◌≡◌, ◌≢◌, refl, ◌≤◌, arith, true, not, ◌&&◌, none, some, [], ◌∷◌, if◌then◌else◌,
}
use openconnect_ubuntu_touch.Net.Ip.{Ip4, IsIp4, ip_eq}
use openconnect_ubuntu_touch.Net.Mask.{IpNet, mask_size, mask_ip, contains}
use openconnect_ubuntu_touch.Params.{Params, Route}
use openconnect_ubuntu_touch.Routes.Exclude.{exclude_host}
use openconnect_ubuntu_touch.Routes.Exclude.Partition.{coverage, IsBlock, exclude_host-coverage}
use openconnect_ubuntu_touch.Routes.Split.{block_of, split_routes}
use openconnect_ubuntu_touch.Routes.Split.Coverage.{
  carried, split_routes-carried, split_routes-none,
}
use openconnect_ubuntu_touch.Routes.Split.Faults.{split_routes_noncontiguous, exclude_host_leak}
use openconnect_ubuntu_touch.Samples.Rig.{rig, gateway, client, split_block}

gateway-IsIp4 : IsIp4 gateway
gateway-IsIp4 = omega arith

client-IsIp4 : IsIp4 client
client-IsIp4 = omega arith

split-IsBlock : IsBlock split_block 16
unfolding mask_size mask_ip
split-IsBlock = record {
  ip_valid = omega arith;
  mask_valid = omega arith;
  size = refl;
  no_host_digits = refl;
}

split_holds_gateway : contains split_block gateway ≡ true
unfolding contains
split_holds_gateway = refl

split_routes-carried_example :
    (carried (split_routes rig) gateway ≡ 0)
    × (client ≢ gateway → carried (split_routes rig) client ≡ carried rig.splits client)
split_routes-carried_example =
    split_routes-carried rig gateway client refl gateway-IsIp4 client-IsIp4
      ((16, split-IsBlock), tt)

exclude_host-coverage_example :
    coverage (exclude_host split_block (some gateway)) client
    ≡ (if contains split_block client && not (ip_eq gateway client) then 1 else 0)
exclude_host-coverage_example =
    exclude_host-coverage split_block 16 split-IsBlock gateway client gateway-IsIp4 client-IsIp4

abbrev unresolved : Params
unresolved = record rig { gateway = none }

split_routes-none_example : split_routes unresolved ≡ unresolved.splits
split_routes-none_example = split_routes-none unresolved refl

-- 198.18.0.0 with the mask 255.0.255.0
abbrev gap_network : Ip4
gap_network = record { b0 = 198; b1 = 18; b2 = 110; b3 = 0 }

abbrev gap_route : Route
gap_route = record { network = gap_network; mask = record { b0 = 255; b1 = 0; b2 = 255; b3 = 0 } }

abbrev gap_example : Params
gap_example = record rig { splits = gap_route ∷ [] }

gap_size : (mask_size gap_route.mask).1 ≢ 32
unfolding mask_size
gap_size e = omega (arith, e)

gap_holds_gateway : contains (block_of gap_route) gateway ≡ true
unfolding contains mask_size
gap_holds_gateway = refl

split_routes_noncontiguous_example : 1 ≤ carried (split_routes gap_example) gateway
split_routes_noncontiguous_example =
    split_routes_noncontiguous gap_example gateway gateway [] [] gap_route refl refl (omega arith)
      gateway-IsIp4 gap_size gap_holds_gateway

-- 198.18.128.1 with the mask 255.255.0.0, and a gateway in the upper half of that block.
abbrev inner_block : IpNet
inner_block = record split_block { ip = record { b0 = 198; b1 = 18; b2 = 128; b3 = 1 } }

abbrev upper_gateway : Ip4
upper_gateway = record gateway { b2 = 200 }

inner_size : mask_size inner_block.mask ≡ (16, 32)
unfolding mask_size
inner_size = refl

inner_holds_gateway : contains inner_block upper_gateway ≡ true
unfolding contains mask_size
inner_holds_gateway = refl

exclude_host_leak_example :
    1 ≤ coverage (exclude_host inner_block (some upper_gateway)) upper_gateway
exclude_host_leak_example =
    exclude_host_leak inner_block 16 upper_gateway (omega arith) (omega arith) (omega arith)
      inner_size (omega arith) inner_holds_gateway refl refl
