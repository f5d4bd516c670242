-- ===== src/Samples/Rig.antt =====
-- The environment of a tunnel to 198.18.110.147 that hands out 10.99.0.121, as data, and runs on it.
use openconnect_ubuntu_touch.Common.{◌≡◌, refl, some, List, [], ◌∷◌, if◌then◌else◌, ok, length}
use openconnect_ubuntu_touch.Common.Text.{Text, codes, text_eq}
use openconnect_ubuntu_touch.Net.Ip.{Ip4}
use openconnect_ubuntu_touch.Net.Mask.{IpNet, mask_size, mask_ip, contains}
use openconnect_ubuntu_touch.Net.Parse.{parse_ip, to4}
use openconnect_ubuntu_touch.Strings.{trim_space, fields}
use openconnect_ubuntu_touch.Strconv.{atoi, itoa}
use openconnect_ubuntu_touch.Routes.Exclude.{exclude_host, split_loop}
use openconnect_ubuntu_touch.Params.{Params}
use openconnect_ubuntu_touch.Params.Env.{
  Environment, env, ip4_of, parse_params, parse_fd, parse_ip4, parse_mtu, parse_dns, parse_routes,
  parse_route, rounds_of,
}
use openconnect_ubuntu_touch.Params.Addresses.{server_ip}
use openconnect_ubuntu_touch.Routes.Split.{split_routes}

abbrev pub lookup : List (Text × Text) → Environment
lookup [] k = []
lookup ((n, v) ∷ vs) k = if text_eq n k then v else lookup vs k

abbrev pub rig_env : Environment
rig_env = lookup (
    (codes "VPNFD", codes "9")
    ∷ (codes "VPNGATEWAY", codes "198.18.110.147")
    ∷ (codes "INTERNAL_IP4_ADDRESS", codes " 10.99.0.121 ")
    ∷ (codes "INTERNAL_IP4_NETMASK", codes "255.255.255.0")
    ∷ (codes "INTERNAL_IP4_DNS", codes "10.99.0.1 fd00::1 10.99.0.2")
    ∷ (codes "INTERNAL_IP4_MTU", codes "1390")
    ∷ (codes "CISCO_SPLIT_INC", codes "2")
    ∷ (codes "CISCO_SPLIT_INC_0_ADDR", codes "198.18.0.0")
    ∷ (codes "CISCO_SPLIT_INC_0_MASK", codes "255.255.0.0")
    ∷ (codes "CISCO_SPLIT_INC_1_ADDR", codes "nonsense")
    ∷ [])

abbrev pub gateway : Ip4
gateway = record { b0 = 198; b1 = 18; b2 = 110; b3 = 147 }

abbrev pub client : Ip4
client = record { b0 = 10; b1 = 99; b2 = 0; b3 = 121 }

abbrev pub client_mask : Ip4
client_mask = record { b0 = 255; b1 = 255; b2 = 255; b3 = 0 }

abbrev pub server : Ip4
server = record { b0 = 10; b1 = 99; b2 = 0; b3 = 1 }

abbrev pub split_network : Ip4
split_network = record { b0 = 198; b1 = 18; b2 = 0; b3 = 0 }

abbrev pub split_mask : Ip4
split_mask = record { b0 = 255; b1 = 255; b2 = 0; b3 = 0 }

abbrev pub split_block : IpNet
split_block = record { ip = split_network; mask = split_mask }

abbrev pub rig : Params
rig = record {
  vpnfd = 9;
  gateway = some gateway;
  address = client;
  netmask = client_mask;
  net_addr = record client { b3 = 0 };
  mtu = 1390;
  dns = server ∷ record server { b3 = 2 } ∷ [];
  domain = [];
  splits = record { network = split_network; mask = split_mask } ∷ [];
  reason = [];
}

pub rig_parsed : parse_params rig_env ≡ ok rig
unfolding parse_params parse_fd env trim_space text_eq atoi parse_ip4 parse_ip to4 ip4_of mask_ip
    parse_mtu parse_dns parse_routes fields rounds_of parse_route itoa
rig_parsed = refl

rig_pieces : length (split_routes rig) ≡ 16
unfolding split_routes contains exclude_host mask_size split_loop
rig_pieces = refl

pub rig_endpoint : server_ip rig ≡ ok server
unfolding server_ip mask_size mask_ip
rig_endpoint = refl

pub rig_prefix : mask_size rig.netmask ≡ (24, 32)
unfolding mask_size
rig_prefix = refl
