-- ===== src/Params/Env.antt =====
-- env, parseIP4 and ParseParams: the script-tun environment is read and validated.
use openconnect_ubuntu_touch.Common.{
  ℕ, zero, suc, ◌+◌, ◌&&◌, Option, none, some, List, [], ◌∷◌, ◌++◌, leb, if◌then◌else◌, Result, ok,
  err, ◌>>=◌,
}
use openconnect_ubuntu_touch.Common.Text.{Text, codes, is_empty}
use openconnect_ubuntu_touch.Common.Int.{ℤ, pos, negsuc}
use openconnect_ubuntu_touch.Strings.{trim_space, fields}
use openconnect_ubuntu_touch.Strconv.{Atoi, atoi, itoa}
use openconnect_ubuntu_touch.Net.Ip.{Ip4}
use openconnect_ubuntu_touch.Net.Mask.{mask_ip}
use openconnect_ubuntu_touch.Net.Parse.{parse_ip, to4}
use openconnect_ubuntu_touch.Params.{Route, Params}

-- os.Getenv: an unset variable is empty.
abbrev pub Environment : Type 0
Environment = Text → Text

-- The errors of ParseParams, with the variable and its value.
pub data ParamsError : Type 0 where
  not_script_tun : ParamsError
  bad_descriptor : Text → ParamsError
  unset : Text → ParamsError
  not_ip : Text → Text → ParamsError
  not_ipv4 : Text → Text → ParamsError

unfoldable pub env : Environment → Text → Text
env e k = trim_space (e k)

-- The IPv4 address in a text, if ParseIP and To4 find one.
unfoldable pub ip4_of : Text → Option Ip4
ip4_of v = elim (parse_ip v) [ none ↦ none | some ip ↦ to4 ip ]

-- `parseIP4`
unfoldable pub parse_ip4 : Environment → Text → Result ParamsError Ip4
parse_ip4 e k =
    let v = env e k in
    if is_empty v then err (unset k) else elim (parse_ip v) [
      | none ↦ err (not_ip k v)
      | some ip ↦ elim (to4 ip) [ none ↦ err (not_ipv4 k v) | some a ↦ ok a ]
    ]

descriptor : Text → Atoi → Result ParamsError ℕ
descriptor v n = elim n.val [
  | negsuc m ↦ err (bad_descriptor v)
  | pos m ↦ if n.is_ok then ok m else err (bad_descriptor v)
]

-- The descriptor: a number that is not negative.
unfoldable pub parse_fd : Text → Result ParamsError ℕ
unfolding descriptor
parse_fd v = if is_empty v then err not_script_tun else descriptor v (atoi v)

unfoldable pub default_mtu : ℕ
default_mtu = 1400

-- The MTU that is sent, if it is a number from 576 to 65535.
unfoldable pub parse_mtu : Text → ℕ
unfolding default_mtu
parse_mtu v =
    let n = atoi v in
    let sent : ℕ = elim n.val [
      | negsuc m ↦ default_mtu
      | pos m ↦ if n.is_ok && leb 576 m && leb m 65535 then m else default_mtu
    ] in
    if is_empty v then default_mtu else sent

-- The IPv4 addresses among the fields.
unfoldable pub parse_dns : List Text → List Ip4
parse_dns [] = []
parse_dns (f ∷ fs) = elim (ip4_of f) [ none ↦ parse_dns fs | some a ↦ a ∷ parse_dns fs ]

-- "CISCO_SPLIT_INC_%d_ADDR" and "CISCO_SPLIT_INC_%d_MASK"
abbrev pub split_addr_key : ℕ → Text
split_addr_key i = codes "CISCO_SPLIT_INC_" ++ (itoa i ++ codes "_ADDR")

abbrev pub split_mask_key : ℕ → Text
split_mask_key i = codes "CISCO_SPLIT_INC_" ++ (itoa i ++ codes "_MASK")

-- Route `i`, if both its address and its mask are IPv4.
unfoldable pub parse_route : Environment → ℕ → Option Route
parse_route e i = elim (ip4_of (env e (split_addr_key i))) [
  | none ↦ none
  | some addr ↦ elim (ip4_of (env e (split_mask_key i))) [
    | none ↦ none
    | some mask ↦ some (record { network = addr; mask = mask })
  ]
]

-- The loop from `i` on, with its rounds left: a route that does not parse is skipped.
unfoldable pub parse_routes : Environment → ℕ → ℕ → List Route
parse_routes e zero i = []
parse_routes e (suc rounds) i =
    let rest = parse_routes e rounds (i + 1) in
    elim (parse_route e i) [ none ↦ rest | some r ↦ r ∷ rest ]

-- The rounds of `for i := 0; i < n; i++`: none for a negative count.
unfoldable pub rounds_of : ℤ → ℕ
rounds_of (pos n) = n
rounds_of (negsuc n) = 0

-- The network address that is sent, or the one derived.
abbrev pub net_addr_or : Ip4 → Result ParamsError Ip4 → Ip4
net_addr_or derived (ok a) = a
net_addr_or derived (err x) = derived

-- The tunnel description, once the three required values are there.
abbrev pub params_of : Environment → ℕ → Ip4 → Ip4 → Params
params_of e fd address netmask = record {
  vpnfd = fd;
  gateway = ip4_of (env e (codes "VPNGATEWAY"));
  address = address;
  netmask = netmask;
  net_addr = net_addr_or (mask_ip address netmask) (parse_ip4 e (codes "INTERNAL_IP4_NETADDR"));
  mtu = parse_mtu (env e (codes "INTERNAL_IP4_MTU"));
  dns = parse_dns (fields (env e (codes "INTERNAL_IP4_DNS")));
  domain = env e (codes "CISCO_DEF_DOMAIN");
  splits = parse_routes e (rounds_of (atoi (env e (codes "CISCO_SPLIT_INC"))).val) 0;
  reason = env e (codes "reason");
}

-- `ParseParams`
unfoldable pub parse_params : Environment → Result ParamsError Params
parse_params e = do
  fd ← parse_fd (env e (codes "VPNFD"))
  address ← parse_ip4 e (codes "INTERNAL_IP4_ADDRESS")
  netmask ← parse_ip4 e (codes "INTERNAL_IP4_NETMASK")
  ok (params_of e fd address netmask)
