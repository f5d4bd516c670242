-- ===== src/Params/EnvLaws.antt =====
-- What ParseParams accepts, and what it returns.
use openconnect_ubuntu_touch.Common.{
  ℕ, zero, suc, ◌+◌, ◌≤◌, ◌<◌, ◌≡◌, refl, subst, ◌↔◌, true, some, List, [], ◌∷◌, leb, Result, ok,
  err, >>=-eq-ok, arith, bit_and, All, all_below, all_below_sound, Option-cases, inl, inr,
}
use openconnect_ubuntu_touch.Common.Text.{Text, codes}
use openconnect_ubuntu_touch.Strings.{fields}
use openconnect_ubuntu_touch.Strconv.{atoi}
use openconnect_ubuntu_touch.Net.Ip.{Ip4, IsIp4}
use openconnect_ubuntu_touch.Net.Mask.{mask_ip}
use openconnect_ubuntu_touch.Net.Parse.{parse_ip}
use openconnect_ubuntu_touch.Net.Parse.Bytes.{to4-IsIp4}
use openconnect_ubuntu_touch.Params.{Route, Params}
use openconnect_ubuntu_touch.Params.Env.{
  Environment, ParamsError, env, ip4_of, parse_ip4, parse_fd, parse_mtu, parse_dns, parse_route,
  parse_routes, split_addr_key, split_mask_key, rounds_of, net_addr_or, params_of, parse_params,
}

-- What holds of every parsed tunnel description.
pub record IsParsed (p : Params) : Type 0 where
  pub address_ip : IsIp4 p.address
  pub netmask_ip : IsIp4 p.netmask
  pub net_addr_ip : IsIp4 p.net_addr
  pub gateway_ip : (g : Ip4) → p.gateway ≡ some g → IsIp4 g
  pub mtu_range : (576 ≤ p.mtu) × (p.mtu ≤ 65535)
  pub dns_ip : All IsIp4 p.dns
  pub splits_ip : All (λ r. IsIp4 r.network × IsIp4 r.mask) p.splits

and_table : all_below 256 (λ a. all_below 256 λ b. leb (bit_and a b) 255) ≡ true
unfolding all_below
and_table = refl

bit_and-lt : (a b : ℕ) → a < 256 → b < 256 → bit_and a b < 256
bit_and-lt a b ha hb =
    let t = all_below_sound 256 _ b (all_below_sound 256 _ a and_table ha) hb in ground (arith, t)

mask_ip-IsIp4_any : (a m : Ip4) → IsIp4 a → IsIp4 m → IsIp4 (mask_ip a m)
unfolding mask_ip
mask_ip-IsIp4_any a m ha hm = record {
  b0_lt = bit_and-lt a.b0 m.b0 ha.b0_lt hm.b0_lt;
  b1_lt = bit_and-lt a.b1 m.b1 ha.b1_lt hm.b1_lt;
  b2_lt = bit_and-lt a.b2 m.b2 ha.b2_lt hm.b2_lt;
  b3_lt = bit_and-lt a.b3 m.b3 ha.b3_lt hm.b3_lt;
}

ip4_of-IsIp4 : (v : Text) (a : Ip4) → ip4_of v ≡ some a → IsIp4 a
unfolding ip4_of
ip4_of-IsIp4 v a e = elim (Option-cases (parse_ip v)) [
  | inl bad ↦ absurd (ground (arith, bad))
  | inr (bs, good) ↦ to4-IsIp4 v bs a good (ground (arith, good))
]

parse_ip4-IsIp4 : (e : Environment) (k : Text) (a : Ip4) → parse_ip4 e k ≡ ok a → IsIp4 a
unfolding parse_ip4
parse_ip4-IsIp4 e k a h = elim (Option-cases (parse_ip (env e k))) [
  | inl bad ↦ absurd (ground (arith, bad))
  | inr (bs, good) ↦ to4-IsIp4 (env e k) bs a good (ground (arith, good))
]

parse_mtu_range : (v : Text) → (576 ≤ parse_mtu v) × (parse_mtu v ≤ 65535)
unfolding parse_mtu
parse_mtu_range v = ground arith

parse_dns-IsIp4 : (fs : List Text) → All IsIp4 (parse_dns fs)
unfolding parse_dns
parse_dns-IsIp4 [] = tt
parse_dns-IsIp4 (f ∷ fs) = elim (Option-cases (ip4_of f)) [
  | inl bad ↦ rw (bad, parse_dns) (parse_dns-IsIp4 fs)
  | inr (a, good) ↦ rw (good, parse_dns) (ip4_of-IsIp4 f a good, parse_dns-IsIp4 fs)
]

parse_route-IsIp4 :
    (e : Environment) (i : ℕ) (r : Route)
    → parse_route e i ≡ some r
    → IsIp4 r.network × IsIp4 r.mask
unfolding parse_route
parse_route-IsIp4 e i r h = elim (Option-cases (ip4_of (env e (split_addr_key i)))) [
  | inl bad ↦ absurd (ground (arith, bad))
  | inr (a, good) ↦ elim (Option-cases (ip4_of (env e (split_mask_key i)))) [
    | inl bad ↦ absurd (ground (arith, good, bad))
    | inr (m, found) ↦
        let same : record { network = a; mask = m } ≡ r = ground (arith, good, found) in
        subst (λ (t : Route). IsIp4 t.network × IsIp4 t.mask) same
          (
            ip4_of-IsIp4 (env e (split_addr_key i)) a good,
            ip4_of-IsIp4 (env e (split_mask_key i)) m found,
          )
  ]
]

parse_routes-IsIp4 :
    (e : Environment) (n i : ℕ) → All (λ r. IsIp4 r.network × IsIp4 r.mask) (parse_routes e n i)
unfolding parse_routes
parse_routes-IsIp4 e zero i = tt
parse_routes-IsIp4 e (suc n) i = elim (Option-cases (parse_route e i)) [
  | inl skipped ↦ rw (skipped, parse_routes) (parse_routes-IsIp4 e n (i + 1))
  | inr (r, good) ↦
      rw (good, parse_routes) (parse_route-IsIp4 e i r good, parse_routes-IsIp4 e n (i + 1))
]

-- The three values without which ParseParams fails.
module _ (e : Environment) where
  abbrev pub fd_of : Result ParamsError ℕ
  fd_of = parse_fd (env e (codes "VPNFD"))

  abbrev pub address_of : Result ParamsError Ip4
  address_of = parse_ip4 e (codes "INTERNAL_IP4_ADDRESS")

  abbrev pub netmask_of : Result ParamsError Ip4
  netmask_of = parse_ip4 e (codes "INTERNAL_IP4_NETMASK")

  abbrev pub net_addr_of : Result ParamsError Ip4
  net_addr_of = parse_ip4 e (codes "INTERNAL_IP4_NETADDR")

-- What a successful run went through.
pub parse_params_inv :
    (e : Environment) (p : Params)
    → parse_params e ≡ ok p
    → (fd : ℕ) × (a : Ip4) × (m : Ip4) × (fd_of e ≡ ok fd)
      × (address_of e ≡ ok a)
      × (netmask_of e ≡ ok m)
      × (params_of e fd a m ≡ p)
unfolding parse_params
parse_params_inv e p h =
    let (fd, e1, h1) = >>=-eq-ok (fd_of e) _ h in
    let (a, e2, h2) = >>=-eq-ok (address_of e) _ h1 in
    let (m, e3, h3) = >>=-eq-ok (netmask_of e) _ h2 in (fd, a, m, e1, e2, e3, cc h3)

-- ParseParams succeeds exactly when there is a descriptor, an address and a netmask: no other variable
-- can make it fail.
pub parse_params_ok_iff :
    (e : Environment)
    → ((p : Params) × (parse_params e ≡ ok p)) ↔ (
        ((fd : ℕ) × (fd_of e ≡ ok fd))
        × ((a : Ip4) × (address_of e ≡ ok a))
        × ((m : Ip4) × (netmask_of e ≡ ok m)))
unfolding parse_params
parse_params_ok_iff e = (
  (λ r.
      let (fd, a, m, e1, e2, e3, same) = parse_params_inv e r.0 r.1 in
      ((fd, e1), (a, e2), (m, e3))),
  λ r. (params_of e r.0.0 r.1.0 r.2.0, rw (r.0.1, r.1.1, r.2.1)),
)

net_addr_or-IsIp4 :
    (a m : Ip4) (r : Result ParamsError Ip4)
    → IsIp4 a
    → IsIp4 m
    → ((n : Ip4) → r ≡ ok n → IsIp4 n)
    → IsIp4 (net_addr_or (mask_ip a m) r)
net_addr_or-IsIp4 a m (ok n) ia im f = f n refl
net_addr_or-IsIp4 a m (err x) ia im f = mask_ip-IsIp4_any a m ia im

params_of-IsParsed :
    (e : Environment) (fd : ℕ) (a m : Ip4)
    → address_of e ≡ ok a
    → netmask_of e ≡ ok m
    → IsParsed (params_of e fd a m)
params_of-IsParsed e fd a m ea em =
    let ia = parse_ip4-IsIp4 e (codes "INTERNAL_IP4_ADDRESS") a ea in
    let im = parse_ip4-IsIp4 e (codes "INTERNAL_IP4_NETMASK") m em in
    record {
      address_ip = ia;
      netmask_ip = im;
      net_addr_ip =
          net_addr_or-IsIp4 a m (net_addr_of e) ia im
            (λ n h. parse_ip4-IsIp4 e (codes "INTERNAL_IP4_NETADDR") n h);
      gateway_ip = λ g h. ip4_of-IsIp4 (env e (codes "VPNGATEWAY")) g h;
      mtu_range = parse_mtu_range (env e (codes "INTERNAL_IP4_MTU"));
      dns_ip = parse_dns-IsIp4 (fields (env e (codes "INTERNAL_IP4_DNS")));
      splits_ip = parse_routes-IsIp4 e (rounds_of (atoi (env e (codes "CISCO_SPLIT_INC"))).val) 0;
    }

-- In a tunnel description that ParseParams returns, every address and mask is four bytes, and the MTU
-- is from 576 to 65535.
pub parse_params-IsParsed : (e : Environment) (p : Params) → parse_params e ≡ ok p → IsParsed p
parse_params-IsParsed e p h =
    let (fd, a, m, e1, e2, e3, same) = parse_params_inv e p h in
    subst IsParsed same (params_of-IsParsed e fd a m e2 e3)
