-- ===== src/Routes/Split/Faults.antt =====
-- Routes that ParseParams lets through and SplitRoutes does not handle: a mask whose ones are not all
-- leading, and a network with host digits.
use openconnect_ubuntu_touch.Common.{
  ℕ, suc, ◌+◌, ◌-◌, ◌/◌, ◌%◌, ◌^◌, ◌≤◌, ◌<◌, ◌≡◌, ◌≢◌, refl, sym, ap, ◌∙◌, true, false, arith, ◌==◌,
  List, [], ◌∷◌, ◌++◌, Option, none, some, count_if-append, append_assoc, ==_iff,
}
use openconnect_ubuntu_touch.Common.Bits.{bit_or_set}
use openconnect_ubuntu_touch.Net.Ip.{Ip4, IsIp4, value, of_value-value}
use openconnect_ubuntu_touch.Net.Mask.{IpNet, cidr_mask, mask_size, simple_mask_length, contains}
use openconnect_ubuntu_touch.Net.Mask.Prefix.{contains_digits, contains_block}
use openconnect_ubuntu_touch.Net.Mask.Size.{mask_size_sound}
use openconnect_ubuntu_touch.Params.{Params, Route}
use openconnect_ubuntu_touch.Params.Words.{shl32-one, ip2u32-value, u32_to_ip-of_value}
use openconnect_ubuntu_touch.Routes.Exclude.{halves, split_loop, exclude_host}
use openconnect_ubuntu_touch.Routes.Exclude.Halves.{shift_one}
use openconnect_ubuntu_touch.Routes.Exclude.Partition.{coverage}
use openconnect_ubuntu_touch.Routes.Split.{block_of, split_route, split_all, split_routes}
use openconnect_ubuntu_touch.Routes.Split.Coverage.{carried}

mask_size_fails : (m : Ip4) → (mask_size m).1 ≢ 32 → (mask_size m).0 ≡ 0
unfolding mask_size
mask_size_fails m h = fails (simple_mask_length (m.b0 ∷ m.b1 ∷ m.b2 ∷ m.b3 ∷ []) 0) h
  where
    fails :
        (o : Option ℕ)
        → (let s : ℕ × ℕ = elim o [ none ↦ (0, 0) | some n ↦ (n, 32) ] in s.1 ≢ 32)
        → (let s : ℕ × ℕ = elim o [ none ↦ (0, 0) | some n ↦ (n, 32) ] in s.0 ≡ 0)
    fails none f = refl
    fails (some n) f = absurd (f refl)

-- The mask 0.0.0.0 holds every address.
contains_all :
    (a x : Ip4) → IsIp4 a → IsIp4 x → contains (record { ip = a; mask = cidr_mask 0 }) x ≡ true
contains_all a x ia ix = contains_digits 0 a x (omega arith) ia ix ∙ (==_iff _ _).1 (omega arith)

split_route_noncontiguous :
    (gw : Ip4) (r : Route)
    → (mask_size r.mask).1 ≢ 32
    → contains (block_of r) gw ≡ true
    → split_route (some gw) r ≡ record { network = r.network; mask = cidr_mask 0 } ∷ []
unfolding split_route exclude_host
split_route_noncontiguous gw r odd inside =
    let bits : ((mask_size r.mask).1 == 32) ≡ false = ground arith in
    rw (inside, bits, mask_size_fails r.mask odd)

split_all-append :
    (g : Option Ip4) (rs ss : List Route)
    → split_all g (rs ++ ss) ≡ split_all g rs ++ split_all g ss
unfolding split_all
split_all-append g [] ss = refl
split_all-append g (r ∷ rs) ss =
    rw (split_all-append g rs ss)
      (sym (append_assoc (split_route g r) (split_all g rs) (split_all g ss)))

-- What one route leaves is among the pushed routes.
carried-split_all :
    (g : Option Ip4) (before after : List Route) (r : Route) (x : Ip4)
    → carried (split_route g r) x ≤ carried (split_all g (before ++ r ∷ after)) x
unfolding split_all
carried-split_all g before after r x = rw (split_all-append g before (r ∷ after)) (
    omega (
      arith,
      count_if-append (λ s. contains (block_of s) x) (split_all g before)
          (split_route g r ++ split_all g after),
      count_if-append (λ s. contains (block_of s) x) (split_route g r) (split_all g after),
    ))

-- If the gateway's address is known, and a route with a four-byte network that covers it has a
-- mask whose ones are not all leading, the pushed routes carry every four-byte address, the
-- gateway's included if it is one.
pub split_routes_noncontiguous :
    (p : Params) (gw x : Ip4) (before after : List Route) (r : Route)
    → p.gateway ≡ some gw
    → p.splits ≡ before ++ r ∷ after
    → IsIp4 r.network
    → IsIp4 x
    → (mask_size r.mask).1 ≢ 32
    → contains (block_of r) gw ≡ true
    → 1 ≤ carried (split_routes p) x
unfolding split_routes
split_routes_noncontiguous p gw x before after r known listed ir ix odd inside =
    let one = split_route_noncontiguous gw r odd inside in
    let whole = contains_all r.network x ir ix in
    let here : carried (split_route (some gw) r) x ≡ 1 = rw (one, whole) refl in
    rw (known, listed) (omega (arith, carried-split_all (some gw) before after r x, here))

-- A block with the highest host digit set: its "halves" are one and the same.
module _ (b : IpNet) (n r : ℕ) (len : n + suc r ≡ 32) (valid : IsIp4 b.ip)
    (set : value b.ip / 2 ^ r % 2 ≡ 1) where
  halves-same : (halves b (n + 1)).0 ≡ (halves b (n + 1)).1
  unfolding halves
  halves-same =
      let e : 32 - (n + 1) ≡ r = omega arith in
      rw (e, ip2u32-value b.ip valid, shl32-one r (omega arith), bit_or_set r (value b.ip) set)

  halves-itself : (halves b (n + 1)).0 ≡ record { ip = b.ip; mask = cidr_mask (n + 1) }
  unfolding halves
  halves-itself = rw (ip2u32-value b.ip valid, u32_to_ip-of_value, of_value-value b.ip valid)

  -- A host in the upper half is carried by the piece that was kept.
  split_loop_leak :
      (h : Ip4)
      → IsIp4 h
      → value b.ip / 2 ^ suc r ≡ value h / 2 ^ suc r
      → value h / 2 ^ r % 2 ≡ 1
      → 1 ≤ coverage (split_loop (suc r) n b h) h
  unfolding split_loop
  split_loop_leak h ih inside upper =
      let digits : value b.ip / 2 ^ r ≡ value h / 2 ^ r =
        omega (arith, shift_one (value b.ip) r, shift_one (value h) r) in
      let held =
        contains_block (n + 1) r (record { ip = b.ip; mask = cidr_mask (n + 1) }) h (omega arith)
          refl valid ih
        ∙ (==_iff _ _).1 digits in
      let lower : contains (halves b (n + 1)).0 h ≡ true = rw halves-itself held in
      let high : contains (halves b (n + 1)).1 h ≡ true = rw halves-same at lower in
      rw (high, lower) (omega arith)

-- For addresses of four bytes and a mask of fewer than 32 leading ones and nothing behind them:
-- if a block has its highest host digit set, and so has the host inside it, ExcludeHost leaves
-- the host in a piece.
pub exclude_host_leak :
    (b : IpNet) (n : ℕ) (h : Ip4)
    → IsIp4 b.ip
    → IsIp4 b.mask
    → IsIp4 h
    → mask_size b.mask ≡ (n, 32)
    → n < 32
    → contains b h ≡ true
    → value b.ip / 2 ^ (31 - n) % 2 ≡ 1
    → value h / 2 ^ (31 - n) % 2 ≡ 1
    → 1 ≤ coverage (exclude_host b (some h)) h
unfolding exclude_host
exclude_host_leak b n h ib im ih size lt inside set upper =
    let (le, e) = mask_size_sound b.mask n im size in
    let hosts : 32 - n ≡ suc (31 - n) = omega arith in
    let ones = ap (λ (t : ℕ × ℕ). t.0) size in
    let bits = ap (λ (t : ℕ × ℕ). t.1) size in
    let more : (n == 32) ≡ false = ground arith in
    let digits =
      (==_iff _ _).0 (sym (contains_block n (suc (31 - n)) b h (omega arith) e ib ih) ∙ inside) in
    rw (inside, ones, bits, more, hosts)
      (split_loop_leak b n (31 - n) (omega arith) ib set h ih digits upper)
