-- ===== src/Routes/Split/Coverage.antt =====
-- Which addresses the routes of SplitRoutes carry.
use openconnect_ubuntu_touch.Common.{
  ℕ, zero, suc, ◌+◌, ◌-◌, ◌≤◌, ◌≡◌, ◌≢◌, refl, sym, ap, subst, ◌∙◌, arith, List, [], ◌∷◌, map, none,
  some, if◌then◌else◌, count_if, count_if-append, All, Bool-cases, inl, inr,
}
use openconnect_ubuntu_touch.Net.Ip.{Ip4, IsIp4, ip_eq, ip_eq_sound, ip_eq_complete}
use openconnect_ubuntu_touch.Net.Mask.{IpNet, cidr_mask, mask_size, contains}
use openconnect_ubuntu_touch.Net.Mask.Size.{mask_size-cidr_mask}
use openconnect_ubuntu_touch.Params.{Params, Route}
use openconnect_ubuntu_touch.Routes.Exclude.{halves, split_loop, exclude_host}
use openconnect_ubuntu_touch.Routes.Exclude.Partition.{
  coverage, IsBlock, exclude_host-coverage, exclude_host-split_loop, block_mask,
}
use openconnect_ubuntu_touch.Routes.Split.{
  block_of, route_of_piece, split_route, split_all, split_routes,
}

-- How many routes carry an address.
abbrev pub carried : List Route → Ip4 → ℕ
carried routes x = count_if (λ r. contains (block_of r) x) routes

-- A mask as CIDRMask makes it.
abbrev HasPrefix : IpNet → Type 0
HasPrefix b = (m : ℕ) × (m ≤ 32) × (b.mask ≡ cidr_mask m)

route_of_piece_lem : (b : IpNet) → HasPrefix b → block_of (route_of_piece b) ≡ b
unfolding route_of_piece
route_of_piece_lem b (m, le, e) =
    let size : mask_size b.mask ≡ (m, 32) = rw e (mask_size-cidr_mask m le) in
    λ i. record { ip = b.ip; mask = (ap (λ (t : ℕ × ℕ). cidr_mask t.0) size ∙ sym e) i }

carried-map :
    (pieces : List IpNet) (x : Ip4)
    → All HasPrefix pieces
    → carried (map route_of_piece pieces) x ≡ coverage pieces x
carried-map [] x h = refl
carried-map (b ∷ bs) x (hb, hs) = rw (route_of_piece_lem b hb, carried-map bs x hs)

split_loop-HasPrefix :
    (r n : ℕ) (cur : IpNet) (h : Ip4) → n + r ≡ 32 → All HasPrefix (split_loop r n cur h)
unfolding split_loop halves
split_loop-HasPrefix zero n cur h e = tt
split_loop-HasPrefix (suc r) n cur h e =
    let rest = split_loop-HasPrefix r (n + 1) _ h (omega arith) in
    elim (Bool-cases (contains (halves cur (n + 1)).1 h)) [
      | inl up ↦ ((n + 1, omega arith, rw up), rest)
      | inr down ↦ ((n + 1, omega arith, rw down), rest)
    ]

-- Every route of the gateway's is a block.
abbrev pub AreBlocks : List Route → Type 0
AreBlocks = All (λ r. (n : ℕ) × IsBlock (block_of r) n)

split_route-carried :
    (gw x : Ip4) (r : Route) (n : ℕ)
    → IsIp4 gw
    → IsIp4 x
    → IsBlock (block_of r) n
    → carried (split_route (some gw) r) x ≡ (if ip_eq gw x then 0 else carried (r ∷ []) x)
unfolding split_route
split_route-carried gw x r n ig ix block = elim (Bool-cases (contains (block_of r) gw)) [
  | inl inside ↦
      let pieces = exclude_host (block_of r) (some gw) in
      let shape = exclude_host-split_loop (block_of r) n block gw ig inside in
      let (le, _) = block_mask (block_of r) n block in
      let prefixes =
        subst (All HasPrefix) (sym shape)
          (split_loop-HasPrefix (32 - n) n (block_of r) gw (omega arith)) in
      let total =
        carried-map pieces x prefixes ∙ exclude_host-coverage (block_of r) n block gw x ig ix in
      rw (inside, total) (ground arith)
  | inr outside ↦ elim (Bool-cases (ip_eq gw x)) [
    | inl same ↦
        let gone = ap (contains (block_of r)) (sym (ip_eq_sound gw x same)) ∙ outside in
        rw (outside, same, gone)
    | inr other ↦ rw (outside, other)
  ]
]

split_all-carried :
    (gw x : Ip4) (rs : List Route)
    → IsIp4 gw
    → IsIp4 x
    → AreBlocks rs
    → carried (split_all (some gw) rs) x ≡ (if ip_eq gw x then 0 else carried rs x)
unfolding split_all
split_all-carried gw x [] ig ix h = ground arith
split_all-carried gw x (r ∷ rs) ig ix ((n, hr), hs) = ground (
  arith,
  count_if-append (λ s. contains (block_of s) x) (split_route (some gw) r) (split_all (some gw) rs),
  split_route-carried gw x r n ig ix hr,
  split_all-carried gw x rs ig ix hs,
)

-- For addresses of four bytes: where every route of the gateway's has a mask of leading ones
-- only and no host digits, and the gateway's address is known, the pushed routes do not carry
-- that address, and carry every other one exactly as often as the gateway's routes do.
pub split_routes-carried :
    (p : Params) (gw x : Ip4)
    → p.gateway ≡ some gw
    → IsIp4 gw
    → IsIp4 x
    → AreBlocks p.splits
    → (carried (split_routes p) gw ≡ 0) × (x ≢ gw → carried (split_routes p) x ≡ carried p.splits x)
unfolding split_routes
split_routes-carried p gw x known ig ix blocks = rw known (
  ground (arith, split_all-carried gw gw p.splits ig ig blocks, ip_eq_complete gw gw refl),
  λ other. ground (arith, split_all-carried gw x p.splits ig ix blocks, ip_eq_sound gw x),
)

split_all-none : (rs : List Route) → split_all none rs ≡ rs
unfolding split_all split_route
split_all-none [] = refl
split_all-none (r ∷ rs) = ap (λ (l : List Route). r ∷ l) (split_all-none rs)

-- With no IPv4 gateway address, the routes are pushed as they came.
pub split_routes-none : (p : Params) → p.gateway ≡ none → split_routes p ≡ p.splits
unfolding split_routes
split_routes-none p h = rw h (split_all-none p.splits)
