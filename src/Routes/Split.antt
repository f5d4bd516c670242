-- ===== src/Routes/Split.antt =====
-- SplitRoutes.
pub mod Coverage
pub mod Faults
use openconnect_ubuntu_touch.Common.{
  Bool, not, Option, none, some, List, [], ◌∷◌, ◌++◌, map, if◌then◌else◌,
}
use openconnect_ubuntu_touch.Net.Ip.{Ip4}
use openconnect_ubuntu_touch.Net.Mask.{IpNet, cidr_mask, contains, mask_size}
use openconnect_ubuntu_touch.Params.{Route, Params}
use openconnect_ubuntu_touch.Routes.Exclude.{exclude_host}

-- The block that a route stands for.
abbrev pub block_of : Route → IpNet
block_of r = record { ip = r.network; mask = r.mask }

-- The route pushed for one piece: its mask is made anew from the length that Size reports.
unfoldable pub route_of_piece : IpNet → Route
route_of_piece piece = record { network = piece.ip; mask = cidr_mask (mask_size piece.mask).0 }

-- What one route of the gateway's becomes.
unfoldable pub split_route : Option Ip4 → Route → List Route
unfolding route_of_piece
split_route none r = r ∷ []
split_route (some gw) r =
    if not (contains (block_of r) gw)
    then r ∷ []
    else map route_of_piece (exclude_host (block_of r) (some gw))

unfoldable pub split_all : Option Ip4 → List Route → List Route
unfolding split_route
split_all gateway [] = []
split_all gateway (r ∷ rs) = split_route gateway r ++ split_all gateway rs

-- `SplitRoutes`
unfoldable pub split_routes : Params → List Route
unfolding split_all
split_routes p = split_all p.gateway p.splits
