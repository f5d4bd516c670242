-- ===== src/Params.antt =====
-- src/ocbridge/params.go: the tunnel description that openconnect hands over, and the addresses of
-- the local OpenVPN server.
pub mod Words
pub mod Env
pub mod EnvLaws
pub mod Addresses
pub mod Laws
use openconnect_ubuntu_touch.Common.{ℕ, Option, List}
use openconnect_ubuntu_touch.Common.Text.{Text}
use openconnect_ubuntu_touch.Net.Ip.{Ip4}

pub record Route : Type 0 where
  pub network : Ip4
  pub mask : Ip4

-- `gateway` is none for Go's nil.
pub record Params : Type 0 where
  pub vpnfd : ℕ
  pub gateway : Option Ip4
  pub address : Ip4
  pub netmask : Ip4
  pub net_addr : Ip4
  pub mtu : ℕ
  pub dns : List Ip4
  pub domain : Text
  pub splits : List Route
  pub reason : Text
