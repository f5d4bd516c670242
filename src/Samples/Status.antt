-- ===== src/Samples/Status.antt =====
-- A status with nothing in it.
use openconnect_ubuntu_touch.Common.{false, []}
use openconnect_ubuntu_touch.Common.Int.{pos}
use openconnect_ubuntu_touch.Status.{Status}

abbrev pub blank : Status
blank = record {
  state = [];
  error_text = [];
  since = pos 0;
  address = [];
  gateway = [];
  mtu = 0;
  dns = [];
  domain = [];
  routes = [];
  port = pos 0;
  proto = [];
  vpn_user = [];
  vpn_pass = [];
  ca_cert = [];
  bytes_in = 0;
  bytes_out = 0;
  client_up = false;
  updated_at = pos 0;
}
