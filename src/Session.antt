-- ===== src/Session.antt =====
-- The event loop of run in src/ocbridge/main.go, and watchOpenVPN: how the status follows what happens
-- once the tunnel is up.
pub mod Shutdown
use openconnect_ubuntu_touch.Common.{
  ℕ, Bool, true, false, ◌||◌, Option, none, some, List, [], ◌∷◌, ◌++◌, map, if◌then◌else◌,
}
use openconnect_ubuntu_touch.Common.Int.{ℤ}
use openconnect_ubuntu_touch.Common.Text.{Text, codes}
use openconnect_ubuntu_touch.Strings.{contains_text}
use openconnect_ubuntu_touch.Net.Parse.{format_ip}
use openconnect_ubuntu_touch.Params.{Params, Route}
use openconnect_ubuntu_touch.Config.{Paths}
use openconnect_ubuntu_touch.Status.{Status}

-- A route as the status shows it.
unfoldable pub route_text : Route → Text
route_text r = format_ip r.network ++ codes "/" ++ format_ip r.mask

-- The first update: what the tunnel is, before it is up.
unfoldable pub started : Params → ℤ → ℤ → Text × Text → Paths → Text → Status → Status
started p now port creds paths proto s = record s {
  state = codes "starting";
  since = now;
  address = format_ip p.address;
  mtu = p.mtu;
  port = port;
  dns = map format_ip p.dns;
  domain = p.domain;
  routes = map route_text p.splits;
  vpn_user = creds.0;
  vpn_pass = creds.1;
  ca_cert = paths.ca_cert;
  proto = proto;
  gateway = elim p.gateway [ none ↦ s.gateway | some g ↦ format_ip g ];
}

-- `s.State = "up"`
unfoldable pub came_up : Status → Status
came_up s = record s { state = codes "up" }

-- What the loop's select receives.
pub data Event : Type 0 where
  signalled : Text → Event
  relay_ended : Option Text → Event
  openvpn_exited : Text → Event
  ticked : ℕ → ℕ → Event

-- `exitErr` and `shutdown` behind the loop.
pub record Verdict : Type 0 where
  pub exit_err : Option Text
  pub shutdown : Text

-- One case of the select: none goes round the loop again. `openvpn_exited` has the error of cmd.Wait
-- as it is printed.
unfoldable pub on_event : Text → Event → Option Verdict
on_event log_path (signalled sig) =
    some (record { exit_err = none; shutdown = codes "signal " ++ sig })
on_event log_path (relay_ended none) =
    some (record { exit_err = none; shutdown = codes "tunnel closed" })
on_event log_path (relay_ended (some e)) =
    some (record { exit_err = some (codes "relay: " ++ e); shutdown = codes "tunnel closed" })
on_event log_path (openvpn_exited e) = some (record {
  exit_err = some (codes "openvpn exited: " ++ e ++ codes " (see " ++ log_path ++ codes ")");
  shutdown = codes "openvpn exited";
})
on_event log_path (ticked in_bytes out_bytes) = none

-- The status after a case of the select that goes round again.
unfoldable pub counted : Event → Status → Status
counted (ticked in_bytes out_bytes) s = record s { bytes_in = in_bytes; bytes_out = out_bytes }
counted (signalled sig) s = s
counted (relay_ended e) s = s
counted (openvpn_exited e) s = s

-- What watchOpenVPN makes of one line of openvpn's output.
unfoldable pub watched : Text → Status → Status
watched line s =
    if contains_text (codes "Initialization Sequence Completed") line
    then record s { state = codes "up" }
    else if contains_text (codes "Peer Connection Initiated") line
    then record s { client_up = true }
    else if contains_text (codes "client-instance restarting") line
        || contains_text (codes "SIGTERM[soft,remote-exit]") line
    then record s { client_up = false }
    else s

-- The loop and the watcher run side by side: the inputs, in the order in which they take effect.
pub data Input : Type 0 where
  event : Event → Input
  line : Text → Input

-- The status and the verdict when the loop ends; none if it does not.
unfoldable pub serve : Text → List Input → Status → Option (Status × Verdict)
serve log_path [] s = none
serve log_path (line l ∷ is) s = serve log_path is (watched l s)
serve log_path (event e ∷ is) s = elim (on_event log_path e) [
  | none ↦ serve log_path is (counted e s)
  | some v ↦ some (s, v)
]

-- The last update, with the counters as they are then.
unfoldable pub closed : Verdict → ℕ → ℕ → Status → Status
closed v in_bytes out_bytes s =
    let t = record s { bytes_in = in_bytes; bytes_out = out_bytes; client_up = false } in
    elim v.exit_err [
      | none ↦ record t { state = codes "down"; error_text = [] }
      | some e ↦ record t { state = codes "error"; error_text = e }
    ]
