-- ===== src/Setup/Tunnel.antt =====
-- The bridge with its relay: run of src/ocbridge/main.go, where the byte counters of its ticks and of its
-- last update, and the error that its loop receives, are those of Relay of src/ocbridge/relay.go.
pub mod Reports
use openconnect_ubuntu_touch.Common.{ℕ, Option, none, some, List, [], ◌∷◌, ◌++◌, Result}
use openconnect_ubuntu_touch.Common.Int.{ℤ}
use openconnect_ubuntu_touch.Common.Text.{Text}
use openconnect_ubuntu_touch.Files.{Outcome, written}
use openconnect_ubuntu_touch.Pki.{Crypto}
use openconnect_ubuntu_touch.Status.{Status}
use openconnect_ubuntu_touch.Relay.Close.{Move, Closing, take_move, run_moves, opened, returned}
use openconnect_ubuntu_touch.Session.{
  Event, signalled, relay_ended, openvpn_exited, ticked, event, line,
}
use openconnect_ubuntu_touch.Setup.World.{World, RunError}
use openconnect_ubuntu_touch.Setup.Run.{Inputs}
use openconnect_ubuntu_touch.Setup.Watch.{WatchedLine}
use openconnect_ubuntu_touch.Setup.Serve.{Occurrence}
use openconnect_ubuntu_touch.Setup.Bridge.{Ending, run_bridge}

-- What happens once the tunnel is up: a step of the relay's goroutines, a line that the watcher reads, or a
-- case of the loop's select, with the time where it is published.
pub data Happening : Type 0 where
  relays : Move → Happening
  reads : WatchedLine → Happening
  ticks : ℤ → Outcome → Happening
  receives : ℤ → Happening
  signals : Text → ℤ → Happening
  exits : Text → ℤ → Happening

abbrev pub stops_at : Event → ℤ → List Occurrence
stops_at e now = record { input = event e; now = now; outcome = written } ∷ []

-- What the loop and the watcher get of it; nothing comes from `relayErr` before Relay has returned.
unfoldable pub occurrences_of : Closing → Happening → List Occurrence
occurrences_of s (relays m) = []
occurrences_of s (reads l) = record { input = line l.text; now = l.now; outcome = l.outcome } ∷ []
occurrences_of s (ticks now o) =
    record {
      input = event (ticked s.relay.vpn_pump.tally s.relay.tun_pump.tally);
      now = now;
      outcome = o;
    }
    ∷ []
occurrences_of s (receives now) = elim (returned s) [
  | none ↦ []
  | some e ↦ stops_at (relay_ended e) now
]
occurrences_of s (signals sig now) = stops_at (signalled sig) now
occurrences_of s (exits e now) = stops_at (openvpn_exited e) now

module _ (closed_error : Text) where
  -- The relay after it.
  abbrev pub relayed : Happening → Closing → Closing
  relayed (relays m) s = take_move closed_error m s
  relayed (reads l) s = s
  relayed (ticks now o) s = s
  relayed (receives now) s = s
  relayed (signals sig now) s = s
  relayed (exits e now) s = s

  unfoldable pub relayed_all : List Happening → Closing → Closing
  relayed_all [] s = s
  relayed_all (h ∷ hs) s = relayed_all hs (relayed h s)

  unfoldable pub occurrences : List Happening → Closing → List Occurrence
  occurrences [] s = []
  occurrences (h ∷ hs) s = occurrences_of s h ++ occurrences hs (relayed h s)

  -- run, with the relay's counters in the last update. What the relay copies behind the loop's end, up to
  -- that update, stands at the end of the happenings.
  unfoldable pub run_tunnel :
      (C : Crypto)
      → Inputs C
      → (Status → Text)
      → List Happening
      → Ending
      → World
      → Option (World × Result RunError (Option Text))
  run_tunnel C i encode hs z w =
      let r = (relayed_all hs opened).relay in
      run_bridge C i encode (occurrences hs opened)
        (record z { bytes_in = r.vpn_pump.tally; bytes_out = r.tun_pump.tally }) w
