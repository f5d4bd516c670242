-- ===== src/Relay/Close.antt =====
-- Relay of src/ocbridge/relay.go with its own goroutine: it waits for a pump to finish, closes the two
-- connections one after the other, and returns.
pub mod Ends
pub mod Turns
use openconnect_ubuntu_touch.Common.{
  ℕ, Bool, true, false, Option, none, some, List, [], ◌∷◌, if◌then◌else◌,
}
use openconnect_ubuntu_touch.Common.Text.{Text}
use openconnect_ubuntu_touch.Relay.{
  read_fails, Direction, from_vpn, to_vpn, Turn, Relay, take_turn, start,
}

-- How far the goroutine of Relay is: in `<-done`, behind vpn.Close(), or behind tun.Close().
pub data Phase : Type 0 where
  waits : Phase
  vpn_closed : Phase
  both_closed : Phase

-- One step: a turn of a pump, or of Relay itself.
pub data Move : Type 0 where
  pump_moves : Turn → Move
  relay_moves : Move

-- The pumps, with the phase.
pub record Closing : Type 0 where
  pub relay : Relay
  pub phase : Phase

-- Whether the connection that the pump reads is closed: vpn for `pump(tun, vpn, …)`, tun for the other.
unfoldable pub reads_closed : Direction → Phase → Bool
reads_closed d waits = false
reads_closed from_vpn vpn_closed = true
reads_closed to_vpn vpn_closed = false
reads_closed d both_closed = true

-- Whether the connection that it writes is.
unfoldable pub writes_closed : Direction → Phase → Bool
writes_closed d waits = false
writes_closed from_vpn vpn_closed = false
writes_closed to_vpn vpn_closed = true
writes_closed d both_closed = true

-- What follows `<-done`: a step without effect until a pump has finished.
unfoldable pub close_next : Option (Option Text) → Phase → Phase
close_next none p = p
close_next (some e) waits = vpn_closed
close_next (some e) vpn_closed = both_closed
close_next (some e) both_closed = both_closed

-- `closed_error` is the message with which Read and Write fail on a closed connection.
module _ (closed_error : Text) where
  -- A turn as it goes in a phase, whatever the connections would have held.
  unfoldable pub turn_in : Phase → Turn → Turn
  turn_in p t = record t {
    read = if reads_closed t.side p then read_fails closed_error else t.read;
    write_error = if writes_closed t.side p then some closed_error else t.write_error;
  }

  unfoldable pub take_move : Move → Closing → Closing
  take_move (pump_moves t) s = record s { relay = take_turn (turn_in s.phase t) s.relay }
  take_move relay_moves s = record s { phase = close_next s.relay.first s.phase }

  unfoldable pub run_moves : List Move → Closing → Closing
  run_moves [] s = s
  run_moves (m ∷ ms) s = run_moves ms (take_move m s)

abbrev pub opened : Closing
opened = record { relay = start; phase = waits }

-- What Relay has returned, if it has.
unfoldable pub returned : Closing → Option (Option Text)
returned s = elim s.phase [ waits ↦ none | vpn_closed ↦ none | both_closed ↦ s.relay.first ]
