-- ===== src/Samples/Tunnel.antt =====
-- A tunnel whose relay ends with an error.
use openconnect_ubuntu_touch.Common.{
  ◌≡◌, refl, true, none, some, Option, Result, List, [], ◌∷◌, ◌++◌,
}
use openconnect_ubuntu_touch.Common.Int.{pos}
use openconnect_ubuntu_touch.Common.Text.{Text, codes}
use openconnect_ubuntu_touch.Files.{written, rename_fails}
use openconnect_ubuntu_touch.Relay.{from_vpn, to_vpn, advance, round, take_turn}
use openconnect_ubuntu_touch.Relay.First.{first_ending}
use openconnect_ubuntu_touch.Relay.Close.{
  relay_moves, pump_moves, opened, returned, close_next, reads_closed, take_move, turn_in,
  writes_closed,
}
use openconnect_ubuntu_touch.Relay.Close.Turns.{turns_of}
use openconnect_ubuntu_touch.Session.{relay_ended}
use openconnect_ubuntu_touch.Setup.World.{World, RunError}
use openconnect_ubuntu_touch.Setup.Bridge.{Ending}
use openconnect_ubuntu_touch.Setup.Bridge.Returns.{Leaves}
use openconnect_ubuntu_touch.Setup.Tunnel.{
  Happening, relays, reads, ticks, receives, relayed_all, run_tunnel,
}
use openconnect_ubuntu_touch.Setup.Tunnel.Reports.{moves_of, copied, run_tunnel_returns}
use openconnect_ubuntu_touch.Samples.Pki.{toy}
use openconnect_ubuntu_touch.Samples.Relay.{first_packet, broken_pipe, second_packet, closed_error}
use openconnect_ubuntu_touch.Samples.Setup.{inputs, fresh, encode}

abbrev before : List Happening
before =
    relays (pump_moves first_packet)
    ∷ reads
        (record { text = codes "Peer Connection Initiated"; now = pos 5; outcome = rename_fails })
    ∷ ticks (pos 6) written
    ∷ relays (pump_moves broken_pipe)
    ∷ relays (pump_moves second_packet)
    ∷ relays relay_moves
    ∷ relays relay_moves
    ∷ []

abbrev ending : Ending
ending = record {
  late = [];
  bytes_in = 0;
  bytes_out = 0;
  in_time = true;
  now = pos 9;
  outcome = written;
  overtaken = none;
}

over : returned (relayed_all closed_error before opened) ≡ some (some (codes "broken pipe"))
unfolding returned relayed_all take_move close_next take_turn turn_in advance round reads_closed
    writes_closed
over = refl

abbrev happenings : List Happening
happenings = before ++ receives (pos 8) ∷ []

run_tunnel_returns_example :
    (w' : World) × (r : Result RunError (Option Text)) × (run_tunnel closed_error toy inputs encode
        happenings ending fresh
      ≡ some (w', r))
    × (first_ending (turns_of closed_error (moves_of before) opened)
        ≡ some (some (codes "broken pipe")))
    × Leaves toy inputs encode
        (record ending {
          bytes_in = copied closed_error from_vpn happenings;
          bytes_out = copied closed_error to_vpn happenings;
        })
        (relay_ended (some (codes "broken pipe")))
        fresh
        w'
        r
run_tunnel_returns_example =
    run_tunnel_returns closed_error toy inputs encode before (pos 8) [] ending fresh
      (some (codes "broken pipe")) refl (refl, (refl, (refl, (refl, (refl, (refl, (refl, tt)))))))
      over
