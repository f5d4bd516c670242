-- ===== src/Samples/Relay.antt =====
-- Two pumps, interleaved.
use openconnect_ubuntu_touch.Common.{ℕ, ◌%◌, ◌^◌, ◌≡◌, refl, none, some, List, [], ◌∷◌, arith}
use openconnect_ubuntu_touch.Common.Text.{codes}
use openconnect_ubuntu_touch.Relay.{
  datagram, eof, Direction, from_vpn, to_vpn, Turn, round, take_turn, advance, pump_of, start,
  run_turns, relay_result,
}
use openconnect_ubuntu_touch.Relay.Forward.{
  own, forwarded, total, run_turns-forwarded, run_turns-verbatim,
}
use openconnect_ubuntu_touch.Relay.Close.{
  Move, pump_moves, relay_moves, opened, turn_in, take_move, run_moves, returned, reads_closed,
  writes_closed,
}
use openconnect_ubuntu_touch.Relay.Close.Ends.{moves, run_moves-returned}
use openconnect_ubuntu_touch.Common.{false, ◌++◌, map, true}
use openconnect_ubuntu_touch.Common.Text.{Text}

abbrev packet_a : List ℕ
packet_a = 69 ∷ 0 ∷ 0 ∷ 20 ∷ []

abbrev packet_b : List ℕ
packet_b = 69 ∷ 0 ∷ 1 ∷ []

abbrev pub first_packet : Turn
first_packet = record { side = from_vpn; read = datagram packet_a; write_error = none }

abbrev pub broken_pipe : Turn
broken_pipe = record {
  side = to_vpn;
  read = datagram packet_b;
  write_error = some (codes "broken pipe");
}

abbrev pub second_packet : Turn
second_packet = record { side = from_vpn; read = datagram packet_b; write_error = none }

abbrev turns : List Turn
turns =
    first_packet
    ∷ broken_pipe
    ∷ second_packet
    ∷ record { side = to_vpn; read = eof; write_error = none }
    ∷ []

broken : relay_result turns ≡ some (some (codes "broken pipe"))
unfolding relay_result run_turns take_turn advance round
broken = refl

run_turns-forwarded_example :
    ((pump_of to_vpn (run_turns turns start)).sent ≡ forwarded (own to_vpn turns))
    × ((pump_of to_vpn (run_turns turns start)).tally
        ≡ total (forwarded (own to_vpn turns)) % 2 ^ 64)
run_turns-forwarded_example = run_turns-forwarded to_vpn turns

run_turns-verbatim_example :
    (pump_of from_vpn (run_turns turns start)).sent ≡ packet_a ∷ packet_b ∷ []
run_turns-verbatim_example =
    run_turns-verbatim from_vpn turns (packet_a ∷ packet_b ∷ [])
      ((refl, omega arith), ((refl, omega arith), tt)) refl

-- A packet for the tun comes while Relay closes, and both goroutines have a turn behind it.
abbrev last_turns : List Move
last_turns =
    pump_moves (record { side = from_vpn; read = datagram packet_b; write_error = none })
    ∷ pump_moves (record { side = to_vpn; read = datagram packet_a; write_error = none })
    ∷ []

abbrev closing_moves : List Move
closing_moves =
    relay_moves
    ∷ pump_moves (record { side = from_vpn; read = datagram packet_a; write_error = none })
    ∷ relay_moves
    ∷ []

abbrev pub closed_error : Text
closed_error = codes "use of closed network connection"

both_move : (d : Direction) → moves d last_turns ≡ true
both_move from_vpn = refl
both_move to_vpn = refl

finished :
    (run_moves closed_error (map pump_moves turns) opened).relay.first
    ≡ some (some (codes "broken pipe"))
unfolding run_moves take_move turn_in take_turn advance round reads_closed writes_closed
finished = refl

run_moves-returned_example :
    (returned (run_moves closed_error (map pump_moves turns ++ closing_moves) opened)
      ≡ some (some (codes "broken pipe")))
    × ((d : Direction)
        → ((pump_of d
              (run_moves closed_error
                ((map pump_moves turns ++ closing_moves) ++ last_turns)
                opened).relay).running
            ≡ false)
          × ((pump_of d
                (run_moves closed_error
                  ((map pump_moves turns ++ closing_moves) ++ last_turns)
                  opened).relay).sent
              ≡ (pump_of d
                  (run_moves closed_error
                    (map pump_moves turns ++ closing_moves)
                    opened).relay).sent)
          × ((pump_of d
                (run_moves closed_error
                  ((map pump_moves turns ++ closing_moves) ++ last_turns)
                  opened).relay).tally
              ≡ (pump_of d
                  (run_moves closed_error
                    (map pump_moves turns ++ closing_moves)
                    opened).relay).tally))
run_moves-returned_example =
    run_moves-returned closed_error (map pump_moves turns) closing_moves last_turns
      (some (codes "broken pipe")) finished (omega arith) both_move
