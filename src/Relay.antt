-- ===== src/Relay.antt =====
-- src/ocbridge/relay.go: two pumps that copy datagrams between openconnect and openvpn. A schedule is
-- the list of the turns that the two goroutines take, in the order in which they take them.
pub mod Forward
pub mod First
pub mod Close
use openconnect_ubuntu_touch.Common.{
  ℕ, ◌+◌, ◌%◌, ◌^◌, Bool, true, false, Option, none, some, List, [], ◌∷◌, ◌++◌, length, take,
  if◌then◌else◌,
}
use openconnect_ubuntu_touch.Common.Text.{Text, is_empty}

-- The size of a pump's buffer: what a datagram has beyond it is lost in the Read.
abbrev pub max_packet : ℕ
max_packet = 65535

-- What src.Read meets: a datagram, io.EOF, or another error, by its message.
pub data Read : Type 0 where
  datagram : List ℕ → Read
  eof : Read
  read_fails : Text → Read

-- The goroutine that runs: `pump(tun, vpn, &c.FromVPN)` or `pump(vpn, tun, &c.ToVPN)`.
pub data Direction : Type 0 where
  from_vpn : Direction
  to_vpn : Direction

-- One round of a pump's loop: what it reads, and the error of dst.Write, if it comes to that.
pub record Turn : Type 0 where
  pub side : Direction
  pub read : Read
  pub write_error : Option Text

-- A pump: whether its goroutine runs, the datagrams that it wrote, and its tally, a uint64.
pub record Pump : Type 0 where
  pub running : Bool
  pub sent : List (List ℕ)
  pub tally : ℕ

-- What a round does: `finish` with an error or nil, or the bytes that are written and counted.
pub data RoundResult : Type 0 where
  finishes : Option Text → RoundResult
  copies : List ℕ → RoundResult

unfoldable pub write_outcome : List ℕ → Option Text → RoundResult
write_outcome buf (some e) = finishes (some e)
write_outcome buf none = copies buf

-- The body of the loop.
unfoldable pub round : Read → Option Text → RoundResult
unfolding write_outcome
round (read_fails e) w = finishes (some e)
round eof w = finishes none
round (datagram d) w =
    let buf = take max_packet d in if is_empty buf then finishes none else write_outcome buf w

-- `first` is none until `finish` runs; it then holds the error, or nil.
pub record Relay : Type 0 where
  pub vpn_pump : Pump
  pub tun_pump : Pump
  pub first : Option (Option Text)

abbrev pub pump_of : Direction → Relay → Pump
pump_of from_vpn s = s.vpn_pump
pump_of to_vpn s = s.tun_pump

abbrev pub set_pump : Direction → Pump → Relay → Relay
set_pump from_vpn q s = record s { vpn_pump = q }
set_pump to_vpn q s = record s { tun_pump = q }

-- `finish(err)`: once.Do keeps the first.
unfoldable pub finish : Option Text → Option (Option Text) → Option (Option Text)
finish e none = some e
finish e (some f) = some f

-- The effect of a round of a pump that runs.
unfoldable pub advance : Direction → RoundResult → Relay → Relay
unfolding finish
advance d (finishes e) s =
    set_pump d (record (pump_of d s) { running = false }) (record s { first = finish e s.first })
advance d (copies buf) s =
    let q = pump_of d s in
    set_pump d (record q { sent = q.sent ++ buf ∷ []; tally = (q.tally + length buf) % 2 ^ 64 }) s

-- A turn of a goroutine that has returned does nothing.
unfoldable pub take_turn : Turn → Relay → Relay
take_turn t s =
    if (pump_of t.side s).running then advance t.side (round t.read t.write_error) s else s

abbrev pub fresh_pump : Pump
fresh_pump = record { running = true; sent = []; tally = 0 }

abbrev pub start : Relay
start = record { vpn_pump = fresh_pump; tun_pump = fresh_pump; first = none }

-- The turns of a schedule, one after the other.
unfoldable pub run_turns : List Turn → Relay → Relay
run_turns [] s = s
run_turns (t ∷ ts) s = run_turns ts (take_turn t s)

-- `Relay`: what it returns, once a pump has finished.
unfoldable pub relay_result : List Turn → Option (Option Text)
relay_result ts = (run_turns ts start).first
