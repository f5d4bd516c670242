-- ===== src/Relay/Close/Turns.antt =====
-- The rounds that the pumps of Relay of src/ocbridge/relay.go take while it closes the connections.
use openconnect_ubuntu_touch.Common.{
  ◌%◌, ◌^◌, ◌≡◌, refl, sym, ap, ◌∙◌, Option, none, some, List, [], ◌∷◌,
}
use openconnect_ubuntu_touch.Common.Text.{Text}
use openconnect_ubuntu_touch.Relay.{Direction, Turn, Relay, pump_of, run_turns, relay_result}
use openconnect_ubuntu_touch.Relay.First.{first_ending, relay_result-first}
use openconnect_ubuntu_touch.Relay.Forward.{own, forwarded, total, run_turns-forwarded}
use openconnect_ubuntu_touch.Relay.Close.{
  Phase, waits, vpn_closed, both_closed, Move, pump_moves, relay_moves, Closing, turn_in, take_move,
  run_moves, opened, returned,
}

module _ (closed_error : Text) where
  -- The turns of a schedule as they go, those on closed connections included.
  unfoldable pub turns_of : List Move → Closing → List Turn
  turns_of [] s = []
  turns_of (pump_moves t ∷ ms) s =
      turn_in closed_error s.phase t ∷ turns_of ms (take_move closed_error (pump_moves t) s)
  turns_of (relay_moves ∷ ms) s = turns_of ms (take_move closed_error relay_moves s)

  run_moves-run_turns :
      (ms : List Move) (s : Closing)
      → (run_moves closed_error ms s).relay ≡ run_turns (turns_of ms s) s.relay
  unfolding run_moves turns_of take_move run_turns
  run_moves-run_turns [] s = refl
  run_moves-run_turns (pump_moves t ∷ ms) s =
      run_moves-run_turns ms (take_move closed_error (pump_moves t) s)
  run_moves-run_turns (relay_moves ∷ ms) s =
      run_moves-run_turns ms (take_move closed_error relay_moves s)

  -- A tally is what was copied.
  pub run_moves-total :
      (d : Direction) (ms : List Move)
      → (pump_of d (run_moves closed_error ms opened).relay).tally
        ≡ total (forwarded (own d (turns_of ms opened))) % 2 ^ 64
  run_moves-total d ms =
      ap (λ (r : Relay). (pump_of d r).tally) (run_moves-run_turns ms opened)
      ∙ (run_turns-forwarded d (turns_of ms opened)).1

  -- What Relay has returned is how its first pump ended.
  pub returned-first_ending :
      (ms : List Move) (e : Option Text)
      → returned (run_moves closed_error ms opened) ≡ some e
      → first_ending (turns_of ms opened) ≡ some e
  unfolding returned relay_result
  returned-first_ending ms e h =
      sym (relay_result-first (turns_of ms opened))
      ∙ sym (ap (λ (r : Relay). r.first) (run_moves-run_turns ms opened))
      ∙ held (run_moves closed_error ms opened).phase h
    where
      held :
          (p : Phase)
          → ◌≡◌ {A = Option (Option Text)}
              (elim p [
                | waits ↦ none
                | vpn_closed ↦ none
                | both_closed ↦ (run_moves closed_error ms opened).relay.first
              ])
              (some e)
          → (run_moves closed_error ms opened).relay.first ≡ some e
      held waits q = cc q
      held vpn_closed q = cc q
      held both_closed q = q
