-- ===== src/Relay/Close/Ends.antt =====
-- The end of Relay of src/ocbridge/relay.go and of its two pumps.
use openconnect_ubuntu_touch.Common.{
  ℕ, ◌+◌, ◌-◌, ◌≤◌, ◌≡◌, refl, subst, ◌∙◌, arith, Bool, true, false, ◌||◌, Option, none, some, List,
  [], ◌∷◌, ◌++◌, Bool-cases, inl, inr,
}
use openconnect_ubuntu_touch.Common.Text.{Text}
use openconnect_ubuntu_touch.Relay.{
  Direction, from_vpn, to_vpn, Turn, Pump, Relay, pump_of, round, advance, take_turn, finishes,
  read_fails,
}
use openconnect_ubuntu_touch.Relay.First.{first-take_turn}
use openconnect_ubuntu_touch.Relay.Close.{
  Phase, waits, vpn_closed, both_closed, Move, pump_moves, relay_moves, Closing, reads_closed,
  close_next, turn_in, take_move, run_moves, opened, returned,
}

-- How often Relay itself moves.
abbrev pub relay_turns : List Move → ℕ
relay_turns [] = 0
relay_turns (pump_moves t ∷ ms) = relay_turns ms
relay_turns (relay_moves ∷ ms) = 1 + relay_turns ms

abbrev same_side : Direction → Direction → Bool
same_side from_vpn from_vpn = true
same_side from_vpn to_vpn = false
same_side to_vpn from_vpn = false
same_side to_vpn to_vpn = true

abbrev of_side : Direction → Move → Bool
of_side d (pump_moves t) = same_side d t.side
of_side d relay_moves = false

-- Whether a pump has a turn.
abbrev pub moves : Direction → List Move → Bool
moves d [] = false
moves d (m ∷ ms) = of_side d m || moves d ms

-- How many of its two calls of Close are ahead of Relay.
abbrev ahead : Phase → ℕ
ahead waits = 2
ahead vpn_closed = 1
ahead both_closed = 0

ahead-close_next : (e : Option Text) (p : Phase) → ahead (close_next (some e) p) ≡ ahead p - 1
unfolding close_next
ahead-close_next e waits = refl
ahead-close_next e vpn_closed = refl
ahead-close_next e both_closed = refl

both_closed_inv : (p : Phase) → ahead p ≡ 0 → p ≡ both_closed
both_closed_inv waits h = cc h
both_closed_inv vpn_closed h = cc h
both_closed_inv both_closed h = refl

-- A pump keeps what it has written, and its tally; it does not start again.
abbrev Halts : Pump → Pump → Type 0
Halts p q = (q.sent ≡ p.sent) × (q.tally ≡ p.tally) × (p.running ≡ false → q.running ≡ false)

Halts-refl : (p : Pump) → Halts p p
Halts-refl p = (refl, refl, λ h. h)

Halts-trans : (p q r : Pump) → Halts p q → Halts q r → Halts p r
Halts-trans p q r (sent1, tally1, stops1) (sent2, tally2, stops2) =
    (sent2 ∙ sent1, tally2 ∙ tally1, λ h. stops2 (stops1 h))

-- That, and a pump on this side has stopped.
abbrev Stops : Direction → Direction → Pump → Pump → Type 0
Stops d side p q = Halts p q × (same_side d side ≡ true → q.running ≡ false)

Stops-advance :
    (d side : Direction) (e : Option Text) (r : Relay)
    → Stops d side (pump_of d r) (pump_of d (advance side (finishes e) r))
unfolding advance
Stops-advance from_vpn from_vpn e r = ((refl, refl, λ h. refl), λ h. refl)
Stops-advance from_vpn to_vpn e r = (Halts-refl r.vpn_pump, λ (h : false ≡ true). cc h)
Stops-advance to_vpn from_vpn e r = (Halts-refl r.tun_pump, λ (h : false ≡ true). cc h)
Stops-advance to_vpn to_vpn e r = ((refl, refl, λ h. refl), λ h. refl)

Stops-stopped :
    (d side : Direction) (r : Relay)
    → (pump_of side r).running ≡ false
    → Stops d side (pump_of d r) (pump_of d r)
Stops-stopped from_vpn from_vpn r over = (Halts-refl r.vpn_pump, λ h. over)
Stops-stopped from_vpn to_vpn r over = (Halts-refl r.vpn_pump, λ (h : false ≡ true). cc h)
Stops-stopped to_vpn from_vpn r over = (Halts-refl r.tun_pump, λ (h : false ≡ true). cc h)
Stops-stopped to_vpn to_vpn r over = (Halts-refl r.tun_pump, λ h. over)

-- A turn whose Read fails.
Stops-take_turn :
    (d : Direction) (t : Turn) (x : Text) (r : Relay)
    → t.read ≡ read_fails x
    → Stops d t.side (pump_of d r) (pump_of d (take_turn t r))
unfolding take_turn round
Stops-take_turn d t x r fails = elim (Bool-cases (pump_of t.side r).running) [
  | inl runs ↦ rw runs (rw fails (Stops-advance d t.side (some x) r))
  | inr over ↦ rw over (Stops-stopped d t.side r over)
]

close_next-both : (f : Option (Option Text)) → close_next f both_closed ≡ both_closed
unfolding close_next
close_next-both none = refl
close_next-both (some e) = refl

reads_closed-both : (d : Direction) → reads_closed d both_closed ≡ true
unfolding reads_closed
reads_closed-both from_vpn = refl
reads_closed-both to_vpn = refl

module _ (closed_error : Text) where
  run_moves-++ :
      (xs ys : List Move) (s : Closing)
      → run_moves closed_error (xs ++ ys) s
        ≡ run_moves closed_error ys (run_moves closed_error xs s)
  unfolding run_moves
  run_moves-++ [] ys s = refl
  run_moves-++ (x ∷ xs) ys s = run_moves-++ xs ys (take_move closed_error x s)

  first-take_move :
      (m : Move) (s : Closing) (e : Option Text)
      → s.relay.first ≡ some e
      → (take_move closed_error m s).relay.first ≡ some e
  unfolding take_move
  first-take_move (pump_moves t) s e h =
      first-take_turn (turn_in closed_error s.phase t) s.relay e h
  first-take_move relay_moves s e h = h

  ahead-take_move :
      (m : Move) (ms : List Move) (s : Closing) (e : Option Text)
      → s.relay.first ≡ some e
      → ahead (take_move closed_error m s).phase - relay_turns ms
        ≡ ahead s.phase - relay_turns (m ∷ ms)
  unfolding take_move
  ahead-take_move (pump_moves t) ms s e h = refl
  ahead-take_move relay_moves ms s e h = rw h (rw (ahead-close_next e s.phase) (omega arith))

  -- Once a pump has finished, each turn of Relay closes one more connection.
  run_moves-ahead :
      (ms : List Move) (s : Closing) (e : Option Text)
      → s.relay.first ≡ some e
      → ((run_moves closed_error ms s).relay.first ≡ some e)
        × (ahead (run_moves closed_error ms s).phase ≡ ahead s.phase - relay_turns ms)
  unfolding run_moves
  run_moves-ahead [] s e h = (h, omega arith)
  run_moves-ahead (m ∷ ms) s e h =
      let (later, left) =
        run_moves-ahead ms (take_move closed_error m s) e (first-take_move m s e h) in
      (later, left ∙ ahead-take_move m ms s e h)

  Stops-take_move :
      (d : Direction) (m : Move) (s : Closing)
      → s.phase ≡ both_closed
      → Halts (pump_of d s.relay) (pump_of d (take_move closed_error m s).relay)
        × (of_side d m ≡ true → (pump_of d (take_move closed_error m s).relay).running ≡ false)
  unfolding take_move turn_in
  Stops-take_move d (pump_moves t) s closed =
      Stops-take_turn d (turn_in closed_error s.phase t) closed_error s.relay
        (rw closed (rw (reads_closed-both t.side) refl))
  Stops-take_move d relay_moves s closed =
      (Halts-refl (pump_of d s.relay), λ (h : false ≡ true). cc h)

  both_closed-take_move :
      (m : Move) (s : Closing)
      → s.phase ≡ both_closed
      → (take_move closed_error m s).phase ≡ both_closed
  unfolding take_move close_next
  both_closed-take_move (pump_moves t) s closed = closed
  both_closed-take_move relay_moves s closed = rw closed (close_next-both s.relay.first)

  -- Behind the second close the pumps write nothing, and a turn ends a pump.
  run_moves-both_closed :
      (d : Direction) (ms : List Move) (s : Closing)
      → s.phase ≡ both_closed
      → Halts (pump_of d s.relay) (pump_of d (run_moves closed_error ms s).relay)
        × (moves d ms ≡ true → (pump_of d (run_moves closed_error ms s).relay).running ≡ false)
  unfolding run_moves
  run_moves-both_closed d [] s closed = (Halts-refl (pump_of d s.relay), λ (h : false ≡ true). cc h)
  run_moves-both_closed d (m ∷ ms) s closed =
      let (halts, stops) = Stops-take_move d m s closed in
      let (later, ends) =
        run_moves-both_closed d ms (take_move closed_error m s)
          (both_closed-take_move m s closed) in
      (
        Halts-trans _ _ _ halts later,
        λ (h : of_side d m || moves d ms ≡ true). elim (Bool-cases (of_side d m)) [
          | inl turn ↦ later.2 (stops turn)
          | inr other ↦ ends (subst (λ b. b || moves d ms ≡ true) other h)
        ],
      )

-- If a pump has finished with an error or nil before, Relay has at least two turns while it closes, and each
-- pump has one afterwards, in any order with the others: Relay has returned that error or nil by then, and in
-- the end no pump runs, and each has written and counted what it had when Relay returned.
pub run_moves-returned :
    (closed_error : Text) (before closing after : List Move) (e : Option Text)
    → (run_moves closed_error before opened).relay.first ≡ some e
    → 2 ≤ relay_turns closing
    → ((d : Direction) → moves d after ≡ true)
    → (let s = run_moves closed_error (before ++ closing) opened in
        let f = run_moves closed_error ((before ++ closing) ++ after) opened in
        (returned s ≡ some e)
        × ((d : Direction)
            → ((pump_of d f.relay).running ≡ false)
              × ((pump_of d f.relay).sent ≡ (pump_of d s.relay).sent)
              × ((pump_of d f.relay).tally ≡ (pump_of d s.relay).tally)))
unfolding returned
run_moves-returned closed_error before closing after e finished turns fair =
    let s = run_moves closed_error (before ++ closing) opened in
    let joined = run_moves-++ closed_error before closing opened in
    let (first, left) =
      run_moves-ahead closed_error closing (run_moves closed_error before opened) e finished in
    let closed : s.phase ≡ both_closed =
      rw joined
        (both_closed_inv _ (left ∙ closed_by (run_moves closed_error before opened).phase)) in
    (
      rw closed (rw joined first),
      λ d.
          let ((sent, tally, _), stops) = run_moves-both_closed closed_error d after s closed in
          rw (run_moves-++ closed_error (before ++ closing) after opened)
            (stops (fair d), sent, tally),
    )
  where
    closed_by : (p : Phase) → ahead p - relay_turns closing ≡ 0
    closed_by waits = omega arith
    closed_by vpn_closed = omega arith
    closed_by both_closed = omega arith
