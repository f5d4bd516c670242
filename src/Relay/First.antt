-- ===== src/Relay/First.antt =====
-- The error that Relay of src/ocbridge/relay.go returns.
use openconnect_ubuntu_touch.Common.{
  ◌≡◌, refl, true, Option, none, some, List, [], ◌∷◌, if◌then◌else◌, Bool-cases, inl, inr,
}
use openconnect_ubuntu_touch.Common.Text.{Text}
use openconnect_ubuntu_touch.Relay.{
  Direction, from_vpn, to_vpn, Turn, RoundResult, finishes, copies, round, Relay, pump_of, finish,
  advance, take_turn, start, run_turns, relay_result,
}

-- What the first round that finishes passes to `finish`, whichever goroutine it is of.
abbrev pub ending : RoundResult → Option (Option Text)
ending (finishes e) = some e
ending (copies buf) = none

abbrev pub first_of : Option (Option Text) → Option (Option Text) → Option (Option Text)
first_of none rest = rest
first_of (some e) rest = some e

abbrev pub first_ending : List Turn → Option (Option Text)
first_ending [] = none
first_ending (t ∷ ts) = first_of (ending (round t.read t.write_error)) (first_ending ts)

-- Both goroutines run as long as nothing finished.
abbrev BothRun : Relay → Type 0
BothRun s = (s.first ≡ none) × (s.vpn_pump.running ≡ true) × (s.tun_pump.running ≡ true)

first-advance :
    (d : Direction) (o : RoundResult) (s : Relay) (e : Option Text)
    → s.first ≡ some e
    → (advance d o s).first ≡ some e
unfolding advance finish
first-advance from_vpn (finishes x) s e h = rw h
first-advance to_vpn (finishes x) s e h = rw h
first-advance from_vpn (copies buf) s e h = h
first-advance to_vpn (copies buf) s e h = h

pub first-take_turn :
    (t : Turn) (s : Relay) (e : Option Text) → s.first ≡ some e → (take_turn t s).first ≡ some e
unfolding take_turn
first-take_turn t s e h = elim (Bool-cases (pump_of t.side s).running) [
  | inl runs ↦ rw runs (first-advance t.side (round t.read t.write_error) s e h)
  | inr over ↦ rw over h
]

first-run_turns :
    (ts : List Turn) (s : Relay) (e : Option Text)
    → s.first ≡ some e
    → (run_turns ts s).first ≡ some e
unfolding run_turns
first-run_turns [] s e h = h
first-run_turns (t ∷ ts) s e h = first-run_turns ts (take_turn t s) e (first-take_turn t s e h)

running_both : (d : Direction) (s : Relay) → BothRun s → (pump_of d s).running ≡ true
running_both from_vpn s (f, v, t) = v
running_both to_vpn s (f, v, t) = t

advance-finishes :
    (d : Direction) (e : Option Text) (s : Relay)
    → s.first ≡ none
    → (advance d (finishes e) s).first ≡ some e
unfolding advance finish
advance-finishes from_vpn e s h = rw h
advance-finishes to_vpn e s h = rw h

advance-copies :
    (d : Direction) (buf : Text) (s : Relay) → BothRun s → BothRun (advance d (copies buf) s)
unfolding advance
advance-copies from_vpn buf s h = h
advance-copies to_vpn buf s h = h

run_turns-first :
    (ts : List Turn) (s : Relay) → BothRun s → (run_turns ts s).first ≡ first_ending ts
unfolding run_turns take_turn
run_turns-first [] s h = h.0
run_turns-first (t ∷ ts) s h =
    next (round t.read t.write_error)
      (λ buf. run_turns-first ts (advance t.side (copies buf) s) (advance-copies t.side buf s h))
  where
    next :
        (o : RoundResult)
        → ((buf : Text) → (run_turns ts (advance t.side (copies buf) s)).first ≡ first_ending ts)
        → (run_turns ts (if (pump_of t.side s).running then advance t.side o s else s)).first
          ≡ first_of (ending o) (first_ending ts)
    next (finishes e) later =
        rw (running_both t.side s h)
          (first-run_turns ts (advance t.side (finishes e) s) e (advance-finishes t.side e s h.0))
    next (copies buf) later = rw (running_both t.side s h) (later buf)

-- However the rounds of the two goroutines interleave, Relay returns the error, or nil, of the first
-- round that finishes, and does not return before there is one.
pub relay_result-first : (ts : List Turn) → relay_result ts ≡ first_ending ts
unfolding relay_result
relay_result-first ts = run_turns-first ts start (refl, refl, refl)
