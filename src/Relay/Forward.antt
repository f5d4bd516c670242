-- ===== src/Relay/Forward.antt =====
-- What each pump of src/ocbridge/relay.go forwards.
use openconnect_ubuntu_touch.Common.{
  ℕ, zero, suc, ◌+◌, ◌%◌, ◌^◌, ◌≤◌, ◌<◌, ◌≡◌, refl, sym, ap, ◌∙◌, Bool, true, false, Option, none,
  List, [], ◌∷◌, ◌++◌, All, append_assoc, append-nil, length, take, map, if◌then◌else◌, arith,
  Bool-cases, inl, inr,
}
use openconnect_ubuntu_touch.Common.Text.{Text, is_empty}
use openconnect_ubuntu_touch.Relay.{
  max_packet, datagram, Direction, from_vpn, to_vpn, Turn, Pump, RoundResult, finishes, copies,
  write_outcome, round, Relay, pump_of, advance, take_turn, fresh_pump, start, run_turns,
}

abbrev pub same_side : Direction → Direction → Bool
same_side from_vpn from_vpn = true
same_side from_vpn to_vpn = false
same_side to_vpn from_vpn = false
same_side to_vpn to_vpn = true

-- The rounds of one goroutine, in its order.
abbrev pub own : Direction → List Turn → List RoundResult
own d [] = []
own d (t ∷ ts) = if same_side d t.side then round t.read t.write_error ∷ own d ts else own d ts

-- The datagrams that its rounds copy before one of them finishes.
abbrev pub forwarded : List RoundResult → List (List ℕ)
forwarded [] = []
forwarded (finishes e ∷ os) = []
forwarded (copies buf ∷ os) = buf ∷ forwarded os

-- The bytes of a list of datagrams.
abbrev pub total : List (List ℕ) → ℕ
total [] = 0
total (b ∷ bs) = length b + total bs

-- One round of a pump alone.
abbrev alone : RoundResult → Pump → Pump
alone (finishes e) q = record q { running = false }
alone (copies buf) q = record q {
  sent = q.sent ++ buf ∷ [];
  tally = (q.tally + length buf) % 2 ^ 64;
}

abbrev run_alone : List RoundResult → Pump → Pump
run_alone [] q = q
run_alone (o ∷ os) q = run_alone os (if q.running then alone o q else q)

advance-own :
    (d : Direction) (o : RoundResult) (s : Relay)
    → pump_of d (advance d o s) ≡ alone o (pump_of d s)
unfolding advance
advance-own from_vpn (finishes e) s = refl
advance-own from_vpn (copies buf) s = refl
advance-own to_vpn (finishes e) s = refl
advance-own to_vpn (copies buf) s = refl

advance-other :
    (d c : Direction) (o : RoundResult) (s : Relay)
    → same_side d c ≡ false
    → pump_of d (advance c o s) ≡ pump_of d s
unfolding advance
advance-other from_vpn to_vpn (finishes e) s h = refl
advance-other from_vpn to_vpn (copies buf) s h = refl
advance-other to_vpn from_vpn (finishes e) s h = refl
advance-other to_vpn from_vpn (copies buf) s h = refl
advance-other from_vpn from_vpn o s h = cc
advance-other to_vpn to_vpn o s h = cc

same_side_sound : (d c : Direction) → same_side d c ≡ true → c ≡ d
same_side_sound from_vpn from_vpn h = refl
same_side_sound to_vpn to_vpn h = refl
same_side_sound from_vpn to_vpn h = cc
same_side_sound to_vpn from_vpn h = cc

take_turn-own :
    (d : Direction) (t : Turn) (s : Relay)
    → t.side ≡ d
    → pump_of d (take_turn t s) ≡ (
        if (pump_of d s).running
        then alone (round t.read t.write_error) (pump_of d s)
        else pump_of d s)
unfolding take_turn
take_turn-own d t s e = elim (Bool-cases (pump_of d s).running) [
  | inl runs ↦ rw (e, runs) (advance-own d (round t.read t.write_error) s)
  | inr over ↦ rw (e, over)
]

take_turn-other :
    (d : Direction) (t : Turn) (s : Relay)
    → same_side d t.side ≡ false
    → pump_of d (take_turn t s) ≡ pump_of d s
unfolding take_turn
take_turn-other d t s h = elim (Bool-cases (pump_of t.side s).running) [
  | inl runs ↦ rw runs (advance-other d t.side (round t.read t.write_error) s h)
  | inr over ↦ rw over
]

-- A pump does not depend on how its rounds interleave with the other's.
run_turns-own :
    (d : Direction) (ts : List Turn) (s : Relay)
    → pump_of d (run_turns ts s) ≡ run_alone (own d ts) (pump_of d s)
unfolding run_turns
run_turns-own d [] s = refl
run_turns-own d (t ∷ ts) s = elim (Bool-cases (same_side d t.side)) [
  | inl mine ↦
      let first = take_turn-own d t s (same_side_sound d t.side mine) in
      rw mine (run_turns-own d ts (take_turn t s) ∙ ap (run_alone (own d ts)) first)
  | inr other ↦
      rw other (
        run_turns-own d ts (take_turn t s)
        ∙ ap (run_alone (own d ts)) (take_turn-other d t s other))
]

-- A round of a pump that has finished, and of one that has not.
run_alone_idle :
    (o : RoundResult) (os : List RoundResult) (q : Pump)
    → q.running ≡ false
    → run_alone (o ∷ os) q ≡ run_alone os q
run_alone_idle o os q h = ap (λ (b : Bool). run_alone os (if b then alone o q else q)) h

run_alone_round :
    (o : RoundResult) (os : List RoundResult) (q : Pump)
    → q.running ≡ true
    → run_alone (o ∷ os) q ≡ run_alone os (alone o q)
run_alone_round o os q h = ap (λ (b : Bool). run_alone os (if b then alone o q else q)) h

run_alone_over : (os : List RoundResult) (q : Pump) → q.running ≡ false → run_alone os q ≡ q
run_alone_over [] q h = refl
run_alone_over (o ∷ os) q h = run_alone_idle o os q h ∙ run_alone_over os q h

run_alone-finishes :
    (e : Option Text) (os : List RoundResult) (q : Pump)
    → q.running ≡ true
    → run_alone (finishes e ∷ os) q ≡ record q { running = false }
run_alone-finishes e os q h =
    run_alone_round (finishes e) os q h ∙ run_alone_over os (record q { running = false }) refl

run_alone-sent :
    (os : List RoundResult) (q : Pump)
    → q.running ≡ true
    → (run_alone os q).sent ≡ q.sent ++ forwarded os
run_alone-sent [] q h = rw append-nil
run_alone-sent (finishes e ∷ os) q h =
    ap (λ (t : Pump). t.sent) (run_alone-finishes e os q h) ∙ sym (append-nil q.sent)
run_alone-sent (copies buf ∷ os) q h =
    ap (λ (t : Pump). t.sent) (run_alone_round (copies buf) os q h)
    ∙ run_alone-sent os (alone (copies buf) q) h
    ∙ append_assoc q.sent (buf ∷ []) (forwarded os)

run_alone-tally :
    (os : List RoundResult) (q : Pump)
    → q.running ≡ true
    → q.tally < 2 ^ 64
    → (run_alone os q).tally ≡ (q.tally + total (forwarded os)) % 2 ^ 64
run_alone-tally [] q h lt = omega (arith, lt)
run_alone-tally (finishes e ∷ os) q h lt =
    ap (λ (t : Pump). t.tally) (run_alone-finishes e os q h) ∙ omega (arith, lt)
run_alone-tally (copies buf ∷ os) q h lt =
    let rest = run_alone-tally os (alone (copies buf) q) h (omega arith) in
    let first = ap (λ (t : Pump). t.tally) (run_alone_round (copies buf) os q h) in
    first ∙ rest ∙ omega arith

-- From the start.
pump_start : (d : Direction) → pump_of d start ≡ fresh_pump
pump_start from_vpn = refl
pump_start to_vpn = refl

-- However the rounds of the two goroutines interleave, each pump has written the datagrams of its own
-- rounds, whole and in order, up to its first round that finishes, and its tally is their bytes modulo
-- 2^64.
pub run_turns-forwarded :
    (d : Direction) (ts : List Turn)
    → ((pump_of d (run_turns ts start)).sent ≡ forwarded (own d ts))
      × ((pump_of d (run_turns ts start)).tally ≡ total (forwarded (own d ts)) % 2 ^ 64)
run_turns-forwarded d ts =
    let os = own d ts in
    let pump = run_turns-own d ts start ∙ ap (run_alone os) (pump_start d) in
    (
      ap (λ (t : Pump). t.sent) pump ∙ run_alone-sent os fresh_pump refl,
      ap (λ (t : Pump). t.tally) pump
          ∙ run_alone-tally os fresh_pump refl (omega arith)
          ∙ omega arith,
    )

take_all : (n : ℕ) (d : List ℕ) → length d ≤ n → take n d ≡ d
take_all zero [] h = refl
take_all zero (x ∷ d) h = absurd (omega (arith, h))
take_all (suc n) [] h = refl
take_all (suc n) (x ∷ d) h = ap (λ (t : List ℕ). x ∷ t) (take_all n d (omega arith))

-- A datagram that the pump copies whole.
abbrev pub IsPacket : List ℕ → Type 0
IsPacket d = (is_empty d ≡ false) × (length d ≤ max_packet)

round-datagram : (d : List ℕ) → IsPacket d → round (datagram d) none ≡ copies d
unfolding round write_outcome
round-datagram d (full, fits) = rw (take_all max_packet d fits, full, round)

forwarded-packets :
    (ds : List (List ℕ)) → All IsPacket ds → forwarded (map (λ d. round (datagram d) none) ds) ≡ ds
forwarded-packets [] h = refl
forwarded-packets (d ∷ ds) (hd, hs) =
    rw (round-datagram d hd) (ap (λ (t : List (List ℕ)). d ∷ t) (forwarded-packets ds hs))

-- If a pump reads datagrams that are not empty and have at most 65535 bytes, and can write each, it has
-- written exactly those, byte for byte and in order, whatever the other pump does.
pub run_turns-verbatim :
    (d : Direction) (ts : List Turn) (packets : List (List ℕ))
    → All IsPacket packets
    → own d ts ≡ map (λ p. round (datagram p) none) packets
    → (pump_of d (run_turns ts start)).sent ≡ packets
run_turns-verbatim d ts packets fit reads =
    (run_turns-forwarded d ts).0 ∙ ap forwarded reads ∙ forwarded-packets packets fit
