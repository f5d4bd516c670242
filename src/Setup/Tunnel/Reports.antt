-- ===== src/Setup/Tunnel/Reports.antt =====
-- What run of src/ocbridge/main.go reports of its relay.
use openconnect_ubuntu_touch.Common.{
  ℕ, ◌%◌, ◌^◌, ◌≡◌, refl, sym, ap, ◌∙◌, subst, Bool, true, false, Option, some, List, [], ◌∷◌, ◌++◌,
  All, append_assoc, Result,
}
use openconnect_ubuntu_touch.Common.Int.{ℤ}
use openconnect_ubuntu_touch.Common.Text.{Text}
use openconnect_ubuntu_touch.Files.{written}
use openconnect_ubuntu_touch.Pki.{Crypto}
use openconnect_ubuntu_touch.Status.{Status}
use openconnect_ubuntu_touch.Relay.{Direction, from_vpn, to_vpn, pump_of}
use openconnect_ubuntu_touch.Relay.First.{first_ending}
use openconnect_ubuntu_touch.Relay.Forward.{own, forwarded, total}
use openconnect_ubuntu_touch.Relay.Close.{Move, Closing, run_moves, opened, returned}
use openconnect_ubuntu_touch.Relay.Close.Turns.{turns_of, run_moves-total, returned-first_ending}
use openconnect_ubuntu_touch.Session.{relay_ended, event}
use openconnect_ubuntu_touch.Session.Shutdown.{goes_on}
use openconnect_ubuntu_touch.Setup.World.{World, RunError, idle}
use openconnect_ubuntu_touch.Setup.Run.{Inputs}
use openconnect_ubuntu_touch.Setup.Serve.{Occurrence}
use openconnect_ubuntu_touch.Setup.Bridge.{Ending, run_bridge}
use openconnect_ubuntu_touch.Setup.Bridge.Returns.{Leaves, run_bridge_returns}
use openconnect_ubuntu_touch.Setup.Tunnel.{
  Happening, relays, reads, ticks, receives, signals, exits, occurrences_of, relayed, relayed_all,
  occurrences, run_tunnel,
}

-- The steps of the relay among the happenings.
abbrev pub moves_of : List Happening → List Move
moves_of [] = []
moves_of (relays m ∷ hs) = m ∷ moves_of hs
moves_of (reads l ∷ hs) = moves_of hs
moves_of (ticks now o ∷ hs) = moves_of hs
moves_of (receives now ∷ hs) = moves_of hs
moves_of (signals sig now ∷ hs) = moves_of hs
moves_of (exits e now ∷ hs) = moves_of hs

-- The loop goes on: a step of the relay, a line, or a tick.
abbrev pub is_quiet : Happening → Bool
is_quiet (relays m) = true
is_quiet (reads l) = true
is_quiet (ticks now o) = true
is_quiet (receives now) = false
is_quiet (signals sig now) = false
is_quiet (exits e now) = false

module _ (closed_error : Text) where
  -- The bytes that a pump has written, modulo 2^64.
  abbrev pub copied : Direction → List Happening → ℕ
  copied d hs = total (forwarded (own d (turns_of closed_error (moves_of hs) opened))) % 2 ^ 64

  relayed_all-run_moves :
      (hs : List Happening) (s : Closing)
      → relayed_all closed_error hs s ≡ run_moves closed_error (moves_of hs) s
  unfolding relayed_all run_moves
  relayed_all-run_moves [] s = refl
  relayed_all-run_moves (relays m ∷ hs) s =
      relayed_all-run_moves hs (relayed closed_error (relays m) s)
  relayed_all-run_moves (reads l ∷ hs) s = relayed_all-run_moves hs s
  relayed_all-run_moves (ticks now o ∷ hs) s = relayed_all-run_moves hs s
  relayed_all-run_moves (receives now ∷ hs) s = relayed_all-run_moves hs s
  relayed_all-run_moves (signals sig now ∷ hs) s = relayed_all-run_moves hs s
  relayed_all-run_moves (exits e now ∷ hs) s = relayed_all-run_moves hs s

  relayed_all-copied :
      (d : Direction) (hs : List Happening)
      → (pump_of d (relayed_all closed_error hs opened).relay).tally ≡ copied d hs
  relayed_all-copied d hs =
      ap (λ (s : Closing). (pump_of d s.relay).tally) (relayed_all-run_moves hs opened)
      ∙ run_moves-total closed_error d (moves_of hs)

  occurrences-++ :
      (before rest : List Happening) (s : Closing)
      → occurrences closed_error (before ++ rest) s
        ≡ occurrences closed_error before s
          ++ occurrences closed_error rest (relayed_all closed_error before s)
  unfolding occurrences relayed_all
  occurrences-++ [] rest s = refl
  occurrences-++ (h ∷ hs) rest s =
      ap (λ (t : List Occurrence). occurrences_of s h ++ t)
        (occurrences-++ hs rest (relayed closed_error h s))
      ∙ sym (append_assoc (occurrences_of s h) _ _)

  occurrences-quiet :
      (before : List Happening) (s : Closing)
      → All (λ h. is_quiet h ≡ true) before
      → All (λ x. goes_on x.input ≡ true) (occurrences closed_error before s)
  unfolding occurrences occurrences_of
  occurrences-quiet [] s h = tt
  occurrences-quiet (relays m ∷ hs) s (_, h) =
      occurrences-quiet hs (relayed closed_error (relays m) s) h
  occurrences-quiet (reads l ∷ hs) s (_, h) = (refl, occurrences-quiet hs s h)
  occurrences-quiet (ticks now o ∷ hs) s (_, h) = (refl, occurrences-quiet hs s h)
  occurrences-quiet (receives now ∷ hs) s (q, h) = cc q
  occurrences-quiet (signals sig now ∷ hs) s (q, h) = cc q
  occurrences-quiet (exits e now ∷ hs) s (q, h) = cc q

  received :
      (now : ℤ) (after : List Happening) (s : Closing) (e : Option Text)
      → returned s ≡ some e
      → occurrences closed_error (receives now ∷ after) s
        ≡ record { input = event (relay_ended e); now = now; outcome = written }
          ∷ occurrences closed_error after s
  unfolding occurrences occurrences_of
  received now after s e h = rw (occurrences_of, h) refl

-- If no openvpn process runs before it, and only steps of the relay, lines and ticks come before the loop
-- receives from a relay that has returned, whatever comes after: run returns with no openvpn process
-- running. If its set-up fails, it returns that error and leaves the world as the set-up did. If the set-up
-- succeeds, it returns, as its last status says, the error of the first round of a pump that finished, and
-- the counters in that status are the bytes that the two pumps have written, modulo 2^64.
pub run_tunnel_returns :
    (closed_error : Text) (C : Crypto) (i : Inputs C) (encode : Status → Text)
    (before : List Happening) (now : ℤ) (after : List Happening) (z : Ending) (w : World)
    (e : Option Text)
    → w.child ≡ idle
    → All (λ h. is_quiet h ≡ true) before
    → returned (relayed_all closed_error before opened) ≡ some e
    → (w' : World) × (r : Result RunError (Option Text)) × (run_tunnel closed_error C i encode
          (before ++ receives now ∷ after)
          z
          w
        ≡ some (w', r))
      × (first_ending (turns_of closed_error (moves_of before) opened) ≡ some e)
      × Leaves C i encode
          (record z {
            bytes_in = copied closed_error from_vpn (before ++ receives now ∷ after);
            bytes_out = copied closed_error to_vpn (before ++ receives now ∷ after);
          })
          (relay_ended e)
          w
          w'
          r
unfolding run_tunnel
run_tunnel_returns closed_error C i encode before now after z w e idle_first quiet over =
    let hs = before ++ receives now ∷ after in
    let s = relayed_all closed_error before opened in
    let ending : Ending = record z {
      bytes_in = (relayed_all closed_error hs opened).relay.vpn_pump.tally;
      bytes_out = (relayed_all closed_error hs opened).relay.tun_pump.tally;
    } in
    let all_of : occurrences closed_error hs opened
        ≡ occurrences closed_error before opened
          ++ record { input = event (relay_ended e); now = now; outcome = written }
            ∷ occurrences closed_error after s =
      occurrences-++ closed_error before (receives now ∷ after) opened
      ∙ ap (λ (t : List Occurrence). occurrences closed_error before opened ++ t)
          (received closed_error now after s e over) in
    let (w', r, runs, leaves) =
      run_bridge_returns C i encode (occurrences closed_error before opened)
        (record { input = event (relay_ended e); now = now; outcome = written }) (relay_ended e)
        (occurrences closed_error after s) ending w idle_first
        (occurrences-quiet closed_error before opened quiet) refl refl in
    (
      w',
      r,
      ap (λ (t : List Occurrence). run_bridge C i encode t ending w) all_of ∙ runs,
      returned-first_ending closed_error (moves_of before) e
          (ap returned (sym (relayed_all-run_moves closed_error before opened)) ∙ over),
      subst
          (λ (n : ℕ × ℕ).
            Leaves C i encode (record z { bytes_in = n.0; bytes_out = n.1 }) (relay_ended e) w w' r)
          (λ k. (
            relayed_all-copied closed_error from_vpn hs k,
            relayed_all-copied closed_error to_vpn hs k,
          ))
          leaves,
    )
