-- ===== src/Setup/Bridge/Returns.antt =====
-- The whole of run of src/ocbridge/main.go.
use openconnect_ubuntu_touch.Common.{
  ◌≡◌, ◌≢◌, ◌⊎◌, refl, sym, ap, ◌∙◌, subst, true, false, All, Option, none, some, List, [], ◌∷◌,
  ◌++◌, Result, ok, err, Bool-cases, inl, inr,
}
use openconnect_ubuntu_touch.Common.Text.{Text, text_eq_refl}
use openconnect_ubuntu_touch.Lines.{newline}
use openconnect_ubuntu_touch.Files.{read_file}
use openconnect_ubuntu_touch.Files.Contents.{succeeds, read_file-text_of}
use openconnect_ubuntu_touch.Pki.{Crypto}
use openconnect_ubuntu_touch.Status.{Status}
use openconnect_ubuntu_touch.Session.{Event, Verdict, event}
use openconnect_ubuntu_touch.Session.Shutdown.{goes_on, failure}
use openconnect_ubuntu_touch.Setup.World.{World, idle, running, RunError}
use openconnect_ubuntu_touch.Setup.Run.{Inputs, Prepared, status_path, log_path}
use openconnect_ubuntu_touch.Setup.Run.Failures.{Ends}
use openconnect_ubuntu_touch.Setup.Run.End.{Reports, shut_down_lem}
use openconnect_ubuntu_touch.Setup.Serve.{Occurrence, serve_all}
use openconnect_ubuntu_touch.Setup.Bridge.{Ending, overtake, set_up, conclude, run_bridge}
use openconnect_ubuntu_touch.Setup.Bridge.Failures.{
  IsRunning, IsStopped, set_up-Ends, SetUpFails, SetsUp, Tells, set_up-Tells,
}
use openconnect_ubuntu_touch.Setup.Watch.{watch_lines}
use openconnect_ubuntu_touch.Setup.Serve.Ends.{EndsWith, serve_all_ends}

-- What the status file holds where `text` was written last by run itself.
abbrev pub left_in_file : Option Text → Text → Text
left_in_file none text = text
left_in_file (some t) text = t

-- The last status of a run that its loop's event `e` ended: "error" with the failure of the event, or
-- "down" without one, the client gone, and the last counters. If the last write succeeds, the status file
-- holds that status, unless an update of the watcher has overtaken it.
abbrev pub IsFinal :
    (C : Crypto) → Inputs C → (Status → Text) → Prepared → Ending → Event → World → Type 0
IsFinal C i encode q z e w =
    Reports (failure (log_path C i encode q) e) w.status
    × (w.status.client_up ≡ false)
    × (w.status.bytes_in ≡ z.bytes_in)
    × (w.status.bytes_out ≡ z.bytes_out)
    × ((succeeds z.outcome ≡ false)
        ⊎ (read_file w.files (status_path C i encode q)
            ≡ some (left_in_file z.overtaken (encode w.status ++ newline ∷ []))))

-- What run leaves in the world and returns, from the world `w`: no openvpn process, and the error and the
-- world of its set-up if that fails, or the failure of the event with the last status if it succeeds.
abbrev pub Leaves :
    (C : Crypto)
    → Inputs C
    → (Status → Text)
    → Ending
    → Event
    → World
    → World
    → Result RunError (Option Text)
    → Type 0
Leaves C i encode z e w w' r =
    (w'.child ≢ running)
    × (((x : RunError) × (r ≡ err x) × SetUpFails C i encode w x w')
        ⊎ ((q : Prepared) × (v : World) × SetsUp C i encode w q v
            × (r ≡ ok (failure (log_path C i encode q) e))
            × IsFinal C i encode q z e w'))

overtake_kept :
    (o : Option Text) (path : Text) (w : World)
    → ((overtake o path w).status ≡ w.status) × ((overtake o path w).child ≡ w.child)
unfolding overtake
overtake_kept none path w = (refl, refl)
overtake_kept (some t) path w = (refl, refl)

overtake-read :
    (o : Option Text) (path : Text) (w : World) (text : Text)
    → read_file w.files path ≡ some text
    → read_file (overtake o path w).files path ≡ some (left_in_file o text)
unfolding overtake
overtake-read none path w text h = h
overtake-read (some t) path w text h =
    read_file-text_of (overtake (some t) path w).files path ∙ rw (text_eq_refl path) refl

-- If no openvpn process runs before it, and a stopping event comes after ticks and lines only: run returns,
-- with no openvpn process running. Either its set-up fails, and it returns that error and leaves the world
-- as the set-up did; or the set-up succeeds, and it returns the failure of the event, if it is one. In the
-- second case the status says "error" with that failure, or "down" without one, shows the client as gone
-- and the last counters; if the last write succeeds, the status file holds that status, or what an update
-- of the watcher left there that overlapped the last one.
pub run_bridge_returns :
    (C : Crypto) (i : Inputs C) (encode : Status → Text) (before : List Occurrence) (c : Occurrence)
    (e : Event) (after : List Occurrence) (z : Ending) (w : World)
    → w.child ≡ idle
    → All (λ x. goes_on x.input ≡ true) before
    → c.input ≡ event e
    → goes_on (event e) ≡ false
    → (w' : World) × (r : Result RunError (Option Text)) × (run_bridge C i encode
          (before ++ c ∷ after)
          z
          w
        ≡ some (w', r))
      × Leaves C i encode z e w w' r
unfolding run_bridge conclude
run_bridge_returns C i encode before c e after z w idle_first goes given stops =
    split (set_up C i encode (before ++ c ∷ after) z w)
      (set_up-Ends C i encode (before ++ c ∷ after) z w idle_first)
      (set_up-Tells C i encode (before ++ c ∷ after) z w)
  where
    served : Prepared → World → World × Option Verdict
    served q v =
        serve_all encode (status_path C i encode q) (log_path C i encode q) (before ++ c ∷ after) v

    closing :
        (q : Prepared) (r : World × Option Verdict) (v : World)
        → SetsUp C i encode w q v
        → EndsWith encode (status_path C i encode q) (log_path C i encode q) e v r
        → (w' : World) × (x : Result RunError (Option Text)) × (conclude C i encode
              (before ++ c ∷ after)
              z
              q
              r
            ≡ some (w', x))
          × Leaves C i encode z e w w' x
    closing q (u, o) v tells (verdict, ends, reason, child) =
        let (w', runs, stopped, reports, gone, received, sent, file) =
          shut_down_lem encode (status_path C i encode q) verdict z.bytes_in z.bytes_out z.in_time
            z.now z.outcome
            (watch_lines encode (status_path C i encode q) (log_path C i encode q) z.late u) in
        let path = status_path C i encode q in
        let (same_status, same_child) = overtake_kept z.overtaken path w' in
        let left = overtake z.overtaken path w' in
        (
          left,
          ok verdict.exit_err,
          rw ends (ap (λ x. some (overtake z.overtaken path x.0, ok verdict.exit_err)) runs),
          (
            (λ h. stopped (sym same_child ∙ h)),
            inr (
              q,
              v,
              tells,
              ap ok reason,
              (
                subst (λ x. Reports x left.status) reason
                    (subst (Reports verdict.exit_err) (sym same_status) reports),
                ap (λ (t : Status). t.client_up) same_status ∙ gone,
                ap (λ (t : Status). t.bytes_in) same_status ∙ received,
                ap (λ (t : Status). t.bytes_out) same_status ∙ sent,
                elim (Bool-cases (succeeds z.outcome)) [
                  | inl wrote ↦ inr (
                      overtake-read z.overtaken path w' (encode w'.status ++ newline ∷ [])
                        (file ∙ rw wrote refl)
                      ∙ ap
                          (λ (t : Status).
                            some (left_in_file z.overtaken (encode t ++ newline ∷ [])))
                          (sym same_status))
                  | inr lost ↦ inl lost
                ],
              ),
            ),
          ),
        )

    run_from : World × Result RunError Prepared → Option (World × Result RunError (Option Text))
    run_from s = elim s.1 [
      | err x ↦ some (s.0, err x)
      | ok q ↦ conclude C i encode (before ++ c ∷ after) z q (served q s.0)
    ]

    split :
        (s : World × Result RunError Prepared)
        → Ends IsRunning IsStopped s
        → Tells C i encode w s
        → (w' : World) × (r : Result RunError (Option Text)) × (run_from s ≡ some (w', r))
          × Leaves C i encode z e w w' r
    split (v, err x) stopped tells = (v, err x, refl, (stopped, inl (x, refl, tells)))
    split (v, ok q) runs tells = closing q (served q v) v tells (
        serve_all_ends encode (status_path C i encode q) (log_path C i encode q) before c e after v
          goes given stops)
