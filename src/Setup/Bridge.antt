-- ===== src/Setup/Bridge.antt =====
-- run of src/ocbridge/main.go as a whole, where it is neither -auth nor -init.
pub mod Failures
pub mod Returns
use openconnect_ubuntu_touch.Common.{ℕ, Bool, Option, none, some, List, Result, ok, err}
use openconnect_ubuntu_touch.Common.Int.{ℤ}
use openconnect_ubuntu_touch.Common.Text.{Text}
use openconnect_ubuntu_touch.Files.{Outcome, put}
use openconnect_ubuntu_touch.Pki.{Crypto}
use openconnect_ubuntu_touch.Status.{Status}
use openconnect_ubuntu_touch.Session.{Verdict}
use openconnect_ubuntu_touch.Setup.Watch.{WatchedLine, watch_lines}
use openconnect_ubuntu_touch.Setup.World.{World, RunError, Step, ◌>>=◌, ◌>>◌, finished}
use openconnect_ubuntu_touch.Setup.Run.{Inputs, Prepared, status_path, log_path, prepare, launch}
use openconnect_ubuntu_touch.Setup.Run.End.{shut_down}
use openconnect_ubuntu_touch.Setup.Serve.{Occurrence, serve_all}

-- What run meets behind its loop: the lines that the watcher reads before the last update, the counters,
-- whether openvpn exits in time, the last write, and what an update of the watcher leaves in the status
-- file whose writeFile overlaps the last one and ends behind it (as in Status.Races), if there is one.
pub record Ending : Type 0 where
  pub late : List WatchedLine
  pub bytes_in : ℕ
  pub bytes_out : ℕ
  pub in_time : Bool
  pub now : ℤ
  pub outcome : Outcome
  pub overtaken : Option Text

-- A write that comes last.
unfoldable pub overtake : Option Text → Text → World → World
overtake none path w = w
overtake (some t) path w = record w {
  files = put w.files path (some (record { content = t; mode = 0o600 }));
}

module _ (C : Crypto) (i : Inputs C) (encode : Status → Text) (cs : List Occurrence)
    (z : Ending) where
  -- Everything in front of the loop.
  unfoldable pub set_up : Step Prepared
  set_up = do q ← prepare C i; launch C i encode q; finished q

  -- From the loop's end; none if it does not end.
  unfoldable pub conclude :
      Prepared → World × Option Verdict → Option (World × Result RunError (Option Text))
  conclude q (w, none) = none
  conclude q (w, some v) =
      let read = watch_lines encode (status_path C i encode q) (log_path C i encode q) z.late w in
      let closed =
        (shut_down encode (status_path C i encode q) v z.bytes_in z.bytes_out z.in_time z.now
          z.outcome read).0 in
      some (overtake z.overtaken (status_path C i encode q) closed, ok v.exit_err)

  -- run: the world and the error that it returns, or nil.
  unfoldable pub run_bridge : World → Option (World × Result RunError (Option Text))
  run_bridge w = elim (set_up w).1 [
    | err e ↦ some ((set_up w).0, err e)
    | ok q ↦
        conclude q
          (serve_all encode (status_path C i encode q) (log_path C i encode q) cs (set_up w).0)
  ]
