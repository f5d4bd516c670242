-- ===== src/Setup/Serve.antt =====
-- The event loop of run of src/ocbridge/main.go next to watchOpenVPN, with what the two write.
mod Stamps
pub mod Ends
pub mod Refines
pub mod Logged
use openconnect_ubuntu_touch.Common.{
  ℕ, true, false, ◌||◌, Option, none, some, List, [], ◌∷◌, ◌++◌, ok, if◌then◌else◌,
}
use openconnect_ubuntu_touch.Common.Int.{ℤ}
use openconnect_ubuntu_touch.Common.Text.{Text, codes}
use openconnect_ubuntu_touch.Strings.{contains_text}
use openconnect_ubuntu_touch.Lines.{newline}
use openconnect_ubuntu_touch.Files.{FileSystem, Outcome, put}
use openconnect_ubuntu_touch.Status.{Status}
use openconnect_ubuntu_touch.Session.{Event, Verdict, on_event, counted, Input, event, line}
unfoldable pub use openconnect_ubuntu_touch.Setup.Watch.{
  notice, append_line, publish_notice, watch_line,
}
use openconnect_ubuntu_touch.Setup.World.{World, Step}
use openconnect_ubuntu_touch.Setup.Run.{publish}

-- One input, when it takes effect, and what becomes of the write of the status that it asks for.
pub record Occurrence : Type 0 where
  pub input : Input
  pub now : ℤ
  pub outcome : Outcome

module _ (encode : Status → Text) (status_path log_path : Text) where
  -- The loop's case of a tick.
  unfoldable pub tick : Event → ℤ → Outcome → World → World
  unfolding publish
  tick e now o w = (publish encode status_path (counted e) now o w).0

  -- The loop and the watcher: the verdict, if the loop ends.
  unfoldable pub serve_all : List Occurrence → World → World × Option Verdict
  serve_all [] w = (w, none)
  serve_all (c ∷ cs) w = elim c.input [
    | line l ↦ serve_all cs (watch_line encode status_path log_path l c.now c.outcome w)
    | event e ↦ elim (on_event log_path e) [
      | none ↦ serve_all cs (tick e c.now c.outcome w)
      | some v ↦ (w, some v)
    ]
  ]
