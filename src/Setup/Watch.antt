-- ===== src/Setup/Watch.antt =====
-- Updates of the status file, and watchOpenVPN of src/ocbridge/main.go with what it writes for a line of
-- openvpn's output: the log file and the status file.
pub mod Kept
use openconnect_ubuntu_touch.Common.{
  ℕ, true, false, ◌||◌, Option, none, some, List, [], ◌∷◌, ◌++◌, ok, if◌then◌else◌,
}
use openconnect_ubuntu_touch.Common.Int.{ℤ}
use openconnect_ubuntu_touch.Common.Text.{Text, codes}
use openconnect_ubuntu_touch.Strings.{contains_text}
use openconnect_ubuntu_touch.Lines.{newline}
use openconnect_ubuntu_touch.Files.{FileSystem, Outcome, put}
use openconnect_ubuntu_touch.Status.{Status, update}
use openconnect_ubuntu_touch.Setup.World.{World, Step}

-- `status.Update(fn)`, whose error is dropped.
unfoldable pub publish : (Status → Text) → Text → (Status → Status) → ℤ → Outcome → Step (Unit {0})
publish encode path fn now o w =
    let r =
      update encode (record { fn = fn; now = now; outcome = o })
        (record { path = path; cur = w.status }) w.files in
    (record w { files = r.1; status = r.0.cur }, ok tt)

-- The update that a line of openvpn's output asks for, if any.
unfoldable pub notice : Text → Option (Status → Status)
notice l =
    if contains_text (codes "Initialization Sequence Completed") l
    then some (λ s. record s { state = codes "up" })
    else if contains_text (codes "Peer Connection Initiated") l
    then some (λ s. record s { client_up = true })
    else if contains_text (codes "client-instance restarting") l
        || contains_text (codes "SIGTERM[soft,remote-exit]") l
    then some (λ s. record s { client_up = false })
    else none

-- `fmt.Fprintln(logFile, line)`, at the end of the open file.
unfoldable pub append_line : Text → Text → FileSystem → FileSystem
append_line log_path l fs = elim (fs log_path) [
  | none ↦ fs
  | some f ↦ put fs log_path (some (record f { content = f.content ++ (l ++ newline ∷ []) }))
]

-- A line that the watcher reads, when, and what becomes of the write of the status that it asks for.
pub record WatchedLine : Type 0 where
  pub text : Text
  pub now : ℤ
  pub outcome : Outcome

module _ (encode : Status → Text) (status_path log_path : Text) where
  -- The update of a line, if it asks for one.
  unfoldable pub publish_notice : Option (Status → Status) → ℤ → Outcome → World → World
  unfolding publish
  publish_notice none now o w = w
  publish_notice (some fn) now o w = (publish encode status_path fn now o w).0

  -- The body of the loop of watchOpenVPN.
  unfoldable pub watch_line : Text → ℤ → Outcome → World → World
  watch_line l now o w =
      publish_notice (notice l) now o (record w { files = append_line log_path l w.files })

  -- Its rounds for several lines.
  unfoldable pub watch_lines : List WatchedLine → World → World
  watch_lines [] w = w
  watch_lines (l ∷ ls) w = watch_lines ls (watch_line l.text l.now l.outcome w)

  -- The same as a step of run, which goes on meanwhile.
  unfoldable pub watch_meanwhile : List WatchedLine → Step (Unit {0})
  watch_meanwhile ls w = (watch_lines ls w, ok tt)
