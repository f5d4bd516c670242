-- ===== src/Setup/Run/End.antt =====
-- The end of run of src/ocbridge/main.go, behind its event loop: stopProcess and the last update.
use openconnect_ubuntu_touch.Common.{
  ℕ, ◌≡◌, ◌≢◌, refl, Bool, true, false, Option, none, some, [], ◌∷◌, ◌++◌, ok, if◌then◌else◌,
}
use openconnect_ubuntu_touch.Common.Int.{ℤ}
use openconnect_ubuntu_touch.Common.Text.{Text, codes}
use openconnect_ubuntu_touch.Lines.{newline}
use openconnect_ubuntu_touch.Files.{read_file, Outcome}
use openconnect_ubuntu_touch.Files.Contents.{succeeds, read_file-write_file}
use openconnect_ubuntu_touch.Status.{Status, update}
use openconnect_ubuntu_touch.Session.{Verdict, closed}
use openconnect_ubuntu_touch.Setup.World.{
  World, Child, idle, running, killed, exited, Step, ◌>>=◌, ◌>>◌,
}
use openconnect_ubuntu_touch.Setup.Run.{publish}

-- `stopProcess(cmd, grace)`: `in_time` is whether openvpn has exited when the grace period ends.
abbrev pub stop_process : Bool → Child → Child
stop_process in_time idle = idle
stop_process true running = exited
stop_process false running = killed
stop_process in_time killed = killed
stop_process in_time exited = exited

abbrev pub stop_openvpn : Bool → Step (Unit {0})
stop_openvpn in_time w = (record w { child = stop_process in_time w.child }, ok tt)

-- What run does with the verdict of its loop.
unfoldable pub shut_down :
    (Status → Text) → Text → Verdict → ℕ → ℕ → Bool → ℤ → Outcome → Step (Unit {0})
shut_down encode path v in_bytes out_bytes in_time now o = do
  stop_openvpn in_time
  publish encode path (closed v in_bytes out_bytes) now o

-- The state and the error that go with the error of a session.
abbrev pub Reports : Option Text → Status → Type 0
Reports none s = (s.state ≡ codes "down") × (s.error_text ≡ [])
Reports (some e) s = (s.state ≡ codes "error") × (s.error_text ≡ e)

closed-Reports :
    (v : Verdict) (i o : ℕ) (s : Status)
    → Reports v.exit_err (closed v i o s)
      × ((closed v i o s).client_up ≡ false)
      × ((closed v i o s).bytes_in ≡ i)
      × ((closed v i o s).bytes_out ≡ o)
unfolding closed
closed-Reports v i o s = split v.exit_err
  where
    split :
        (x : Option Text)
        → (let t = record s { bytes_in = i; bytes_out = o; client_up = false } in
            let r : Status = elim x [
              | none ↦ record t { state = codes "down"; error_text = [] }
              | some e ↦ record t { state = codes "error"; error_text = e }
            ] in
            Reports x r × (r.client_up ≡ false) × (r.bytes_in ≡ i) × (r.bytes_out ≡ o))
    split none = ((refl, refl), refl, refl, refl)
    split (some e) = ((refl, refl), refl, refl, refl)

Reports-updated :
    (x : Option Text) (s : Status) (now : ℤ)
    → Reports x s
    → Reports x (record s { updated_at = now })
Reports-updated none s now h = h
Reports-updated (some e) s now h = h

stop_process-ne : (in_time : Bool) (c : Child) → stop_process in_time c ≢ running
stop_process-ne in_time idle e = cc e
stop_process-ne true running e = cc e
stop_process-ne false running e = cc e
stop_process-ne in_time killed e = cc e
stop_process-ne in_time exited e = cc e

-- Whatever the verdict of the loop, and whether openvpn exits in time or not: run ends with no openvpn
-- process running, with the state "error" and the verdict's error, or "down" and none, with the client
-- shown as gone, with the counters as they are then, and with the text of this status in the status file
-- if the write succeeds, or what the file held before if not.
pub shut_down_lem :
    (encode : Status → Text) (path : Text) (v : Verdict) (i o : ℕ) (in_time : Bool) (now : ℤ)
    (out : Outcome) (w : World)
    → (w' : World) × (shut_down encode path v i o in_time now out w ≡ (w', ok tt))
      × (w'.child ≢ running)
      × Reports v.exit_err w'.status
      × (w'.status.client_up ≡ false)
      × (w'.status.bytes_in ≡ i)
      × (w'.status.bytes_out ≡ o)
      × (read_file w'.files path ≡ (
          if succeeds out then some (encode w'.status ++ newline ∷ []) else read_file w.files path))
unfolding shut_down publish update ◌>>=◌
shut_down_lem encode path v i o in_time now out w =
    let w' = (shut_down encode path v i o in_time now out w).0 in
    let (reports, gone, received, sent) = closed-Reports v i o w.status in
    (
      w',
      refl,
      stop_process-ne in_time w.child,
      Reports-updated v.exit_err _ now reports,
      gone,
      received,
      sent,
      read_file-write_file out path (encode w'.status ++ newline ∷ []) 0o600 w.files,
    )
