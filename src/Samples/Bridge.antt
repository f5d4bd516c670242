-- ===== src/Samples/Bridge.antt =====
-- A tunnel from its set-up to its end.
use openconnect_ubuntu_touch.Common.{zero, suc, Bool, inr, ap, sym}
use openconnect_ubuntu_touch.Common.Text.{is_empty}
use openconnect_ubuntu_touch.Common.{
  ℕ, ◌≡◌, ◌≤◌, refl, arith, false, none, some, Option, Result, List, [], ◌∷◌, ◌++◌, All, length,
}
use openconnect_ubuntu_touch.Common.Int.{pos}
use openconnect_ubuntu_touch.Common.Text.{Text, codes, text_eq}
use openconnect_ubuntu_touch.Lines.{newline, render}
use openconnect_ubuntu_touch.Scanner.{max_line, scan_lines}
use openconnect_ubuntu_touch.Scanner.Laws.{IsUnbroken, IsShort}
use openconnect_ubuntu_touch.FilePath.{last_name}
use openconnect_ubuntu_touch.Files.{read_file, put, written, rename_fails}
use openconnect_ubuntu_touch.Session.{event, line, ticked, signalled, serve, on_event}
use openconnect_ubuntu_touch.Setup.World.{World, RunError, running}
use openconnect_ubuntu_touch.Setup.Serve.{Occurrence, serve_all}
use openconnect_ubuntu_touch.Setup.Serve.Refines.{inputs_of, lines_read, Matches, serve_all-serve}
use openconnect_ubuntu_touch.Setup.Serve.Logged.{IsStop, scanned_to, serve_all_logged}
use openconnect_ubuntu_touch.Setup.Bridge.{Ending, run_bridge}
use openconnect_ubuntu_touch.Setup.Bridge.Returns.{Leaves, run_bridge_returns}
use openconnect_ubuntu_touch.Samples.Status.{blank}
use openconnect_ubuntu_touch.Samples.Pki.{toy}
use openconnect_ubuntu_touch.Samples.Setup.{inputs, fresh, encode}

abbrev status_file : Text
status_file = codes "run/status.json"

abbrev log_file : Text
log_file = codes "run/openvpn.log"

status_named : last_name status_file ≡ codes "status.json"
unfolding last_name
status_named = refl

log_named : last_name log_file ≡ codes "openvpn.log"
unfolding last_name
log_named = refl

-- The log is open, and one line is in it.
abbrev up : World
up = record {
  files =
      put (λ q. none) log_file
        (some (record { content = codes "a" ++ newline ∷ []; mode = 0o600 }));
  status = blank;
  dirs = [];
  child = running;
}

log_there : read_file up.files log_file ≡ some (codes "a" ++ newline ∷ [])
unfolding text_eq
log_there = refl

-- A line, a tick whose write fails, and a signal.
abbrev before : List Occurrence
before =
    record { input = line (codes "Peer Connection Initiated"); now = pos 7; outcome = written }
    ∷ record { input = event (ticked 100 20); now = pos 8; outcome = rename_fails }
    ∷ []

abbrev signal : Occurrence
signal = record { input = event (signalled (codes "hangup")); now = pos 9; outcome = written }

abbrev occurrences : List Occurrence
occurrences = before ++ signal ∷ []

serve_all-serve_example :
    Matches encode status_file log_file status_named log_named
      (serve log_file (inputs_of occurrences) blank)
      (serve_all encode status_file log_file occurrences up)
    × (read_file (serve_all encode status_file log_file occurrences up).0.files log_file
        ≡ some
            ((codes "a" ++ newline ∷ []) ++ render (lines_read log_file (inputs_of occurrences))))
serve_all-serve_example =
    serve_all-serve encode status_file log_file status_named log_named occurrences up blank
      (codes "a" ++ newline ∷ []) refl log_there

abbrev logged : List Text
logged = codes "Peer Connection Initiated" ∷ []

short : All (IsShort 1048576) logged
short = ((omega arith, omega arith), tt)

-- A line without an end, and more behind it.
endless : (n : ℕ) → (l : Text) × IsUnbroken l × (n ≤ length l)
endless zero = ([], tt, omega arith)
endless (suc n) =
    let (l, unbroken, long) = endless n in (97 ∷ l, (omega arith, unbroken), omega (arith, long))

abbrev tail : Text
tail = (endless 1048576).0 ++ codes "tail"

stop : IsStop tail
stop = inr ((endless 1048576).0, codes "tail", refl, (endless 1048576).1, (endless 1048576).2)

scanned :
    lines_read log_file (inputs_of occurrences) ≡ (scan_lines max_line (render logged ++ tail)).0
unfolding lines_read on_event
scanned = ap (λ (t : List Text × Bool). t.0) (sym (scanned_to logged tail short stop))

serve_all_logged_example :
    ((scan_lines max_line (render logged ++ tail)).1 ≡ is_empty tail)
    × (read_file (serve_all encode status_file log_file occurrences up).0.files log_file
        ≡ some ((codes "a" ++ newline ∷ []) ++ render logged))
serve_all_logged_example =
    serve_all_logged encode status_file log_file occurrences up (codes "a" ++ newline ∷ []) tail
      logged status_named log_named log_there scanned short stop

abbrev ending : Ending
ending = record {
  late = record { text = codes "SIGTERM[soft,remote-exit]"; now = pos 11; outcome = written } ∷ [];
  bytes_in = 140;
  bytes_out = 30;
  in_time = false;
  now = pos 12;
  outcome = written;
  overtaken = none;
}

run_bridge_returns_example :
    (w' : World) × (r : Result RunError (Option Text)) × (run_bridge toy inputs encode occurrences
        ending fresh
      ≡ some (w', r))
    × Leaves toy inputs encode ending (signalled (codes "hangup")) fresh w' r
run_bridge_returns_example =
    run_bridge_returns toy inputs encode before signal (signalled (codes "hangup")) [] ending fresh
      refl (refl, (refl, tt)) refl refl
