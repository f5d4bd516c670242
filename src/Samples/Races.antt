-- ===== src/Samples/Races.antt =====
-- The event loop and the watcher, at the status file.
use openconnect_ubuntu_touch.Common.{◌≡◌, refl, none, some, List, [], ◌∷◌, ◌++◌, map, true}
use openconnect_ubuntu_touch.Common.Int.{pos}
use openconnect_ubuntu_touch.Common.Text.{Text, codes}
use openconnect_ubuntu_touch.Lines.{newline}
use openconnect_ubuntu_touch.Files.{FileSystem, read_file, written}
use openconnect_ubuntu_touch.Status.{Status, Publisher, Change, changed, update_all}
use openconnect_ubuntu_touch.Status.Races.{
  read_target, outside, Goroutine, event_loop, watcher, Shared, run_steps,
}
use openconnect_ubuntu_touch.Status.Races.Serial.{serial, run_steps-update_all}
use openconnect_ubuntu_touch.Status.Races.Raced.{overtaken, emptied, update_raced}
use openconnect_ubuntu_touch.Status.Published.{changed_all}
use openconnect_ubuntu_touch.Status.Races.Serial.{IsQuiet}
use openconnect_ubuntu_touch.Status.Races.Alone.{starts, whole, run_steps_settled}
use openconnect_ubuntu_touch.Samples.Status.{blank}

-- A client that connects while the tunnel goes down.
abbrev client_seen : Change
client_seen = record {
  fn = λ s. record s { client_up = true; state = codes "up" };
  now = pos 9;
  outcome = written;
}

abbrev going_down : Change
going_down = record { fn = λ s. record s { state = codes "down" }; now = pos 8; outcome = written }

abbrev at_start : Shared
at_start = record {
  cur = blank;
  disk = record { target = none; tmp = none; content = λ i. []; next = 0 };
  loop_stage = outside;
  watcher_stage = outside;
}

abbrev state_of : Status → Text
state_of s = s.state

abbrev calls : List (Goroutine × Change)
calls = (event_loop, going_down) ∷ (watcher, client_seen) ∷ (event_loop, going_down) ∷ []

abbrev empty_disk : FileSystem
empty_disk q = none

abbrev file_of : Publisher
file_of = record { path = codes "status.json"; cur = blank }

run_steps-update_all_example :
    ((run_steps state_of (serial calls) at_start).cur
      ≡ (update_all state_of (map (λ u. u.1) calls) file_of empty_disk).0.cur)
    × (read_target (run_steps state_of (serial calls) at_start).disk
        ≡ read_file
            (update_all state_of (map (λ u. u.1) calls) file_of empty_disk).1
            (codes "status.json"))
run_steps-update_all_example =
    run_steps-update_all state_of calls at_start file_of empty_disk (refl, refl)
      (refl, (refl, (refl, tt))) refl refl

update_raced_example :
    (((run_steps state_of (overtaken going_down client_seen) at_start).loop_stage ≡ outside)
      × ((run_steps state_of (overtaken going_down client_seen) at_start).watcher_stage ≡ outside)
      × ((run_steps state_of (overtaken going_down client_seen) at_start).cur
          ≡ changed client_seen (changed going_down blank))
      × (read_target (run_steps state_of (overtaken going_down client_seen) at_start).disk
          ≡ some (codes "down" ++ newline ∷ [])))
    × (read_target (run_steps state_of (emptied going_down client_seen) at_start).disk ≡ some [])
update_raced_example = update_raced state_of going_down client_seen at_start refl refl refl

-- Behind the schedule that leaves a stale file.
abbrev raced : List (Goroutine × Change)
raced = overtaken going_down client_seen

raced-IsQuiet : IsQuiet (run_steps state_of raced at_start)
raced-IsQuiet =
    let races = update_raced state_of going_down client_seen at_start refl refl refl in
    (races.0.0, races.0.1)

run_steps_settled_example :
    ((run_steps state_of (raced ++ whole event_loop going_down) at_start).cur
      ≡ changed going_down (changed_all (starts 0 0 raced) blank))
    × (read_target (run_steps state_of (raced ++ whole event_loop going_down) at_start).disk
        ≡ some (
            state_of (run_steps state_of (raced ++ whole event_loop going_down) at_start).cur
            ++ newline ∷ []))
    × IsQuiet (run_steps state_of (raced ++ whole event_loop going_down) at_start)
run_steps_settled_example =
    run_steps_settled state_of raced event_loop going_down at_start (refl, refl) raced-IsQuiet
