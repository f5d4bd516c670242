-- ===== src/Status/Races.antt =====
-- Update of src/ocbridge/status.go as the event loop and the watcher of src/ocbridge/main.go call it at the
-- same time: the lock covers the change and its text, and writeFile comes behind it.
pub mod Serial
pub mod Raced
pub mod Alone
use openconnect_ubuntu_touch.Common.{
  ℕ, suc, Option, none, some, List, [], ◌∷◌, ◌++◌, drop, length, ◌==◌, if◌then◌else◌,
}
use openconnect_ubuntu_touch.Common.Text.{Text}
use openconnect_ubuntu_touch.Lines.{newline}
use openconnect_ubuntu_touch.Status.{Status, Change, changed}

-- The names of the status file and of its temporary file, the inodes behind them, and the next new inode.
pub record Disk : Type 0 where
  pub target : Option ℕ
  pub tmp : Option ℕ
  pub content : ℕ → Text
  pub next : ℕ

abbrev pub set_content : ℕ → Text → (ℕ → Text) → ℕ → Text
set_content i t f q = if i == q then t else f q

abbrev pub read_target : Disk → Option Text
read_target d = elim d.target [ none ↦ none | some i ↦ some (d.content i) ]

-- os.WriteFile opens the temporary file: one that is there is emptied.
unfoldable pub open_tmp : Disk → Disk × ℕ
open_tmp d = elim d.tmp [
  | none ↦ (
    record d { tmp = some d.next; content = set_content d.next [] d.content; next = suc d.next },
    d.next,
  )
  | some i ↦ (record d { content = set_content i [] d.content }, i)
]

-- The write to an open file, from its start.
unfoldable pub write_inode : ℕ → Text → Disk → Disk
write_inode i t d = record d {
  content = set_content i (t ++ drop (length t) (d.content i)) d.content;
}

-- os.Rename of the temporary file; without one it fails.
unfoldable pub rename_tmp : Disk → Disk
rename_tmp d = elim d.tmp [ none ↦ d | some i ↦ record d { target = some i; tmp = none } ]

-- Where a goroutine stands in Update: not in it, behind Unlock with the text, with the temporary file open,
-- or behind os.WriteFile.
pub data Stage : Type 0 where
  outside : Stage
  encoded : Text → Stage
  opened : Text → ℕ → Stage
  saved : Stage

pub data Goroutine : Type 0 where
  event_loop : Goroutine
  watcher : Goroutine

pub record Shared : Type 0 where
  pub cur : Status
  pub disk : Disk
  pub loop_stage : Stage
  pub watcher_stage : Stage

abbrev pub stage_of : Goroutine → Shared → Stage
stage_of event_loop s = s.loop_stage
stage_of watcher s = s.watcher_stage

abbrev pub set_stage : Goroutine → Stage → Shared → Shared
set_stage event_loop g s = record s { loop_stage = g }
set_stage watcher g s = record s { watcher_stage = g }

module _ (encode : Status → Text) where
  -- The next step of a goroutine, from its stage; at the start of an update it takes its change.
  unfoldable pub step_from : Goroutine → Change → Stage → Shared → Shared
  unfolding open_tmp write_inode rename_tmp
  step_from g c outside s =
      let now = changed c s.cur in
      set_stage g (encoded (encode now ++ newline ∷ [])) (record s { cur = now })
  step_from g c (encoded t) s =
      let (d, i) = open_tmp s.disk in set_stage g (opened t i) (record s { disk = d })
  step_from g c (opened t i) s = set_stage g saved (record s { disk = write_inode i t s.disk })
  step_from g c saved s = set_stage g outside (record s { disk = rename_tmp s.disk })

  unfoldable pub take_step : Goroutine × Change → Shared → Shared
  unfolding step_from
  take_step (g, c) s = step_from g c (stage_of g s) s

  -- The steps of both goroutines in the order of a schedule.
  unfoldable pub run_steps : List (Goroutine × Change) → Shared → Shared
  unfolding take_step
  run_steps [] s = s
  run_steps (t ∷ ts) s = run_steps ts (take_step t s)
