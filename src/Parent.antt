-- ===== src/Parent.antt =====
-- src/ocbridge/parent.go: DieWithParent, and the parent that may exit between any two of its system calls.
pub mod Told
use openconnect_ubuntu_touch.Common.{
  ℕ, Bool, true, false, not, Option, none, some, Result, ok, err, ◌==◌, if◌then◌else◌,
}
use openconnect_ubuntu_touch.Common.Text.{Text}

-- What the kernel keeps for this process: its parent's number, whether the parent that started it lives,
-- whether the signal for the parent's death is armed, and whether it was sent for that parent.
pub record Kernel : Type 0 where
  pub parent : ℕ
  pub alive : Bool
  pub armed : Bool
  pub told : Bool

-- The parent exits: the process goes to a reaper, and gets the signal if it is armed.
unfoldable pub parent_exits : ℕ → Kernel → Kernel
parent_exits reaper k =
    if k.alive then record k { parent = reaper; alive = false; told = k.armed } else k

-- The places between the calls at which the parent exits.
pub record Gaps : Type 0 where
  pub before_first : Bool
  pub before_prctl : Bool
  pub before_check : Bool

abbrev pub gap : Bool → ℕ → Kernel → Kernel
gap exits reaper k = if exits then parent_exits reaper k else k

pub data ParentError : Type 0 where
  prctl_failed : Text → ParentError
  parent_exited : ParentError

-- The second Getppid, and what is returned for it.
unfoldable pub check_parent : ℕ → Kernel → Kernel × Result ParentError (Unit {0})
check_parent orig k = if not (k.parent == orig) then (k, err parent_exited) else (k, ok tt)

-- The prctl call, by its errno, and the check.
unfoldable pub arm : Gaps → ℕ → Option Text → ℕ → Kernel → Kernel × Result ParentError (Unit {0})
unfolding check_parent
arm g reaper (some e) orig k = (k, err (prctl_failed e))
arm g reaper none orig k = check_parent orig (gap g.before_check reaper (record k { armed = true }))

-- `DieWithParent`
unfoldable pub die_with_parent :
    Gaps → ℕ → Option Text → Kernel → Kernel × Result ParentError (Unit {0})
unfolding arm parent_exits
die_with_parent g reaper errno k =
    let k1 = gap g.before_first reaper k in
    arm g reaper errno k1.parent (gap g.before_prctl reaper k1)
