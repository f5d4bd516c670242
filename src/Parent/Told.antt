-- ===== src/Parent/Told.antt =====
-- Whether a process that DieWithParent let through learns of its parent's exit.
use openconnect_ubuntu_touch.Common.{ℕ, ◌≡◌, ◌≢◌, ◌↔◌, true, false, Option, none, some, ok, arith}
use openconnect_ubuntu_touch.Common.Text.{Text}
use openconnect_ubuntu_touch.Parent.{Kernel, parent_exits, Gaps, die_with_parent}

-- The parent lives at the first Getppid.
through-told :
    (g : Gaps) (reaper : ℕ) (errno : Option Text) (k : Kernel)
    → k.alive ≡ true
    → k.parent ≢ reaper
    → g.before_first ≡ false
    → (((die_with_parent g reaper errno k).1 ≡ ok tt)
        ↔ ((errno ≡ none) × (g.before_prctl ≡ false) × (g.before_check ≡ false)))
      × ((die_with_parent g reaper errno k).1 ≡ ok tt
          → (parent_exits reaper (die_with_parent g reaper errno k).0).told ≡ true)
unfolding die_with_parent
through-told g reaper none k lives other first = ground arith
through-told g reaper (some e) k lives other first = ground arith

-- It exits before.
missed :
    (g : Gaps) (reaper : ℕ) (errno : Option Text) (k : Kernel)
    → k.alive ≡ true
    → k.armed ≡ false
    → g.before_first ≡ true
    → errno ≡ none
    → ((die_with_parent g reaper errno k).1 ≡ ok tt)
      × ((parent_exits reaper (die_with_parent g reaper errno k).0).told ≡ false)
unfolding die_with_parent
missed g reaper none k lives unarmed first armed = ground arith
missed g reaper (some e) k lives unarmed first armed = cc armed

-- For a parent that lives when DieWithParent is called, is not the reaper, by a process
-- that has not asked for the signal before. If it lives at the first Getppid: DieWithParent returns nil exactly if prctl succeeds and
-- the parent does not exit before the second Getppid, and then the process gets the signal when the
-- parent exits. If it exits before the first Getppid and prctl succeeds: DieWithParent returns nil, and
-- the process never gets the signal.
pub die_with_parent_told :
    (g : Gaps) (reaper : ℕ) (errno : Option Text) (k : Kernel)
    → k.alive ≡ true
    → k.armed ≡ false
    → k.parent ≢ reaper
    → (g.before_first ≡ false
        → (((die_with_parent g reaper errno k).1 ≡ ok tt)
            ↔ ((errno ≡ none) × (g.before_prctl ≡ false) × (g.before_check ≡ false)))
          × ((die_with_parent g reaper errno k).1 ≡ ok tt
              → (parent_exits reaper (die_with_parent g reaper errno k).0).told ≡ true))
      × (g.before_first ≡ true
          → errno ≡ none
          → ((die_with_parent g reaper errno k).1 ≡ ok tt)
            × ((parent_exits reaper (die_with_parent g reaper errno k).0).told ≡ false))
die_with_parent_told g reaper errno k lives unarmed other =
    (through-told g reaper errno k lives other, missed g reaper errno k lives unarmed)
