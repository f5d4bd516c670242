-- ===== src/Status/Races/Alone.antt =====
-- An update of which no other is in the middle, behind updates of the two goroutines in any order of steps.
use openconnect_ubuntu_touch.Common.{
  ℕ, zero, suc, ◌≡◌, refl, sym, subst, ap, ◌∙◌, some, List, [], ◌∷◌, ◌++◌,
}
use openconnect_ubuntu_touch.Common.Text.{Text}
use openconnect_ubuntu_touch.Lines.{newline}
use openconnect_ubuntu_touch.Status.{Status, Change, changed}
use openconnect_ubuntu_touch.Status.Published.{changed_all}
use openconnect_ubuntu_touch.Status.Races.{
  Disk, read_target, Stage, outside, encoded, opened, saved, Goroutine, event_loop, watcher, Shared,
  take_step, run_steps,
}
use openconnect_ubuntu_touch.Status.Races.Serial.{
  IsQuiet, one_update, updated, read_target-after_write,
}

-- A goroutine that has `left` steps of its update left takes a change only with none left, and its update
-- then has three more.
abbrev start_of : ℕ → Change → List Change → List Change
start_of zero c cs = c ∷ cs
start_of (suc left) c cs = cs

abbrev after_turn : ℕ → ℕ
after_turn zero = 3
after_turn (suc left) = left

-- The changes that a schedule takes, in their order, where so many steps are left of the event loop's
-- update and of the watcher's.
abbrev pub starts : ℕ → ℕ → List (Goroutine × Change) → List Change
starts m n [] = []
starts m n ((event_loop, c) ∷ ts) = start_of m c (starts (after_turn m) n ts)
starts m n ((watcher, c) ∷ ts) = start_of n c (starts m (after_turn n) ts)

abbrev steps_left : Stage → ℕ
steps_left outside = 0
steps_left (encoded t) = 3
steps_left (opened t i) = 2
steps_left saved = 1

-- The four steps of one update.
abbrev pub whole : Goroutine → Change → List (Goroutine × Change)
whole g c = (g, c) ∷ (g, c) ∷ (g, c) ∷ (g, c) ∷ []

module _ (encode : Status → Text) where
  abbrev cur_after : List (Goroutine × Change) → Status → Disk → Stage → Stage → Status
  cur_after ts cur d l w =
      (run_steps encode ts (record { cur = cur; disk = d; loop_stage = l; watcher_stage = w })).cur

  run_steps-starts :
      (ts : List (Goroutine × Change)) (cur : Status) (d : Disk) (l w : Stage)
      → cur_after ts cur d l w ≡ changed_all (starts (steps_left l) (steps_left w) ts) cur
  unfolding run_steps take_step
  run_steps-starts [] cur d l w = refl
  run_steps-starts ((event_loop, c) ∷ ts) cur d outside w =
      run_steps-starts ts (changed c cur) d _ w
  run_steps-starts ((event_loop, c) ∷ ts) cur d (encoded t) w = run_steps-starts ts cur _ _ w
  run_steps-starts ((event_loop, c) ∷ ts) cur d (opened t i) w = run_steps-starts ts cur _ saved w
  run_steps-starts ((event_loop, c) ∷ ts) cur d saved w = run_steps-starts ts cur _ outside w
  run_steps-starts ((watcher, c) ∷ ts) cur d l outside = run_steps-starts ts (changed c cur) d l _
  run_steps-starts ((watcher, c) ∷ ts) cur d l (encoded t) = run_steps-starts ts cur _ l _
  run_steps-starts ((watcher, c) ∷ ts) cur d l (opened t i) = run_steps-starts ts cur _ l saved
  run_steps-starts ((watcher, c) ∷ ts) cur d l saved = run_steps-starts ts cur _ l outside

  run_steps-append :
      (ts us : List (Goroutine × Change)) (s : Shared)
      → run_steps encode (ts ++ us) s ≡ run_steps encode us (run_steps encode ts s)
  unfolding run_steps
  run_steps-append [] us s = refl
  run_steps-append (t ∷ ts) us s = run_steps-append ts us (take_step encode t s)

-- Let the two goroutines be outside Update, let their steps go on in any order, overlapping as it may be,
-- until both are outside again, and let one of them then make an update while the other stays outside.
-- Then the status has taken every change in the order in which the lock was taken, and the file at the
-- path holds the whole text of that status, whatever file the updates before have left. Writes that
-- fail are not in this model.
pub run_steps_settled :
    (encode : Status → Text) (ts : List (Goroutine × Change)) (g : Goroutine) (c : Change)
    (s : Shared)
    → IsQuiet s
    → IsQuiet (run_steps encode ts s)
    → ((run_steps encode (ts ++ whole g c) s).cur ≡ changed c (changed_all (starts 0 0 ts) s.cur))
      × (read_target (run_steps encode (ts ++ whole g c) s).disk
          ≡ some (encode (run_steps encode (ts ++ whole g c) s).cur ++ newline ∷ []))
      × IsQuiet (run_steps encode (ts ++ whole g c) s)
unfolding run_steps
run_steps_settled encode ts g c s (l, w) quiet =
    let before = run_steps encode ts s in
    let text = encode (changed c before.cur) ++ newline ∷ [] in
    let same : run_steps encode (ts ++ whole g c) s ≡ updated encode c before =
      run_steps-append encode ts (whole g c) s ∙ one_update encode c g before quiet in
    let taken : before.cur ≡ changed_all (starts 0 0 ts) s.cur =
      run_steps-starts encode ts s.cur s.disk s.loop_stage s.watcher_stage
      ∙ (λ k. changed_all (starts (steps_left (l k)) (steps_left (w k)) ts) s.cur) in
    subst
      (λ (t : Shared).
        (t.cur ≡ changed c (changed_all (starts 0 0 ts) s.cur))
        × (read_target t.disk ≡ some (encode t.cur ++ newline ∷ []))
        × IsQuiet t)
      (sym same) (ap (changed c) taken, read_target-after_write encode c text before.disk, quiet)
