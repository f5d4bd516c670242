-- ===== src/Status/Races/Serial.antt =====
-- Updates of the two goroutines that do not overlap.
use openconnect_ubuntu_touch.Common.{
  ℕ, ◌≡◌, refl, sym, ap, ◌∙◌, subst, true, All, some, List, [], ◌∷◌, ◌++◌, map, drop, length, ◌==◌,
  if◌then◌else◌, Option-cases, inl, inr, arith,
}
use openconnect_ubuntu_touch.Common.Text.{Text}
use openconnect_ubuntu_touch.Lines.{newline}
use openconnect_ubuntu_touch.Files.{FileSystem, read_file, written}
use openconnect_ubuntu_touch.Files.Contents.{succeeds}
use openconnect_ubuntu_touch.Status.{Status, Publisher, Change, changed, update_all}
use openconnect_ubuntu_touch.Status.Published.{last_text, changed_all, update_all-published}
use openconnect_ubuntu_touch.Status.Races.{
  Disk, read_target, open_tmp, write_inode, rename_tmp, Stage, outside, Goroutine, event_loop,
  watcher, Shared, take_step, run_steps,
}

-- All four steps of each update before the next.
abbrev pub serial : List (Goroutine × Change) → List (Goroutine × Change)
serial [] = []
serial (u ∷ us) = u ∷ u ∷ u ∷ u ∷ serial us

abbrev pub IsQuiet : Shared → Type 0
IsQuiet s = (s.loop_stage ≡ outside) × (s.watcher_stage ≡ outside)

pub drop_nil : (t : Text) → t ++ drop (length t) [] ≡ t
drop_nil [] = refl
drop_nil (x ∷ t) = ap (λ (r : Text). x ∷ r) (nothing t)
  where
    nothing : (r : Text) → r ++ [] ≡ r
    nothing [] = refl
    nothing (y ∷ r) = ap (λ (q : Text). y ∷ q) (nothing r)

pub self : (i : ℕ) → (i == i) ≡ true
self i = ground arith

module _ (encode : Status → Text) (c : Change) where
  -- The disk after a whole write.
  abbrev pub after_write : Text → Disk → Disk
  after_write t d = let (opened_disk, i) = open_tmp d in rename_tmp (write_inode i t opened_disk)

  pub read_target-after_write : (t : Text) (d : Disk) → read_target (after_write t d) ≡ some t
  unfolding open_tmp write_inode rename_tmp
  read_target-after_write t d = elim (Option-cases d.tmp) [
    | inl absent ↦ rw (absent, self d.next, drop_nil t) refl
    | inr (i, there) ↦ rw (there, self i, drop_nil t) refl
  ]

  abbrev pub four_steps : Goroutine → Shared → Shared
  four_steps g s =
      take_step encode (g, c)
        (take_step encode (g, c) (take_step encode (g, c) (take_step encode (g, c) s)))

  abbrev pub updated : Shared → Shared
  updated s = record s {
    cur = changed c s.cur;
    disk = after_write (encode (changed c s.cur) ++ newline ∷ []) s.disk;
  }

  pub one_update : (g : Goroutine) (s : Shared) → IsQuiet s → four_steps g s ≡ updated s
  unfolding take_step
  one_update event_loop s (out, _) =
      subst (λ (t : Shared). four_steps event_loop t ≡ updated t)
        (ap (λ (x : Stage). record s { loop_stage = x }) (sym out)) refl
  one_update watcher s (_, out) =
      subst (λ (t : Shared). four_steps watcher t ≡ updated t)
        (ap (λ (x : Stage). record s { watcher_stage = x }) (sym out)) refl

module _ (encode : Status → Text) where
  run_steps-serial :
      (us : List (Goroutine × Change)) (s : Shared)
      → IsQuiet s
      → All (λ u. u.1.outcome ≡ written) us
      → ((run_steps encode (serial us) s).cur ≡ changed_all (map (λ u. u.1) us) s.cur)
        × (read_target (run_steps encode (serial us) s).disk
            ≡ last_text encode (map (λ u. u.1) us) s.cur (read_target s.disk))
  unfolding run_steps
  run_steps-serial [] s quiet all = (refl, refl)
  run_steps-serial ((g, c) ∷ us) s quiet (wrote, all) =
      let text = encode (changed c s.cur) ++ newline ∷ [] in
      let step = one_update encode c g s quiet in
      let (cur, file) = run_steps-serial us (updated encode c s) quiet all in
      let published : read_target (updated encode c s).disk
          ≡ (if succeeds c.outcome then some text else read_target s.disk) =
        read_target-after_write encode c text s.disk ∙ rw wrote refl in
      (
        ap (λ (t : Shared). (run_steps encode (serial us) t).cur) step ∙ cur,
        ap (λ (t : Shared). read_target (run_steps encode (serial us) t).disk) step
            ∙ file
            ∙ ap (last_text encode (map (λ u. u.1) us) (changed c s.cur)) published,
      )

-- If no goroutine is inside Update, and the changes' writes all succeed, then updates of which each ends
-- before the next begins leave the status and the file that update_all leaves.
pub run_steps-update_all :
    (encode : Status → Text) (us : List (Goroutine × Change)) (s : Shared) (p : Publisher)
    (fs : FileSystem)
    → IsQuiet s
    → All (λ u. u.1.outcome ≡ written) us
    → s.cur ≡ p.cur
    → read_target s.disk ≡ read_file fs p.path
    → ((run_steps encode (serial us) s).cur ≡ (update_all encode (map (λ u. u.1) us) p fs).0.cur)
      × (read_target (run_steps encode (serial us) s).disk
          ≡ read_file (update_all encode (map (λ u. u.1) us) p fs).1 p.path)
run_steps-update_all encode us s p fs quiet wrote same_cur same_file =
    let changes = map (λ (u : Goroutine × Change). u.1) us in
    let (cur, file) = run_steps-serial encode us s quiet wrote in
    let (published, text) = update_all-published encode changes p fs in
    (
      cur ∙ ap (changed_all changes) same_cur ∙ ap (λ (t : Publisher). t.cur) (sym published),
      file ∙ (λ k. last_text encode changes (same_cur k) (same_file k)) ∙ sym text,
    )
