-- ===== src/Status/Races/Raced.antt =====
-- Two updates that overlap.
use openconnect_ubuntu_touch.Common.{
  ℕ, suc, subst, ◌≡◌, refl, sym, Option, none, some, List, [], ◌∷◌, ◌++◌,
}
use openconnect_ubuntu_touch.Common.Text.{Text}
use openconnect_ubuntu_touch.Lines.{newline}
use openconnect_ubuntu_touch.Status.{Status, Change, changed}
use openconnect_ubuntu_touch.Status.Races.{
  read_target, outside, Goroutine, event_loop, watcher, Shared, run_steps,
}
use openconnect_ubuntu_touch.Status.Races.Serial.{drop_nil, self}

-- The watcher begins and ends its update while the event loop stands behind Unlock.
abbrev pub overtaken : Change → Change → List (Goroutine × Change)
overtaken c d =
    (event_loop, c)
    ∷ (watcher, d)
    ∷ (watcher, d)
    ∷ (watcher, d)
    ∷ (watcher, d)
    ∷ (event_loop, c)
    ∷ (event_loop, c)
    ∷ (event_loop, c)
    ∷ []

-- The watcher opens the temporary file before the event loop renames it.
abbrev pub emptied : Change → Change → List (Goroutine × Change)
emptied c d =
    (event_loop, c)
    ∷ (event_loop, c)
    ∷ (event_loop, c)
    ∷ (watcher, d)
    ∷ (watcher, d)
    ∷ (event_loop, c)
    ∷ []

module _ (encode : Status → Text) (c d : Change) where
  -- The two outcomes, for a state at which both begin.
  abbrev Raced : Shared → Type 0
  Raced s =
      (((run_steps encode (overtaken c d) s).loop_stage ≡ outside)
        × ((run_steps encode (overtaken c d) s).watcher_stage ≡ outside)
        × ((run_steps encode (overtaken c d) s).cur ≡ changed d (changed c s.cur))
        × (read_target (run_steps encode (overtaken c d) s).disk
            ≡ some (encode (changed c s.cur) ++ newline ∷ [])))
      × (read_target (run_steps encode (emptied c d) s).disk ≡ some [])

  abbrev at_rest : Status → Option ℕ → (ℕ → Text) → ℕ → Shared
  at_rest cur target content next = record {
    cur = cur;
    disk = record { target = target; tmp = none; content = content; next = next };
    loop_stage = outside;
    watcher_stage = outside;
  }

  at_rest-Raced :
      (cur : Status) (target : Option ℕ) (content : ℕ → Text) (next : ℕ)
      → Raced (at_rest cur target content next)
  unfolding run_steps
  at_rest-Raced cur target content next =
      let text = encode (changed c cur) ++ newline ∷ [] in
      ((refl, refl, refl, rw (self (suc next), drop_nil text) refl), rw (self next) refl)

-- If no goroutine is inside Update and no temporary file is there: when the watcher's whole update falls
-- between the Unlock and the writeFile of one of the event loop, the status has both changes, both
-- goroutines are done, and the file holds the text of the status without the watcher's change. When the
-- watcher opens the temporary file between the write and the rename of the event loop, a reader then finds
-- an empty status file.
pub update_raced :
    (encode : Status → Text) (c d : Change) (s : Shared)
    → s.loop_stage ≡ outside
    → s.watcher_stage ≡ outside
    → s.disk.tmp ≡ none
    → (((run_steps encode (overtaken c d) s).loop_stage ≡ outside)
        × ((run_steps encode (overtaken c d) s).watcher_stage ≡ outside)
        × ((run_steps encode (overtaken c d) s).cur ≡ changed d (changed c s.cur))
        × (read_target (run_steps encode (overtaken c d) s).disk
            ≡ some (encode (changed c s.cur) ++ newline ∷ [])))
      × (read_target (run_steps encode (emptied c d) s).disk ≡ some [])
update_raced encode c d s loop_out watcher_out no_tmp =
    subst (Raced encode c d)
      (λ k. record s {
        loop_stage = sym loop_out k;
        watcher_stage = sym watcher_out k;
        disk = record s.disk { tmp = sym no_tmp k };
      })
      (at_rest-Raced encode c d s.cur s.disk.target s.disk.content s.disk.next)
