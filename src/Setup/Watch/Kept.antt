-- ===== src/Setup/Watch/Kept.antt =====
-- What a line of openvpn's output leaves alone of the process and of the status.
use openconnect_ubuntu_touch.Common.{
  ◌≡◌, ◌⊎◌, refl, ◌∙◌, Bool, true, false, ◌||◌, Option, none, some, List, [], ◌∷◌, if◌then◌else◌,
  inr,
}
use openconnect_ubuntu_touch.Common.Int.{ℤ}
use openconnect_ubuntu_touch.Common.Text.{Text, codes}
use openconnect_ubuntu_touch.Strings.{contains_text}
use openconnect_ubuntu_touch.Files.{Outcome}
use openconnect_ubuntu_touch.Status.{Status, update}
use openconnect_ubuntu_touch.Setup.World.{World}
use openconnect_ubuntu_touch.Setup.Watch.{
  notice, publish_notice, watch_line, WatchedLine, watch_lines,
}

-- The state is "starting" or "up", and the error a given one.
abbrev pub Begins : Text → Status → Type 0
Begins text s = ((s.state ≡ codes "starting") ⊎ (s.state ≡ codes "up")) × (s.error_text ≡ text)

-- A status with the update, if there is one.
abbrev pub apply_notice : Option (Status → Status) → Status → Status
apply_notice none s = s
apply_notice (some fn) s = fn s

notice-Begins :
    (text l : Text) (s : Status) → Begins text s → Begins text (apply_notice (notice l) s)
unfolding notice
notice-Begins text l s h =
    cases (contains_text (codes "Initialization Sequence Completed") l)
      (contains_text (codes "Peer Connection Initiated") l)
      (contains_text (codes "client-instance restarting") l
        || contains_text (codes "SIGTERM[soft,remote-exit]") l)
  where
    cases :
        (a b c : Bool)
        → Begins text (
            apply_notice
              (if a
                then some (λ t. record t { state = codes "up" })
                else if b
                then some (λ t. record t { client_up = true })
                else if c
                then some (λ t. record t { client_up = false })
                else none)
              s)
    cases true b c = (inr refl, h.1)
    cases false true c = h
    cases false false true = h
    cases false false false = h

module _ (encode : Status → Text) (status_path log_path : Text) where
  pub publish_notice-child :
      (n : Option (Status → Status)) (now : ℤ) (o : Outcome) (w : World)
      → (publish_notice encode status_path log_path n now o w).child ≡ w.child
  unfolding publish_notice
  publish_notice-child none now o w = refl
  publish_notice-child (some fn) now o w = refl

  pub watch_lines-child :
      (ls : List WatchedLine) (w : World)
      → (watch_lines encode status_path log_path ls w).child ≡ w.child
  unfolding watch_lines watch_line
  watch_lines-child [] w = refl
  watch_lines-child (l ∷ ls) w =
      watch_lines-child ls (watch_line encode status_path log_path l.text l.now l.outcome w)
      ∙ publish_notice-child (notice l.text) l.now l.outcome _

  publish_notice-Begins :
      (text : Text) (n : Option (Status → Status)) (now : ℤ) (o : Outcome) (w : World)
      → Begins text (apply_notice n w.status)
      → Begins text (publish_notice encode status_path log_path n now o w).status
  unfolding publish_notice update
  publish_notice-Begins text none now o w h = h
  publish_notice-Begins text (some fn) now o w h = h

  pub watch_lines-Begins :
      (text : Text) (ls : List WatchedLine) (w : World)
      → Begins text w.status
      → Begins text (watch_lines encode status_path log_path ls w).status
  unfolding watch_lines watch_line
  watch_lines-Begins text [] w h = h
  watch_lines-Begins text (l ∷ ls) w h =
      watch_lines-Begins text ls (watch_line encode status_path log_path l.text l.now l.outcome w) (
        publish_notice-Begins text (notice l.text) l.now l.outcome _
          (notice-Begins text l.text w.status h))
