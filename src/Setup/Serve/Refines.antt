-- ===== src/Setup/Serve/Refines.antt =====
-- The status that the loop and the watcher keep is that of Session, and the log is what the watcher read.
use openconnect_ubuntu_touch.Common.{
  ◌≡◌, refl, sym, ap, ◌∙◌, Option, none, some, List, [], ◌∷◌, ◌++◌, map, append_assoc, append-nil,
}
use openconnect_ubuntu_touch.Common.Int.{ℤ}
use openconnect_ubuntu_touch.Common.Text.{Text, codes, text_eq}
use openconnect_ubuntu_touch.Lines.{newline, render}
use openconnect_ubuntu_touch.FilePath.{last_name}
use openconnect_ubuntu_touch.Files.{Outcome, read_file}
use openconnect_ubuntu_touch.Files.Named.{write_file_elsewhere}
use openconnect_ubuntu_touch.Files.Contents.{text_of, read_file-text_of}
use openconnect_ubuntu_touch.Status.{Status, update}
use openconnect_ubuntu_touch.Session.{
  Event, signalled, relay_ended, openvpn_exited, ticked, Verdict, on_event, counted, watched, Input,
  event, line, serve,
}
use openconnect_ubuntu_touch.Setup.World.{World}
use openconnect_ubuntu_touch.Setup.Run.{publish}
use openconnect_ubuntu_touch.Setup.Watch.Kept.{apply_notice}
use openconnect_ubuntu_touch.Setup.Serve.{
  notice, append_line, Occurrence, publish_notice, watch_line, tick, serve_all,
}
pub use openconnect_ubuntu_touch.Setup.Serve.Stamps.{unstamped}
use openconnect_ubuntu_touch.Setup.Serve.Stamps.{
  watched-notice, watched-unstamped, counted-unstamped, read_append_line,
}

abbrev pub inputs_of : List Occurrence → List Input
inputs_of cs = map (λ c. c.input) cs

-- The lines that are read before the loop ends.
unfoldable pub lines_read : Text → List Input → List Text
lines_read log_path [] = []
lines_read log_path (line l ∷ is) = l ∷ lines_read log_path is
lines_read log_path (event e ∷ is) = elim (on_event log_path e) [
  | none ↦ lines_read log_path is
  | some v ↦ []
]

module _ (encode : Status → Text) (status_path log_path : Text)
    (status_named : last_name status_path ≡ codes "status.json")
    (log_named : last_name log_path ≡ codes "openvpn.log") where
  publish_log :
      (fn : Status → Status) (now : ℤ) (o : Outcome) (w : World)
      → (publish encode status_path fn now o w).0.files log_path ≡ w.files log_path
  unfolding publish update text_eq
  publish_log fn now o w =
      write_file_elsewhere o status_path _ 0o600 w.files log_path (codes "status.json")
        (codes "openvpn.log") status_named log_named refl refl

  publish_notice_lem :
      (n : Option (Status → Status)) (now : ℤ) (o : Outcome) (w : World)
      → (unstamped (publish_notice encode status_path log_path n now o w).status
          ≡ unstamped (apply_notice n w.status))
        × ((publish_notice encode status_path log_path n now o w).files log_path ≡ w.files log_path)
  unfolding publish_notice update
  publish_notice_lem none now o w = (refl, refl)
  publish_notice_lem (some fn) now o w = (refl, publish_log fn now o w)

  watch_line_lem :
      (l old : Text) (now : ℤ) (o : Outcome) (w : World)
      → read_file w.files log_path ≡ some old
      → (unstamped (watch_line encode status_path log_path l now o w).status
          ≡ unstamped (watched l w.status))
        × (read_file (watch_line encode status_path log_path l now o w).files log_path
            ≡ some (old ++ (l ++ newline ∷ [])))
  unfolding watch_line
  watch_line_lem l old now o w h =
      let logged = record w { files = append_line log_path l w.files } in
      let (status, kept) = publish_notice_lem (notice l) now o logged in
      (
        status ∙ ap unstamped (sym (watched-notice l w.status)),
        read_file-text_of (watch_line encode status_path log_path l now o w).files log_path
            ∙ ap text_of kept
            ∙ sym (read_file-text_of logged.files log_path)
            ∙ read_append_line log_path l old w.files h,
      )

  tick_lem :
      (e : Event) (now : ℤ) (o : Outcome) (w : World)
      → (unstamped (tick encode status_path log_path e now o w).status
          ≡ unstamped (counted e w.status))
        × ((tick encode status_path log_path e now o w).files log_path ≡ w.files log_path)
  unfolding tick update
  tick_lem e now o w = (refl, publish_log (counted e) now o w)

  -- What Session's loop gives, for a status that is the same up to the time of its last update.
  abbrev pub Matches : Option (Status × Verdict) → World × Option Verdict → Type 0
  Matches none (w, v) = v ≡ none
  Matches (some (s, v)) (w, u) = (u ≡ some v) × (unstamped w.status ≡ unstamped s)

  -- For paths named status.json and openvpn.log, a log file that is there, and two statuses that are the same
  -- up to the time of the last update: the loop and the watcher, with all that they write, end exactly
  -- if Session's loop does, with its verdict and, up to that time, with its status. The log has grown
  -- by the lines that were read before the loop ended, each with a newline behind it.
  pub serve_all-serve :
      (cs : List Occurrence) (w : World) (s : Status) (old : Text)
      → unstamped w.status ≡ unstamped s
      → read_file w.files log_path ≡ some old
      → Matches (serve log_path (inputs_of cs) s) (serve_all encode status_path log_path cs w)
        × (read_file (serve_all encode status_path log_path cs w).0.files log_path
            ≡ some (old ++ render (lines_read log_path (inputs_of cs))))
  unfolding serve serve_all lines_read render on_event
  serve_all-serve [] w s old same h = (refl, h ∙ ap (λ (t : Text). some t) (sym (append-nil old)))
  serve_all-serve (c ∷ cs) w s old same h = step c.input (serve_all-serve cs)
    where
      Claim : List Occurrence → World → Status → Text → Type 0
      Claim ds v t text =
          Matches (serve log_path (inputs_of ds) t) (serve_all encode status_path log_path ds v)
          × (read_file (serve_all encode status_path log_path ds v).0.files log_path
              ≡ some (text ++ render (lines_read log_path (inputs_of ds))))

      step :
          (x : Input)
          → ((v : World) (t : Status) (text : Text)
              → unstamped v.status ≡ unstamped t
              → read_file v.files log_path ≡ some text
              → Claim cs v t text)
          → Claim (record c { input = x } ∷ cs) w s old
      step (line l) ih =
          let (status, log) = watch_line_lem l old c.now c.outcome w h in
          let (matches, text) =
            ih (watch_line encode status_path log_path l c.now c.outcome w) (watched l s)
              (old ++ (l ++ newline ∷ []))
              (status
                ∙ watched-unstamped l w.status
                ∙ ap (watched l) same
                ∙ sym (watched-unstamped l s))
              log in
          (
            matches,
            text
                ∙ ap (λ (t : Text). some t)
                    (append_assoc old (l ++ newline ∷ []) _
                      ∙ ap (λ (t : Text). old ++ t) (append_assoc l (newline ∷ []) _)),
          )
      step (event (ticked i o)) ih =
          let e = ticked i o in
          let (status, kept) = tick_lem e c.now c.outcome w in
          ih (tick encode status_path log_path e c.now c.outcome w) (counted e s) old
            (status
              ∙ counted-unstamped e w.status
              ∙ ap (counted e) same
              ∙ sym (counted-unstamped e s))
            (read_file-text_of (tick encode status_path log_path e c.now c.outcome w).files log_path
              ∙ ap text_of kept
              ∙ sym (read_file-text_of w.files log_path)
              ∙ h)
      step (event (signalled sig)) ih =
          ((refl, same), h ∙ ap (λ (t : Text). some t) (sym (append-nil old)))
      step (event (relay_ended none)) ih =
          ((refl, same), h ∙ ap (λ (t : Text). some t) (sym (append-nil old)))
      step (event (relay_ended (some e))) ih =
          ((refl, same), h ∙ ap (λ (t : Text). some t) (sym (append-nil old)))
      step (event (openvpn_exited e)) ih =
          ((refl, same), h ∙ ap (λ (t : Text). some t) (sym (append-nil old)))
