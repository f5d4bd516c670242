-- ===== src/Setup/Serve/Stamps.antt =====
-- One step of the loop or the watcher of src/ocbridge/main.go, up to the time of the status' last update.
use openconnect_ubuntu_touch.Common.{
  ◌≡◌, refl, sym, ap, ◌∙◌, Bool, true, false, ◌||◌, none, some, [], ◌∷◌, ◌++◌, if◌then◌else◌,
  Option-cases, inl, inr,
}
use openconnect_ubuntu_touch.Common.Int.{pos}
use openconnect_ubuntu_touch.Common.Text.{Text, codes, text_eq_refl}
use openconnect_ubuntu_touch.Strings.{contains_text}
use openconnect_ubuntu_touch.Lines.{newline}
use openconnect_ubuntu_touch.Files.{FileSystem, read_file}
use openconnect_ubuntu_touch.Files.Contents.{text_of, read_file-text_of}
use openconnect_ubuntu_touch.Status.{Status}
use openconnect_ubuntu_touch.Session.{
  Event, signalled, relay_ended, openvpn_exited, ticked, counted, watched,
}
use openconnect_ubuntu_touch.Setup.Watch.Kept.{apply_notice}
use openconnect_ubuntu_touch.Setup.Serve.{notice, append_line}

-- A status without the time of its last update.
abbrev pub unstamped : Status → Status
unstamped s = record s { updated_at = pos 0 }

pub watched-notice : (l : Text) (s : Status) → watched l s ≡ apply_notice (notice l) s
unfolding watched notice
watched-notice l s =
    cases (contains_text (codes "Initialization Sequence Completed") l)
      (contains_text (codes "Peer Connection Initiated") l)
      (contains_text (codes "client-instance restarting") l
        || contains_text (codes "SIGTERM[soft,remote-exit]") l)
  where
    cases :
        (a b c : Bool)
        → ◌≡◌ {A = Status}
            (if a
              then record s { state = codes "up" }
              else if b
              then record s { client_up = true }
              else if c
              then record s { client_up = false }
              else s)
            (apply_notice
              (if a
                then some (λ t. record t { state = codes "up" })
                else if b
                then some (λ t. record t { client_up = true })
                else if c
                then some (λ t. record t { client_up = false })
                else none)
              s)
    cases true b c = refl
    cases false true c = refl
    cases false false true = refl
    cases false false false = refl

pub watched-unstamped : (l : Text) (s : Status) → unstamped (watched l s) ≡ watched l (unstamped s)
unfolding watched
watched-unstamped l s =
    cases (contains_text (codes "Initialization Sequence Completed") l)
      (contains_text (codes "Peer Connection Initiated") l)
      (contains_text (codes "client-instance restarting") l
        || contains_text (codes "SIGTERM[soft,remote-exit]") l)
  where
    cases :
        (a b c : Bool)
        → unstamped (
            if a
            then record s { state = codes "up" }
            else if b
            then record s { client_up = true }
            else if c
            then record s { client_up = false }
            else s)
          ≡ (if a
              then record (unstamped s) { state = codes "up" }
              else if b
              then record (unstamped s) { client_up = true }
              else if c
              then record (unstamped s) { client_up = false }
              else unstamped s)
    cases true b c = refl
    cases false true c = refl
    cases false false true = refl
    cases false false false = refl

pub counted-unstamped : (e : Event) (s : Status) → unstamped (counted e s) ≡ counted e (unstamped s)
unfolding counted
counted-unstamped (ticked i o) s = refl
counted-unstamped (signalled sig) s = refl
counted-unstamped (relay_ended e) s = refl
counted-unstamped (openvpn_exited e) s = refl

pub read_append_line :
    (p l old : Text) (fs : FileSystem)
    → read_file fs p ≡ some old
    → read_file (append_line p l fs) p ≡ some (old ++ (l ++ newline ∷ []))
unfolding append_line
read_append_line p l old fs h = elim (Option-cases (fs p)) [
  | inl gone ↦ absurd (cc (sym h ∙ read_file-text_of fs p ∙ ap text_of gone))
  | inr (f, there) ↦
      let content : f.content ≡ old = cc (sym (read_file-text_of fs p ∙ ap text_of there) ∙ h) in
      let new : append_line p l fs p
          ≡ some (record f { content = f.content ++ (l ++ newline ∷ []) }) =
        rw (there, append_line) (rw (text_eq_refl p) refl) in
      read_file-text_of (append_line p l fs) p
      ∙ ap text_of new
      ∙ ap (λ (t : Text). some (t ++ (l ++ newline ∷ []))) content
]
