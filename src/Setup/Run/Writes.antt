-- ===== src/Setup/Run/Writes.antt =====
-- What one step of run leaves alone of the files.
use openconnect_ubuntu_touch.Common.{
  ℕ, ◌≡◌, refl, sym, ap, ◌∙◌, Bool, true, false, ◌++◌, List, [], ◌∷◌, Option, none, some, Result,
  ok, err, Option-cases, inl, inr,
}
use openconnect_ubuntu_touch.Common.Int.{ℤ}
use openconnect_ubuntu_touch.Common.Text.{Text, codes, text_eq}
use openconnect_ubuntu_touch.FilePath.{last_name}
use openconnect_ubuntu_touch.Files.{FileSystem, read_file, Outcome, os_write, write_file}
use openconnect_ubuntu_touch.Files.Atomic.{text_ne, write_file_atomic}
use openconnect_ubuntu_touch.Files.Named.{ne_of_names, write_file_elsewhere}
use openconnect_ubuntu_touch.Files.Contents.{text_of, read_file-text_of}
use openconnect_ubuntu_touch.Descriptors.{FdError}
use openconnect_ubuntu_touch.Status.{Status, changed, update}
use openconnect_ubuntu_touch.Setup.World.{World, RunError, no_log, with_write, with_write-eq-ok}
use openconnect_ubuntu_touch.Setup.Watch.{
  notice, append_line, publish_notice, watch_line, WatchedLine, watch_lines, watch_meanwhile,
}
use openconnect_ubuntu_touch.Setup.Run.{publish, must, start_child, adopt, open_log}

-- Two names of files that no write confuses.
abbrev pub Apart : Text → Text → Type 0
Apart m n = (text_eq m n ≡ false) × (text_eq m (n ++ codes ".tmp") ≡ false)

-- The files named `m` are the same in two worlds.
abbrev pub Keeps : Text → World → World → Type 0
Keeps m w v = (x : Text) → last_name x ≡ m → v.files x ≡ w.files x

pub must-eq-ok :
    {u : Unit {0}} {w v : World} (e : RunError) (b : Bool)
    → must e b w ≡ (v, ok u)
    → (b ≡ true) × (w ≡ v)
must-eq-ok e true h = (refl, ap (λ (t : World × Result RunError (Unit {0})). t.0) h)
must-eq-ok e false h = cc

pub start_child-eq-ok :
    {u : Unit {0}} (w v : World) (b : Bool) → start_child b w ≡ (v, ok u) → w.files ≡ v.files
unfolding start_child
start_child-eq-ok w v true h = ap (λ (t : World × Result RunError (Unit {0})). t.0.files) h
start_child-eq-ok w v false h = cc h

pub adopt-eq-ok :
    {n : ℕ} {w v : World} (wrap : FdError → RunError) (r : Result FdError ℕ)
    → adopt wrap r w ≡ (v, ok n)
    → w ≡ v
unfolding adopt
adopt-eq-ok wrap (ok m) h = ap (λ (t : World × Result RunError ℕ). t.0) h
adopt-eq-ok wrap (err e) h = cc (ap (λ (t : World × Result RunError ℕ). t.1) h)

-- A write that ends well keeps the files of other names, and leaves its text at its path.
pub write_step :
    {u : Unit {0}} {v : World} (e : RunError) (o : Outcome) (p content : Text) (perm : ℕ)
    (w : World) (n : Text)
    → last_name p ≡ n
    → with_write e (write_file o p content perm) w ≡ (v, ok u)
    → ((m : Text) → Apart m n → Keeps m w v)
      × (read_file v.files p ≡ some content)
      × (v.status ≡ w.status)
write_step {u} {v} e o p content perm w n hp h =
    let (good, files, status) = with_write-eq-ok e (write_file o p content perm) w h in
    let (new, _, _) = write_file_atomic o p content perm w.files in
    (
      λ m apart x hx.
          ap (λ (t : FileSystem). t x) files
          ∙ write_file_elsewhere o p content perm w.files x n m hp hx apart.0 apart.1,
      read_file-text_of v.files p
          ∙ ap (λ (t : FileSystem). text_of (t p)) files
          ∙ ap text_of (new good),
      status,
    )

pub log_step :
    {u : Unit {0}} {v : World} (works : Bool) (p : Text) (w : World) (n : Text)
    → last_name p ≡ n
    → with_write no_log (open_log works p) w ≡ (v, ok u)
    → (m : Text) → Apart m n
    → Keeps m w v
unfolding open_log os_write
log_step {u} {v} works p w n hp h m apart x hx =
    let (good, files, status) = with_write-eq-ok no_log (open_log works p) w h in
    ap (λ (t : FileSystem). t x) files ∙ kept works
  where
    kept : (b : Bool) → (open_log b p w.files).0 x ≡ w.files x
    kept true = rw (text_ne p x (λ e. ne_of_names x p m n hx hp apart.0 (sym e))) refl
    kept false = refl

pub publish_step :
    {u : Unit {0}} {v : World} (encode : Status → Text) (p : Text) (fn : Status → Status) (now : ℤ)
    (o : Outcome) (w : World) (n : Text)
    → last_name p ≡ n
    → publish encode p fn now o w ≡ (v, ok u)
    → ((m : Text) → Apart m n → Keeps m w v)
      × (v.status ≡ changed (record { fn = fn; now = now; outcome = o }) w.status)
unfolding publish update
publish_step {u} {v} encode p fn now o w n hp h =
    let world = ap (λ (t : World × Result RunError (Unit {0})). t.0) h in
    (
      λ m apart x hx.
          ap (λ (t : World). t.files x) (sym world)
          ∙ write_file_elsewhere o p _ 0o600 w.files x n m hp hx apart.0 apart.1,
      ap (λ (t : World). t.status) (sym world),
    )

append_line_kept :
    (p l : Text) (fs : FileSystem) (x : Text) → text_eq p x ≡ false → append_line p l fs x ≡ fs x
unfolding append_line
append_line_kept p l fs x other = elim (Option-cases (fs p)) [
  | inl missing ↦ rw (missing, append_line) refl
  | inr (f, there) ↦ rw (there, append_line) (rw other refl)
]

-- The watcher's lines keep the files of other names than the log's and the status file's.
pub watch_step :
    {u : Unit {0}} {v : World} (encode : Status → Text) (sp lp : Text) (ls : List WatchedLine)
    (w : World) (n k : Text)
    → last_name sp ≡ n
    → last_name lp ≡ k
    → watch_meanwhile encode sp lp ls w ≡ (v, ok u)
    → (m : Text) → Apart m n
    → Apart m k
    → Keeps m w v
unfolding watch_meanwhile watch_lines watch_line publish_notice update
watch_step {u} {v} encode sp lp ls w n k hsp hlp h m apart_status apart_log x hx =
    ap (λ (t : World × Result RunError (Unit {0})). t.0.files x) (sym h) ∙ kept ls w
  where
    noticed :
        (o : Option (Status → Status)) (now : ℤ) (out : Outcome) (a : World)
        → (publish_notice encode sp lp o now out a).files x ≡ a.files x
    noticed none now out a = refl
    noticed (some fn) now out a =
        write_file_elsewhere out sp _ 0o600 a.files x n m hsp hx apart_status.0 apart_status.1

    kept : (ks : List WatchedLine) (a : World) → (watch_lines encode sp lp ks a).files x ≡ a.files x
    kept [] a = refl
    kept (l ∷ ks) a =
        kept ks (watch_line encode sp lp l.text l.now l.outcome a)
        ∙ noticed (notice l.text) l.now l.outcome _
        ∙ append_line_kept lp l.text a.files x
            (text_ne lp x (λ e. ne_of_names x lp m k hx hlp apart_log.0 (sym e)))
