-- ===== src/Creds/Stored.antt =====
-- What EnsureCreds stores, and what it finds on a later call.
use openconnect_ubuntu_touch.Common.{
  ℕ, ◌≡◌, refl, sym, ap, ◌∙◌, subst, inl, inr, Bool, false, Option, some, List, [], ◌∷◌, ◌++◌,
  Result, ok, err, if◌then◌else◌, arith, All, All-append, length, Option-cases, Bool-cases,
}
use openconnect_ubuntu_touch.Common.Text.{Text, codes, is_empty}
use openconnect_ubuntu_touch.Lines.{split_lines, render, IsLine}
use openconnect_ubuntu_touch.Lines.Laws.{split_lines-render}
use openconnect_ubuntu_touch.Files.{FileSystem, Outcome, write_file}
use openconnect_ubuntu_touch.Files.Atomic.{write_file_atomic}
use openconnect_ubuntu_touch.Files.{read_file}
use openconnect_ubuntu_touch.Creds.{
  two_lines, CredsError, not_written, creds_text, save_creds, fresh_creds, stored_creds,
  ensure_creds,
}
use openconnect_ubuntu_touch.Creds.Token.{IsClear, token_lem, clear-IsLine}

-- A username or password as it is stored: one line, not empty.
abbrev pub IsField : Text → Type 0
IsField t = IsLine t × (is_empty t ≡ false)

two_lines-creds :
    (u p : Text) → is_empty u ≡ false → is_empty p ≡ false → two_lines (u ∷ p ∷ []) ≡ some (u, p)
unfolding two_lines
two_lines-creds u p hu hp = rw (hu, hp)

-- The two lines of a credentials text are the credentials.
pub split_lines-creds_text :
    (u p : Text) → IsField u → IsField p → two_lines (split_lines (creds_text u p)) ≡ some (u, p)
unfolding render
split_lines-creds_text u p (lu, nu) (lp, np) =
    ap two_lines (split_lines-render (u ∷ p ∷ []) (lu, (lp, tt))) ∙ two_lines-creds u p nu np

pub stored_creds-text :
    (fs : FileSystem) (path u p : Text)
    → IsField u
    → IsField p
    → read_file fs path ≡ some (creds_text u p)
    → stored_creds fs path ≡ some (u, p)
unfolding stored_creds
stored_creds-text fs path u p hu hp h = rw (h, stored_creds) (split_lines-creds_text u p hu hp)

user-IsField : (t : Text) → All IsClear t → IsField (codes "ubt-" ++ t)
user-IsField t h = (All-append _ (codes "ubt-") t (ground arith) (clear-IsLine t h), refl)

pass-IsField : (t : Text) → length t ≡ 15 → All IsClear t → IsField t
pass-IsField [] e h = absurd (omega arith)
pass-IsField (c ∷ t) e h = (clear-IsLine (c ∷ t) h, refl)

-- A pair that was saved is stored.
save_creds-stored :
    (u p : Text) (o : Outcome) (path : Text) (fs fs' : FileSystem) (pair : Text × Text)
    → IsField u
    → IsField p
    → save_creds u p o path fs ≡ (fs', ok pair)
    → (stored_creds fs' path ≡ some pair) × IsField pair.0 × IsField pair.1
unfolding save_creds
save_creds-stored u p o path fs fs' pair hu hp h =
    elim (Bool-cases (write_file o path (creds_text u p) 0o600 fs).1) [
      | inl done ↦
          let result = ap (λ (t : FileSystem × Result CredsError (Text × Text)). t.1) h in
          let files : (write_file o path (creds_text u p) 0o600 fs).0 ≡ fs' =
            ap (λ (t : FileSystem × Result CredsError (Text × Text)). t.0) h in
          let same : ◌≡◌ {A = Text × Text} (u, p) pair = cc (sym (ap saved (sym done)), result) in
          let content = (write_file_atomic o path (creds_text u p) 0o600 fs).0 done in
          let read : read_file fs' path ≡ some (creds_text u p) =
            subst (λ (t : FileSystem). read_file t path ≡ some (creds_text u p)) files
              (rw (content, read_file)) in
          subst (λ (t : Text × Text). (stored_creds fs' path ≡ some t) × IsField t.0 × IsField t.1)
            same (stored_creds-text fs' path u p hu hp read, hu, hp)
      | inr failed ↦
          let result = ap (λ (t : FileSystem × Result CredsError (Text × Text)). t.1) h in
          absurd (cc (ap saved failed, result))
    ]
  where
    saved : Bool → Result CredsError (Text × Text)
    saved b = if b then ok (u, p) else err not_written

-- Freshly generated credentials are stored.
fresh_creds-stored :
    (b6 b15 : List ℕ) (o : Outcome) (path : Text) (fs fs' : FileSystem) (pair : Text × Text)
    → length b15 ≡ 15
    → fresh_creds (some b6) (some b15) o path fs ≡ (fs', ok pair)
    → (stored_creds fs' path ≡ some pair) × IsField pair.0 × IsField pair.1
unfolding fresh_creds
fresh_creds-stored b6 b15 o path fs fs' pair len h =
    let (t6, e6, _, c6) = token_lem b6 in
    let (t15, e15, l15, c15) = token_lem b15 in
    let path_of : fresh_creds (some b6) (some b15) o path fs
        ≡ save_creds (codes "ubt-" ++ t6) t15 o path fs =
      rw (e6, e15, fresh_creds) in
    save_creds-stored (codes "ubt-" ++ t6) t15 o path fs fs' pair (user-IsField t6 c6)
      (pass-IsField t15 (l15 ∙ len) c15) (sym path_of ∙ h)

-- A pair that is stored is what EnsureCreds returns, and the files stay as they are.
pub ensure_creds-stored :
    (r6 r15 : Option (List ℕ)) (o : Outcome) (path : Text) (fs : FileSystem) (pair : Text × Text)
    → stored_creds fs path ≡ some pair
    → ensure_creds r6 r15 o path fs ≡ (fs, ok pair)
unfolding ensure_creds
ensure_creds-stored r6 r15 o path fs pair h = rw (h, ensure_creds)

-- A call that succeeds leaves its pair stored.
pub stored-ensure_creds :
    (b6 b15 : List ℕ) (o : Outcome) (path : Text) (fs fs' : FileSystem) (pair : Text × Text)
    → length b15 ≡ 15
    → ensure_creds (some b6) (some b15) o path fs ≡ (fs', ok pair)
    → stored_creds fs' path ≡ some pair
unfolding ensure_creds
stored-ensure_creds b6 b15 o path fs fs' pair len h = elim (Option-cases (stored_creds fs path)) [
  | inl missing ↦
      (fresh_creds-stored b6 b15 o path fs fs' pair len
        (sym (rw (missing, ensure_creds) refl) ∙ h)).0
  | inr (old, found) ↦
      let kept = sym (ensure_creds-stored (some b6) (some b15) o path fs old found) ∙ h in
      let files : fs ≡ fs' = ap (λ (t : FileSystem × Result CredsError (Text × Text)). t.0) kept in
      let result = ap (λ (t : FileSystem × Result CredsError (Text × Text)). t.1) kept in
      let same : old ≡ pair = cc result in
      subst (λ (t : FileSystem). stored_creds t path ≡ some pair) files (found ∙ ap some same)
]

-- If a call of EnsureCreds that has random bytes for its two tokens, 15 of them for the
-- password, returns a pair, then a later call on the files that it left returns the same pair
-- and leaves the files alone, whatever randomness and disk it meets.
pub ensure_creds_stable :
    (b6 b15 : List ℕ) (o : Outcome) (path : Text) (fs fs' : FileSystem) (pair : Text × Text)
    (r6 r15 : Option (List ℕ)) (o' : Outcome)
    → length b15 ≡ 15
    → ensure_creds (some b6) (some b15) o path fs ≡ (fs', ok pair)
    → ensure_creds r6 r15 o' path fs' ≡ (fs', ok pair)
ensure_creds_stable b6 b15 o path fs fs' pair r6 r15 o' len h =
    ensure_creds-stored r6 r15 o' path fs' pair
      (stored-ensure_creds b6 b15 o path fs fs' pair len h)
