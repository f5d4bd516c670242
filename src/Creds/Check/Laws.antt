-- ===== src/Creds/Check/Laws.antt =====
-- What runAuthCheck accepts.
use openconnect_ubuntu_touch.Common.{
  ℕ, ◌≡◌, ◌↔◌, refl, sym, ap, ◌∙◌, false, some, List, [], ◌∷◌, ok, ◌>>=◌, >>=-eq-ok, arith, length,
}
use openconnect_ubuntu_touch.Common.Text.{Text, text_eq_sound, text_eq_refl, is_empty}
use openconnect_ubuntu_touch.Files.{FileSystem, Outcome}
use openconnect_ubuntu_touch.Creds.{stored_creds, ensure_creds}
use openconnect_ubuntu_touch.Creds.Stored.{stored-ensure_creds}
use openconnect_ubuntu_touch.Creds.Check.{env_or, read_creds, compare_creds, run_auth_check}

compare_creds_iff : (want got : Text × Text) → (compare_creds want got ≡ ok tt) ↔ (want ≡ got)
unfolding compare_creds
compare_creds_iff want got = (
  λ h. ground (arith, text_eq_sound want.0 got.0, text_eq_sound want.1 got.1),
  λ e. rw (← e, text_eq_refl want.0, text_eq_refl want.1, compare_creds),
)

-- With a credentials file that is well formed, the check passes exactly when the file that openvpn
-- passes holds the same username and password.
pub run_auth_check_iff :
    (fs : FileSystem) (creds_env file : Text) (rest : List Text) (want : Text × Text)
    → read_creds fs (env_or creds_env []) ≡ ok want
    → (run_auth_check fs creds_env (file ∷ rest) ≡ ok tt) ↔ (read_creds fs file ≡ ok want)
unfolding run_auth_check
run_auth_check_iff fs creds_env file rest want h = (accepted, matching)
  where
    accepted : run_auth_check fs creds_env (file ∷ rest) ≡ ok tt → read_creds fs file ≡ ok want
    accepted passed =
        let (w, stored, next) = >>=-eq-ok (read_creds fs (env_or creds_env [])) _ passed in
        let (g, given, same) = >>=-eq-ok (read_creds fs file) _ next in
        let first : w ≡ want = cc (stored, h) in
        let second : w ≡ g = (compare_creds_iff w g).0 same in given ∙ ap ok (sym second ∙ first)

    matching : read_creds fs file ≡ ok want → run_auth_check fs creds_env (file ∷ rest) ≡ ok tt
    matching given = rw (h, given, ◌>>=◌) ((compare_creds_iff want want).1 refl)

-- A stored pair is what readCreds returns.
pub stored-read_creds :
    (fs : FileSystem) (path : Text) (pair : Text × Text)
    → is_empty path ≡ false
    → stored_creds fs path ≡ some pair
    → read_creds fs path ≡ ok pair
unfolding stored_creds read_creds
stored-read_creds fs path pair named h = ground (arith, named, h)

-- The pair that EnsureCreds returned, with random bytes for its two tokens and 15 of them for
-- the password, passes the check: if OCBRIDGE_CREDS names the credentials file, and the file
-- that openvpn passes has a name and holds the pair in its first two lines, runAuthCheck returns
-- nil.
run_auth_check-ensure_creds :
    (b6 b15 : List ℕ) (o : Outcome) (creds_env file : Text) (fs fs' : FileSystem)
    (pair : Text × Text)
    → length b15 ≡ 15
    → is_empty (env_or creds_env []) ≡ false
    → is_empty file ≡ false
    → ensure_creds (some b6) (some b15) o (env_or creds_env []) fs ≡ (fs', ok pair)
    → stored_creds fs' file ≡ some pair
    → run_auth_check fs' creds_env (file ∷ []) ≡ ok tt
run_auth_check-ensure_creds b6 b15 o creds_env file fs fs' pair len named given made typed =
    (run_auth_check_iff fs' creds_env file [] pair (
        stored-read_creds fs' (env_or creds_env []) pair named
          (stored-ensure_creds b6 b15 o (env_or creds_env []) fs fs' pair len made))).1
      (stored-read_creds fs' file pair given typed)
