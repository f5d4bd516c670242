-- ===== src/Creds/Check.antt =====
-- readCreds and runAuthCheck of src/ocbridge/main.go.
pub mod Laws
use openconnect_ubuntu_touch.Common.{
  ℕ, Bool, true, false, ◌||◌, not, Option, none, some, List, [], ◌∷◌, Result, ok, err, ◌>>=◌,
  if◌then◌else◌, ◌==◌,
}
use openconnect_ubuntu_touch.Common.Text.{Text, codes, text_eq, is_empty}
use openconnect_ubuntu_touch.Strings.{trim_space}
use openconnect_ubuntu_touch.Lines.{split_lines}
use openconnect_ubuntu_touch.Files.{FileSystem}
use openconnect_ubuntu_touch.Files.{read_file}
use openconnect_ubuntu_touch.Creds.{two_lines}

-- The errors of readCreds and runAuthCheck.
pub data AuthError : Type 0 where
  no_argument : AuthError
  no_file_given : AuthError
  unreadable : Text → AuthError
  malformed : Text → AuthError
  authentication_failed : AuthError

-- `envOr(k, def)`, from what os.Getenv gives.
unfoldable pub env_or : Text → Text → Text
env_or value def = let v = trim_space value in if not (is_empty v) then v else def

-- `readCreds(path)`
unfoldable pub read_creds : FileSystem → Text → Result AuthError (Text × Text)
read_creds fs path = if is_empty path then err no_file_given else elim (read_file fs path) [
  | none ↦ err (unreadable path)
  | some s ↦ elim (two_lines (split_lines s)) [ none ↦ err (malformed path) | some pair ↦ ok pair ]
]

-- `subtle.ConstantTimeCompare`: 1 for equal texts, 0 for others.
unfoldable pub constant_time_compare : Text → Text → ℕ
constant_time_compare x y = if text_eq x y then 1 else 0

unfoldable pub compare_creds : Text × Text → Text × Text → Result AuthError (Unit {0})
unfolding constant_time_compare
compare_creds want got =
    let user_ok = constant_time_compare want.0 got.0 == 1 in
    let pass_ok = constant_time_compare want.1 got.1 == 1 in
    if not user_ok || not pass_ok then err authentication_failed else ok tt

-- `runAuthCheck(args)`, with the value of OCBRIDGE_CREDS.
unfoldable pub run_auth_check : FileSystem → Text → List Text → Result AuthError (Unit {0})
run_auth_check fs creds_env [] = err no_argument
run_auth_check fs creds_env (file ∷ rest) = do
  want ← read_creds fs (env_or creds_env [])
  got ← read_creds fs file
  compare_creds want got
