-- ===== src/Samples/Creds.antt =====
-- Credentials made next to the file that openvpn wrote, and checked.
use openconnect_ubuntu_touch.Common.{
  ℕ, ◌≡◌, ◌≢◌, ◌↔◌, refl, true, false, none, some, ok, List, [], ◌∷◌, All, length, replicate,
  if◌then◌else◌,
}
use openconnect_ubuntu_touch.Common.Text.{Text, codes, text_eq}
use openconnect_ubuntu_touch.Strings.{trim_space}
use openconnect_ubuntu_touch.Lines.{split_lines}
use openconnect_ubuntu_touch.Files.{
  FileSystem, open_fails, rename_fails, written, tmp_of, os_write, os_rename, write_file,
}
use openconnect_ubuntu_touch.Files.Atomic.{mode_for, write_file_atomic}
use openconnect_ubuntu_touch.Creds.{
  token, creds_text, two_lines, stored_creds, save_creds, fresh_creds, ensure_creds,
}
use openconnect_ubuntu_touch.Creds.Token.{IsClear, token_lem}
use openconnect_ubuntu_touch.Creds.Stored.{ensure_creds_stable}
use openconnect_ubuntu_touch.Creds.Check.{env_or, read_creds, run_auth_check}
use openconnect_ubuntu_touch.Creds.Check.Laws.{run_auth_check_iff}

abbrev creds_path : Text
creds_path = codes "creds"

abbrev given_path : Text
given_path = codes "given"

abbrev user_bytes : List ℕ
user_bytes = 0 ∷ 37 ∷ 255 ∷ 64 ∷ 9 ∷ 11 ∷ []

abbrev pass_bytes : List ℕ
pass_bytes = replicate 15 23

abbrev pair : Text × Text
pair = (codes "ubt-af9ajm", codes "zzzzzzzzzzzzzzz")

-- What openvpn wrote, line by line.
abbrev before : FileSystem
before q =
    if text_eq given_path q
    then some (record { content = creds_text pair.0 pair.1; mode = 0o600 })
    else none

abbrev after : FileSystem
after = (ensure_creds (some user_bytes) (some pass_bytes) written creds_path before).0

made : ensure_creds (some user_bytes) (some pass_bytes) written creds_path before ≡ (after, ok pair)
unfolding ensure_creds fresh_creds save_creds write_file os_write os_rename token stored_creds
    two_lines split_lines text_eq
made = refl

given : stored_creds after given_path ≡ some pair
unfolding ensure_creds fresh_creds save_creds write_file os_write os_rename token stored_creds
    two_lines split_lines text_eq
given = refl

ensure_creds_stable_example : ensure_creds none none open_fails creds_path after ≡ (after, ok pair)
ensure_creds_stable_example =
    ensure_creds_stable user_bytes pass_bytes written creds_path before after pair none none
      open_fails refl made

given_read : read_creds after given_path ≡ ok pair
unfolding ensure_creds fresh_creds save_creds write_file os_write os_rename token stored_creds
    two_lines split_lines text_eq read_creds
given_read = refl

stored_read : read_creds after (env_or creds_path []) ≡ ok pair
unfolding ensure_creds fresh_creds save_creds write_file os_write os_rename token stored_creds
    two_lines split_lines text_eq read_creds env_or trim_space
stored_read = refl

run_auth_check_iff_example :
    (run_auth_check after creds_path (given_path ∷ []) ≡ ok tt)
    ↔ (read_creds after given_path ≡ ok pair)
run_auth_check_iff_example = run_auth_check_iff after creds_path given_path [] pair stored_read

token_lem_example :
    (t : Text) × (token (some user_bytes) ≡ some t) × (length t ≡ length user_bytes) × All IsClear t
token_lem_example = token_lem user_bytes

write_file_atomic_example :
    ((write_file rename_fails creds_path (codes "new") 0o600 after).1 ≡ true
      → (write_file rename_fails creds_path (codes "new") 0o600 after).0 creds_path
        ≡ some (record { content = codes "new"; mode = mode_for after creds_path 0o600 }))
    × ((write_file rename_fails creds_path (codes "new") 0o600 after).1 ≡ false
        → (write_file rename_fails creds_path (codes "new") 0o600 after).0 creds_path
          ≡ after creds_path)
    × ((q : Text)
        → q ≢ creds_path
        → q ≢ tmp_of creds_path
        → (write_file rename_fails creds_path (codes "new") 0o600 after).0 q ≡ after q)
write_file_atomic_example = write_file_atomic rename_fails creds_path (codes "new") 0o600 after
