-- ===== src/Creds.antt =====
-- token and EnsureCreds of src/ocbridge/pki.go, readCreds and runAuthCheck of src/ocbridge/main.go.
pub mod Token
pub mod Check
pub mod Stored
use openconnect_ubuntu_touch.Common.{
  ℕ, ◌%◌, Bool, true, false, ◌||◌, not, Option, none, some, List, [], ◌∷◌, ◌++◌, map, Result, ok,
  err, ◌>>=◌, if◌then◌else◌, get_elem?, length, ◌==◌, ◌&&◌,
}
use openconnect_ubuntu_touch.Common.Text.{Text, codes, text_eq, is_empty}
use openconnect_ubuntu_touch.Lines.{newline, split_lines}
use openconnect_ubuntu_touch.Files.{read_file, File, FileSystem, Outcome, write_file}

abbrev pub alphabet : Text
alphabet = codes "abcdefghijkmnpqrstuvwxyz23456789"

-- The rune at an index below the alphabet's length.
abbrev pub rune_at : ℕ → ℕ
rune_at i = elim (get_elem? alphabet i) [ none ↦ 0 | some c ↦ c ]

-- `token(n)`, from the n bytes that rand.Read gives, or none.
unfoldable pub token : Option (List ℕ) → Option Text
token none = none
token (some bytes) = some (map (λ v. rune_at (v % length alphabet)) bytes)

-- The first two lines of a text, if neither is empty.
unfoldable pub two_lines : List Text → Option (Text × Text)
two_lines [] = none
two_lines (u ∷ []) = none
two_lines (u ∷ p ∷ rest) = if is_empty u || is_empty p then none else some (u, p)

pub data CredsError : Type 0 where
  no_randomness : CredsError
  not_written : CredsError

abbrev pub creds_text : Text → Text → Text
creds_text user pass = user ++ newline ∷ (pass ++ newline ∷ [])

-- The credentials, written to the file.
unfoldable pub save_creds :
    Text → Text → Outcome → Text → FileSystem → FileSystem × Result CredsError (Text × Text)
save_creds user pass o path fs =
    let (fs', done) = write_file o path (creds_text user pass) 0o600 fs in
    (fs', if done then ok (user, pass) else err not_written)

-- Fresh credentials.
unfoldable pub fresh_creds :
    Option (List ℕ)
    → Option (List ℕ)
    → Outcome
    → Text
    → FileSystem
    → FileSystem × Result CredsError (Text × Text)
fresh_creds r6 r15 o path fs = elim (token r6) [
  | none ↦ (fs, err no_randomness)
  | some t ↦ elim (token r15) [
    | none ↦ (fs, err no_randomness)
    | some pass ↦ save_creds (codes "ubt-" ++ t) pass o path fs
  ]
]

-- The credentials that a file holds.
unfoldable pub stored_creds : FileSystem → Text → Option (Text × Text)
stored_creds fs path = elim (read_file fs path) [ none ↦ none | some s ↦ two_lines (split_lines s) ]

-- `EnsureCreds(path)`: with the randomness of the two tokens and what the system does with the write.
unfoldable pub ensure_creds :
    Option (List ℕ)
    → Option (List ℕ)
    → Outcome
    → Text
    → FileSystem
    → FileSystem × Result CredsError (Text × Text)
ensure_creds r6 r15 o path fs = elim (stored_creds fs path) [
  | none ↦ fresh_creds r6 r15 o path fs
  | some pair ↦ (fs, ok pair)
]
