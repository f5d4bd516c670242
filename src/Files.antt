-- ===== src/Files.antt =====
-- The files that the program keeps, and writeFile of src/ocbridge/pki.go.
pub mod Atomic
pub mod Named
pub mod Contents
use openconnect_ubuntu_touch.Common.{ℕ, Bool, true, false, Option, none, some, ◌++◌, if◌then◌else◌}
use openconnect_ubuntu_touch.Common.Text.{Text, codes, text_eq}

pub record File : Type 0 where
  pub content : Text
  pub mode : ℕ

-- What each path holds; none where there is no file.
abbrev pub FileSystem : Type 0
FileSystem = Text → Option File

-- What os.ReadFile gives; any error is none.
abbrev pub read_file : FileSystem → Text → Option Text
read_file fs path = elim (fs path) [ none ↦ none | some f ↦ some f.content ]

abbrev pub put : FileSystem → Text → Option File → FileSystem
put fs path f q = if text_eq path q then f else fs q

-- What the system does with a write: the temporary file cannot be opened, or os.WriteFile fails later
-- and leaves some data behind, or the rename fails, or all succeeds.
pub data Outcome : Type 0 where
  open_fails : Outcome
  write_fails : Text → Outcome
  rename_fails : Outcome
  written : Outcome

abbrev pub tmp_of : Text → Text
tmp_of path = path ++ codes ".tmp"

-- os.WriteFile gives a new file its mode; a file that is there keeps the one it has.
unfoldable pub os_write : Text → Text → ℕ → FileSystem → FileSystem
os_write path content perm fs =
    put fs path
      (some (record { content = content; mode = elim (fs path) [ none ↦ perm | some f ↦ f.mode ] }))

unfoldable pub os_rename : Text → Text → FileSystem → FileSystem
os_rename from to fs = put (put fs to (fs from)) from none

-- `writeFile(path, data, perm)`: the files after it, and whether it returned nil.
unfoldable pub write_file : Outcome → Text → Text → ℕ → FileSystem → FileSystem × Bool
unfolding os_write os_rename
write_file open_fails path content perm fs = (fs, false)
write_file (write_fails part) path content perm fs = (os_write (tmp_of path) part perm fs, false)
write_file rename_fails path content perm fs = (os_write (tmp_of path) content perm fs, false)
write_file written path content perm fs =
    (os_rename (tmp_of path) path (os_write (tmp_of path) content perm fs), true)
