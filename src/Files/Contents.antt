-- ===== src/Files/Contents.antt =====
-- The text of a file behind a write.
use openconnect_ubuntu_touch.Common.{
  ℕ, ◌≡◌, refl, sym, ap, ◌∙◌, Bool, true, false, Option, none, some, ◌++◌, if◌then◌else◌,
  Bool-cases, inl, inr,
}
use openconnect_ubuntu_touch.Common.Text.{Text, codes, text_eq}
use openconnect_ubuntu_touch.FilePath.{last_name}
use openconnect_ubuntu_touch.Files.{
  File, FileSystem, read_file, Outcome, open_fails, write_fails, rename_fails, written, write_file,
}
use openconnect_ubuntu_touch.Files.Atomic.{write_file_atomic}
use openconnect_ubuntu_touch.Files.Named.{write_file_elsewhere}

-- Whether a write goes through.
abbrev pub succeeds : Outcome → Bool
succeeds open_fails = false
succeeds (write_fails part) = false
succeeds rename_fails = false
succeeds written = true

pub write_file-succeeds :
    (o : Outcome) (path content : Text) (perm : ℕ) (fs : FileSystem)
    → (write_file o path content perm fs).1 ≡ succeeds o
unfolding write_file
write_file-succeeds open_fails path content perm fs = refl
write_file-succeeds (write_fails part) path content perm fs = refl
write_file-succeeds rename_fails path content perm fs = refl
write_file-succeeds written path content perm fs = refl

abbrev pub text_of : Option File → Option Text
text_of none = none
text_of (some f) = some f.content

pub read_file-text_of : (fs : FileSystem) (path : Text) → read_file fs path ≡ text_of (fs path)
read_file-text_of fs path = cases (fs path)
  where
    cases : (f : Option File) → (elim f [ none ↦ none | some g ↦ some g.content ]) ≡ text_of f
    cases none = refl
    cases (some f) = refl

pub read_file-write_file :
    (o : Outcome) (path content : Text) (perm : ℕ) (fs : FileSystem)
    → read_file (write_file o path content perm fs).0 path
      ≡ (if succeeds o then some content else read_file fs path)
read_file-write_file o path content perm fs =
    let (new, kept, others) = write_file_atomic o path content perm fs in
    let done = write_file-succeeds o path content perm fs in
    elim (Bool-cases (succeeds o)) [
      | inl good ↦
          read_file-text_of (write_file o path content perm fs).0 path
          ∙ ap text_of (new (done ∙ good))
          ∙ sym (ap (λ (b : Bool). if b then some content else read_file fs path) good)
      | inr bad ↦
          read_file-text_of (write_file o path content perm fs).0 path
          ∙ ap text_of (kept (done ∙ bad))
          ∙ sym (read_file-text_of fs path)
          ∙ sym (ap (λ (b : Bool). if b then some content else read_file fs path) bad)
    ]

-- The text of a file of another name.
pub read_file_elsewhere :
    (o : Outcome) (p content : Text) (perm : ℕ) (fs : FileSystem) (q n m : Text)
    → last_name p ≡ n
    → last_name q ≡ m
    → text_eq m n ≡ false
    → text_eq m (n ++ codes ".tmp") ≡ false
    → read_file (write_file o p content perm fs).0 q ≡ read_file fs q
read_file_elsewhere o p content perm fs q n m hp hq other not_tmp =
    read_file-text_of (write_file o p content perm fs).0 q
    ∙ ap text_of (write_file_elsewhere o p content perm fs q n m hp hq other not_tmp)
    ∙ sym (read_file-text_of fs q)
