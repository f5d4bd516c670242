-- ===== src/Files/Atomic.antt =====
-- What writeFile leaves at its path and at the others.
use openconnect_ubuntu_touch.Common.{
  ℕ, ◌≡◌, ◌≢◌, refl, sym, ap, inl, inr, true, false, none, some, arith, length, length-append,
  Bool-cases,
}
use openconnect_ubuntu_touch.Common.Text.{Text, codes, text_eq, text_eq_refl, text_eq_sound}
use openconnect_ubuntu_touch.Files.{
  FileSystem, Outcome, open_fails, write_fails, rename_fails, written, tmp_of, write_file,
}

tmp_other : (path : Text) → text_eq (tmp_of path) path ≡ false
tmp_other path = elim (Bool-cases (text_eq (tmp_of path) path)) [
  | inl same ↦ absurd (
      omega (
        arith,
        ap length (text_eq_sound (tmp_of path) path same),
        length-append path (codes ".tmp"),
      ))
  | inr other ↦ other
]

pub text_ne : (s t : Text) → s ≢ t → text_eq s t ≡ false
text_ne s t h = elim (Bool-cases (text_eq s t)) [
  | inl same ↦ absurd (h (text_eq_sound s t same))
  | inr other ↦ other
]

-- The mode that the temporary file gets.
abbrev pub mode_for : FileSystem → Text → ℕ → ℕ
mode_for fs path perm = elim (fs (tmp_of path)) [ none ↦ perm | some f ↦ f.mode ]

-- Whatever the system does, the path holds the whole new content if writeFile succeeded, and what it
-- held before if not; of the other files only the temporary one may change. The file has the asked
-- mode unless a temporary file was left from before.
pub write_file_atomic :
    (o : Outcome) (path content : Text) (perm : ℕ) (fs : FileSystem)
    → ((write_file o path content perm fs).1 ≡ true
        → (write_file o path content perm fs).0 path
          ≡ some (record { content = content; mode = mode_for fs path perm }))
      × ((write_file o path content perm fs).1 ≡ false
          → (write_file o path content perm fs).0 path ≡ fs path)
      × ((q : Text) → q ≢ path → q ≢ tmp_of path → (write_file o path content perm fs).0 q ≡ fs q)
unfolding write_file
write_file_atomic open_fails path content perm fs = (λ e. cc, λ e. refl, λ q n t. refl)
write_file_atomic (write_fails part) path content perm fs =
    (λ e. cc, λ e. rw (tmp_other path), λ q n t. rw (text_ne (tmp_of path) q (λ e. t (sym e))))
write_file_atomic rename_fails path content perm fs =
    (λ e. cc, λ e. rw (tmp_other path), λ q n t. rw (text_ne (tmp_of path) q (λ e. t (sym e))))
write_file_atomic written path content perm fs = (
  λ e. rw (tmp_other path, text_eq_refl path, text_eq_refl (tmp_of path)),
  λ e. cc,
  λ q n t. rw (text_ne (tmp_of path) q (λ e. t (sym e)), text_ne path q (λ e. n (sym e))),
)
