-- ===== src/Setup/Dirs.antt =====
-- Where RuntimeDir puts the volatile files.
use openconnect_ubuntu_touch.Common.{
  ◌≡◌, refl, sym, ap, ◌∙◌, true, false, [], ◌∷◌, Bool-cases, inl, inr,
}
use openconnect_ubuntu_touch.Common.Text.{
  Text, codes, text_eq, text_eq_sound, text_eq_refl, is_empty,
}
use openconnect_ubuntu_touch.FilePath.{join, base}
use openconnect_ubuntu_touch.FilePath.Names.{IsName, last_name-join, base_of_last_name}
use openconnect_ubuntu_touch.Params.Env.{Environment}
use openconnect_ubuntu_touch.Setup.{runtime_dir}

runtime_dir_plain :
    (e : Environment) (pkg fallback : Text)
    → is_empty (e (codes "XDG_RUNTIME_DIR")) ≡ false
    → IsName pkg
    → base (runtime_dir e pkg fallback) ≡ pkg
unfolding runtime_dir
runtime_dir_plain e pkg fallback given name =
    let d = e (codes "XDG_RUNTIME_DIR") in
    elim (Bool-cases (text_eq (base d) pkg)) [
      | inl there ↦ rw (given, there) (text_eq_sound (base d) pkg there)
      | inr other ↦
          rw (given, other)
            (base_of_last_name (join (d ∷ pkg ∷ [])) pkg name (last_name-join d pkg name))
    ]

runtime_dir_kept :
    (e : Environment) (pkg fallback : Text)
    → IsName pkg
    → base (e (codes "XDG_RUNTIME_DIR")) ≡ pkg
    → runtime_dir e pkg fallback ≡ e (codes "XDG_RUNTIME_DIR")
unfolding runtime_dir base text_eq
runtime_dir_kept e pkg fallback name h =
    let there : text_eq (base (e (codes "XDG_RUNTIME_DIR"))) pkg ≡ true = rw h (text_eq_refl pkg) in
    rw (base_nonempty (e (codes "XDG_RUNTIME_DIR")) h, there) refl
  where
    base_nonempty : (d : Text) → base d ≡ pkg → is_empty d ≡ false
    base_nonempty [] b =
        absurd (cc (sym name.not_dot ∙ ap (λ (t : Text). text_eq t (codes ".")) (sym b)))
    base_nonempty (c ∷ d) b = refl

-- With XDG_RUNTIME_DIR set, and a package whose name is one part of a path, RuntimeDir gives a directory
-- named after the package. If XDG_RUNTIME_DIR is that directory itself, RuntimeDir gives it back: the
-- name is not appended twice.
pub runtime_dir_settled :
    (e inner : Environment) (pkg fallback : Text)
    → is_empty (e (codes "XDG_RUNTIME_DIR")) ≡ false
    → IsName pkg
    → inner (codes "XDG_RUNTIME_DIR") ≡ runtime_dir e pkg fallback
    → (base (runtime_dir e pkg fallback) ≡ pkg)
      × (runtime_dir inner pkg fallback ≡ runtime_dir e pkg fallback)
runtime_dir_settled e inner pkg fallback given name same =
    let named = runtime_dir_plain e pkg fallback given name in
    (named, runtime_dir_kept inner pkg fallback name (ap base same ∙ named) ∙ same)
