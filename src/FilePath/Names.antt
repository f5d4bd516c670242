-- ===== src/FilePath/Names.antt =====
-- The name of a file below a directory: what Join puts last.
use openconnect_ubuntu_touch.Common.{
  ℕ, ◌≡◌, ◌≢◌, refl, sym, ap, ◌∙◌, Bool, true, false, List, [], ◌∷◌, ◌++◌, ◌==◌, if◌then◌else◌, All,
  arith, append_assoc, append-nil, Bool-cases, inl, inr,
}
use openconnect_ubuntu_touch.Common.Text.{Text, codes, text_eq, is_empty}
use openconnect_ubuntu_touch.FilePath.{
  slash, components, visit, visit_all, path_of, or_dot, clean, join, after_slash, last_name,
  strip_slashes, base,
}

-- A part of a path with no slash in it.
abbrev pub IsPart : Text → Type 0
IsPart = All (λ c. c ≢ slash)

-- A file's name: one part, which Clean keeps.
pub record IsName (n : Text) : Type 0 where
  pub part : IsPart n
  pub nonempty : is_empty n ≡ false
  pub not_dot : text_eq n (codes ".") ≡ false
  pub not_dots : text_eq n (codes "..") ≡ false

not_slash : (c : ℕ) → c ≢ slash → (c == slash) ≡ false
not_slash c h = ground arith

components-part : (n : Text) → IsPart n → components n ≡ n ∷ []
unfolding components
components-part [] h = refl
components-part (c ∷ n) (hc, hn) = rw (not_slash c hc, components-part n hn)

components-cons : (s : Text) → (w : Text) × (ws : List Text) × (components s ≡ w ∷ ws)
unfolding components
components-cons [] = ([], [], refl)
components-cons (c ∷ s) =
    let (w, ws, e) = components-cons s in
    elim (Bool-cases (c == slash)) [
      | inl is ↦ ([], components s, rw is)
      | inr other ↦ (c ∷ w, ws, rw (other, e))
    ]

components-append : (s t : Text) → components (s ++ slash ∷ t) ≡ components s ++ components t
unfolding components
components-append [] t = refl
components-append (c ∷ s) t =
    let (w, ws, e) = components-cons s in
    elim (Bool-cases (c == slash)) [
      | inl is ↦ rw (is, components-append s t)
      | inr other ↦ rw (other, components-append s t, e)
    ]

visit_all-append :
    (r : Bool) (parts ws vs : List Text)
    → visit_all r parts (ws ++ vs) ≡ visit_all r (visit_all r parts ws) vs
unfolding visit_all
visit_all-append r parts [] vs = refl
visit_all-append r parts (w ∷ ws) vs = visit_all-append r (visit r parts w) ws vs

visit-name : (r : Bool) (parts : List Text) (n : Text) → IsName n → visit r parts n ≡ n ∷ parts
unfolding visit
visit-name r parts n h = rw (h.nonempty, h.not_dot, h.not_dots)

visit_all-name :
    (r : Bool) (parts : List Text) (n : Text) → IsName n → visit_all r parts (n ∷ []) ≡ n ∷ parts
unfolding visit_all
visit_all-name r parts n h = visit-name r parts n h

-- The text in front of the last part.
stem : Text → List Text → Text
stem root [] = root
stem root (v ∷ parts) = path_of root (v ∷ parts) ++ slash ∷ []

path_of-stem :
    (root : Text) (parts : List Text) (n : Text) → path_of root (n ∷ parts) ≡ stem root parts ++ n
unfolding path_of stem
path_of-stem root [] n = refl
path_of-stem root (v ∷ parts) n = sym (append_assoc (path_of root (v ∷ parts)) (slash ∷ []) n)

after_slash-part : (cur n : Text) → IsPart n → after_slash cur n ≡ cur ++ n
unfolding after_slash
after_slash-part cur [] h = sym (append-nil cur)
after_slash-part cur (c ∷ n) (hc, hn) =
    rw (not_slash c hc, after_slash)
      (after_slash-part (cur ++ c ∷ []) n hn ∙ append_assoc cur (c ∷ []) n)

after_slash-append : (cur s t : Text) → after_slash cur (s ++ slash ∷ t) ≡ after_slash [] t
unfolding after_slash
after_slash-append cur [] t = refl
after_slash-append cur (c ∷ s) t = elim (Bool-cases (c == slash)) [
  | inl is ↦ rw (is, after_slash) (after_slash-append [] s t)
  | inr other ↦ rw (other, after_slash) (after_slash-append (cur ++ c ∷ []) s t)
]

-- What precedes the last part is a root or ends in a slash.
last_name-stem :
    (rooted : Bool) (parts : List Text) (n : Text)
    → IsPart n
    → last_name (stem (if rooted then slash ∷ [] else []) parts ++ n) ≡ n
unfolding last_name stem
last_name-stem true [] n h = after_slash-append [] [] n ∙ after_slash-part [] n h
last_name-stem false [] n h = after_slash-part [] n h
last_name-stem rooted (v ∷ parts) n h =
    let root = if rooted then slash ∷ [] else [] in
    ap last_name (append_assoc (path_of root (v ∷ parts)) (slash ∷ []) n)
    ∙ after_slash-append [] (path_of root (v ∷ parts)) n
    ∙ after_slash-part [] n h

or_dot-nonempty : (s n : Text) → is_empty n ≡ false → or_dot (s ++ n) ≡ s ++ n
or_dot-nonempty [] [] h = cc
or_dot-nonempty [] (c ∷ n) h = refl
or_dot-nonempty (c ∷ s) n h = refl

clean_under :
    (rooted : Bool) (d n : Text)
    → IsName n
    → last_name (
        or_dot (
          path_of
            (if rooted then slash ∷ [] else [])
            (visit_all rooted [] (components (d ++ slash ∷ n)))))
      ≡ n
clean_under rooted d n h =
    let root = if rooted then slash ∷ [] else [] in
    let before = visit_all rooted [] (components d) in
    let parts : visit_all rooted [] (components (d ++ slash ∷ n)) ≡ n ∷ before =
      ap (visit_all rooted []) (
        components-append d n
        ∙ ap (λ (t : List Text). components d ++ t) (components-part n h.part))
      ∙ visit_all-append rooted [] (components d) (n ∷ [])
      ∙ visit_all-name rooted before n h in
    ap (λ (t : List Text). last_name (or_dot (path_of root t))) parts
    ∙ ap (λ (t : Text). last_name (or_dot t)) (path_of-stem root before n)
    ∙ ap last_name (or_dot-nonempty (stem root before) n h.nonempty)
    ∙ last_name-stem rooted before n h.part

last_name-clean : (d n : Text) → IsName n → last_name (clean (d ++ slash ∷ n)) ≡ n
unfolding clean
last_name-clean [] n h = clean_under true [] n h
last_name-clean (c ∷ d) n h = clean_under (c == slash) (c ∷ d) n h

clean-name : (n : Text) → IsName n → last_name (clean n) ≡ n
unfolding clean path_of last_name after_slash
clean-name [] h = cc (h.nonempty)
clean-name (c ∷ n) h =
    let relative = not_slash c h.part.0 in
    let parts : visit_all false [] (components (c ∷ n)) ≡ (c ∷ n) ∷ [] =
      ap (visit_all false []) (components-part (c ∷ n) h.part)
      ∙ visit_all-name false [] (c ∷ n) h in
    rw (relative, parts) (after_slash-part [] (c ∷ n) h.part)

-- The last part of a path that Join makes of a directory and a name is the name.
pub last_name-join : (d n : Text) → IsName n → last_name (join (d ∷ n ∷ [])) ≡ n
unfolding join
last_name-join [] n h = rw h.nonempty (clean-name n h)
last_name-join (c ∷ d) n h = last_name-clean (c ∷ d) n h

after_slash-tail : (cur s t : Text) → IsPart t → after_slash cur (s ++ t) ≡ after_slash cur s ++ t
unfolding after_slash
after_slash-tail cur [] t h = after_slash-part cur t h
after_slash-tail cur (c ∷ s) t h = elim (Bool-cases (c == slash)) [
  | inl is ↦ rw (is, after_slash) (after_slash-tail [] s t h)
  | inr other ↦ rw (other, after_slash) (after_slash-tail (cur ++ c ∷ []) s t h)
]

-- A suffix with no slash in it belongs to the last part.
pub last_name-append : (s t : Text) → IsPart t → last_name (s ++ t) ≡ last_name s ++ t
unfolding last_name
last_name-append s t h = after_slash-tail [] s t h

-- A text is what precedes its last part, and the last part.
after_slash-split : (cur s : Text) → (before : Text) × (cur ++ s ≡ before ++ after_slash cur s)
unfolding after_slash
after_slash-split cur [] = ([], append-nil cur)
after_slash-split cur (c ∷ s) = elim (Bool-cases (c == slash)) [
  | inl is ↦
      let (before, e) = after_slash-split [] s in
      (
        cur ++ c ∷ before,
        rw (is, after_slash)
            (ap (λ (t : Text). cur ++ c ∷ t) e
              ∙ sym (append_assoc cur (c ∷ before) (after_slash [] s))),
      )
  | inr other ↦
      let (before, e) = after_slash-split (cur ++ c ∷ []) s in
      (before, rw (other, after_slash) (sym (append_assoc cur (c ∷ []) s) ∙ e))
]

strip_slashes-part : (n : Text) → IsPart n → strip_slashes n ≡ n
unfolding strip_slashes
strip_slashes-part [] h = refl
strip_slashes-part (c ∷ []) (hc, h) = rw (not_slash c hc) refl
strip_slashes-part (c ∷ d ∷ n) (hc, h) = rw (strip_slashes-part (d ∷ n) h) refl

-- A text that ends in a part that is not empty has no slash at its end.
strip_slashes-append :
    (s n : Text) → IsPart n → is_empty n ≡ false → strip_slashes (s ++ n) ≡ s ++ n
unfolding strip_slashes
strip_slashes-append [] n h full = strip_slashes-part n h
strip_slashes-append (c ∷ s) n h full =
    rw (strip_slashes-append s n h full, append_nonempty s n full) refl
  where
    append_nonempty : (s n : Text) → is_empty n ≡ false → is_empty (s ++ n) ≡ false
    append_nonempty [] n h = h
    append_nonempty (c ∷ s) n h = refl

-- Base of a path whose last part is a name.
pub base_of_last_name : (s n : Text) → IsName n → last_name s ≡ n → base s ≡ n
unfolding base last_name after_slash
base_of_last_name [] n h e = absurd (cc (h.nonempty))
base_of_last_name (c ∷ s) n h e =
    let (before, split) = after_slash-split [] (c ∷ s) in
    let parts : c ∷ s ≡ before ++ n = split ∙ ap (λ (t : Text). before ++ t) e in
    let kept : strip_slashes (c ∷ s) ≡ c ∷ s =
      ap strip_slashes parts ∙ strip_slashes-append before n h.part h.nonempty ∙ sym parts in
    rw (kept, e, h.nonempty) refl
