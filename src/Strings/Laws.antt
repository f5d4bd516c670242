-- ===== src/Strings/Laws.antt =====
-- Fields of words with single spaces between them.
use openconnect_ubuntu_touch.Common.{
  ◌≡◌, refl, ap, ◌∙◌, false, [], ◌∷◌, ◌++◌, All, append_assoc, append-nil,
}
use openconnect_ubuntu_touch.Common.Text.{Text, is_empty}
use openconnect_ubuntu_touch.Strings.{is_space, flush, fields_loop, fields}

-- A word behind the runes of the field in progress, and a space behind it.
fields_loop-word :
    (w s cur : Text)
    → All (λ c. is_space c ≡ false) w
    → fields_loop cur (w ++ b' ' ∷ s) ≡ flush (cur ++ w) (fields_loop [] s)
unfolding fields_loop
fields_loop-word [] s cur h = rw append-nil (unfold is_space in refl)
fields_loop-word (c ∷ w) s cur (hc, hw) =
    rw (fields_loop, hc)
      (fields_loop-word w s (cur ++ c ∷ []) hw
        ∙ ap (λ (t : Text). flush t (fields_loop [] s)) (append_assoc cur (c ∷ []) w))

fields_loop-last :
    (w cur : Text) → All (λ c. is_space c ≡ false) w → fields_loop cur w ≡ flush (cur ++ w) []
unfolding fields_loop
fields_loop-last [] cur h = rw append-nil
fields_loop-last (c ∷ w) cur (hc, hw) =
    rw (fields_loop, hc)
      (fields_loop-last w (cur ++ c ∷ []) hw
        ∙ ap (λ (t : Text). flush t []) (append_assoc cur (c ∷ []) w))

-- The first field of a text, where it is a word with a space behind it.
pub fields-cons :
    (w s : Text)
    → is_empty w ≡ false
    → All (λ d. is_space d ≡ false) w
    → fields (w ++ b' ' ∷ s) ≡ w ∷ fields s
unfolding fields flush
fields-cons [] s e h = cc
fields-cons (c ∷ w) s e h = fields_loop-word (c ∷ w) s [] h

pub fields-word :
    (w : Text) → is_empty w ≡ false → All (λ d. is_space d ≡ false) w → fields w ≡ w ∷ []
unfolding fields flush
fields-word [] e h = cc
fields-word (c ∷ w) e h = fields_loop-last (c ∷ w) [] h
