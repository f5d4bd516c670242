-- ===== src/Lines/Laws.antt =====
-- splitLines on a text that is rendered from lines.
use openconnect_ubuntu_touch.Common.{
  false, List, [], ◌∷◌, ◌++◌, ◌==◌, ◌≡◌, refl, ap, ◌∙◌, arith, All, append_assoc, append-nil,
}
use openconnect_ubuntu_touch.Common.Text.{Text}
use openconnect_ubuntu_touch.Lines.{
  newline, carriage_return, split_from, split_lines, render, IsLine,
}

split_from-line :
    (l s cur : Text) → IsLine l → split_from cur (l ++ newline ∷ s) ≡ (cur ++ l) ∷ split_from [] s
unfolding split_from
split_from-line [] s cur h = rw append-nil
split_from-line (c ∷ l) s cur ((not_newline, not_return), h) =
    let e1 : (c == newline) ≡ false = ground arith in
    let e2 : (c == carriage_return) ≡ false = ground arith in
    rw (split_from, e1, e2)
      (split_from-line l s (cur ++ c ∷ []) h
        ∙ ap (λ (t : Text). t ∷ split_from [] s) (append_assoc cur (c ∷ []) l))

-- Where no line has a newline or carriage return in it, splitLines of the lines with a newline
-- behind each gives back the lines, the empty ones included.
pub split_lines-render : (ls : List Text) → All IsLine ls → split_lines (render ls) ≡ ls
unfolding split_lines render
split_lines-render [] h = refl
split_lines-render (l ∷ ls) (hl, hs) =
    split_from-line l (render ls) [] hl ∙ ap (λ (t : List Text). l ∷ t) (split_lines-render ls hs)
