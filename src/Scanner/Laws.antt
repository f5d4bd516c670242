-- ===== src/Scanner/Laws.antt =====
-- The scanner on whole lines, and on a line that is too long for it.
use openconnect_ubuntu_touch.Common.{
  ℕ, ◌≤◌, ◌<◌, ◌≡◌, ◌≢◌, refl, ap, ◌∙◌, true, false, List, [], ◌∷◌, ◌++◌, length, length-append,
  All, ltb, ◌==◌, append-nil, append_assoc, arith, Bool-cases, inl, inr,
}
use openconnect_ubuntu_touch.Common.Text.{Text}
use openconnect_ubuntu_touch.Lines.{newline, render, IsLine}
use openconnect_ubuntu_touch.Scanner.{drop_return, scan_from, scan_lines}

abbrev pub IsUnbroken : Text → Type 0
IsUnbroken = All (λ c. c ≢ newline)

-- A line without an ending that fits the scanner's buffer.
abbrev pub IsShort : ℕ → Text → Type 0
IsShort limit l = IsLine l × (length l < limit)

drop_return-line : (l : Text) → IsLine l → drop_return l ≡ l
unfolding drop_return
drop_return-line [] h = refl
drop_return-line (c ∷ []) h = ground arith
drop_return-line (c ∷ d ∷ s) (hc, h) = ap (λ (t : Text). c ∷ t) (drop_return-line (d ∷ s) h)

scan_from-line :
    (limit : ℕ) (l cur s : Text)
    → IsLine l
    → length (cur ++ l) < limit
    → scan_from limit cur (l ++ newline ∷ s)
      ≡ (drop_return (cur ++ l) ∷ (scan_from limit [] s).0, (scan_from limit [] s).1)
unfolding scan_from
scan_from-line limit [] cur s h short =
    let fits : length cur < limit = omega (arith, short, ap length (append-nil cur)) in
    let test : ltb (length cur) limit ≡ true = ground arith in
    rw (append-nil cur, scan_from, test) refl
scan_from-line limit (c ∷ l) cur s ((hn, hr), h) short =
    let e : (c == newline) ≡ false = ground arith in
    let same = append_assoc cur (c ∷ []) l in
    rw (scan_from, e)
      (scan_from-line limit l (cur ++ c ∷ []) s h (omega (arith, short, ap length same))
        ∙ ap (λ (t : Text). (drop_return t ∷ (scan_from limit [] s).0, (scan_from limit [] s).1))
            same)

scan_from-long :
    (limit : ℕ) (cur s : Text)
    → 0 < limit
    → limit ≤ length cur
    → scan_from limit cur s ≡ ([], false)
unfolding scan_from
scan_from-long limit [] [] some_room long = absurd (omega arith)
scan_from-long limit (c ∷ cur) [] some_room long = ground arith
scan_from-long limit cur (c ∷ s) some_room long =
    let shut : ltb (length cur) limit ≡ false = ground arith in
    let next =
      scan_from-long limit (cur ++ c ∷ []) s some_room
        (omega (arith, length-append {0} cur (c ∷ []))) in
    elim (Bool-cases (c == newline)) [
      | inl ends ↦ rw (scan_from, ends, shut) refl
      | inr more ↦ rw (scan_from, more) next
    ]

-- A line without an ending that does not fit.
scan_from-unbroken :
    (limit : ℕ) (l cur s : Text)
    → 0 < limit
    → IsUnbroken l
    → limit ≤ length (cur ++ l)
    → scan_from limit cur (l ++ s) ≡ ([], false)
unfolding scan_from
scan_from-unbroken limit [] cur s some_room h long =
    scan_from-long limit cur s some_room (omega (arith, long, ap length (append-nil cur)))
scan_from-unbroken limit (c ∷ l) cur s some_room (hc, h) long =
    let e : (c == newline) ≡ false = ground arith in
    rw (scan_from, e)
      (scan_from-unbroken limit l (cur ++ c ∷ []) s some_room h
        (omega (arith, long, ap length (append_assoc cur (c ∷ []) l))))

-- Whole lines that fit are delivered, and what follows them is scanned as if it stood alone.
pub scan_lines-render :
    (limit : ℕ) (ls : List Text) (s : Text)
    → All (IsShort limit) ls
    → scan_lines limit (render ls ++ s) ≡ (ls ++ (scan_lines limit s).0, (scan_lines limit s).1)
unfolding scan_lines render
scan_lines-render limit [] s h = refl
scan_lines-render limit (l ∷ ls) s ((is_line, short), h) =
    ap (scan_from limit []) (append_assoc l (newline ∷ render ls) s)
    ∙ scan_from-line limit l [] (render ls ++ s) is_line short
    ∙ (λ k. (
      drop_return-line l is_line k ∷ (scan_lines-render limit ls s h k).0,
      (scan_lines-render limit ls s h k).1,
    ))

-- A line that does not fit is not delivered, and nothing behind it is.
pub scan_lines-long :
    (limit : ℕ) (l s : Text)
    → 0 < limit
    → IsUnbroken l
    → limit ≤ length l
    → scan_lines limit (l ++ s) ≡ ([], false)
unfolding scan_lines
scan_lines-long limit l s some_room h long = scan_from-unbroken limit l [] s some_room h long
