-- ===== src/Lines.antt =====
-- splitLines of src/ocbridge/pki.go, and the text of a list of lines.
pub mod Laws
use openconnect_ubuntu_touch.Common.{
  ℕ, Bool, true, false, ◌||◌, List, [], ◌∷◌, ◌++◌, ◌==◌, not, ◌&&◌, ◌≢◌,
}
use openconnect_ubuntu_touch.Common.{All}
use openconnect_ubuntu_touch.Common.Text.{Text}
use openconnect_ubuntu_touch.Strings.{flush}

abbrev pub newline : ℕ
newline = 10

abbrev pub carriage_return : ℕ
carriage_return = 13

-- The loop of splitLines: the line in progress, and the runes that are left.
unfoldable pub split_from : Text → Text → List Text
split_from cur [] = flush cur []
split_from cur (c ∷ s) = elim (c == newline) [
  | true ↦ cur ∷ split_from [] s
  | false ↦ elim (c == carriage_return) [
    | true ↦ split_from cur s
    | false ↦ split_from (cur ++ c ∷ []) s
  ]
]

-- `splitLines`
unfoldable pub split_lines : Text → List Text
unfolding split_from flush
split_lines s = split_from [] s

-- Every line with a newline behind it.
unfoldable pub render : List Text → Text
render [] = []
render (l ∷ ls) = l ++ newline ∷ render ls

-- A line has no line ending in it.
abbrev pub IsLine : Text → Type 0
IsLine = All (λ c. (c ≢ newline) × (c ≢ carriage_return))
