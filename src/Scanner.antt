-- ===== src/Scanner.antt =====
-- Go's bufio.Scanner with ScanLines, as watchOpenVPN of src/ocbridge/main.go reads openvpn's output.
pub mod Laws
use openconnect_ubuntu_touch.Common.{
  ℕ, ◌*◌, Bool, true, false, List, [], ◌∷◌, ◌++◌, length, ltb, ◌==◌, if◌then◌else◌,
}
use openconnect_ubuntu_touch.Common.Text.{Text, is_empty}
use openconnect_ubuntu_touch.Lines.{newline, carriage_return}

-- sc.Buffer gives a line and its ending at most this many bytes.
unfoldable pub max_line : ℕ
max_line = 1024 * 1024

-- One carriage return at the end is dropped.
unfoldable pub drop_return : Text → Text
drop_return [] = []
drop_return (c ∷ s) =
    if is_empty s then (if c == carriage_return then [] else c ∷ []) else c ∷ drop_return s

-- The lines behind a line in progress, and whether the output was read to its end.
unfoldable pub scan_from : ℕ → Text → Text → List Text × Bool
scan_from limit cur [] =
    if is_empty cur
    then ([], true)
    else if ltb (length cur) limit
    then (drop_return cur ∷ [], true)
    else ([], false)
scan_from limit cur (c ∷ s) = elim (c == newline) [
  | true ↦ elim (ltb (length cur) limit) [
    | true ↦ (drop_return cur ∷ (scan_from limit [] s).0, (scan_from limit [] s).1)
    | false ↦ ([], false)
  ]
  | false ↦ scan_from limit (cur ++ c ∷ []) s
]

-- What `sc.Scan()` delivers of an output until it returns false: too long a line ends it.
unfoldable pub scan_lines : ℕ → Text → List Text × Bool
unfolding scan_from drop_return
scan_lines limit output = scan_from limit [] output
