-- ===== src/FilePath.antt =====
-- What the program uses of Go's package path/filepath on Unix: Clean, Join, Base and Dir.
pub mod Names
use openconnect_ubuntu_touch.Common.{
  ℕ, Bool, true, false, ◌||◌, List, [], ◌∷◌, ◌++◌, ◌==◌, if◌then◌else◌,
}
use openconnect_ubuntu_touch.Common.Text.{Text, codes, text_eq, is_empty}
use openconnect_ubuntu_touch.Strings.{has_prefix}

abbrev pub slash : ℕ
slash = b'/'

abbrev pub push_head : ℕ → List Text → List Text
push_head c [] = (c ∷ []) ∷ []
push_head c (w ∷ ws) = (c ∷ w) ∷ ws

-- The parts of a path between its slashes, the empty ones included.
unfoldable pub components : Text → List Text
components [] = [] ∷ []
components (c ∷ s) = let rest = components s in if c == slash then [] ∷ rest else push_head c rest

-- `..`: the last part goes, unless there is none or it is itself `..`.
unfoldable pub go_up : Bool → List Text → List Text
go_up rooted [] = if rooted then [] else codes ".." ∷ []
go_up rooted (t ∷ parts) = if text_eq t (codes "..") then codes ".." ∷ t ∷ parts else parts

-- One part of the path, with the parts that stand so far, the last one first.
unfoldable pub visit : Bool → List Text → Text → List Text
unfolding go_up
visit rooted parts w =
    if is_empty w || text_eq w (codes ".")
    then parts
    else if text_eq w (codes "..")
    then go_up rooted parts
    else w ∷ parts

unfoldable pub visit_all : Bool → List Text → List Text → List Text
visit_all rooted parts [] = parts
visit_all rooted parts (w ∷ ws) = visit_all rooted (visit rooted parts w) ws

-- The text of the parts, the last one first.
unfoldable pub path_of : Text → List Text → Text
path_of root [] = root
path_of root (w ∷ []) = root ++ w
path_of root (w ∷ v ∷ parts) = path_of root (v ∷ parts) ++ slash ∷ w

abbrev pub or_dot : Text → Text
or_dot [] = codes "."
or_dot (c ∷ s) = c ∷ s

-- `filepath.Clean`
unfoldable pub clean : Text → Text
unfolding visit_all visit
clean [] = codes "."
clean (c ∷ s) =
    let rooted = c == slash in
    or_dot (path_of (if rooted then slash ∷ [] else []) (visit_all rooted [] (components (c ∷ s))))

-- `strings.Join(elems, "/")`
abbrev pub join_slash : Text → List Text → Text
join_slash e [] = e
join_slash e (f ∷ fs) = e ++ slash ∷ join_slash f fs

-- `filepath.Join`: from the first element that is not empty on.
unfoldable pub join : List Text → Text
join [] = []
join (e ∷ es) = if is_empty e then join es else clean (join_slash e es)

-- What follows the last slash, with the runes since the last one.
unfoldable pub after_slash : Text → Text → Text
after_slash cur [] = cur
after_slash cur (c ∷ s) = elim (c == slash) [
  | true ↦ after_slash [] s
  | false ↦ after_slash (cur ++ c ∷ []) s
]

unfoldable pub last_name : Text → Text
unfolding after_slash
last_name s = after_slash [] s

-- A path without the slashes at its end.
unfoldable pub strip_slashes : Text → Text
strip_slashes [] = []
strip_slashes (c ∷ s) =
    let t = strip_slashes s in if is_empty t then if c == slash then [] else c ∷ [] else c ∷ t

-- `filepath.Base`
unfoldable pub base : Text → Text
unfolding strip_slashes
base [] = codes "."
base (c ∷ s) =
    let name = last_name (strip_slashes (c ∷ s)) in if is_empty name then slash ∷ [] else name

-- A path up to its last slash, the slash included.
unfoldable pub up_to_slash : Text → Text
up_to_slash [] = []
up_to_slash (c ∷ s) =
    let t = up_to_slash s in if is_empty t then if c == slash then c ∷ [] else [] else c ∷ t

-- `filepath.Dir`
unfoldable pub dir : Text → Text
unfolding up_to_slash
dir s = clean (up_to_slash s)
