-- ===== src/Paths.antt =====
-- `resolve_cwd` and `normalize_path` of indo-kernel/src/syscall/mod.rs. A path is the list of its bytes.
pub mod Components
pub mod Canonical
pub mod Relative
mod Examples
use mathlib.Core.List.{reverse}
use indominus_os.Prelude.{
  ℕ, Bool, true, false, not, ◌&&◌, ◌||◌, List, [], ◌∷◌, ◌++◌, ◌==◌, if◌then◌else◌,
}

abbrev pub Text : Type 0
Text = List ℕ

-- '/' and '.'
abbrev pub slash : ℕ
slash = 0x2F

abbrev pub dot : ℕ
dot = 0x2E

-- The first part gets one more byte; a split always has a first part.
abbrev pub longer : ℕ → List Text → List Text
longer c [] = (c ∷ []) ∷ []
longer c (part ∷ parts) = (c ∷ part) ∷ parts

-- `split('/')`
unfoldable pub split : Text → List Text
split [] = [] ∷ []
split (c ∷ s) = if c == slash then [] ∷ split s else longer c (split s)

abbrev pub is_empty : Text → Bool
is_empty [] = true
is_empty (c ∷ s) = false

-- `filter(|s| !s.is_empty())`
abbrev pub keep_nonempty : List Text → List Text
keep_nonempty [] = []
keep_nonempty (part ∷ parts) =
    if is_empty part then keep_nonempty parts else part ∷ keep_nonempty parts

unfoldable pub components : Text → List Text
unfolding split
components path = keep_nonempty (split path)

abbrev pub is_dot : Text → Bool
is_dot [] = false
is_dot (c ∷ []) = c == dot
is_dot (c ∷ d ∷ s) = false

abbrev pub is_dotdot : Text → Bool
is_dotdot [] = false
is_dotdot (c ∷ []) = false
is_dotdot (c ∷ d ∷ []) = c == dot && d == dot
is_dotdot (c ∷ d ∷ e ∷ s) = false

-- `Vec::pop`. The vector of parts is a list with its last part at the head.
abbrev pub pop : List Text → List Text
pop [] = []
pop (last ∷ parts) = parts

-- The match on one part.
abbrev pub apply_part : Text → List Text → List Text
apply_part part parts =
    if is_dot part then parts else if is_dotdot part then pop parts else part ∷ parts

unfoldable pub apply_parts : List Text → List Text → List Text
apply_parts [] parts = parts
apply_parts (part ∷ rest) parts = apply_parts rest (apply_part part parts)

-- The loop that builds the result: a slash before every part but the first.
unfoldable pub join : List Text → Text
join [] = []
join (part ∷ []) = part
join (part ∷ next ∷ rest) = part ++ slash ∷ join (next ∷ rest)

abbrev pub render : List Text → Text
render parts = slash ∷ join parts

unfoldable pub normalize_path : Text → Text
unfolding components apply_parts join
normalize_path path = render (reverse (apply_parts (components path) []))

abbrev pub is_absolute : Text → Bool
is_absolute [] = false
is_absolute (c ∷ s) = c == slash

unfoldable pub resolve_cwd : Text → Text → Text
unfolding normalize_path components apply_parts join
resolve_cwd cwd path =
    if is_absolute path
    then normalize_path path
    else render (reverse (apply_parts (components path) (reverse (components cwd))))
