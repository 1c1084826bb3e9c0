-- ===== src/Vfs.antt =====
-- indo-kernel/src/vfs/mod.rs: the mount table and the operations on paths. The file systems that
-- are mounted are those of Vfs/Ramfs.antt, each given by the id of its root directory; paths are
-- those of Paths.antt. The global `VFS` is the argument `vfs`.
pub mod Ramfs
pub mod Entries
pub mod Trees
pub mod Growth
pub mod Parents
pub mod Making
pub mod Contents
pub mod Creating
pub mod RoundTrip
pub mod Success
pub mod WriteRead
pub mod Invariant
pub mod Directories
mod Examples
use indominus_os.Prelude.{
  ℕ, zero, suc, ◌+◌, Bool, true, false, ◌||◌, Option, none, some, List, [], ◌∷◌, ◌++◌,
  if◌then◌else◌, Result, ok, err, ◌>>=◌, update,
}
use indominus_os.Paths.{Text, slash, is_empty, components}
use indominus_os.Vfs.Ramfs.{
  VfsError, not_found, bad_path, permission_denied, not_directory, Fault, Store, Inode, dir_inode,
  File, Outcome, then_do, text_eq, lookup, open_node, is_dir, create_child_file, create_child_dir,
  delete_child_file, create_file, create_dir, read, write, fallible,
}

pub record MountEntry : Type 0 where
  pub path : Text
  pub fs : ℕ

abbrev pub Vfs : Type 0
Vfs = List MountEntry

abbrev pub root_path : Text
root_path = slash ∷ []

-- `Vfs::new` and `Vfs::init`: the root file system is a new directory.
abbrev pub init : Store → Vfs × Store
init st = (
  record { path = root_path; fs = st.next_dir } ∷ [],
  record st { dir_entries = update st.dir_entries st.next_dir []; next_dir = st.next_dir + 1 },
)

abbrev pub mount : Text → ℕ → Vfs → Vfs
mount path fs vfs = vfs ++ record { path = path; fs = fs } ∷ []

abbrev pub root_fs : Vfs → Result VfsError ℕ
root_fs [] = err not_found
root_fs (m ∷ mounts) = if text_eq m.path root_path then ok m.fs else root_fs mounts

abbrev pub root_inode : Vfs → Result VfsError Inode
root_inode vfs = root_fs vfs >>= λ fs. ok (dir_inode fs)

-- `for part in remaining { current = current.lookup(part)?; }`
unfoldable pub walk : Inode → List Text → Store → Result VfsError Inode
walk current [] st = ok current
walk current (part ∷ parts) st = lookup current part st >>= λ next. walk next parts st

-- The parts after the mount point's, if these are the first ones.
unfoldable pub strip_mount : List Text → List Text → Option (List Text)
strip_mount [] parts = some parts
strip_mount (mp ∷ mount_parts) [] = none
strip_mount (mp ∷ mount_parts) (p ∷ parts) =
    let remaining = strip_mount mount_parts parts in if text_eq mp p then remaining else none

abbrev pub at_mount : Option (List Text) → ℕ → Option (ℕ × List Text) → Option (ℕ × List Text)
at_mount none fs other = other
at_mount (some remaining) fs other = some (fs, remaining)

-- The loop over the mount points: the first that matches.
unfoldable pub find_mount : Vfs → List Text → Option (ℕ × List Text)
unfolding strip_mount
find_mount [] parts = none
find_mount (m ∷ mounts) parts =
    let other = find_mount mounts parts in
    if text_eq m.path root_path
    then other
    else at_mount (strip_mount (components m.path) parts) m.fs other

abbrev pub walk_from : Option (ℕ × List Text) → Vfs → List Text → Store → Result VfsError Inode
walk_from (some (fs, remaining)) vfs parts st = walk (dir_inode fs) remaining st
walk_from none vfs parts st = root_inode vfs >>= λ root. walk root parts st

abbrev pub resolve_parts : Vfs → List Text → Store → Result VfsError Inode
resolve_parts vfs [] st = root_inode vfs
resolve_parts vfs (p ∷ parts) st = walk_from (find_mount vfs (p ∷ parts)) vfs (p ∷ parts) st

unfoldable pub resolve : Vfs → Text → Store → Result VfsError Inode
unfolding walk find_mount components
resolve vfs path st =
    if text_eq path root_path || is_empty path
    then root_inode vfs
    else resolve_parts vfs (components path) st

unfoldable pub open_path : Vfs → Text → Store → Result VfsError File
unfolding resolve
open_path vfs path st = resolve vfs path st >>= λ inode. ok (open_node inode st)

-- `&parts[..parts.len() - 1]` and `parts[parts.len() - 1]` of the parts p, q, …
abbrev pub all_but_last : Text → List Text → List Text
all_but_last p [] = []
all_but_last p (q ∷ parts) = p ∷ all_but_last q parts

abbrev pub last_part : Text → List Text → Text
last_part p [] = p
last_part p (q ∷ parts) = last_part q parts

-- One turn of the loop of `resolve_or_create_parents`, whose next turns are `next`.
abbrev pub enter :
    Result VfsError Inode → Text → Inode → (Inode → Store → Outcome Inode) → Store → Outcome Inode
enter (ok inode) part current next st =
    if is_dir inode then next inode st else (err not_directory, st)
enter (err e) part current next st =
    then_do (create_child_dir current part st)
      (λ _ made. then_do (lookup current part made, made) next)

unfoldable pub create_parents : List Text → Inode → Store → Outcome Inode
create_parents [] current st = (ok current, st)
create_parents (part ∷ parts) current st =
    enter (lookup current part st) part current (create_parents parts) st

unfoldable pub resolve_or_create_parents : Vfs → List Text → Store → Outcome Inode
unfolding create_parents
resolve_or_create_parents vfs parts st = then_do (root_inode vfs, st) (create_parents parts)

abbrev pub is_mount_on : List Text → Text → Bool
is_mount_on (mp ∷ []) part = text_eq mp part
is_mount_on mount_parts part = false

abbrev pub is_mount_point : Vfs → Text → Bool
is_mount_point [] part = false
is_mount_point (m ∷ mounts) part =
    let later = is_mount_point mounts part in
    if text_eq m.path root_path then later else is_mount_on (components m.path) part || later

abbrev pub create_last_file : Text → Inode → Store → Outcome File
create_last_file name parent st =
    if is_dir parent then create_child_file parent name st else (err not_directory, st)

abbrev pub create_file_parts : Vfs → List Text → Store → Outcome File
create_file_parts vfs [] st = (err bad_path, st)
create_file_parts vfs (p ∷ []) st =
    if is_mount_point vfs p
    then (err permission_denied, st)
    else then_do (root_fs vfs, st) (λ fs. create_file fs p)
create_file_parts vfs (p ∷ q ∷ parts) st =
    then_do (resolve_or_create_parents vfs (all_but_last p (q ∷ parts)) st)
      (create_last_file (last_part q parts))

unfoldable pub create_path : Vfs → Text → Store → Outcome File
unfolding resolve_or_create_parents components
create_path vfs path st = create_file_parts vfs (components path) st

abbrev pub create_last_dir : Text → Inode → Store → Outcome (Unit {0})
create_last_dir name parent st =
    if is_dir parent then create_child_dir parent name st else (err not_directory, st)

abbrev pub create_dir_parts : Vfs → List Text → Store → Outcome (Unit {0})
create_dir_parts vfs [] st = (err bad_path, st)
create_dir_parts vfs (p ∷ []) st = then_do (root_fs vfs, st) (λ fs. create_dir fs p)
create_dir_parts vfs (p ∷ q ∷ parts) st =
    then_do (root_fs vfs, st)
      (λ _ same.
        then_do (resolve_or_create_parents vfs (all_but_last p (q ∷ parts)) same)
          (create_last_dir (last_part q parts)))

unfoldable pub create_dir_path : Vfs → Text → Store → Outcome (Unit {0})
unfolding resolve_or_create_parents components
create_dir_path vfs path st = create_dir_parts vfs (components path) st

-- `file.write(data)` on the file that was created.
abbrev pub write_created : List ℕ → Outcome File → Result Fault ℕ × Store
write_created bytes (ok file, st) = let (done, file', st') = write file bytes st in (done, st')
write_created bytes (err e, st) = (err (Fault.refused e), st)

unfoldable pub write_file : Vfs → Text → List ℕ → Store → Result Fault ℕ × Store
unfolding create_path
write_file vfs path bytes st = write_created bytes (create_path vfs path st)

abbrev pub chunk : ℕ
chunk = 512

abbrev pub next_chunk :
    Result Fault (List ℕ) × File
    → List ℕ
    → (File → List ℕ → Option (Result Fault (List ℕ)))
    → Option (Result Fault (List ℕ))
next_chunk (ok [], file) buf next = some (ok buf)
next_chunk (ok (b ∷ got), file) buf next = next file (buf ++ b ∷ got)
next_chunk (err e, file) buf next = some (err e)

-- The loop of `read_file` cut off after `fuel` reads, with `none` if it has not come to its end.
unfoldable pub read_all : ℕ → Store → File → List ℕ → Option (Result Fault (List ℕ))
read_all zero st file buf = none
read_all (suc fuel) st file buf = next_chunk (read file chunk st) buf (read_all fuel st)

abbrev pub read_opened : ℕ → Result Fault File → Store → Option (Result Fault (List ℕ))
read_opened fuel (ok file) st = read_all fuel st file []
read_opened fuel (err e) st = some (err e)

unfoldable pub read_file : ℕ → Vfs → Text → Store → Option (Result Fault (List ℕ))
unfolding open_path read_all
read_file fuel vfs path st = read_opened fuel (fallible (open_path vfs path st)) st

abbrev pub delete_in : Result VfsError Inode → Text → Store → Outcome (Unit {0})
delete_in parent name st = then_do (parent, st) (λ inode. delete_child_file inode name)

abbrev pub delete_parts : Vfs → List Text → Store → Outcome (Unit {0})
delete_parts vfs [] st = (err bad_path, st)
delete_parts vfs (p ∷ parts) st =
    delete_in (root_inode vfs >>= λ root. walk root (all_but_last p parts) st) (last_part p parts)
      st

unfoldable pub delete_file : Vfs → Text → Store → Outcome (Unit {0})
unfolding walk components
delete_file vfs path st = delete_parts vfs (components path) st
