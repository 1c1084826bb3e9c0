-- ===== src/Vfs/Ramfs.antt =====
-- indo-kernel/src/vfs/ramfs.rs, with the traits and errors of vfs/mod.rs. What the code shares by
-- `Arc<Mutex<…>>` lies in the store, under an id; a new one gets the next id. A `BTreeMap` is a list
-- of entries in the order of their names.
use indominus_os.Prelude.{
  ℕ, zero, suc, ◌+◌, ◌-◌, Bool, true, false, ◌&&◌, ◌||◌, Option, none, some, List, [], ◌∷◌, ◌++◌,
  length, take, drop, map, ltb, leb, ◌==◌, if◌then◌else◌, update, u64_mod, Result, ok, err,
}
use indominus_os.Paths.{Text}

pub data VfsError : Type 0 where
  not_found : VfsError
  permission_denied : VfsError
  already_exists : VfsError
  not_file : VfsError
  not_directory : VfsError
  too_many_open_files : VfsError
  invalid_seek : VfsError
  no_space : VfsError
  io_error : VfsError
  bad_path : VfsError

-- How a call on an open file fails: with an error, or by a panic.
pub data Fault : Type 0 where
  refused : VfsError → Fault
  panics : Fault

abbrev pub fallible : {A : Type 0} → Result VfsError A → Result Fault A
fallible (ok a) = ok a
fallible (err e) = err (refused e)

pub data RamNode : Type 0 where
  file_node : ℕ → RamNode
  dir_node : ℕ → RamNode

abbrev pub Entries : Type 0
Entries = List (Text × RamNode)

pub record Store : Type 0 where
  pub file_data : ℕ → List ℕ
  pub dir_entries : ℕ → Entries
  pub next_file : ℕ
  pub next_dir : ℕ

-- The result of an operation and the store after it.
abbrev pub Outcome : Type 0 → Type 0
Outcome A = Result VfsError A × Store

-- `?` and what follows it.
abbrev pub then_do : {A B : Type 0} → Outcome A → (A → Store → Outcome B) → Outcome B
then_do (ok a, st) next = next a st
then_do (err e, st) next = (err e, st)

abbrev pub text_eq : Text → Text → Bool
text_eq [] [] = true
text_eq [] (d ∷ t) = false
text_eq (c ∷ s) [] = false
text_eq (c ∷ s) (d ∷ t) = c == d && text_eq s t

-- The order of `String`: byte by byte.
abbrev pub text_lt : Text → Text → Bool
text_lt s [] = false
text_lt [] (d ∷ t) = true
text_lt (c ∷ s) (d ∷ t) = ltb c d || c == d && text_lt s t

-- `get`, `insert`, `remove` and `contains_key` of a `BTreeMap`
abbrev pub get : Text → Entries → Option RamNode
get name [] = none
get name ((n, node) ∷ entries) = if text_eq name n then some node else get name entries

abbrev pub insert : Text → RamNode → Entries → Entries
insert name new [] = (name, new) ∷ []
insert name new ((n, node) ∷ entries) =
    if text_eq name n
    then (name, new) ∷ entries
    else if text_lt name n
    then (name, new) ∷ (n, node) ∷ entries
    else (n, node) ∷ insert name new entries

abbrev pub remove : Text → Entries → Entries
remove name [] = []
remove name ((n, node) ∷ entries) =
    let rest = remove name entries in if text_eq name n then rest else (n, node) ∷ rest

abbrev pub is_some {ℓ} : {A : Type ℓ} → Option A → Bool
is_some none = false
is_some (some a) = true

abbrev pub contains_key : Text → Entries → Bool
contains_key name entries = is_some (get name entries)

-- `RamDirInode` and `RamFileInode`
pub data Inode : Type 0 where
  dir_inode : ℕ → Inode
  file_inode : ℕ → Inode

-- `RamFileHandle` (the file and the position) and `RamDirHandle` (the names and the position)
pub data File : Type 0 where
  file_handle : ℕ → ℕ → File
  dir_handle : List Text → ℕ → File

abbrev pub list_entries : Entries → List Text
list_entries entries = map (λ entry. entry.0) entries

abbrev pub inode_of : Option RamNode → Result VfsError Inode
inode_of none = err not_found
inode_of (some (file_node f)) = ok (file_inode f)
inode_of (some (dir_node d)) = ok (dir_inode d)

abbrev pub lookup : Inode → Text → Store → Result VfsError Inode
lookup (dir_inode d) name st = inode_of (get name (st.dir_entries d))
lookup (file_inode f) name st = err not_directory

-- `Inode::open`, which cannot fail.
abbrev pub open_node : Inode → Store → File
open_node (dir_inode d) st = dir_handle (list_entries (st.dir_entries d)) 0
open_node (file_inode f) st = file_handle f 0

abbrev pub is_dir : Inode → Bool
is_dir (dir_inode d) = true
is_dir (file_inode f) = false

abbrev pub size : Inode → Store → ℕ
size (dir_inode d) st = 0
size (file_inode f) st = length (st.file_data f)

abbrev pub readdir : Inode → Store → Result VfsError (List Text)
readdir (dir_inode d) st = ok (list_entries (st.dir_entries d))
readdir (file_inode f) st = err not_directory

abbrev pub add_file : ℕ → Text → Store → Store
add_file d name st = record st {
  file_data = update st.file_data st.next_file [];
  dir_entries = update st.dir_entries d (insert name (file_node st.next_file) (st.dir_entries d));
  next_file = st.next_file + 1;
}

abbrev pub add_dir : ℕ → Text → Store → Store
add_dir d name st = record st {
  dir_entries =
      update (update st.dir_entries st.next_dir []) d
        (insert name (dir_node st.next_dir) (st.dir_entries d));
  next_dir = st.next_dir + 1;
}

-- The match on the entry of the name.
abbrev pub file_in : Option RamNode → ℕ → Text → Store → Outcome File
file_in (some (file_node f)) d name st = (ok (file_handle f 0), st)
file_in (some (dir_node _)) d name st = (err already_exists, st)
file_in none d name st = (ok (file_handle st.next_file 0), add_file d name st)

abbrev pub create_child_file : Inode → Text → Store → Outcome File
create_child_file (dir_inode d) name st = file_in (get name (st.dir_entries d)) d name st
create_child_file (file_inode f) name st = (err not_directory, st)

abbrev pub create_child_dir : Inode → Text → Store → Outcome (Unit {0})
create_child_dir (dir_inode d) name st =
    if contains_key name (st.dir_entries d)
    then (err already_exists, st)
    else (ok tt, add_dir d name st)
create_child_dir (file_inode f) name st = (err not_directory, st)

abbrev pub delete_entry : Option RamNode → ℕ → Text → Store → Outcome (Unit {0})
delete_entry (some (file_node f)) d name st =
    (ok tt, record st { dir_entries = update st.dir_entries d (remove name (st.dir_entries d)) })
delete_entry (some (dir_node _)) d name st = (err not_directory, st)
delete_entry none d name st = (err not_found, st)

abbrev pub delete_child_file : Inode → Text → Store → Outcome (Unit {0})
delete_child_file (dir_inode d) name st = delete_entry (get name (st.dir_entries d)) d name st
delete_child_file (file_inode f) name st = (err permission_denied, st)

-- `RamFs::create_file` and `RamFs::create_dir`, in the root directory `fs`
abbrev pub create_file : ℕ → Text → Store → Outcome File
create_file fs name st = file_in (get name (st.dir_entries fs)) fs name st

abbrev pub create_dir : ℕ → Text → Store → Outcome (Unit {0})
create_dir fs name st =
    if contains_key name (st.dir_entries fs)
    then (err already_exists, st)
    else (ok tt, add_dir fs name st)

-- "name1\0name2\0…"
abbrev pub pack : List Text → List ℕ
pack [] = []
pack (name ∷ names) = name ++ 0 ∷ pack names

-- The entries that fit into `room` bytes as a whole.
abbrev pub whole_entries : List Text → ℕ → ℕ
whole_entries [] room = 0
whole_entries (name ∷ names) room =
    let later = whole_entries names (room - (length name + 1)) in
    if ltb room (length name + 1) then 0 else later + 1

-- `read` into a buffer of `count` bytes gives the bytes it puts there. The slice of the entries
-- panics if the position is past their end.
unfoldable pub read : File → ℕ → Store → Result Fault (List ℕ) × File
read (file_handle f pos) count st =
    let got = take count (drop pos (st.file_data f)) in (ok got, file_handle f (pos + length got))
read (dir_handle entries pos) count st =
    let got = take count (pack (drop pos entries)) in
    if ltb (length entries) pos
    then (err panics, dir_handle entries pos)
    else (ok got, dir_handle entries (pos + whole_entries (drop pos entries) (length got)))

abbrev pub zeros : ℕ → List ℕ
zeros zero = []
zeros (suc n) = 0 ∷ zeros n

-- `resize(end, 0)` if `end` is larger, and the bytes copied to `pos..end`.
unfoldable pub overwrite : ℕ → List ℕ → List ℕ → List ℕ
overwrite pos buf bytes =
    let resized = bytes ++ zeros (pos + length buf - length bytes) in
    take pos resized ++ buf ++ drop (pos + length buf) resized

-- A sum past 64 bits panics, in the sum or in the slice.
unfoldable pub write : File → List ℕ → Store → Result Fault ℕ × File × Store
unfolding overwrite
write (file_handle f pos) buf st =
    if leb u64_mod (pos + length buf) then (err panics, file_handle f pos, st) else (
      ok (length buf),
      file_handle f (pos + length buf),
      record st { file_data = update st.file_data f (overwrite pos buf (st.file_data f)) },
    )
write (dir_handle entries pos) buf st =
    (err (refused permission_denied), dir_handle entries pos, st)

abbrev pub seek : ℕ → File → File
seek offset (file_handle f pos) = file_handle f offset
seek offset (dir_handle entries pos) = dir_handle entries offset
