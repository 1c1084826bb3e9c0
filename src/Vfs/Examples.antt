-- ===== src/Vfs/Examples.antt =====
-- A small tree of files.
use indominus_os.Prelude.{◌≡◌, refl, [], ◌∷◌, none, some, ok, arith}
use indominus_os.Paths.{Text, slash, components}
use indominus_os.Vfs.{Vfs, init, root_path, resolve, find_mount, write_file, read_file}
use indominus_os.Vfs.Ramfs.{Store, dir_node, insert, zeros, read, write}
use indominus_os.Vfs.Creating.{contents}
use indominus_os.Vfs.RoundTrip.{overwritten}
use indominus_os.Vfs.Success.{is_clear}
use indominus_os.Vfs.WriteRead.{read_file-write_file}
use indominus_os.Vfs.Invariant.{
  Sound, creates, creates_dir, writes, deletes, run, no_files, init-Sound, calls-Sound,
}
use indominus_os.Vfs.Directories.{read_file_stuck}

-- "/a/b"
abbrev path_ab : Text
path_ab = slash ∷ b'a' ∷ slash ∷ b'b' ∷ []

abbrev booted : Store
booted = (init no_files).1

abbrev root_only : Vfs
root_only = (init no_files).0

calls-Sound_example : Sound 0 (
    run root_only
      (creates_dir path_ab
        ∷ writes path_ab (1 ∷ [])
        ∷ creates (b'c' ∷ [])
        ∷ deletes (b'c' ∷ [])
        ∷ [])
      booted)
calls-Sound_example =
    calls-Sound root_only 0
      (creates_dir path_ab
        ∷ writes path_ab (1 ∷ [])
        ∷ creates (b'c' ∷ [])
        ∷ deletes (b'c' ∷ [])
        ∷ [])
      booted refl init-Sound

read_file-write_file_example :
    ((write_file root_only path_ab (1 ∷ 2 ∷ 3 ∷ []) booted).0 ≡ ok 3)
    × (read_file 9 root_only path_ab (write_file root_only path_ab (1 ∷ 2 ∷ 3 ∷ []) booted).1
        ≡ some (
            ok (overwritten (1 ∷ 2 ∷ 3 ∷ []) (contents (resolve root_only path_ab booted) booted))))
unfolding resolve find_mount is_clear components
read_file-write_file_example =
    read_file-write_file root_only 0 path_ab (1 ∷ 2 ∷ 3 ∷ []) booted 9 init-Sound.0 refl
      init-Sound.1 refl refl (omega arith) (omega arith)

-- A shorter write over a longer file leaves the end of the longer one.
abbrev rewritten : Store
rewritten =
    (write_file root_only path_ab (7 ∷ [])
      (write_file root_only path_ab (1 ∷ 2 ∷ 3 ∷ []) booted).1).1

old_tail : read_file 9 root_only path_ab rewritten ≡ some (ok (7 ∷ 2 ∷ 3 ∷ []))
unfolding read_file write_file write read
old_tail = refl

-- A directory with one name of 600 zero bytes.
abbrev long_names : Store
long_names = record booted { dir_entries = λ _. insert (zeros 600) (dir_node 1) []; next_dir = 2 }

read_file_stuck_example : read_file 5 root_only root_path long_names ≡ none
unfolding resolve
read_file_stuck_example =
    read_file_stuck 5 root_only root_path long_names 0 (zeros 600) [] refl refl (omega arith)
