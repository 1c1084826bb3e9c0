-- ===== src/Vfs/Invariant.antt =====
-- The operations that change the store, in any order.
use indominus_os.Prelude.{
  ℕ, ◌+◌, ◌<◌, ◌≡◌, refl, ap, sym, ◌∙◌, Bool, Option, none, some, List, [], ◌∷◌, arith,
  if◌then◌else◌, update, Result, ok, err, ◌>>=◌, either_way, leb, u64_mod, length, ◌==◌,
}
use indominus_os.Paths.{Text, components}
use indominus_os.Vfs.{
  Vfs, root_fs, root_inode, walk, all_but_last, last_part, create_parents,
  resolve_or_create_parents, create_last_dir, create_dir_parts, create_dir_path, create_file_parts,
  create_path, write_created, init, write_file, delete_in, delete_parts, delete_file,
}
use indominus_os.Vfs.Ramfs.{
  VfsError, Fault, Inode, dir_inode, file_inode, RamNode, file_node, dir_node, File, file_handle,
  dir_handle, Store, Entries, Outcome, then_do, get, is_some, delete_entry, add_dir, write,
  overwrite,
}
use indominus_os.Vfs.Trees.{WellFormed}
use indominus_os.Vfs.Growth.{add_dir-WellFormed, remove-WellFormed, write-WellFormed}
use indominus_os.Vfs.Making.{Reached, create_parents-Reached}
use indominus_os.Vfs.Creating.{create_file_parts-Created}

-- The store is a forest in which the root directory exists.
abbrev pub Sound : ℕ → Store → Type 0
Sound fs st = WellFormed st × (fs < st.next_dir)

abbrev made_dir : Bool → ℕ → Text → Store → Outcome (Unit {0})
made_dir exists d name st =
    if exists then (err VfsError.already_exists, st) else (ok tt, add_dir d name st)

made_dir-Sound :
    (fs d : ℕ) (name : Text) (st : Store)
    → Sound fs st
    → d < st.next_dir
    → Sound fs (made_dir (is_some (get name (st.dir_entries d))) d name st).1
made_dir-Sound fs d name st (wf, root) valid = go (get name (st.dir_entries d)) refl
  where
    go :
        (o : Option RamNode)
        → get name (st.dir_entries d) ≡ o
        → Sound fs (made_dir (is_some o) d name st).1
    go none h = (add_dir-WellFormed st d name wf valid h, omega (arith, root))
    go (some node) h = (wf, root)

in_parent-Sound :
    (fs : ℕ) (parts : List Text) (name : Text) (st : Store) (out : Outcome Inode)
    → fs < st.next_dir
    → Reached (dir_inode fs) parts st out
    → Sound fs (then_do out (create_last_dir name)).1
in_parent-Sound fs parts name st (err e, mid) root (wf, g, _) = (wf, omega (arith, root, g.dirs_le))
in_parent-Sound fs parts name st (ok (file_inode f), mid) root (wf, g, _) =
    (wf, omega (arith, root, g.dirs_le))
in_parent-Sound fs parts name st (ok (dir_inode d), mid) root (wf, g, (valid, _, _)) =
    made_dir-Sound fs d name mid (wf, omega (arith, root, g.dirs_le)) valid

create_dir_parts-Sound :
    (vfs : Vfs) (fs : ℕ) (parts : List Text) (st : Store)
    → root_fs vfs ≡ ok fs
    → Sound fs st
    → Sound fs (create_dir_parts vfs parts st).1
unfolding resolve_or_create_parents
create_dir_parts-Sound vfs fs [] st has_root sound = sound
create_dir_parts-Sound vfs fs (p ∷ []) st has_root (wf, root) =
    rw has_root (made_dir-Sound fs fs p st (wf, root) root)
create_dir_parts-Sound vfs fs (p ∷ q ∷ parts) st has_root (wf, root) =
    let init = all_but_last p (q ∷ parts) in
    rw has_root (
      in_parent-Sound fs init (last_part q parts) st (create_parents init (dir_inode fs) st) root
        (create_parents-Reached init (dir_inode fs) st wf root))

create_file_parts-Sound :
    (vfs : Vfs) (fs : ℕ) (parts : List Text) (st : Store)
    → root_fs vfs ≡ ok fs
    → Sound fs st
    → Sound fs (create_file_parts vfs parts st).1
create_file_parts-Sound vfs fs parts st has_root (wf, root) =
    let (wf', g, _) = create_file_parts-Created vfs fs parts st has_root wf root in
    (wf', omega (arith, root, g.dirs_le))

write_created-Sound :
    (fs : ℕ) (bytes : List ℕ) (out : Outcome File)
    → Sound fs out.1
    → Sound fs (write_created bytes out).1
unfolding write
write_created-Sound fs bytes (err e, st) sound = sound
write_created-Sound fs bytes (ok (dir_handle entries pos), st) sound = sound
write_created-Sound fs bytes (ok (file_handle f pos), st) (wf, root) =
    let later : ℕ → List ℕ = update st.file_data f (overwrite pos bytes (st.file_data f)) in
    either_way (λ (r : Result Fault ℕ × File × Store). Sound fs r.2)
      (leb u64_mod (pos + length bytes)) (wf, root) (write-WellFormed st later wf, root)

delete_in-Sound :
    (fs : ℕ) (parent : Result VfsError Inode) (name : Text) (st : Store)
    → Sound fs st
    → Sound fs (delete_in parent name st).1
delete_in-Sound fs (err e) name st sound = sound
delete_in-Sound fs (ok (file_inode f)) name st sound = sound
delete_in-Sound fs (ok (dir_inode d)) name st (wf, root) = go (get name (st.dir_entries d))
  where
    go : (o : Option RamNode) → Sound fs (delete_entry o d name st).1
    go none = (wf, root)
    go (some (dir_node e)) = (wf, root)
    go (some (file_node f)) = (remove-WellFormed st d name wf, root)

pub data Call : Type 0 where
  creates : Text → Call
  creates_dir : Text → Call
  writes : Text → List ℕ → Call
  deletes : Text → Call

abbrev pub step : Vfs → Call → Store → Store
step vfs (creates path) st = (create_path vfs path st).1
step vfs (creates_dir path) st = (create_dir_path vfs path st).1
step vfs (writes path bytes) st = (write_file vfs path bytes st).1
step vfs (deletes path) st = (delete_file vfs path st).1

abbrev pub run : Vfs → List Call → Store → Store
run vfs [] st = st
run vfs (call ∷ calls) st = run vfs calls (step vfs call st)

pub step-Sound :
    (vfs : Vfs) (fs : ℕ) (call : Call) (st : Store)
    → root_fs vfs ≡ ok fs
    → Sound fs st
    → Sound fs (step vfs call st)
unfolding create_path create_dir_path write_file delete_file
step-Sound vfs fs (creates path) st has_root sound =
    create_file_parts-Sound vfs fs (components path) st has_root sound
step-Sound vfs fs (creates_dir path) st has_root sound =
    create_dir_parts-Sound vfs fs (components path) st has_root sound
step-Sound vfs fs (writes path bytes) st has_root sound =
    write_created-Sound fs bytes (create_file_parts vfs (components path) st)
      (create_file_parts-Sound vfs fs (components path) st has_root sound)
step-Sound vfs fs (deletes path) st has_root sound = go (components path)
  where
    go : (parts : List Text) → Sound fs (delete_parts vfs parts st).1
    go [] = sound
    go (p ∷ parts) =
        delete_in-Sound fs (root_inode vfs >>= λ root. walk root (all_but_last p parts) st)
          (last_part p parts) st sound

-- Any sequence of the calls that create files and directories, write and delete, errors included,
-- keeps the store a forest: each file and directory has one entry at most, a directory lies in an
-- older one, and every entry points to something that was made; and the root directory stays.
pub calls-Sound :
    (vfs : Vfs) (fs : ℕ) (calls : List Call) (st : Store)
    → root_fs vfs ≡ ok fs
    → Sound fs st
    → Sound fs (run vfs calls st)
calls-Sound vfs fs [] st has_root sound = sound
calls-Sound vfs fs (call ∷ calls) st has_root sound =
    calls-Sound vfs fs calls (step vfs call st) has_root (step-Sound vfs fs call st has_root sound)

abbrev no_entries : Entries
no_entries = []

-- Before anything is made.
abbrev pub no_files : Store
no_files = record { file_data = λ _. []; dir_entries = λ _. []; next_file = 0; next_dir = 0 }

pub init-Sound : Sound 0 (init no_files).1
init-Sound = (
  record {
    vacant = λ d above. empty d;
    dirs_later = λ d e n h. absurd (none_there d n (dir_node e) h);
    files_below = λ d f n h. absurd (none_there d n (file_node f) h);
    one_entry = λ d d' n n' node h h'. absurd (none_there d n node h);
  },
  omega arith,
)
  where
    empty : (d : ℕ) → update (λ (_ : ℕ). no_entries) 0 no_entries d ≡ no_entries
    empty d = either_way (λ (e : Entries). e ≡ no_entries) (0 == d) refl refl

    none_there :
        (d : ℕ) (n : Text) (node : RamNode)
        → get n (update (λ (_ : ℕ). no_entries) 0 no_entries d) ≡ some node
        → ⊥
    none_there d n node h = let conflict : none ≡ some node = sym (ap (get n) (empty d)) ∙ h in cc
