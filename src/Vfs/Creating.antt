-- ===== src/Vfs/Creating.antt =====
-- The file that `create_file` opens at the end of a path, and the directories on the way to it.
use indominus_os.Prelude.{
  ℕ, ◌<◌, ◌≡◌, refl, ap, sym, ◌∙◌, subst, Option, none, some, List, [], ◌∷◌, ◌++◌, update_self,
  Result, ok, err, either_way,
}
use indominus_os.Paths.{Text}
use indominus_os.Vfs.{
  Vfs, root_fs, walk, all_but_last, last_part, create_parents, resolve_or_create_parents,
  create_last_file, create_file_parts, is_mount_point,
}
use indominus_os.Vfs.Ramfs.{
  VfsError, Inode, dir_inode, file_inode, RamNode, file_node, dir_node, File, file_handle, Store,
  Outcome, then_do, get, insert, lookup, inode_of, file_in, add_file,
}
use indominus_os.Vfs.Entries.{get-insert_same}
use indominus_os.Vfs.Trees.{WellFormed, Grows, Grows-refl, Grows-trans}
use indominus_os.Vfs.Growth.{add_file-Grows, add_file-WellFormed}
use indominus_os.Vfs.Parents.{Valid, walk-Valid, walk-Grows, walk-append}
use indominus_os.Vfs.Making.{Reached, create_parents-Reached}

-- The bytes of the file that a path resolves to, and none if it does not resolve to a file.
abbrev pub contents : Result VfsError Inode → Store → List ℕ
contents (ok (file_inode f)) st = st.file_data f
contents (ok (dir_inode d)) st = []
contents (err e) st = []

-- A file was opened at its start: the path leads to it, and its bytes are those of before.
abbrev pub Opened : Inode → List Text → Store → Outcome File → Type 0
Opened root parts st (err e, st') = Unit
Opened root parts st (ok file, st') =
    (f : ℕ) × (file ≡ file_handle f 0)
    × (walk root parts st' ≡ ok (file_inode f))
    × (st'.file_data f ≡ contents (walk root parts st) st)

abbrev pub Created : Inode → List Text → Store → Outcome File → Type 0
Created root parts st out = WellFormed out.1 × Grows st out.1 × Opened root parts st out

-- If a walk finds no file, there are no bytes.
no_contents :
    (r : Result VfsError Inode) (st : Store)
    → ((f : ℕ) → r ≡ ok (file_inode f) → ⊥)
    → contents r st ≡ []
no_contents (err e) st h = refl
no_contents (ok (dir_inode d)) st h = refl
no_contents (ok (file_inode f)) st h = absurd (h f refl)

-- The file that `add_file` makes is found.
lookup-add_file :
    (d : ℕ) (name : Text) (st : Store)
    → lookup (dir_inode d) name (add_file d name st) ≡ ok (file_inode st.next_file)
lookup-add_file d name st =
    let new = insert name (file_node st.next_file) (st.dir_entries d) in
    ap (λ entries. inode_of (get name entries)) (update_self st.dir_entries d new)
    ∙ ap inode_of (get-insert_same name (file_node st.next_file) (st.dir_entries d))

-- The name in the parent directory that the loop has reached.
in_parent :
    (root : Inode) (parts : List Text) (name : Text) (st : Store) (out : Outcome Inode)
    → WellFormed st
    → Valid root st
    → Reached root parts st out
    → Created root (parts ++ name ∷ []) st (then_do out (create_last_file name))
unfolding walk
in_parent root parts name st (err e, mid) wf valid (wf', g, _) = (wf', g, tt)
in_parent root parts name st (ok (file_inode f), mid) wf valid (wf', g, _) = (wf', g, tt)
in_parent root parts name st (ok (dir_inode d), mid) wf valid (wf', g, (there, arrives, files)) =
    entry (get name (mid.dir_entries d)) refl
  where
    entry :
        (o : Option RamNode)
        → get name (mid.dir_entries d) ≡ o
        → Created root (parts ++ name ∷ []) st (file_in o d name mid)
    entry (some (dir_node e)) h = (wf', g, tt)
    entry (some (file_node f)) h =
        let found : lookup (dir_inode d) name mid ≡ ok (file_inode f) = ap inode_of h in
        let before = files name f found in
        let old = walk-Valid (parts ++ name ∷ []) root (file_inode f) st wf valid before in
        (
          wf',
          g,
          (
            f,
            refl,
            walk-append parts root (dir_inode d) name mid arrives ∙ found,
            g.bytes_kept f old ∙ ap (λ r. contents r st) (sym before),
          ),
        )
    entry none h =
        let new : Store = add_file d name mid in
        let g' = add_file-Grows mid d name wf' there h in
        let arrives' = walk-Grows parts root (dir_inode d) mid new g' arrives in
        (
          add_file-WellFormed mid d name wf' there h,
          Grows-trans st mid new g g',
          (
            mid.next_file,
            refl,
            walk-append parts root (dir_inode d) name new arrives' ∙ lookup-add_file d name mid,
            update_self mid.file_data mid.next_file []
                ∙ sym (no_contents (walk root (parts ++ name ∷ []) st) st (not_there h)),
          ),
        )
      where
        not_there :
            get name (mid.dir_entries d) ≡ none
            → (f : ℕ) → walk root (parts ++ name ∷ []) st ≡ ok (file_inode f)
            → ⊥
        not_there h f before =
            let later = walk-Grows (parts ++ name ∷ []) root (file_inode f) st mid g before in
            let missing = walk-append parts root (dir_inode d) name mid arrives in
            let conflict : inode_of none ≡ ok (file_inode f) =
              sym (ap inode_of h) ∙ sym missing ∙ later in
            cc

pub last_split :
    (p : Text) (parts : List Text) → all_but_last p parts ++ last_part p parts ∷ [] ≡ p ∷ parts
last_split p [] = refl
last_split p (q ∷ parts) = ap (λ r. p ∷ r) (last_split q parts)

pub create_file_parts-Created :
    (vfs : Vfs) (fs : ℕ) (parts : List Text) (st : Store)
    → root_fs vfs ≡ ok fs
    → WellFormed st
    → fs < st.next_dir
    → Created (dir_inode fs) parts st (create_file_parts vfs parts st)
unfolding resolve_or_create_parents
create_file_parts-Created vfs fs [] st has_root wf valid = (wf, Grows-refl st, tt)
create_file_parts-Created vfs fs (p ∷ []) st has_root wf valid =
    either_way (Created (dir_inode fs) (p ∷ []) st) (is_mount_point vfs p) (wf, Grows-refl st, tt)
      (rw has_root (
        in_parent (dir_inode fs) [] p st (ok (dir_inode fs), st) wf valid
          (create_parents-Reached [] (dir_inode fs) st wf valid)))
create_file_parts-Created vfs fs (p ∷ q ∷ parts) st has_root wf valid =
    let init = all_but_last p (q ∷ parts) in
    let name = last_part q parts in
    let out : Outcome Inode = create_parents init (dir_inode fs) st in
    subst (λ l. Created (dir_inode fs) l st (create_file_parts vfs (p ∷ q ∷ parts) st))
      (last_split p (q ∷ parts))
      (rw has_root (
        in_parent (dir_inode fs) init name st out wf valid
          (create_parents-Reached init (dir_inode fs) st wf valid)))
