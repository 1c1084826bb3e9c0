-- ===== src/Vfs/Success.antt =====
-- When `write_file` succeeds.
use indominus_os.Prelude.{
  ℕ, ◌<◌, ◌≡◌, refl, ap, sym, ◌∙◌, Bool, true, Option, none, some, List, [], ◌∷◌, ◌++◌, ◌&&◌, not,
  arith, Result, ok, err,
}
use indominus_os.Paths.{Text}
use indominus_os.Vfs.{enter, create_parents, create_last_file}
use indominus_os.Vfs.Ramfs.{
  VfsError, not_found, is_dir, RamNode, file_node, dir_node, Inode, dir_inode, file_inode, inode_of,
  file_handle, Store, Outcome, then_do, get, lookup, file_in, add_dir,
}
use indominus_os.Vfs.Trees.{WellFormed}
use indominus_os.Vfs.Growth.{add_dir-WellFormed}
use indominus_os.Vfs.Parents.{Valid, lookup-none, lookup-Valid}
use indominus_os.Vfs.Making.{lookup-add_dir}

abbrev clear_from : Result VfsError Inode → (Inode → Bool) → Bool
clear_from (ok inode) rest = rest inode
clear_from (err e) rest = true

-- No file stands in the way along the parts, and no directory at their end.
unfoldable pub is_clear : List Text → Store → Inode → Bool
is_clear [] st inode = not (is_dir inode)
is_clear (p ∷ ps) st inode = is_dir inode && clear_from (lookup inode p st) (is_clear ps st)

-- The loop has led to a directory in which the name can be opened as a file.
abbrev pub Ready : Text → Outcome Inode → Type 0
Ready name out =
    (d : ℕ) × (out.0 ≡ ok (dir_inode d)) × (is_clear (name ∷ []) out.1 (dir_inode d) ≡ true)

clear_new :
    (parts : List Text) (d : ℕ) (part name : Text) (st : Store)
    → d < st.next_dir
    → is_clear (parts ++ name ∷ []) (add_dir d part st) (dir_inode st.next_dir) ≡ true
unfolding is_clear
clear_new parts d part name st below = go parts
  where
    made : Store
    made = add_dir d part st

    empty : made.dir_entries st.next_dir ≡ []
    empty = ground arith

    missing : (q : Text) → lookup (dir_inode st.next_dir) q made ≡ err not_found
    missing q = ap (λ entries. inode_of (get q entries)) empty

    go : (ps : List Text) → is_clear (ps ++ name ∷ []) made (dir_inode st.next_dir) ≡ true
    go [] = ap (λ r. clear_from r (is_clear [] made)) (missing name)
    go (p ∷ ps) = ap (λ r. clear_from r (is_clear (ps ++ name ∷ []) made)) (missing p)

-- A file stands in the way of every name.
file_in_way :
    (parts : List Text) (name : Text) (f : ℕ) (st : Store)
    → is_clear (parts ++ name ∷ []) st (file_inode f) ≡ true
    → ⊥
unfolding is_clear
file_in_way [] name f st clear = absurd (ground (arith, clear))
file_in_way (p ∷ parts) name f st clear = absurd (ground (arith, clear))

turn-Ready :
    (parts : List Text) (part name : Text) (current : Inode) (st : Store)
    (next : Inode → Store → Outcome Inode)
    → ((i : Inode) (s : Store)
        → WellFormed s
        → Valid i s
        → is_clear (parts ++ name ∷ []) s i ≡ true
        → Ready name (next i s))
    → WellFormed st
    → Valid current st
    → is_clear (part ∷ (parts ++ name ∷ [])) st current ≡ true
    → (r : Result VfsError Inode) → lookup current part st ≡ r
    → Ready name (enter r part current next st)
unfolding is_clear
turn-Ready parts part name (file_inode f) st next later wf valid clear r h =
    absurd (ground (arith, clear))
turn-Ready parts part name (dir_inode d) st next later wf valid clear (ok (file_inode f)) h =
    absurd (
      file_in_way parts name f st
        (ap (λ r. clear_from r (is_clear (parts ++ name ∷ []) st)) (sym h) ∙ clear))
turn-Ready parts part name (dir_inode d) st next later wf valid clear (ok (dir_inode e)) h =
    later (dir_inode e) st wf (lookup-Valid (dir_inode d) (dir_inode e) part st wf h)
      (ap (λ r. clear_from r (is_clear (parts ++ name ∷ []) st)) (sym h) ∙ clear)
turn-Ready parts part name (dir_inode d) st next later wf valid clear (err e) h =
    let absent = lookup-none d part st e h in
    let made = add_dir-WellFormed st d part wf valid absent in
    rw (absent, lookup-add_dir d part st)
      (later (dir_inode st.next_dir) (add_dir d part st) made (omega arith)
        (clear_new parts d part name st valid))

pub create_parents-Ready :
    (parts : List Text) (name : Text) (current : Inode) (st : Store)
    → WellFormed st
    → Valid current st
    → is_clear (parts ++ name ∷ []) st current ≡ true
    → Ready name (create_parents parts current st)
unfolding create_parents is_clear
create_parents-Ready [] name (dir_inode d) st wf valid clear = (d, refl, clear)
create_parents-Ready [] name (file_inode f) st wf valid clear = absurd (ground (arith, clear))
create_parents-Ready (part ∷ parts) name current st wf valid clear =
    turn-Ready parts part name current st (create_parents parts) (create_parents-Ready parts name)
      wf valid clear (lookup current part st) refl

-- What is ready for the name opens as a file at its start.
pub Ready-opens :
    (name : Text) (out : Outcome Inode)
    → Ready name out
    → (f : ℕ) × ((then_do out (create_last_file name)).0 ≡ ok (file_handle f 0))
unfolding is_clear
Ready-opens name (err e, st) (d, h, _) = cc
Ready-opens name (ok (file_inode f), st) (d, h, _) = cc
Ready-opens name (ok (dir_inode c), st) (d, h, clear) = go (get name (st.dir_entries c)) at_c
  where
    at_c : clear_from (inode_of (get name (st.dir_entries c))) (is_clear [] st) ≡ true
    at_c =
        let e : d ≡ c = cc in
        ap (λ i. clear_from (inode_of (get name (st.dir_entries i))) (is_clear [] st)) (sym e)
        ∙ clear

    go :
        (o : Option RamNode)
        → clear_from (inode_of o) (is_clear [] st) ≡ true
        → (f : ℕ) × ((file_in o c name st).0 ≡ ok (file_handle f 0))
    go none h = (st.next_file, refl)
    go (some (file_node f)) h = (f, refl)
    go (some (dir_node e)) h = absurd (ground (arith, h))
