-- ===== src/Vfs/Parents.antt =====
-- Walks through the tree, and the directories that `resolve_or_create_parents` makes on its way.
use indominus_os.Prelude.{
  ℕ, ◌<◌, ◌≡◌, refl, ap, ◌∙◌, Option, none, some, List, [], ◌∷◌, ◌++◌, Result, ok, err, ◌>>=◌,
  bind-eq-ok, subst,
}
use indominus_os.Paths.{Text}
use indominus_os.Vfs.{walk}
use indominus_os.Vfs.Ramfs.{
  VfsError, RamNode, file_node, dir_node, Inode, dir_inode, file_inode, Store, get, inode_of,
  lookup,
}
use indominus_os.Vfs.Trees.{WellFormed, Grows}

-- An id that has been given out.
abbrev pub Valid : Inode → Store → Type 0
Valid (dir_inode d) st = d < st.next_dir
Valid (file_inode f) st = f < st.next_file

-- What a lookup has found is an entry.
pub lookup-file :
    (d f : ℕ) (name : Text) (st : Store)
    → lookup (dir_inode d) name st ≡ ok (file_inode f)
    → get name (st.dir_entries d) ≡ some (file_node f)
lookup-file d f name st found = go (get name (st.dir_entries d)) found
  where
    go : (o : Option RamNode) → inode_of o ≡ ok (file_inode f) → o ≡ some (file_node f)
    go none e = cc
    go (some (file_node g)) e = cc
    go (some (dir_node g)) e = cc

lookup-dir :
    (d e : ℕ) (name : Text) (st : Store)
    → lookup (dir_inode d) name st ≡ ok (dir_inode e)
    → get name (st.dir_entries d) ≡ some (dir_node e)
lookup-dir d e name st found = go (get name (st.dir_entries d)) found
  where
    go : (o : Option RamNode) → inode_of o ≡ ok (dir_inode e) → o ≡ some (dir_node e)
    go none h = cc
    go (some (file_node g)) h = cc
    go (some (dir_node g)) h = cc

pub lookup-none :
    (d : ℕ) (name : Text) (st : Store) (e : VfsError)
    → lookup (dir_inode d) name st ≡ err e
    → get name (st.dir_entries d) ≡ none
lookup-none d name st e missing = go (get name (st.dir_entries d)) missing
  where
    go : (o : Option RamNode) → inode_of o ≡ err e → o ≡ none
    go none h = refl
    go (some (file_node g)) h = cc
    go (some (dir_node g)) h = cc

pub lookup-Valid :
    (inode next : Inode) (name : Text) (st : Store)
    → WellFormed st
    → lookup inode name st ≡ ok next
    → Valid next st
lookup-Valid (dir_inode d) (dir_inode e) name st wf h =
    (wf.dirs_later d e name (lookup-dir d e name st h)).1
lookup-Valid (dir_inode d) (file_inode f) name st wf h =
    wf.files_below d f name (lookup-file d f name st h)
lookup-Valid (file_inode g) next name st wf h = cc

pub lookup-Grows :
    (inode next : Inode) (name : Text) (st st' : Store)
    → Grows st st'
    → lookup inode name st ≡ ok next
    → lookup inode name st' ≡ ok next
lookup-Grows (dir_inode d) (dir_inode e) name st st' g h =
    ap inode_of (g.entries_kept d name (dir_node e) (lookup-dir d e name st h))
lookup-Grows (dir_inode d) (file_inode f) name st st' g h =
    ap inode_of (g.entries_kept d name (file_node f) (lookup-file d f name st h))
lookup-Grows (file_inode g) next name st st' gr h = cc

pub walk_step :
    (inode next : Inode) (p : Text) (ps : List Text) (st : Store)
    → lookup inode p st ≡ ok next
    → walk inode (p ∷ ps) st ≡ walk next ps st
unfolding walk
walk_step inode next p ps st h = ap (λ r. r >>= λ j. walk j ps st) h

-- The first step of a walk that arrives.
pub first_step :
    (inode end : Inode) (p : Text) (ps : List Text) (st : Store)
    → walk inode (p ∷ ps) st ≡ ok end
    → (next : Inode) × (lookup inode p st ≡ ok next) × (walk next ps st ≡ ok end)
unfolding walk
first_step inode end p ps st h = bind-eq-ok (lookup inode p st) (λ j. walk j ps st) h

pub walk-Valid :
    (ps : List Text) (inode end : Inode) (st : Store)
    → WellFormed st
    → Valid inode st
    → walk inode ps st ≡ ok end
    → Valid end st
unfolding walk
walk-Valid [] inode end st wf valid h = let e : inode ≡ end = cc in subst (λ i. Valid i st) e valid
walk-Valid (p ∷ ps) inode end st wf valid h =
    let (next, found, rest) = first_step inode end p ps st h in
    walk-Valid ps next end st wf (lookup-Valid inode next p st wf found) rest

pub walk-Grows :
    (ps : List Text) (inode end : Inode) (st st' : Store)
    → Grows st st'
    → walk inode ps st ≡ ok end
    → walk inode ps st' ≡ ok end
unfolding walk
walk-Grows [] inode end st st' g h = h
walk-Grows (p ∷ ps) inode end st st' g h =
    let (next, found, rest) = first_step inode end p ps st h in
    walk_step inode next p ps st' (lookup-Grows inode next p st st' g found)
    ∙ walk-Grows ps next end st st' g rest

-- The walk to the parent, and one name further.
pub walk-append :
    (ps : List Text) (inode parent : Inode) (name : Text) (st : Store)
    → walk inode ps st ≡ ok parent
    → walk inode (ps ++ name ∷ []) st ≡ lookup parent name st
unfolding walk
walk-append [] inode parent name st h =
    let e : inode ≡ parent = cc in rw e (last (lookup parent name st))
  where
    last : (r : Result VfsError Inode) → (r >>= λ j. ok j) ≡ r
    last (ok j) = refl
    last (err e) = refl
walk-append (p ∷ ps) inode parent name st h =
    let (next, found, rest) = first_step inode parent p ps st h in
    walk_step inode next p (ps ++ name ∷ []) st found ∙ walk-append ps next parent name st rest
