-- ===== src/Vfs/Making.antt =====
-- The directories that `resolve_or_create_parents` makes on its way.
use indominus_os.Prelude.{
  ℕ, ◌<◌, ◌≡◌, refl, ap, sym, ◌∙◌, none, List, [], ◌∷◌, ◌++◌, arith, update, Result, ok, err,
  update_self,
}
use indominus_os.Paths.{Text}
use indominus_os.Vfs.{walk, enter, create_parents}
use indominus_os.Vfs.Ramfs.{
  VfsError, not_found, dir_node, Inode, dir_inode, file_inode, Store, Outcome, get, insert,
  inode_of, lookup, add_dir,
}
use indominus_os.Vfs.Entries.{get-insert_same}
use indominus_os.Vfs.Trees.{WellFormed, Grows, Grows-refl, Grows-trans}
use indominus_os.Vfs.Growth.{add_dir-Grows, add_dir-WellFormed}
use indominus_os.Vfs.Parents.{
  Valid, lookup-none, lookup-Valid, lookup-Grows, first_step, walk_step, walk-append,
}

-- Where the loop has led: the walk arrives there now, and a file that is there now was there before.
abbrev pub Led : Inode → List Text → Store → Outcome Inode → Type 0
Led current parts st (err e, st') = Unit
Led current parts st (ok inode, st') =
    Valid inode st'
    × (walk current parts st' ≡ ok inode)
    × ((name : Text) (f : ℕ)
        → lookup inode name st' ≡ ok (file_inode f)
        → walk current (parts ++ name ∷ []) st ≡ ok (file_inode f))

abbrev pub Reached : Inode → List Text → Store → Outcome Inode → Type 0
Reached current parts st out = WellFormed out.1 × Grows st out.1 × Led current parts st out

-- A step into a directory that is there.
step_in :
    (parts : List Text) (current next : Inode) (part : Text) (st : Store) (out : Outcome Inode)
    → lookup current part st ≡ ok next
    → Reached next parts st out
    → Reached current (part ∷ parts) st out
step_in parts current next part st (err e, st') found (wf, g, _) = (wf, g, tt)
step_in parts current next part st (ok inode, st') found (wf, g, (valid, arrives, files)) =
    let later = lookup-Grows current next part st st' g found in
    (
      wf,
      g,
      (
        valid,
        walk_step current next part parts st' later ∙ arrives,
        λ name f here.
            walk_step current next part (parts ++ name ∷ []) st found ∙ files name f here,
      ),
    )

-- A new directory is empty.
new_dir_empty :
    (d : ℕ) (parts : List Text) (part name : Text) (f : ℕ) (st : Store)
    → d < st.next_dir
    → walk (dir_inode st.next_dir) (parts ++ name ∷ []) (add_dir d part st) ≡ ok (file_inode f)
    → ⊥
unfolding walk
new_dir_empty d parts part name f st below h = go parts h
  where
    empty : (add_dir d part st).dir_entries st.next_dir ≡ []
    empty = ground arith

    no_step :
        (q : Text) (qs : List Text)
        → walk (dir_inode st.next_dir) (q ∷ qs) (add_dir d part st) ≡ ok (file_inode f)
        → ⊥
    no_step q qs arrives =
        let (next, found, _) =
          first_step (dir_inode st.next_dir) (file_inode f) q qs (add_dir d part st) arrives in
        let missing = ap (λ entries. inode_of (get q entries)) empty in
        let conflict : err not_found ≡ ok next = sym missing ∙ found in cc

    go :
        (ps : List Text)
        → walk (dir_inode st.next_dir) (ps ++ name ∷ []) (add_dir d part st) ≡ ok (file_inode f)
        → ⊥
    go [] arrives = no_step name [] arrives
    go (p ∷ ps) arrives = no_step p (ps ++ name ∷ []) arrives

-- The directory that `add_dir` makes is found.
pub lookup-add_dir :
    (d : ℕ) (part : Text) (st : Store)
    → lookup (dir_inode d) part (add_dir d part st) ≡ ok (dir_inode st.next_dir)
lookup-add_dir d part st =
    let new = insert part (dir_node st.next_dir) (st.dir_entries d) in
    ap (λ entries. inode_of (get part entries))
      (update_self (update st.dir_entries st.next_dir []) d new)
    ∙ ap inode_of (get-insert_same part (dir_node st.next_dir) (st.dir_entries d))

-- A step into a directory that is made.
step_made :
    (parts : List Text) (d : ℕ) (part : Text) (st : Store) (out : Outcome Inode)
    → WellFormed st
    → d < st.next_dir
    → get part (st.dir_entries d) ≡ none
    → Reached (dir_inode st.next_dir) parts (add_dir d part st) out
    → Reached (dir_inode d) (part ∷ parts) st out
step_made parts d part st (err e, st') wf below absent (wf', g, _) =
    (wf', Grows-trans st (add_dir d part st) st' (add_dir-Grows st d part wf below absent) g, tt)
step_made parts d part st (ok inode, st') wf below absent (wf', g, (valid, arrives, files)) =
    let new : Inode = dir_inode st.next_dir in
    let made : Store = add_dir d part st in
    let later = lookup-Grows (dir_inode d) new part made st' g (lookup-add_dir d part st) in
    (
      wf',
      Grows-trans st made st' (add_dir-Grows st d part wf below absent) g,
      (
        valid,
        walk_step (dir_inode d) new part parts st' later ∙ arrives,
        λ name f here. absurd (new_dir_empty d parts part name f st below (files name f here)),
      ),
    )

-- One turn of the loop, if the turns after it do what they should.
turn-Reached :
    (parts : List Text) (part : Text) (current : Inode) (st : Store)
    (next : Inode → Store → Outcome Inode)
    → ((i : Inode) (s : Store) → WellFormed s → Valid i s → Reached i parts s (next i s))
    → WellFormed st
    → Valid current st
    → (r : Result VfsError Inode) → lookup current part st ≡ r
    → Reached current (part ∷ parts) st (enter r part current next st)
turn-Reached parts part current st next later wf valid (ok (dir_inode e)) h =
    let there = lookup-Valid current (dir_inode e) part st wf h in
    step_in parts current (dir_inode e) part st (next (dir_inode e) st) h
      (later (dir_inode e) st wf there)
turn-Reached parts part current st next later wf valid (ok (file_inode f)) h =
    (wf, Grows-refl st, tt)
turn-Reached parts part (file_inode f) st next later wf valid (err e) h = (wf, Grows-refl st, tt)
turn-Reached parts part (dir_inode d) st next later wf valid (err e) h =
    let absent = lookup-none d part st e h in
    let made : Store = add_dir d part st in
    rw (absent, lookup-add_dir d part st)
      (step_made parts d part st (next (dir_inode st.next_dir) made) wf valid absent (
        later (dir_inode st.next_dir) made (add_dir-WellFormed st d part wf valid absent)
          (omega arith)))

-- The loop keeps the forest and what is in it, and the walk along its parts then arrives.
pub create_parents-Reached :
    (parts : List Text) (current : Inode) (st : Store)
    → WellFormed st
    → Valid current st
    → Reached current parts st (create_parents parts current st)
unfolding create_parents walk
create_parents-Reached [] current st wf valid = (
  wf,
  Grows-refl st,
  (valid, refl, λ name f here. walk-append [] current current name st refl ∙ here),
)
create_parents-Reached (part ∷ parts) current st wf valid =
    turn-Reached parts part current st (create_parents parts) (create_parents-Reached parts) wf
      valid (lookup current part st) refl
