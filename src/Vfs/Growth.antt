-- ===== src/Vfs/Growth.antt =====
-- What new entries, removed entries and changed bytes do to the forest of directories.
use indominus_os.Prelude.{
  ℕ, ◌+◌, ◌<◌, ◌≡◌, ◌≢◌, refl, ap, sym, ◌∙◌, fun_ext, inl, inr, none, some, List, [], ◌==◌, arith,
  Bool-cases, update,
}
use indominus_os.Paths.{Text}
use indominus_os.Vfs.Ramfs.{
  RamNode, file_node, dir_node, Store, text_eq, get, insert, remove, add_file, add_dir,
}
use indominus_os.Vfs.Entries.{text_eq→≡, get-remove_same, get-remove_other}
use indominus_os.Vfs.Trees.{
  WellFormed, Grows, with_entry, added_kept, added-one_entry, added-vacant, new_or_old,
}

-- What `add_file` and `add_dir` do for a name that is not there.
module _ (st : Store) (d : ℕ) (name : Text) (wf : WellFormed st) (exists : d < st.next_dir)
    (absent : get name (st.dir_entries d) ≡ none) where
  unused_file : (e : ℕ) (n : Text) → get n (st.dir_entries e) ≢ some (file_node st.next_file)
  unused_file e n h = absurd (omega (arith, wf.files_below e st.next_file n h))

  unused_dir : (e : ℕ) (n : Text) → get n (st.dir_entries e) ≢ some (dir_node st.next_dir)
  unused_dir e n h = absurd (omega (arith, (wf.dirs_later e st.next_dir n h).1))

  add_dir_entries :
      (add_dir d name st).dir_entries ≡ with_entry d name (dir_node st.next_dir) st.dir_entries
  add_dir_entries =
      ap (λ E. update E d (insert name (dir_node st.next_dir) (st.dir_entries d))) (fun_ext cleared)
    where
      cleared : (e : ℕ) → update st.dir_entries st.next_dir [] e ≡ st.dir_entries e
      cleared e = elim (Bool-cases (st.next_dir == e)) [
        | inl at ↦ rw at (sym (wf.vacant e (ground arith)))
        | inr away ↦ rw away refl
      ]

  pub add_file-Grows : Grows st (add_file d name st)
  add_file-Grows = record {
    dirs_le = omega arith;
    files_le = omega arith;
    entries_kept =
        added_kept st (add_file d name st) d name (file_node st.next_file) wf exists absent
          unused_file refl;
    bytes_kept = λ f below. ground arith;
  }

  pub add_dir-Grows : Grows st (add_dir d name st)
  add_dir-Grows = record {
    dirs_le = omega arith;
    files_le = omega arith;
    entries_kept =
        added_kept st (add_dir d name st) d name (dir_node st.next_dir) wf exists absent unused_dir
          add_dir_entries;
    bytes_kept = λ f below. refl;
  }

  pub add_file-WellFormed : WellFormed (add_file d name st)
  add_file-WellFormed = record {
    vacant = added-vacant st st' d name new wf exists absent unused_file refl;
    dirs_later = later;
    files_below = below;
    one_entry = added-one_entry st st' d name new wf exists absent unused_file refl;
  }
    where
      st' : Store
      st' = add_file d name st

      new : RamNode
      new = file_node st.next_file

      later :
          (c e : ℕ) (n : Text)
          → get n (st'.dir_entries c) ≡ some (dir_node e)
          → (c < e) × (e < st.next_dir)
      later c e n h =
          elim (new_or_old st st' d name new wf exists absent unused_file refl c n (dir_node e) h) [
            | inl (_, different) ↦ absurd cc
            | inr old ↦ wf.dirs_later c e n old
          ]

      below :
          (c f : ℕ) (n : Text)
          → get n (st'.dir_entries c) ≡ some (file_node f)
          → f < st.next_file + 1
      below c f n h =
          elim (new_or_old st st' d name new wf exists absent unused_file refl c n (file_node f)
            h) [
              | inl (_, same) ↦ let e : f ≡ st.next_file = cc in omega (arith, e)
              | inr old ↦ omega (arith, wf.files_below c f n old)
            ]

  pub add_dir-WellFormed : WellFormed (add_dir d name st)
  add_dir-WellFormed = record {
    vacant = λ e above.
        added-vacant st st' d name new wf exists absent unused_dir add_dir_entries e
          (omega (arith, above));
    dirs_later = later;
    files_below = below;
    one_entry = added-one_entry st st' d name new wf exists absent unused_dir add_dir_entries;
  }
    where
      st' : Store
      st' = add_dir d name st

      new : RamNode
      new = dir_node st.next_dir

      later :
          (c e : ℕ) (n : Text)
          → get n (st'.dir_entries c) ≡ some (dir_node e)
          → (c < e) × (e < st.next_dir + 1)
      later c e n h =
          elim (new_or_old st st' d name new wf exists absent unused_dir add_dir_entries c n
            (dir_node e) h) [
              | inl (near, same) ↦
                  let at : e ≡ st.next_dir = cc in (omega (arith, near, at), omega (arith, at))
              | inr old ↦
                  let (after, there) = wf.dirs_later c e n old in (after, omega (arith, there))
            ]

      below :
          (c f : ℕ) (n : Text) → get n (st'.dir_entries c) ≡ some (file_node f) → f < st.next_file
      below c f n h =
          elim (new_or_old st st' d name new wf exists absent unused_dir add_dir_entries c n
            (file_node f) h) [ inl (_, different) ↦ absurd cc | inr old ↦ wf.files_below c f n old ]

-- Removing an entry, or changing the bytes of a file, keeps the forest.
pub remove-WellFormed :
    (st : Store) (d : ℕ) (name : Text)
    → WellFormed st
    → WellFormed
        (record st { dir_entries = update st.dir_entries d (remove name (st.dir_entries d)) })
remove-WellFormed st d name wf = record {
  vacant = λ e above. elim (Bool-cases (d == e)) [
    | inl at ↦
        let none_here : st.dir_entries d ≡ [] = wf.vacant d (ground arith) in
        rw at (rw none_here refl)
    | inr away ↦ rw away (wf.vacant e above)
  ];
  dirs_later = λ c e n h. wf.dirs_later c e n (was c n (dir_node e) h);
  files_below = λ c f n h. wf.files_below c f n (was c n (file_node f) h);
  one_entry =
      λ e e' n n' node h h'. wf.one_entry e e' n n' node (was e n node h) (was e' n' node h');
}
  where
    gone :
        (n : Text) (node : RamNode)
        → n ≡ name
        → get n (remove name (st.dir_entries d)) ≡ some node
        → ⊥
    gone n node here h =
        let none_here = get-remove_same name (st.dir_entries d) in
        let found : get name (remove name (st.dir_entries d)) ≡ some node = cc in cc

    was :
        (e : ℕ) (n : Text) (node : RamNode)
        → get n (update st.dir_entries d (remove name (st.dir_entries d)) e) ≡ some node
        → get n (st.dir_entries e) ≡ some node
    was e n node h = elim (Bool-cases (d == e)) [
      | inr away ↦
          let same : update st.dir_entries d (remove name (st.dir_entries d)) e ≡ st.dir_entries e =
            rw away refl in
          sym (ap (get n) same) ∙ h
      | inl at ↦
          let cut : update st.dir_entries d (remove name (st.dir_entries d)) e
              ≡ remove name (st.dir_entries d) =
            rw at refl in
          let back : st.dir_entries d ≡ st.dir_entries e = ap st.dir_entries (ground arith) in
          elim (Bool-cases (text_eq n name)) [
            | inl here ↦ absurd (gone n node (text_eq→≡ n name here) (sym (ap (get n) cut) ∙ h))
            | inr other ↦
                ap (get n) (sym back)
                ∙ sym (get-remove_other name n (st.dir_entries d) other)
                ∙ sym (ap (get n) cut)
                ∙ h
          ]
    ]

pub write-WellFormed :
    (st : Store) (file_data : ℕ → List ℕ)
    → WellFormed st
    → WellFormed (record st { file_data = file_data })
write-WellFormed st file_data wf = record {
  vacant = wf.vacant;
  dirs_later = wf.dirs_later;
  files_below = wf.files_below;
  one_entry = wf.one_entry;
}
