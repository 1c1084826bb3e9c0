-- ===== src/Vfs/Trees.antt =====
-- When the store is a forest of directories, and what one new entry does to it.
use indominus_os.Prelude.{
  ℕ, ◌≤◌, ◌<◌, ◌≡◌, ◌≢◌, ◌⊎◌, subst, refl, ap, sym, ◌∙◌, inl, inr, true, false, none, some, [],
  ◌==◌, arith, Bool-cases, update,
}
use indominus_os.Paths.{Text}
use indominus_os.Vfs.Ramfs.{RamNode, file_node, dir_node, Entries, Store, text_eq, get, insert}
use indominus_os.Vfs.Entries.{text_eq→≡, get-insert_same, get-insert_other}

-- Ids that are not given out are empty; a directory lies in an older one; and each file and
-- directory has one entry at most.
pub record WellFormed (st : Store) : Type 0 where
  pub vacant : (d : ℕ) → st.next_dir ≤ d → st.dir_entries d ≡ []
  pub dirs_later :
      (d e : ℕ) (n : Text)
      → get n (st.dir_entries d) ≡ some (dir_node e)
      → (d < e) × (e < st.next_dir)
  pub files_below :
      (d f : ℕ) (n : Text) → get n (st.dir_entries d) ≡ some (file_node f) → f < st.next_file
  pub one_entry :
      (d d' : ℕ) (n n' : Text) (node : RamNode)
      → get n (st.dir_entries d) ≡ some node
      → get n' (st.dir_entries d') ≡ some node
      → (d ≡ d') × (n ≡ n')

-- What only grows: entries stay, and the bytes of a file that exists are as they were.
pub record Grows (st st' : Store) : Type 0 where
  pub dirs_le : st.next_dir ≤ st'.next_dir
  pub files_le : st.next_file ≤ st'.next_file
  pub entries_kept :
      (d : ℕ) (n : Text) (node : RamNode)
      → get n (st.dir_entries d) ≡ some node
      → get n (st'.dir_entries d) ≡ some node
  pub bytes_kept : (f : ℕ) → f < st.next_file → st'.file_data f ≡ st.file_data f

pub Grows-refl : (st : Store) → Grows st st
Grows-refl st = record {
  dirs_le = omega arith;
  files_le = omega arith;
  entries_kept = λ d n node h. h;
  bytes_kept = λ f h. refl;
}

pub Grows-trans : (a b c : Store) → Grows a b → Grows b c → Grows a c
Grows-trans a b c g h = record {
  dirs_le = omega (arith, g.dirs_le, h.dirs_le);
  files_le = omega (arith, g.files_le, h.files_le);
  entries_kept = λ d n node e. h.entries_kept d n node (g.entries_kept d n node e);
  bytes_kept = λ f below. h.bytes_kept f (omega (arith, g.files_le)) ∙ g.bytes_kept f below;
}

abbrev Same : ℕ → Text → ℕ → Text → Type 0
Same e n d name = (e ≡ d) × (n ≡ name)

abbrev pub with_entry : ℕ → Text → RamNode → (ℕ → Entries) → ℕ → Entries
with_entry d name new entries = update entries d (insert name new (entries d))

at_or_away : (e d : ℕ) (n name : Text) → Same e n d name ⊎ ((text_eq n name ≡ false) ⊎ (e ≢ d))
at_or_away e d n name = elim (Bool-cases (e == d)) [
  | inr far ↦ inr (inr (ground arith))
  | inl near ↦ elim (Bool-cases (text_eq n name)) [
    | inl here ↦ inl (ground arith, text_eq→≡ n name here)
    | inr other ↦ inr (inl other)
  ]
]

-- An entry is the new one, or it was there before.
get-with_entry :
    (entries : ℕ → Entries) (d : ℕ) (name : Text) (new : RamNode) (e : ℕ) (n : Text)
    → (Same e n d name × (get n (with_entry d name new entries e) ≡ some new))
      ⊎ (get n (with_entry d name new entries e) ≡ get n (entries e))
get-with_entry entries d name new e n = elim (at_or_away e d n name) [
  | inl (near, here) ↦ inl ((near, here), added near here)
  | inr (inl other) ↦ inr (unchanged other)
  | inr (inr far) ↦ let away : (d == e) ≡ false = ground arith in inr (rw away refl)
]
  where
    added : e ≡ d → n ≡ name → get n (with_entry d name new entries e) ≡ some new
    added near here =
        let at : (d == e) ≡ true = ground arith in
        subst (λ m. get m (with_entry d name new entries e) ≡ some new) (sym here)
          (rw at (get-insert_same name new (entries d)))

    unchanged : text_eq n name ≡ false → get n (with_entry d name new entries e) ≡ get n (entries e)
    unchanged other = elim (Bool-cases (d == e)) [
      | inl near ↦
          let back : d ≡ e = ground arith in
          rw near (get-insert_other name n new (entries d) other ∙ ap (λ i. get n (entries i)) back)
      | inr far ↦ rw far refl
    ]

-- A new entry that points to a new file or directory, in a directory that exists.
module _ (st st' : Store) (d : ℕ) (name : Text) (new : RamNode) (wf : WellFormed st)
    (exists : d < st.next_dir) (absent : get name (st.dir_entries d) ≡ none)
    (unused : (e : ℕ) (n : Text) → get n (st.dir_entries e) ≢ some new)
    (entries' : st'.dir_entries ≡ with_entry d name new st.dir_entries) where
  get-after :
      (e : ℕ) (n : Text)
      → (Same e n d name × (get n (st'.dir_entries e) ≡ some new))
        ⊎ (get n (st'.dir_entries e) ≡ get n (st.dir_entries e))
  get-after e n = rw entries' (get-with_entry st.dir_entries d name new e n)

  pub added_kept :
      (e : ℕ) (n : Text) (node : RamNode)
      → get n (st.dir_entries e) ≡ some node
      → get n (st'.dir_entries e) ≡ some node
  added_kept e n node h = elim (get-after e n) [
    | inl ((near, here), _) ↦ absurd (missing near here)
    | inr old ↦ old ∙ h
  ]
    where
      missing : e ≡ d → n ≡ name → ⊥
      missing near here = cc

  pub new_or_old :
      (e : ℕ) (n : Text) (node : RamNode)
      → get n (st'.dir_entries e) ≡ some node
      → ((e ≡ d) × (node ≡ new)) ⊎ (get n (st.dir_entries e) ≡ some node)
  new_or_old e n node h = elim (get-after e n) [
    | inl ((near, _), g) ↦ let both : some node ≡ some new = sym h ∙ g in inl (near, cc)
    | inr old ↦ inr (sym old ∙ h)
  ]

  pub added-one_entry :
      (e e' : ℕ) (n n' : Text) (node : RamNode)
      → get n (st'.dir_entries e) ≡ some node
      → get n' (st'.dir_entries e') ≡ some node
      → (e ≡ e') × (n ≡ n')
  added-one_entry e e' n n' node h h' = elim (get-after e n) [
    | inl ((near, here), g) ↦ elim (get-after e' n') [
      | inl ((near', here'), _) ↦ (near ∙ sym near', here ∙ sym here')
      | inr old ↦ absurd (unused e' n' (sym old ∙ h' ∙ sym h ∙ g))
    ]
    | inr old ↦ elim (get-after e' n') [
      | inl (_, g') ↦ absurd (unused e n (sym old ∙ h ∙ sym h' ∙ g'))
      | inr old' ↦ wf.one_entry e e' n n' node (sym old ∙ h) (sym old' ∙ h')
    ]
  ]

  pub added-vacant : (e : ℕ) → st.next_dir ≤ e → st'.dir_entries e ≡ []
  added-vacant e above =
      let away : (d == e) ≡ false = ground arith in
      ap (λ E. E e) entries' ∙ rw away (wf.vacant e above)
