-- ===== src/Vfs/RoundTrip.antt =====
-- A file that is written and read again.
use indominus_os.Prelude.{
  ℕ, ◌+◌, ◌<◌, ◌≡◌, refl, ap, sym, ◌∙◌, inl, inr, true, none, some, List, [], ◌∷◌, ◌++◌, ◌||◌,
  length, drop, arith, Bool-cases, update, update_self, Result, ok, err, ◌>>=◌, leb, u64_mod,
}
use indominus_os.Paths.{Text, is_empty, components, split}
use indominus_os.Vfs.{
  Vfs, root_path, root_fs, walk, find_mount, resolve, resolve_parts, walk_from, create_file_parts,
  create_path, write_created, write_file, read_all, read_opened, read_file, open_path,
}
use indominus_os.Vfs.Ramfs.{
  VfsError, Fault, fallible, Inode, dir_inode, file_inode, File, file_handle, Store, Outcome,
  lookup, open_node, write, overwrite, text_eq,
}
use indominus_os.Vfs.Entries.{text_eq→≡}
use indominus_os.Vfs.Trees.{WellFormed}
use indominus_os.Vfs.Creating.{contents, Created, create_file_parts-Created}
use indominus_os.Vfs.Contents.{overwrite_start, read_all-file}

-- "/" and the empty path have no parts.
root_no_parts :
    (path : Text) → (text_eq path root_path || is_empty path) ≡ true → components path ≡ []
unfolding components split
root_no_parts [] h = refl
root_no_parts (c ∷ s) h =
    let same : text_eq (c ∷ s) root_path ≡ true = ground (arith, h) in
    ap components (text_eq→≡ (c ∷ s) root_path same)

-- A path that is not under a mount point is walked from the root directory.
pub resolve-eq-walk :
    (vfs : Vfs) (fs : ℕ) (path : Text) (st : Store)
    → root_fs vfs ≡ ok fs
    → find_mount vfs (components path) ≡ none
    → resolve vfs path st ≡ walk (dir_inode fs) (components path) st
unfolding resolve
resolve-eq-walk vfs fs path st has_root no_mount =
    elim (Bool-cases (text_eq path root_path || is_empty path)) [
      | inl root ↦
          let empty = root_no_parts path root in
          rw root (
            ap (λ r. r >>= λ d. ok (dir_inode d)) has_root
            ∙ ap (λ ps. walk (dir_inode fs) ps st) (sym empty))
      | inr other ↦ rw other (parts (components path) no_mount)
    ]
  where
    parts :
        (ps : List Text)
        → find_mount vfs ps ≡ none
        → resolve_parts vfs ps st ≡ walk (dir_inode fs) ps st
    parts [] h = ap (λ r. r >>= λ d. ok (dir_inode d)) has_root
    parts (p ∷ ps) h = ap (λ m. walk_from m vfs (p ∷ ps) st) h ∙ rw has_root refl

-- Reading a path that leads to a file gives the bytes of the file.
pub read_file-bytes :
    (fuel : ℕ) (vfs : Vfs) (path : Text) (st : Store) (f : ℕ)
    → resolve vfs path st ≡ ok (file_inode f)
    → length (st.file_data f) < fuel
    → read_file fuel vfs path st ≡ some (ok (st.file_data f))
unfolding read_file open_path read_all
read_file-bytes fuel vfs path st f leads enough =
    ap (λ r. read_opened fuel (fallible (r >>= λ inode. ok (open_node inode st))) st) leads
    ∙ read_all-file fuel st f 0 [] (omega (arith, enough))

-- What a write of `bytes` over the bytes `old` leaves.
abbrev pub overwritten : List ℕ → List ℕ → List ℕ
overwritten bytes old = bytes ++ drop (length bytes) old

abbrev with_bytes : ℕ → List ℕ → Store → Store
with_bytes f bytes st = record st { file_data = update st.file_data f bytes }

walk-with_bytes :
    (ps : List Text) (inode : Inode) (f : ℕ) (bytes : List ℕ) (st : Store)
    → walk inode ps (with_bytes f bytes st) ≡ walk inode ps st
unfolding walk
walk-with_bytes [] inode f bytes st = refl
walk-with_bytes (p ∷ ps) inode f bytes st =
    ap (λ r. r >>= λ i. walk i ps (with_bytes f bytes st)) (same_lookup inode)
    ∙ next (λ i. walk-with_bytes ps i f bytes st) (lookup inode p st)
  where
    same_lookup : (i : Inode) → lookup i p (with_bytes f bytes st) ≡ lookup i p st
    same_lookup (dir_inode d) = refl
    same_lookup (file_inode g) = refl

    next :
        ((i : Inode) → walk i ps (with_bytes f bytes st) ≡ walk i ps st)
        → (r : Result VfsError Inode)
        → (r >>= λ i. walk i ps (with_bytes f bytes st)) ≡ (r >>= λ i. walk i ps st)
    next later (ok i) = later i
    next later (err e) = refl

-- A write at the start of a file that returns.
write_start :
    (f : ℕ) (bytes : List ℕ) (st st' : Store) (n : ℕ)
    → write_created bytes (ok (file_handle f 0), st) ≡ (ok n, st')
    → (n ≡ length bytes) × (st' ≡ with_bytes f (overwritten bytes (st.file_data f)) st)
unfolding write
write_start f bytes st st' n done = elim (Bool-cases (leb u64_mod (0 + length bytes))) [
  | inl over ↦
      let panicked : write_created bytes (ok (file_handle f 0), st) ≡ (err Fault.panics, st) =
        rw over refl in
      let conflict : err Fault.panics ≡ ok n = ap (λ p. p.0) (sym panicked ∙ done) in cc
  | inr fits ↦
      let after = with_bytes f (overwrite 0 bytes (st.file_data f)) st in
      let e : write_created bytes (ok (file_handle f 0), st) ≡ (ok (length bytes), after) =
        rw fits refl in
      let count : ok (length bytes) ≡ ok n = ap (λ p. p.0) (sym e ∙ done) in
      (
        cc,
        ap (λ p. p.1) (sym done ∙ e)
            ∙ ap (λ b. with_bytes f b st) (overwrite_start bytes (st.file_data f)),
      )
]

-- If `write_file` succeeds on a path that is not under a mount point, it has written all the bytes,
-- and `read_file` then comes to its end and gives these bytes, followed by what the file had beyond
-- them before. The store is a forest with the root directory, and the number of reads allowed is
-- larger than the number of bytes.
pub read_after_write :
    (vfs : Vfs) (fs : ℕ) (path : Text) (bytes : List ℕ) (st st' : Store) (n fuel : ℕ)
    → WellFormed st
    → root_fs vfs ≡ ok fs
    → fs < st.next_dir
    → find_mount vfs (components path) ≡ none
    → write_file vfs path bytes st ≡ (ok n, st')
    → length (overwritten bytes (contents (resolve vfs path st) st)) < fuel
    → (n ≡ length bytes)
      × (read_file fuel vfs path st'
          ≡ some (ok (overwritten bytes (contents (resolve vfs path st) st))))
unfolding write_file create_path
read_after_write vfs fs path bytes st st' n fuel wf has_root valid no_mount written enough =
    go (create_file_parts vfs (components path) st)
      (create_file_parts-Created vfs fs (components path) st has_root wf valid) written
  where
    go :
        (out : Outcome File)
        → Created (dir_inode fs) (components path) st out
        → write_created bytes out ≡ (ok n, st')
        → (n ≡ length bytes)
          × (read_file fuel vfs path st'
              ≡ some (ok (overwritten bytes (contents (resolve vfs path st) st))))
    go (err e, mid) _ done = let conflict : err (Fault.refused e) ≡ ok n = ap (λ p. p.0) done in cc
    go (ok file, mid) (wf', g, (f, is, leads, held)) done =
        let old : List ℕ = contents (resolve vfs path st) st in
        let (count, after) =
          write_start f bytes mid st' n
            (ap (λ h. write_created bytes (ok h, mid)) (sym is) ∙ done) in
        let walked = resolve-eq-walk vfs fs path st has_root no_mount in
        let kept : mid.file_data f ≡ old = held ∙ ap (λ r. contents r st) (sym walked) in
        let stored : st'.file_data f ≡ overwritten bytes old =
          ap (λ s. s.file_data f) after
          ∙ update_self mid.file_data f (overwritten bytes (mid.file_data f))
          ∙ ap (overwritten bytes) kept in
        let leads' : resolve vfs path st' ≡ ok (file_inode f) =
          resolve-eq-walk vfs fs path st' has_root no_mount
          ∙ ap (walk (dir_inode fs) (components path)) after
          ∙ walk-with_bytes (components path) (dir_inode fs) f (overwritten bytes (mid.file_data f))
              mid
          ∙ leads in
        (
          count,
          read_file-bytes fuel vfs path st' f leads' (omega (arith, enough, ap length stored))
              ∙ ap (λ b. some (ok b)) stored,
        )
