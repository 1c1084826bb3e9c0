-- ===== src/Vfs/Directories.antt =====
-- A directory that is read like a file.
use indominus_os.Prelude.{
  ℕ, zero, suc, ◌+◌, ◌≤◌, ◌≡◌, refl, ap, ◌∙◌, true, false, none, List, [], ◌∷◌, ◌++◌, arith, length,
  take, ltb, ok, ◌>>=◌, length-take, length-append, ge→ltb, lt→ltb,
}
use indominus_os.Paths.{Text}
use indominus_os.Vfs.{Vfs, chunk, resolve, open_path, read_all, next_chunk, read_opened, read_file}
use indominus_os.Vfs.Ramfs.{
  fallible, dir_inode, dir_handle, Store, list_entries, pack, read, open_node,
}

-- A read that stops within the first name stays at it.
read_first_name :
    (name : Text) (names : List Text) (st : Store)
    → chunk ≤ length name
    → (b : ℕ) × (got : List ℕ) × (read (dir_handle (name ∷ names) 0) chunk st
        ≡ (ok (b ∷ got), dir_handle (name ∷ names) 0))
unfolding read
read_first_name [] names st long = absurd (omega arith)
read_first_name (c ∷ name) names st long =
    let got = take 511 (name ++ 0 ∷ pack names) in
    let count : length got ≡ 511 = omega (
      arith,
      length-take 511 (name ++ 0 ∷ pack names),
      length-append name (0 ∷ pack names),
      long,
    ) in
    let in_range : ltb (suc (length names)) 0 ≡ false =
      ge→ltb (suc (length names)) 0 (omega arith) in
    let short : ltb (suc (length got)) (suc (length name) + 1) ≡ true =
      lt→ltb (suc (length got)) (suc (length name) + 1) (omega (arith, count, long)) in
    (c, got, rw (in_range, short) refl)

read_all_stuck :
    (fuel : ℕ) (name : Text) (names : List Text) (st : Store) (buf : List ℕ)
    → chunk ≤ length name
    → read_all fuel st (dir_handle (name ∷ names) 0) buf ≡ none
unfolding read_all
read_all_stuck zero name names st buf long = refl
read_all_stuck (suc fuel) name names st buf long =
    let (b, got, stays) = read_first_name name names st long in
    ap (λ r. next_chunk r buf (read_all fuel st)) stays
    ∙ read_all_stuck fuel name names st (buf ++ b ∷ got) long

-- `read_file` on a directory whose first name has 512 bytes or more never comes to its end, however
-- many reads it is allowed.
pub read_file_stuck :
    (fuel : ℕ) (vfs : Vfs) (path : Text) (st : Store) (d : ℕ) (name : Text) (names : List Text)
    → resolve vfs path st ≡ ok (dir_inode d)
    → list_entries (st.dir_entries d) ≡ name ∷ names
    → chunk ≤ length name
    → read_file fuel vfs path st ≡ none
unfolding read_file open_path
read_file_stuck fuel vfs path st d name names leads listed long =
    ap (λ r. read_opened fuel (fallible (r >>= λ inode. ok (open_node inode st))) st) leads
    ∙ ap (λ l. read_all fuel st (dir_handle l 0) []) listed
    ∙ read_all_stuck fuel name names st [] long
