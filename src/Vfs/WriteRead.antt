-- ===== src/Vfs/WriteRead.antt =====
-- `write_file` and then `read_file` on one path.
use indominus_os.Prelude.{
  ℕ, ◌+◌, ◌<◌, ◌≡◌, refl, ap, sym, subst, Bool, true, false, Option, none, some, List, [], ◌∷◌,
  ◌||◌, length, arith, if◌then◌else◌, ok, err, leb, u64_mod,
}
use indominus_os.Paths.{Text, components}
use indominus_os.Vfs.{
  Vfs, root_path, root_fs, find_mount, strip_mount, at_mount, resolve, all_but_last, last_part,
  create_parents, resolve_or_create_parents, create_file_parts, create_path, is_mount_point,
  is_mount_on, write_created, write_file, read_file,
}
use indominus_os.Vfs.Ramfs.{dir_inode, File, file_handle, Store, Outcome, text_eq, write}
use indominus_os.Vfs.Trees.{WellFormed}
use indominus_os.Vfs.Creating.{contents, last_split}
use indominus_os.Vfs.Success.{is_clear, Ready-opens, create_parents-Ready}
use indominus_os.Vfs.RoundTrip.{overwritten, read_after_write}

-- One mount point that does not match.
one_mount :
    (b : Bool) (mount_parts : List Text) (fs : ℕ) (p : Text) (other : Option (ℕ × List Text))
    (later : Bool)
    → (other ≡ none → later ≡ false)
    → (if b then other else at_mount (strip_mount mount_parts (p ∷ [])) fs other) ≡ none
    → (if b then later else is_mount_on mount_parts p || later) ≡ false
unfolding strip_mount
one_mount true mount_parts fs p other later rest h = rest h
one_mount false [] fs p other later rest h = cc
one_mount false (mp ∷ []) fs p other later rest h = go (text_eq mp p) h
  where
    go :
        (same : Bool)
        → at_mount (if same then some [] else none) fs other ≡ none
        → (same || later) ≡ false
    go true e = cc
    go false e = rest e
one_mount false (mp ∷ nq ∷ mount_parts) fs p other later rest h = go (text_eq mp p) h
  where
    go : (same : Bool) → at_mount (if same then none else none) fs other ≡ none → later ≡ false
    go true e = rest e
    go false e = rest e

-- A mount point is found as one.
no_mount_point :
    (vfs : Vfs) (p : Text) → find_mount vfs (p ∷ []) ≡ none → is_mount_point vfs p ≡ false
unfolding find_mount
no_mount_point [] p h = refl
no_mount_point (m ∷ mounts) p h =
    one_mount (text_eq m.path root_path) (components m.path) m.fs p (find_mount mounts (p ∷ []))
      (is_mount_point mounts p) (no_mount_point mounts p) h

create_file_parts-opens :
    (vfs : Vfs) (fs : ℕ) (parts : List Text) (st : Store)
    → root_fs vfs ≡ ok fs
    → WellFormed st
    → fs < st.next_dir
    → find_mount vfs parts ≡ none
    → is_clear parts st (dir_inode fs) ≡ true
    → (f : ℕ) × ((create_file_parts vfs parts st).0 ≡ ok (file_handle f 0))
unfolding is_clear resolve_or_create_parents
create_file_parts-opens vfs fs [] st has_root wf valid no_mount clear =
    absurd (ground (arith, clear))
create_file_parts-opens vfs fs (p ∷ []) st has_root wf valid no_mount clear =
    let free = no_mount_point vfs p no_mount in
    rw (free, has_root) (Ready-opens p (ok (dir_inode fs), st) (fs, refl, clear))
create_file_parts-opens vfs fs (p ∷ q ∷ parts) st has_root wf valid no_mount clear =
    let init = all_but_last p (q ∷ parts) in
    let name = last_part q parts in
    let clear' =
      subst (λ l. is_clear l st (dir_inode fs) ≡ true) (sym (last_split p (q ∷ parts))) clear in
    rw has_root (
      Ready-opens name (create_parents init (dir_inode fs) st)
        (create_parents-Ready init name (dir_inode fs) st wf valid clear'))

-- A file opened at its start takes any bytes whose number fits into 64 bits.
pub write_created-ok :
    (bytes : List ℕ) (out : Outcome File) (f : ℕ)
    → out.0 ≡ ok (file_handle f 0)
    → length bytes < u64_mod
    → (write_created bytes out).0 ≡ ok (length bytes)
unfolding write
write_created-ok bytes (err e, st) f h fits = cc
write_created-ok bytes (ok file, st) f h fits =
    let is : file ≡ file_handle f 0 = cc in
    let no_panic : leb u64_mod (0 + length bytes) ≡ false = ground (arith, fits) in
    rw is (rw no_panic refl)

-- On a path that is not under a mount point, along which no file stands in the way and at whose end
-- no directory stands, `write_file` writes all the bytes (fewer than 2^64). `read_file` then comes to
-- its end and gives these bytes, followed by what the file had beyond them before. The store is a
-- forest with the root directory, and more reads are allowed than there are bytes.
pub read_file-write_file :
    (vfs : Vfs) (fs : ℕ) (path : Text) (bytes : List ℕ) (st : Store) (fuel : ℕ)
    → WellFormed st
    → root_fs vfs ≡ ok fs
    → fs < st.next_dir
    → find_mount vfs (components path) ≡ none
    → is_clear (components path) st (dir_inode fs) ≡ true
    → length bytes < u64_mod
    → length (overwritten bytes (contents (resolve vfs path st) st)) < fuel
    → ((write_file vfs path bytes st).0 ≡ ok (length bytes))
      × (read_file fuel vfs path (write_file vfs path bytes st).1
          ≡ some (ok (overwritten bytes (contents (resolve vfs path st) st))))
unfolding write_file create_path
read_file-write_file vfs fs path bytes st fuel wf has_root valid no_mount clear fits enough =
    let (f, opened) =
      create_file_parts-opens vfs fs (components path) st has_root wf valid no_mount clear in
    let done = write_created-ok bytes (create_file_parts vfs (components path) st) f opened fits in
    let out = write_file vfs path bytes st in
    let whole : out ≡ (ok (length bytes), out.1) = ap (λ r. (r, out.1)) done in
    (
      done,
      (read_after_write vfs fs path bytes st out.1 (length bytes) fuel wf has_root valid no_mount
          whole enough).1,
    )
