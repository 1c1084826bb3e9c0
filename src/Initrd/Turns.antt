-- ===== src/Initrd/Turns.antt =====
-- One turn of the loop.
use indominus_os.Prelude.{
  ℕ, ◌+◌, ◌-◌, ◌≤◌, ◌<◌, ◌≡◌, ap, sym, subst, inl, inr, Bool, not, ◌||◌, List, length, ltb, leb,
  ◌==◌, arith, Bool-cases, Result, ok, err, either_way, u64_mod, take, drop, length-take,
  length-drop, ltb→ge,
}
use indominus_os.Paths.{Text, is_empty, components}
use indominus_os.Vfs.{
  Vfs, root_fs, create_file_parts, create_path, create_dir_path, write_created, write_file,
}
use indominus_os.Vfs.Ramfs.{Fault, File, Store, Outcome, dir_inode, text_eq, zeros}
use indominus_os.Vfs.Creating.{Created, create_file_parts-Created}
use indominus_os.Vfs.Invariant.{Sound, creates_dir, writes, step-Sound}
use indominus_os.Vfs.WriteRead.{write_created-ok}
use indominus_os.Initrd.{
  Failure, bad, panic, parse_header, header_size, align4, Header, Load, Turn, goes_on, stops,
  panics, trailer, contains_dotdot, ends_with_slash, without_last, advance, made_dir, made_file,
  add_entry, with_data, with_name, with_header, with_start, load_turn,
}
use indominus_os.Initrd.Headers.{Calm, Fits, slice_inside, parse_header-Calm}

-- The turn does not panic; if it goes on, it goes on further ahead; and the files stay a forest.
abbrev pub Forward : List ℕ → ℕ → ℕ → Turn → Type 0
Forward bytes fs offset (goes_on l) =
    (offset < l.offset) × (offset < length bytes) × Sound fs l.store
Forward bytes fs offset (stops l) = Sound fs l.store
Forward bytes fs offset panics = ⊥

-- Not a panic.
abbrev pub Written : Result Fault ℕ → Type 0
Written (ok n) = Unit
Written (err (Fault.refused e)) = Unit
Written (err Fault.panics) = ⊥

write_file-Written :
    (vfs : Vfs) (fs : ℕ) (path : Text) (bytes : List ℕ) (st : Store)
    → root_fs vfs ≡ ok fs
    → Sound fs st
    → length bytes < u64_mod
    → Written (write_file vfs path bytes st).0
unfolding write_file create_path
write_file-Written vfs fs path bytes st has_root (wf, root) small =
    go (create_file_parts vfs (components path) st)
      (create_file_parts-Created vfs fs (components path) st has_root wf root)
  where
    go :
        (out : Outcome File)
        → Created (dir_inode fs) (components path) st out
        → Written (write_created bytes out).0
    go (err e, mid) _ = tt
    go (ok file, mid) (_, _, (f, is, _, _)) =
        let done = write_created-ok bytes (ok file, mid) f (ap ok is) small in
        subst Written (sym done) tt

module _ (is_utf8 : List ℕ → Bool) (vfs : Vfs) (fs : ℕ) (bytes : List ℕ)
    (has_root : root_fs vfs ≡ ok fs) (small : length bytes < u64_mod) where
  advance-Forward :
      (offset next : ℕ) (l : Load)
      → offset < next
      → offset < length bytes
      → Sound fs l.store
      → Forward bytes fs offset (advance bytes next l)
  advance-Forward offset next l ahead inside sound =
      either_way (Forward bytes fs offset) (next == 0 || leb (length bytes) next) sound
        (ahead, inside, sound)

  made_file-Forward :
      (offset next : ℕ) (done : Result Fault ℕ × Store) (l : Load)
      → offset < next
      → offset < length bytes
      → Written done.0
      → Sound fs done.1
      → Forward bytes fs offset (made_file bytes next done l)
  made_file-Forward offset next (ok n, st) l ahead inside calm sound =
      advance-Forward offset next (record l { file_count = l.file_count + 1; store = st }) ahead
        inside sound
  made_file-Forward offset next (err (Fault.refused e), st) l ahead inside calm sound =
      advance-Forward offset next (record l { store = st }) ahead inside sound
  made_file-Forward offset next (err Fault.panics, st) l ahead inside calm sound = absurd calm

  add_entry-Forward :
      (offset next : ℕ) (name : Text) (file_data : List ℕ) (l : Load)
      → offset < next
      → offset < length bytes
      → length file_data < u64_mod
      → Sound fs l.store
      → Forward bytes fs offset (add_entry vfs bytes next name file_data l)
  unfolding add_entry
  add_entry-Forward offset next name file_data l ahead inside few sound =
      either_way (Forward bytes fs offset) (ends_with_slash name)
        (either_way (Forward bytes fs offset) (is_empty (without_last name))
          (advance-Forward offset next l ahead inside sound)
          (advance-Forward offset next made ahead inside
            (step-Sound vfs fs (creates_dir (without_last name)) l.store has_root sound)))
        (made_file-Forward offset next (write_file vfs name file_data l.store) l ahead inside
          (write_file-Written vfs fs name file_data l.store has_root sound few)
          (step-Sound vfs fs (writes name file_data) l.store has_root sound))
    where
      made : Load
      made = made_dir (create_dir_path vfs (without_last name) l.store) l

  with_name-Forward :
      (h : Header) (name : Text) (l : Load)
      → Fits bytes l.offset h
      → Sound fs l.store
      → Forward bytes fs l.offset (with_name is_utf8 vfs bytes h (ok name) l)
  with_name-Forward h name l fits sound = either_way Q (not (is_utf8 name)) skipped (
      either_way Q (text_eq name trailer) sound (
        either_way Q (contains_dotdot name) skipped (
          subst (λ r. Q (with_data is_utf8 vfs bytes h.next_header name r l))
            (sym (slice_inside data_start end bytes (omega arith) fits.file_fits))
            (add_entry-Forward l.offset h.next_header name part l fits.ahead inside few sound))))
    where
      Q : Turn → Type 0
      Q = Forward bytes fs l.offset

      data_start : ℕ
      data_start = l.offset + header_size + align4 h.namesize

      end : ℕ
      end = data_start + h.filesize

      part : List ℕ
      part = take (end - data_start) (drop data_start bytes)

      inside : l.offset < length bytes
      inside = omega (arith, fits.name_fits)

      few : length part < u64_mod
      few = omega (
        arith,
        length-take (end - data_start) (drop data_start bytes),
        length-drop data_start bytes,
        small,
      )

      skipped : (l.offset < h.next_header) × (l.offset < length bytes) × Sound fs l.store
      skipped = (fits.ahead, inside, sound)

  with_header-Forward :
      (r : Result Failure Header) (l : Load)
      → Calm (Fits bytes l.offset) r
      → Sound fs l.store
      → Forward bytes fs l.offset (with_header is_utf8 vfs bytes r l)
  with_header-Forward (err bad) l calm sound = sound
  with_header-Forward (err panic) l calm sound = absurd calm
  with_header-Forward (ok h) l fits sound =
      let name_start = l.offset + header_size in
      let end = name_start + h.namesize - 1 in
      subst (λ r. Forward bytes fs l.offset (with_name is_utf8 vfs bytes h r l))
        (sym (
          slice_inside name_start end bytes (omega (arith, fits.named))
            (omega (arith, fits.name_fits))))
        (with_name-Forward h (take (end - name_start) (drop name_start bytes)) l fits sound)

  pub load_turn-Forward :
      (l : Load) → Sound fs l.store → Forward bytes fs l.offset (load_turn is_utf8 vfs bytes l)
  unfolding load_turn
  load_turn-Forward l sound = elim (Bool-cases (ltb (length bytes) (l.offset + header_size))) [
    | inl short ↦ rw short sound
    | inr long ↦
        let room : l.offset + header_size ≤ length bytes =
          ltb→ge (length bytes) (l.offset + header_size) long in
        let start = take (l.offset + 6 - l.offset) (drop l.offset bytes) in
        let skipped : Forward bytes fs l.offset (goes_on (record l { offset = l.offset + 1 })) =
          (omega arith, omega (arith, room), sound) in
        let e = slice_inside l.offset (l.offset + 6) bytes (omega arith) (omega (arith, room)) in
        rw long (
          subst (λ r. Forward bytes fs l.offset (with_start is_utf8 vfs bytes r l)) (sym e)
            (either_way (Forward bytes fs l.offset) (text_eq start (zeros 6)) skipped (
              with_header-Forward (parse_header bytes l.offset) l (parse_header-Calm bytes l.offset)
                sound)))
  ]
