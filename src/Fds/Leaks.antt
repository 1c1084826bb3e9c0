-- ===== src/Fds/Leaks.antt =====
-- Where descriptors and what they stand for part.
use indominus_os.Prelude.{
  ℕ, ◌+◌, ◌-◌, ◌^◌, ◌<◌, ◌≡◌, refl, ap, sym, ◌∙◌, subst, Bool, false, Option, none, some, ltb, leb,
  update, arith, either_way,
}
use indominus_os.Pipe.{Pipe}
use indominus_os.Pipe.Table.{Pipes, max_pipes}
use indominus_os.Vfs.Ramfs.{File}
use indominus_os.Fds.{
  FdType, closed, stdin, stdout, stderr, null, tty, pipe_end, fs_file, FdTable, World, max_fds,
  emfile, find_free, drop_end, add_end, close_end, clear_fd, close_type, close_in, sys_close,
  count_end, dup_in, sys_dup, dup_type, place,
}
use indominus_os.Wake.{keyboard_wake}
use indominus_os.Fds.Ends.{is_end, ends_below, ends_below-le, is_end-le-ends_below}
use indominus_os.Fds.Counts.{Agree, change_pipe-at, is_end_self}
use indominus_os.Fds.Calls.{types_of, Counted, count_end-pipes}
use indominus_os.Fds.Replacing.{fds_if, count_copied-fds}

-- The count goes up, and what it should agree with does not.
one_more : (o : Option Pipe) (n : ℕ) → n + 1 < 2 ^ 16 → 0 < n → Agree o n → Agree (add_end o) n → ⊥
one_more none n small some_end h h' = absurd (omega (arith, some_end, h))
one_more (some p) n small some_end (h, _) (h', _) = absurd (omega (arith, h, h', small))

-- `sys_dup` of an end of a pipe, in a table without a closed descriptor, fails with EMFILE and still
-- counts the end: if the counts agreed with the descriptors before, they do not any more.
pub sys_dup_leaks :
    (others : ℕ → ℕ) (world : World) (t : FdTable) (fd idx : ℕ) (writable : Bool)
    → fd < max_fds
    → idx < max_pipes
    → others idx + max_fds + 1 < 2 ^ 16
    → world.current_fds ≡ some t
    → t.fd_types fd ≡ pipe_end idx writable
    → find_free max_fds 0 t.fd_types ≡ none
    → Counted others world
    → ((sys_dup fd world).0 ≡ emfile) × (Counted others (sys_dup fd world).1 → ⊥)
unfolding sys_dup
sys_dup_leaks others world t fd idx writable below low small now is full counted =
    (ap (λ r. r.0) e, λ after. worse (subst (λ r. Counted others r.1) e after))
  where
    e : sys_dup fd world ≡ (emfile, count_end idx world)
    e =
        let inside : leb max_fds fd ≡ false = ground (arith, below) in
        let start : sys_dup fd world ≡ dup_in world.current_fds fd world = rw inside refl in
        start
        ∙ ap (λ fds. dup_in fds fd world) now
        ∙ ap (λ type. dup_type type t world) is
        ∙ ap (λ o. place o (pipe_end idx writable) t (count_end idx world)) full

    n : ℕ
    n = ends_below max_fds idx (types_of world.current_fds) + others idx

    room : n + 1 < 2 ^ 16
    room = omega (arith, ends_below-le max_fds idx (types_of world.current_fds), small)

    at_fd : types_of world.current_fds fd ≡ pipe_end idx writable
    at_fd = ap (λ fds. types_of fds fd) now ∙ is

    some_end : 0 < n
    some_end = omega (
      arith,
      is_end-le-ends_below max_fds idx (types_of world.current_fds) fd below,
      ap (is_end idx) at_fd,
      is_end_self idx writable,
    )

    worse : Counted others (count_end idx world) → ⊥
    worse after =
        let raised =
          ap (λ ps. ps idx) (count_end-pipes idx world)
          ∙ change_pipe-at idx add_end world.pipes low in
        let kept = count_copied-fds (pipe_end idx writable) world in
        one_more (world.pipes idx) n room some_end (counted idx low) (
          subst (λ o. Agree o n) raised
            (subst
              (λ fds.
                Agree ((count_end idx world).pipes idx)
                  (ends_below max_fds idx (types_of fds) + others idx))
              kept (after idx low)))

abbrev pub handles_of : Option FdTable → ℕ → Option File
handles_of none index = none
handles_of (some t) index = t.file_handles index

-- `sys_close` leaves every file handle of the process as it is, so that the handle of a file is not
-- free for another file when its last descriptor is closed.
pub sys_close_keeps_handles :
    (fd : ℕ) (world : World) (index : ℕ)
    → handles_of (sys_close fd world).1.current_fds index ≡ handles_of world.current_fds index
unfolding sys_close close_end
sys_close_keeps_handles fd world index =
    either_way Kept (leb max_fds fd) refl (in_table world.current_fds refl)
  where
    Kept : ℕ × World → Type 0
    Kept r = handles_of r.1.current_fds index ≡ handles_of world.current_fds index

    typed :
        (t : FdTable)
        → world.current_fds ≡ some t
        → (type : FdType) → Kept (close_type type fd t world)
    typed t now closed = refl
    typed t now stdin = ap (λ fds. handles_of fds index) (sym now)
    typed t now stdout = ap (λ fds. handles_of fds index) (sym now)
    typed t now stderr = ap (λ fds. handles_of fds index) (sym now)
    typed t now null = ap (λ fds. handles_of fds index) (sym now)
    typed t now tty = ap (λ fds. handles_of fds index) (sym now)
    typed t now (fs_file f) = ap (λ fds. handles_of fds index) (sym now)
    typed t now (pipe_end idx writable) =
        let t' : FdTable = record (clear_fd fd t) { pipe_count = t.pipe_count - 1 } in
        let world' : World = record world { current_fds = some t' } in
        let pipes' : Pipes = update world.pipes idx (drop_end writable (world.pipes idx)) in
        ap (λ fds. handles_of fds index)
          (fds_if (ltb idx max_pipes)
            (record world' { pipes = pipes'; sched = keyboard_wake pipes' world'.sched }) world'
            refl)
        ∙ ap (λ fds. handles_of fds index) (sym now)

    in_table : (fds : Option FdTable) → world.current_fds ≡ fds → Kept (close_in fds fd world)
    in_table none now = refl
    in_table (some t) now = typed t now (t.fd_types fd)
