-- ===== src/Fds/Calls.antt =====
-- The reference counts over the calls.
use indominus_os.Prelude.{
  ℕ, ◌+◌, ◌-◌, ◌^◌, ◌<◌, ◌≡◌, ◌≢◌, refl, ap, sym, ◌∙◌, subst, inl, inr, Bool, true, false, not,
  ◌||◌, Option, none, some, ltb, leb, if◌then◌else◌, update, arith, Bool-cases, either_way,
}
use indominus_os.Pipe.Table.{Pipes, max_pipes}
use indominus_os.Wake.{keyboard_wake}
use indominus_os.Fds.{
  FdType, closed, stdin, stdout, stderr, null, tty, pipe_end, fs_file, FdTable, World, max_fds,
  max_file_handles, find_free, drop_end, add_end, emfile, close_end, close_type, close_in,
  sys_close, clear_fd, place, count_end, dup_type, dup_in, sys_dup, has_handle,
}
use indominus_os.Fds.Ends.{is_end, find_free-closed, is_end-closed}
use indominus_os.Fds.Counts.{
  CountedBy, change_pipe, Agree-drop_end, retype-CountedBy, remove-CountedBy, add-CountedBy,
}

abbrev pub types_of : Option FdTable → ℕ → FdType
types_of none = λ _. closed
types_of (some t) = t.fd_types

-- Every pipe's count is the number of its ends, those of other processes among them.
abbrev pub Counted : (ℕ → ℕ) → World → Type 0
Counted others world = CountedBy others (types_of world.current_fds) world.pipes

-- No end of any pipe.
abbrev pub NoEnd : FdType → Type 0
NoEnd type = (j : ℕ) → is_end j type ≡ 0

-- One of two worlds with the same descriptors.
pick :
    (others : ℕ → ℕ) (b : Bool) (changed world : World)
    → changed.current_fds ≡ world.current_fds
    → CountedBy others (types_of world.current_fds) (if b then changed.pipes else world.pipes)
    → Counted others (if b then changed else world)
pick others true changed world same counted =
    subst (λ f. CountedBy others (types_of f) changed.pipes) (sym same) counted
pick others false changed world same counted = counted

pub pipes_if :
    (b : Bool) (changed world : World)
    → (if b then changed else world).pipes ≡ (if b then changed.pipes else world.pipes)
pipes_if true changed world = refl
pipes_if false changed world = refl

pub count_end-pipes :
    (idx : ℕ) (world : World) → (count_end idx world).pipes ≡ change_pipe idx add_end world.pipes
unfolding count_end
count_end-pipes idx world =
    pipes_if (ltb idx max_pipes)
      (record world { pipes = update world.pipes idx (add_end (world.pipes idx)) }) world

module _ (others : ℕ → ℕ) (world : World) (idx : ℕ) where
  close_end-Counted :
      (writable : Bool)
      → CountedBy others
          (types_of world.current_fds)
          (change_pipe idx (drop_end writable) world.pipes)
      → Counted others (close_end idx writable world)
  unfolding close_end
  close_end-Counted writable counted =
      let pipes' : Pipes = update world.pipes idx (drop_end writable (world.pipes idx)) in
      pick others (ltb idx max_pipes)
        (record world { pipes = pipes'; sched = keyboard_wake pipes' world.sched }) world refl
        counted

module _ (others : ℕ → ℕ) (world : World) (t : FdTable) (fd : ℕ) (below : fd < max_fds)
    (counted : CountedBy others t.fd_types world.pipes) where
  -- A descriptor that is no end of a pipe is closed.
  close_other :
      (type : FdType)
      → t.fd_types fd ≡ type
      → NoEnd type
      → CountedBy others (update t.fd_types fd closed) world.pipes
  close_other type is none_of =
      retype-CountedBy others t.fd_types world.pipes counted fd closed below
        (λ j. ap (is_end j) is ∙ none_of j) (λ j. refl)

  close_type-Counted :
      (type : FdType)
      → t.fd_types fd ≡ type
      → world.current_fds ≡ some t
      → Counted others (close_type type fd t world).1
  close_type-Counted closed is now =
      subst (λ f. CountedBy others (types_of f) world.pipes) (sym now) counted
  close_type-Counted stdin is now = close_other stdin is (λ j. refl)
  close_type-Counted stdout is now = close_other stdout is (λ j. refl)
  close_type-Counted stderr is now = close_other stderr is (λ j. refl)
  close_type-Counted null is now = close_other null is (λ j. refl)
  close_type-Counted tty is now = close_other tty is (λ j. refl)
  close_type-Counted (fs_file f) is now = close_other (fs_file f) is (λ j. refl)
  close_type-Counted (pipe_end idx writable) is now =
      let t' : FdTable = record (clear_fd fd t) { pipe_count = t.pipe_count - 1 } in
      close_end-Counted others (record world { current_fds = some t' }) idx writable
        (remove-CountedBy others t.fd_types world.pipes counted fd idx writable (drop_end writable)
          below is (λ n o small h. Agree-drop_end writable o n h))

  -- A copy of a descriptor that is no end of a pipe.
  copy_other :
      (i : ℕ) (type : FdType)
      → find_free max_fds 0 t.fd_types ≡ some i
      → NoEnd type
      → CountedBy others (update t.fd_types i type) world.pipes
  copy_other i type found none_of =
      let (_, low, free) = find_free-closed max_fds 0 t.fd_types i found in
      retype-CountedBy others t.fd_types world.pipes counted i type (omega (arith, low))
        (λ j. is_end-closed j (t.fd_types i) free) none_of

  place_other :
      (o : Option ℕ) (type : FdType)
      → find_free max_fds 0 t.fd_types ≡ o
      → world.current_fds ≡ some t
      → NoEnd type
      → Counted others (place o type t world).1
  place_other none type found now none_of =
      subst (λ f. CountedBy others (types_of f) world.pipes) (sym now) counted
  place_other (some i) type found now none_of = copy_other i type found none_of

  place_end :
      (o : Option ℕ) (idx : ℕ) (writable : Bool)
      → find_free max_fds 0 t.fd_types ≡ o
      → t.fd_types fd ≡ pipe_end idx writable
      → others idx + max_fds + 1 < 2 ^ 16
      → (place o (pipe_end idx writable) t (count_end idx world)).0 ≢ emfile
      → Counted others (place o (pipe_end idx writable) t (count_end idx world)).1
  unfolding count_end
  place_end none idx writable found is small placed = absurd (placed refl)
  place_end (some i) idx writable found is small placed =
      let (_, low, free) = find_free-closed max_fds 0 t.fd_types i found in
      subst (CountedBy others (update t.fd_types i (pipe_end idx writable)))
        (sym (count_end-pipes idx world))
        (add-CountedBy others t.fd_types world.pipes counted i fd idx writable (omega (arith, low))
          below free is small)

  dup_type-Counted :
      (type : FdType)
      → t.fd_types fd ≡ type
      → world.current_fds ≡ some t
      → ((idx : ℕ) → others idx + max_fds + 1 < 2 ^ 16)
      → (dup_type type t world).0 ≢ emfile
      → Counted others (dup_type type t world).1
  dup_type-Counted closed is now small placed =
      subst (λ f. CountedBy others (types_of f) world.pipes) (sym now) counted
  dup_type-Counted stdin is now small placed =
      place_other (find_free max_fds 0 t.fd_types) stdin refl now (λ j. refl)
  dup_type-Counted stdout is now small placed =
      place_other (find_free max_fds 0 t.fd_types) stdout refl now (λ j. refl)
  dup_type-Counted stderr is now small placed =
      place_other (find_free max_fds 0 t.fd_types) stderr refl now (λ j. refl)
  dup_type-Counted null is now small placed =
      place_other (find_free max_fds 0 t.fd_types) null refl now (λ j. refl)
  dup_type-Counted tty is now small placed =
      place_other (find_free max_fds 0 t.fd_types) tty refl now (λ j. refl)
  dup_type-Counted (fs_file f) is now small placed =
      either_way (λ (r : ℕ × World). Counted others r.1)
        (leb max_file_handles f || not (has_handle (t.file_handles f)))
        (subst (λ fds. CountedBy others (types_of fds) world.pipes) (sym now) counted)
        (place_other (find_free max_fds 0 t.fd_types) (fs_file f) refl now (λ j. refl))
  dup_type-Counted (pipe_end idx writable) is now small placed =
      place_end (find_free max_fds 0 t.fd_types) idx writable refl is (small idx) placed

module _ (others : ℕ → ℕ) (fd : ℕ) (world : World) (counted : Counted others world) where
  pub sys_close-Counted : Counted others (sys_close fd world).1
  unfolding sys_close
  sys_close-Counted = elim (Bool-cases (leb max_fds fd)) [
    | inl high ↦ rw high counted
    | inr low ↦ rw low (go (ground (arith, low)) world.current_fds refl)
  ]
    where
      go :
          fd < max_fds
          → (fds : Option FdTable) → world.current_fds ≡ fds
          → Counted others (close_in fds fd world).1
      go below none e = counted
      go below (some t) e =
          let at_t = subst (λ f. CountedBy others (types_of f) world.pipes) e counted in
          close_type-Counted others world t fd below at_t (t.fd_types fd) refl e

  pub sys_dup-Counted :
      ((idx : ℕ) → others idx + max_fds + 1 < 2 ^ 16)
      → (sys_dup fd world).0 ≢ emfile
      → Counted others (sys_dup fd world).1
  unfolding sys_dup
  sys_dup-Counted small placed = elim (Bool-cases (leb max_fds fd)) [
    | inl high ↦ rw high counted
    | inr low ↦
        let e : sys_dup fd world ≡ dup_in world.current_fds fd world = rw low refl in
        subst (λ r. Counted others r.1) (sym e)
          (go (ground (arith, low)) world.current_fds refl (subst (λ r. r.0 ≢ emfile) e placed))
  ]
    where
      go :
          fd < max_fds
          → (fds : Option FdTable) → world.current_fds ≡ fds
          → (dup_in fds fd world).0 ≢ emfile
          → Counted others (dup_in fds fd world).1
      go below none e done = counted
      go below (some t) e done =
          let at_t = subst (λ f. CountedBy others (types_of f) world.pipes) e counted in
          dup_type-Counted others world t fd below at_t (t.fd_types fd) refl e small done
