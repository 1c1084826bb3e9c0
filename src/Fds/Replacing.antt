-- ===== src/Fds/Replacing.antt =====
-- The reference counts over `sys_dup2`.
use indominus_os.Prelude.{
  ℕ, ◌+◌, ◌^◌, ◌<◌, ◌≡◌, ◌≢◌, refl, ap, sym, ◌∙◌, subst, fun_ext, inl, inr, Bool, true, false, not,
  ◌||◌, ◌&&◌, Option, none, some, ltb, leb, ◌==◌, if◌then◌else◌, update, arith, Bool-cases,
  either_way, update_self,
}
use indominus_os.Pipe.Table.{max_pipes}
use indominus_os.Fds.{
  FdType, closed, stdin, stdout, stderr, null, tty, pipe_end, fs_file, FdTable, World, max_fds,
  max_file_handles, is_closed, add_end, sub_end, copy_to, count_end, replace_end, still_referenced,
  replace_in_table, replace_in_pipes, count_copied, wake_replaced, dup2_types, dup2_in, sys_dup2,
}
use indominus_os.Fds.Ends.{is_end}
use indominus_os.Fds.Counts.{
  CountedBy, change_pipe, Agree-sub_end, retype-CountedBy, remove-CountedBy, add-CountedBy,
}
use indominus_os.Fds.Calls.{types_of, Counted, NoEnd, pipes_if, count_end-pipes}

pub fds_if :
    (b : Bool) (changed world : World)
    → changed.current_fds ≡ world.current_fds
    → (if b then changed else world).current_fds ≡ world.current_fds
fds_if true changed world same = same
fds_if false changed world same = refl

replace_end-pipes :
    (idx : ℕ) (writable : Bool) (world : World)
    → (replace_end idx writable world).pipes ≡ change_pipe idx (sub_end writable) world.pipes
unfolding replace_end
replace_end-pipes idx writable world =
    pipes_if (ltb idx max_pipes)
      (record world { pipes = update world.pipes idx (sub_end writable (world.pipes idx)) }) world

-- Neither what is dropped nor what is counted changes the descriptors.
replace_in_pipes-fds :
    (type : FdType) (world : World) → (replace_in_pipes type world).current_fds ≡ world.current_fds
unfolding replace_end
replace_in_pipes-fds closed world = refl
replace_in_pipes-fds stdin world = refl
replace_in_pipes-fds stdout world = refl
replace_in_pipes-fds stderr world = refl
replace_in_pipes-fds null world = refl
replace_in_pipes-fds tty world = refl
replace_in_pipes-fds (fs_file f) world = refl
replace_in_pipes-fds (pipe_end idx w) world =
    fds_if (ltb idx max_pipes)
      (record world { pipes = update world.pipes idx (sub_end w (world.pipes idx)) }) world refl

pub count_copied-fds :
    (type : FdType) (world : World) → (count_copied type world).current_fds ≡ world.current_fds
unfolding count_end
count_copied-fds closed world = refl
count_copied-fds stdin world = refl
count_copied-fds stdout world = refl
count_copied-fds stderr world = refl
count_copied-fds null world = refl
count_copied-fds tty world = refl
count_copied-fds (fs_file f) world = refl
count_copied-fds (pipe_end idx w) world =
    fds_if (ltb idx max_pipes)
      (record world { pipes = update world.pipes idx (add_end (world.pipes idx)) }) world refl

replace_in_table-types :
    (type : FdType) (fd : ℕ) (t : FdTable) → (replace_in_table type fd t).fd_types ≡ t.fd_types
replace_in_table-types closed fd t = refl
replace_in_table-types stdin fd t = refl
replace_in_table-types stdout fd t = refl
replace_in_table-types stderr fd t = refl
replace_in_table-types null fd t = refl
replace_in_table-types tty fd t = refl
replace_in_table-types (pipe_end idx w) fd t = refl
replace_in_table-types (fs_file f) fd t =
    either_way (λ (t' : FdTable). t'.fd_types ≡ t.fd_types)
      (ltb f max_file_handles && not (still_referenced max_fds fd f t.fd_types)) refl refl

wake_replaced-Counted :
    (others : ℕ → ℕ) (type : FdType) (world : World)
    → Counted others world
    → Counted others (wake_replaced type world)
wake_replaced-Counted others closed world h = h
wake_replaced-Counted others stdin world h = h
wake_replaced-Counted others stdout world h = h
wake_replaced-Counted others stderr world h = h
wake_replaced-Counted others null world h = h
wake_replaced-Counted others tty world h = h
wake_replaced-Counted others (fs_file f) world h = h
wake_replaced-Counted others (pipe_end idx w) world h =
    either_way (Counted others) (ltb idx max_pipes) h h

module _ (others : ℕ → ℕ) (small : (idx : ℕ) → others idx + max_fds + 1 < 2 ^ 16) (fds : ℕ → FdType)
    (newfd : ℕ) (below : newfd < max_fds) where
  -- Neither what `newfd` was nor what it becomes is an end.
  plain :
      (type : FdType) (world : World)
      → CountedBy others fds world.pipes
      → NoEnd (fds newfd)
      → NoEnd type
      → CountedBy others (update fds newfd type) world.pipes
  plain type world counted was is =
      retype-CountedBy others fds world.pipes counted newfd type below was is

  -- The end that `newfd` was is dropped.
  pub dropped :
      (type : FdType) (world : World)
      → CountedBy others fds world.pipes
      → fds newfd ≡ type
      → CountedBy others (update fds newfd closed) (replace_in_pipes type world).pipes
  dropped (pipe_end idx w) world counted is =
      subst (CountedBy others (update fds newfd closed)) (sym (replace_end-pipes idx w world)) (
        remove-CountedBy others fds world.pipes counted newfd idx w (sub_end w) below is
          (λ n o few h. Agree-sub_end w o n (omega (arith, few, small idx)) h))
  dropped closed world counted is = plain closed world counted (λ j. ap (is_end j) is) (λ j. refl)
  dropped stdin world counted is = plain closed world counted (λ j. ap (is_end j) is) (λ j. refl)
  dropped stdout world counted is = plain closed world counted (λ j. ap (is_end j) is) (λ j. refl)
  dropped stderr world counted is = plain closed world counted (λ j. ap (is_end j) is) (λ j. refl)
  dropped null world counted is = plain closed world counted (λ j. ap (is_end j) is) (λ j. refl)
  dropped tty world counted is = plain closed world counted (λ j. ap (is_end j) is) (λ j. refl)
  dropped (fs_file f) world counted is =
      plain closed world counted (λ j. ap (is_end j) is) (λ j. refl)

  -- The type of `oldfd` is copied to `newfd`, which is closed.
  pub copied :
      (type : FdType) (oldfd : ℕ) (world : World)
      → CountedBy others fds world.pipes
      → fds oldfd ≡ type
      → oldfd < max_fds
      → fds newfd ≡ closed
      → CountedBy others (update fds newfd type) (count_copied type world).pipes
  copied (pipe_end idx w) oldfd world counted is old_below free =
      subst (CountedBy others (update fds newfd (pipe_end idx w))) (sym (count_end-pipes idx world))
        (add-CountedBy others fds world.pipes counted newfd oldfd idx w below old_below
          (ap is_closed free) is (small idx))
  copied closed oldfd world counted is old_below free =
      plain closed world counted (λ j. ap (is_end j) free) (λ j. refl)
  copied stdin oldfd world counted is old_below free =
      plain stdin world counted (λ j. ap (is_end j) free) (λ j. refl)
  copied stdout oldfd world counted is old_below free =
      plain stdout world counted (λ j. ap (is_end j) free) (λ j. refl)
  copied stderr oldfd world counted is old_below free =
      plain stderr world counted (λ j. ap (is_end j) free) (λ j. refl)
  copied null oldfd world counted is old_below free =
      plain null world counted (λ j. ap (is_end j) free) (λ j. refl)
  copied tty oldfd world counted is old_below free =
      plain tty world counted (λ j. ap (is_end j) free) (λ j. refl)
  copied (fs_file f) oldfd world counted is old_below free =
      plain (fs_file f) world counted (λ j. ap (is_end j) free) (λ j. refl)

module _ (others : ℕ → ℕ) (small : (idx : ℕ) → others idx + max_fds + 1 < 2 ^ 16) (world : World)
    (counted : Counted others world) where
  dup2_types-Counted :
      (oldfd newfd : ℕ) (t : FdTable)
      → oldfd < max_fds
      → newfd < max_fds
      → oldfd ≢ newfd
      → CountedBy others t.fd_types world.pipes
      → Counted others (dup2_types (t.fd_types oldfd) (t.fd_types newfd) newfd t world).1
  dup2_types-Counted oldfd newfd t old_below new_below apart at_t =
      wake_replaced-Counted others new_type (count_copied old_type replaced) (
        subst (λ f. CountedBy others (types_of f) (count_copied old_type replaced).pipes) (sym now)
          (subst (λ f. CountedBy others f (count_copied old_type replaced).pipes) types done))
    where
      old_type : FdType
      old_type = t.fd_types oldfd

      new_type : FdType
      new_type = t.fd_types newfd

      t' : FdTable
      t' = copy_to newfd old_type (replace_in_table new_type newfd t)

      copied_world : World
      copied_world = record world { current_fds = some t' }

      replaced : World
      replaced = replace_in_pipes new_type copied_world

      now : (count_copied old_type replaced).current_fds ≡ some t'
      now = count_copied-fds old_type replaced ∙ replace_in_pipes-fds new_type copied_world

      emptied : ℕ → FdType
      emptied = update t.fd_types newfd closed

      unmoved : emptied oldfd ≡ old_type
      unmoved = let away : (newfd == oldfd) ≡ false = ground (arith, apart) in rw away refl

      done : CountedBy others (update emptied newfd old_type) (count_copied old_type replaced).pipes
      done =
          copied others small emptied newfd new_below old_type oldfd replaced
            (dropped others small t.fd_types newfd new_below new_type copied_world at_t refl)
            unmoved old_below (update_self t.fd_types newfd closed)

      once : (i : ℕ) → update emptied newfd old_type i ≡ update t.fd_types newfd old_type i
      once i = elim (Bool-cases (newfd == i)) [ inl at ↦ rw at refl | inr away ↦ rw away refl ]

      types : update emptied newfd old_type ≡ t'.fd_types
      types =
          fun_ext once
          ∙ ap (λ f. update f newfd old_type) (sym (replace_in_table-types new_type newfd t))

  pub sys_dup2-Counted : (oldfd newfd : ℕ) → Counted others (sys_dup2 oldfd newfd world).1
  unfolding sys_dup2
  sys_dup2-Counted oldfd newfd = elim (Bool-cases (leb max_fds oldfd || leb max_fds newfd)) [
    | inl high ↦ rw high counted
    | inr low ↦ rw low (go (ground (arith, low)) (ground (arith, low)) world.current_fds refl)
  ]
    where
      go :
          oldfd < max_fds
          → newfd < max_fds
          → (fds : Option FdTable) → world.current_fds ≡ fds
          → Counted others (dup2_in fds oldfd newfd world).1
      go old_below new_below none e = counted
      go old_below new_below (some t) e = elim (Bool-cases (oldfd == newfd)) [
        | inl same ↦
            either_way (λ (r : ℕ × World). Counted others r.1) (is_closed (t.fd_types oldfd))
              counted (rw same counted)
        | inr other ↦
            let apart : oldfd ≢ newfd = ground (arith, other) in
            let at_t = subst (λ f. CountedBy others (types_of f) world.pipes) e counted in
            either_way (λ (r : ℕ × World). Counted others r.1) (is_closed (t.fd_types oldfd))
              counted (rw other (dup2_types-Counted oldfd newfd t old_below new_below apart at_t))
      ]
