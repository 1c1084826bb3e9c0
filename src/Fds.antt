-- ===== src/Fds.antt =====
-- The descriptors of the current process: `sys_pipe`, `sys_close`, `sys_dup` and `sys_dup2` of
-- indo-kernel/src/syscall/mod.rs, on the table of pipes of Pipe/Table.antt. `current_fds` holds the
-- descriptors in the current process's entry of the scheduler's table, if there is one.
pub mod Ends
pub mod Counts
pub mod Calls
pub mod Replacing
pub mod Opening
pub mod Leaks
mod Examples
use indominus_os.Prelude.{
  ℕ, zero, suc, ◌+◌, ◌-◌, ◌*◌, ◌%◌, ◌^◌, Bool, true, false, not, ◌&&◌, ◌||◌, Option, none, some,
  ltb, leb, ◌==◌, if◌then◌else◌, update, u64_mod,
}
use indominus_os.Pipe.{Pipe, pipe_close}
use indominus_os.Pipe.Table.{Pipes, max_pipes, alloc_pipe, free_pipe}
use indominus_os.Sched.{Scheduler}
use indominus_os.Vfs.Ramfs.{File}
use indominus_os.Wake.{keyboard_wake}

pub data FdType : Type 0 where
  closed : FdType
  stdin : FdType
  stdout : FdType
  stderr : FdType
  null : FdType
  tty : FdType
  pipe_end : ℕ → Bool → FdType
  fs_file : ℕ → FdType

abbrev pub max_fds : ℕ
max_fds = 16

abbrev pub max_file_handles : ℕ
max_file_handles = 16

abbrev pub max_pipes_per_process : ℕ
max_pipes_per_process = 8

pub record FdTable : Type 0 where
  pub fd_types : ℕ → FdType
  pub fd_flags : ℕ → ℕ
  pub file_handles : ℕ → Option File
  pub pipe_count : ℕ

pub record World : Type 0 where
  pub current_fds : Option FdTable
  pub pipes : Pipes
  pub sched : Scheduler

-- The error numbers of syscall/errno.rs as 64-bit words.
abbrev pub esrch : ℕ
esrch = u64_mod - 3

abbrev pub ebadf : ℕ
ebadf = u64_mod - 9

abbrev pub enomem : ℕ
enomem = u64_mod - 12

abbrev pub emfile : ℕ
emfile = u64_mod - 24

abbrev pub is_closed : FdType → Bool
is_closed closed = true
is_closed fd = false

-- The first closed descriptor among `rounds` from descriptor i on.
unfoldable pub find_free : ℕ → ℕ → (ℕ → FdType) → Option ℕ
find_free zero i fds = none
find_free (suc rounds) i fds =
    let rest = find_free rounds (i + 1) fds in if is_closed (fds i) then some i else rest

abbrev pub with_second : ℕ → Option ℕ → Option (ℕ × ℕ)
with_second r none = none
with_second r (some w) = some (r, w)

abbrev pub second_free : Option ℕ → (ℕ → FdType) → Option (ℕ × ℕ)
second_free none fds = none
second_free (some r) fds = with_second r (find_free (max_fds - (r + 1)) (r + 1) fds)

abbrev pub with_pipe_ends : ℕ → ℕ → ℕ → FdTable → FdTable
with_pipe_ends idx r w t = record t {
  fd_types = update (update t.fd_types r (pipe_end idx false)) w (pipe_end idx true);
  pipe_count = t.pipe_count + 2;
}

-- The two descriptors for the new pipe, or the pipe freed again.
abbrev pub install_pipe : Option (ℕ × ℕ) → ℕ → FdTable → World → ℕ × World
install_pipe (some (r, w)) idx t world =
    (r * 2 ^ 32 + w, record world { current_fds = some (with_pipe_ends idx r w t) })
install_pipe none idx t world = (emfile, record world { pipes = free_pipe idx world.pipes })

abbrev pub pipe_for : Option FdTable → Option (ℕ × Pipes) → World → ℕ × World
pipe_for fds none world = (enomem, world)
pipe_for none (some (idx, pipes)) world = (esrch, record world { pipes = free_pipe idx pipes })
pipe_for (some t) (some (idx, pipes)) world =
    install_pipe (second_free (find_free max_fds 0 t.fd_types) t.fd_types) idx t
      (record world { pipes = pipes })

abbrev pub at_pipe_limit : Option FdTable → Bool
at_pipe_limit none = false
at_pipe_limit (some t) = leb max_pipes_per_process t.pipe_count

unfoldable pub sys_pipe : World → ℕ × World
unfolding find_free alloc_pipe free_pipe
sys_pipe world =
    if at_pipe_limit world.current_fds
    then (emfile, world)
    else pipe_for world.current_fds (alloc_pipe world.pipes) world

-- `fetch_update` that stops at 0, and the entry cleared after the last reference.
abbrev pub drop_end : Bool → Option Pipe → Option Pipe
drop_end writable none = none
drop_end writable (some p) =
    if p.refcount == 1
    then none
    else some (record (pipe_close p writable) { refcount = p.refcount - 1 })

-- Close one end, under the lock, and wake the blocked processes.
unfoldable pub close_end : ℕ → Bool → World → World
unfolding keyboard_wake
close_end idx writable world =
    let pipes' : Pipes = update world.pipes idx (drop_end writable (world.pipes idx)) in
    if ltb idx max_pipes
    then record world { pipes = pipes'; sched = keyboard_wake pipes' world.sched }
    else world

abbrev pub clear_fd : ℕ → FdTable → FdTable
clear_fd fd t = record t {
  fd_types = update t.fd_types fd closed;
  fd_flags = update t.fd_flags fd 0;
}

-- The match on the type of the descriptor. The file handle that has no descriptor left is collected
-- in `fs_close_indices`, which nothing reads.
abbrev pub close_type : FdType → ℕ → FdTable → World → ℕ × World
close_type closed fd t world = (ebadf, world)
close_type (pipe_end idx writable) fd t world =
    let t' : FdTable = record (clear_fd fd t) { pipe_count = t.pipe_count - 1 } in
    (0, close_end idx writable (record world { current_fds = some t' }))
close_type type fd t world = (0, record world { current_fds = some (clear_fd fd t) })

abbrev pub close_in : Option FdTable → ℕ → World → ℕ × World
close_in none fd world = (esrch, world)
close_in (some t) fd world = close_type (t.fd_types fd) fd t world

unfoldable pub sys_close : ℕ → World → ℕ × World
unfolding close_end
sys_close fd world = if leb max_fds fd then (ebadf, world) else close_in world.current_fds fd world

abbrev pub copy_to : ℕ → FdType → FdTable → FdTable
copy_to fd type t = record t {
  fd_types = update t.fd_types fd type;
  fd_flags = update t.fd_flags fd 0;
}

-- The loop that looks for a closed descriptor, and what it does with it.
abbrev pub place : Option ℕ → FdType → FdTable → World → ℕ × World
place none type t world = (emfile, world)
place (some i) type t world = (i, record world { current_fds = some (copy_to i type t) })

abbrev pub place_first : FdType → FdTable → World → ℕ × World
place_first type t world = place (find_free max_fds 0 t.fd_types) type t world

-- `refcount.fetch_add(1)` on an `AtomicU16`
abbrev pub add_end : Option Pipe → Option Pipe
add_end none = none
add_end (some p) = some (record p { refcount = (p.refcount + 1) % 2 ^ 16 })

unfoldable pub count_end : ℕ → World → World
count_end idx world =
    if ltb idx max_pipes
    then record world { pipes = update world.pipes idx (add_end (world.pipes idx)) }
    else world

abbrev pub has_handle : Option File → Bool
has_handle none = false
has_handle (some file) = true

abbrev pub dup_type : FdType → FdTable → World → ℕ × World
dup_type closed t world = (ebadf, world)
dup_type (fs_file index) t world =
    if leb max_file_handles index || not (has_handle (t.file_handles index))
    then (ebadf, world)
    else place_first (fs_file index) t world
dup_type (pipe_end idx writable) t world =
    place_first (pipe_end idx writable) t (count_end idx world)
dup_type type t world = place_first type t world

abbrev pub dup_in : Option FdTable → ℕ → World → ℕ × World
dup_in none fd world = (emfile, world)
dup_in (some t) fd world = dup_type (t.fd_types fd) t world

unfoldable pub sys_dup : ℕ → World → ℕ × World
unfolding find_free count_end
sys_dup fd world = if leb max_fds fd then (ebadf, world) else dup_in world.current_fds fd world

-- `refcount.fetch_sub(1)`, which wraps, and the entry cleared after the last reference.
abbrev pub sub_end : Bool → Option Pipe → Option Pipe
sub_end writable none = none
sub_end writable (some p) =
    if p.refcount == 1
    then none
    else some (record (pipe_close p writable) { refcount = (p.refcount + (2 ^ 16 - 1)) % 2 ^ 16 })

unfoldable pub replace_end : ℕ → Bool → World → World
replace_end idx writable world =
    if ltb idx max_pipes
    then record world { pipes = update world.pipes idx (sub_end writable (world.pipes idx)) }
    else world

-- Whether a descriptor other than `fd` shares the file handle.
abbrev pub is_file : ℕ → FdType → Bool
is_file index (fs_file i) = i == index
is_file index type = false

unfoldable pub still_referenced : ℕ → ℕ → ℕ → (ℕ → FdType) → Bool
still_referenced zero fd index fds = false
still_referenced (suc i) fd index fds =
    not (i == fd) && is_file index (fds i) || still_referenced i fd index fds

abbrev pub drop_handle : ℕ → ℕ → FdTable → FdTable
drop_handle fd index t =
    if ltb index max_file_handles && not (still_referenced max_fds fd index t.fd_types)
    then record t { file_handles = update t.file_handles index none }
    else t

-- What happens to the type that `newfd` had, in the table and then to the pipes.
abbrev pub replace_in_table : FdType → ℕ → FdTable → FdTable
replace_in_table (fs_file index) newfd t = drop_handle newfd index t
replace_in_table type newfd t = t

abbrev pub replace_in_pipes : FdType → World → World
replace_in_pipes (pipe_end idx writable) world = replace_end idx writable world
replace_in_pipes type world = world

abbrev pub count_copied : FdType → World → World
count_copied (pipe_end idx writable) world = count_end idx world
count_copied type world = world

abbrev pub wake_replaced : FdType → World → World
wake_replaced (pipe_end idx writable) world =
    if ltb idx max_pipes
    then record world { sched = keyboard_wake world.pipes world.sched }
    else world
wake_replaced type world = world

abbrev pub dup2_types : FdType → FdType → ℕ → FdTable → World → ℕ × World
dup2_types old_type new_type newfd t world =
    let t' = copy_to newfd old_type (replace_in_table new_type newfd t) in
    let replaced = replace_in_pipes new_type (record world { current_fds = some t' }) in
    (newfd, wake_replaced new_type (count_copied old_type replaced))

abbrev pub dup2_in : Option FdTable → ℕ → ℕ → World → ℕ × World
dup2_in none oldfd newfd world = (esrch, world)
dup2_in (some t) oldfd newfd world =
    if is_closed (t.fd_types oldfd)
    then (ebadf, world)
    else if oldfd == newfd
    then (newfd, world)
    else dup2_types (t.fd_types oldfd) (t.fd_types newfd) newfd t world

unfoldable pub sys_dup2 : ℕ → ℕ → World → ℕ × World
unfolding count_end replace_end still_referenced keyboard_wake
sys_dup2 oldfd newfd world =
    if leb max_fds oldfd || leb max_fds newfd
    then (ebadf, world)
    else dup2_in world.current_fds oldfd newfd world
