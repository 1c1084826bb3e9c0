-- ===== src/Pipe.antt =====
-- indo-kernel/src/process/pipe.rs, and the pipe branches of `sys_read` and `sys_write` in
-- indo-kernel/src/syscall/mod.rs. A pipe is a ring buffer under two 32-bit counters that only grow.
-- The calls run under the PIPES lock; the copy to user memory is the list of bytes returned.
pub mod Table
pub mod Window
pub mod Fifo
pub mod Writing
pub mod Stream
mod Examples
use indominus_os.Prelude.{
  ℕ, zero, suc, ◌+◌, ◌-◌, ◌%◌, ◌^◌, Bool, true, false, not, ◌||◌, List, [], ◌∷◌, length, ltb, leb,
  ◌==◌, if◌then◌else◌, update, Option, none, some,
}

abbrev pub pipe_size : ℕ
pipe_size = 512

abbrev pub u32_mod : ℕ
u32_mod = 2 ^ 32

pub record Pipe : Type 0 where
  pub bytes : ℕ → ℕ
  pub nread : ℕ
  pub nwrite : ℕ
  pub read_open : Bool
  pub write_open : Bool
  pub refcount : ℕ

-- `Pipe::new`
abbrev pub new : Pipe
new = record {
  bytes = λ _. 0;
  nread = 0;
  nwrite = 0;
  read_open = true;
  write_open = true;
  refcount = 2;
}

pub pipe_close : Pipe → Bool → Pipe
pipe_close p writable =
    if writable then record p { write_open = false } else record p { read_open = false }

-- What the pipe branch of `sys_read` decides: bytes for the caller, end of file, or to block.
pub data ReadResult : Type 0 where
  bytes_read : List ℕ → ReadResult
  eof : ReadResult
  read_blocks : ReadResult

-- `while total_read < count && nread + total_read < nwrite`: `rounds` is count - total_read, and
-- `pos` is nread + total_read.
pub read_loop : ℕ → ℕ → ℕ → (ℕ → ℕ) → List ℕ
read_loop zero pos nwrite bytes = []
read_loop (suc rounds) pos nwrite bytes =
    let rest = read_loop rounds (pos + 1) nwrite bytes in
    if ltb pos nwrite then bytes (pos % pipe_size) ∷ rest else []

pub pipe_read : ℕ → Pipe → ReadResult × Pipe
unfolding read_loop
pipe_read count p =
    let got = read_loop count p.nread p.nwrite p.bytes in
    let total_read = length got in
    if ltb 0 total_read
    then (bytes_read got, record p { nread = (p.nread + total_read) % u32_mod })
    else if not p.write_open
    then (eof, p)
    else (read_blocks, p)

-- `sys_write` returns the number of bytes written, after it woke the blocked processes or not; or
-- the process blocks and the call returns 0.
pub data WriteResult : Type 0 where
  written : ℕ → Bool → WriteResult
  write_blocks : WriteResult

-- `nwrite == u32::MAX || nwrite >= nread.wrapping_add(PIPE_SIZE as u32)`
pub is_full : Pipe → Bool
is_full p = p.nwrite == u32_mod - 1 || leb ((p.nread + pipe_size) % u32_mod) p.nwrite

pub put : ℕ → Pipe → Pipe
put byte p = record p {
  bytes = update p.bytes (p.nwrite % pipe_size) byte;
  nwrite = (p.nwrite + 1) % u32_mod;
}

-- The return from a full pipe after `n` bytes.
pub when_full : ℕ → Pipe → WriteResult
when_full n p =
    if not p.read_open
    then written n (ltb 0 n)
    else if ltb 0 n
    then written n true
    else write_blocks

pub write_loop : List ℕ → ℕ → Pipe → WriteResult × Pipe
write_loop [] n p = (written n true, p)
write_loop (byte ∷ buf) n p =
    let rest = write_loop buf (n + 1) (put byte p) in if is_full p then (when_full n p, p) else rest

pub pipe_write : List ℕ → Pipe → WriteResult × Pipe
unfolding write_loop is_full put when_full
pipe_write buf p = write_loop buf 0 p
