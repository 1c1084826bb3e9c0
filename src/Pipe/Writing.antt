-- ===== src/Pipe/Writing.antt =====
-- What the pipe branch of `sys_write` in indo-kernel/src/syscall/mod.rs appends, returns and wakes.
use indominus_os.Prelude.{
  ℕ, ◌+◌, ◌-◌, ◌≡◌, ◌≤◌, ◌∙◌, true, false, List, ◌++◌, arith, length, take, ltb, leb, if◌then◌else◌,
}
use indominus_os.Pipe.{Pipe, pipe_size, written, write_blocks, when_full, pipe_write}
use indominus_os.Pipe.Fifo.{Inv, contents, length-contents, room, pipe_write_lem}

-- What a full pipe answers after `n` bytes: a call that has written some tells the readers, whether or
-- not the read end is open.
when_full-outcome :
    (n : ℕ) (p : Pipe)
    → when_full n p
      ≡ (if ltb 0 n then written n true else if p.read_open then write_blocks else written 0 false)
unfolding when_full
when_full-outcome n p = ground arith

-- What a write does to a pipe whose counters are in order, at most a buffer of 512 bytes apart, and
-- whose reader is not within a buffer of the end of the 32-bit counters. The bytes that fit are
-- appended in order, and no more. If all fit, the call returns their number and wakes the blocked
-- processes; if only some fit, it returns how many and wakes them too, whether or not the read end is
-- open. If none fits it writes nothing: it blocks while the read end is open, else it returns 0.
pub pipe_write_outcome :
    (buf : List ℕ) (p : Pipe)
    → Inv p
    → (contents (pipe_write buf p).1 ≡ contents p ++ take (pipe_size - length (contents p)) buf)
      × ((pipe_write buf p).0 ≡ (
          if leb (length buf + length (contents p)) pipe_size
          then written (length buf) true
          else if ltb (length (contents p)) pipe_size
          then written (pipe_size - length (contents p)) true
          else if p.read_open
          then write_blocks
          else written 0 false))
unfolding room
pipe_write_outcome buf p v =
    let (queue, result) = pipe_write_lem buf p v in
    (
      queue,
      result
          ∙ spelled (length buf) (length (contents p))
              (omega (arith, length-contents p, v.bounded)),
    )
  where
    spelled :
        (n held : ℕ)
        → held ≤ pipe_size
        → (if leb n (pipe_size - held) then written n true else when_full (pipe_size - held) p) ≡ (
            if leb (n + held) pipe_size
            then written n true
            else if ltb held pipe_size
            then written (pipe_size - held) true
            else if p.read_open
            then write_blocks
            else written 0 false)
    spelled n held within = ground (arith, when_full-outcome (pipe_size - held) p)
