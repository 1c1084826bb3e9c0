-- ===== src/Pipe/Examples.antt =====
-- The pipe of indo-kernel/src/process/pipe.rs at small inputs.
use indominus_os.Prelude.{
  ℕ, ◌+◌, ◌-◌, ◌≡◌, ◌<◌, ◌⊎◌, none, some, false, update, refl, true, not, [], ◌∷◌, ◌++◌, arith,
  length, take, drop, ltb, leb, if◌then◌else◌,
}
use indominus_os.Pipe.{
  Pipe, new, pipe_read, pipe_write, written, write_blocks, bytes_read, eof, read_blocks, u32_mod,
  pipe_size,
}
use indominus_os.Pipe.Fifo.{contents, pipe_read_lem, pipe_write_exhausted}
use indominus_os.Pipe.Writing.{pipe_write_outcome}
use indominus_os.Pipe.Table.{Pipes, max_pipes, is_empty, alloc_pipe, free_pipe, alloc_pipe_lem}
use indominus_os.Pipe.Stream.{reads, writes, run, offered, run_stream}

-- Three bytes in a buffer that has wrapped.
abbrev wrapped : Pipe
wrapped = record new { bytes = λ i. i; nread = 1022; nwrite = 1025 }

pipe_write_outcome_example :
    (contents (pipe_write (7 ∷ 8 ∷ []) wrapped).1
      ≡ contents wrapped ++ take (pipe_size - length (contents wrapped)) (7 ∷ 8 ∷ []))
    × ((pipe_write (7 ∷ 8 ∷ []) wrapped).0 ≡ (
        if leb (2 + length (contents wrapped)) pipe_size
        then written 2 true
        else if ltb (length (contents wrapped)) pipe_size
        then written (pipe_size - length (contents wrapped)) true
        else if wrapped.read_open
        then write_blocks
        else written 0 false))
pipe_write_outcome_example = pipe_write_outcome (7 ∷ 8 ∷ []) wrapped (omega arith)

pipe_read_lem_example :
    (contents (pipe_read 2 wrapped).1 ≡ drop 2 (contents wrapped))
    × ((pipe_read 2 wrapped).0 ≡ (
        if ltb 0 (length (contents wrapped))
        then bytes_read (take 2 (contents wrapped))
        else if not wrapped.write_open
        then eof
        else read_blocks))
pipe_read_lem_example = pipe_read_lem 2 wrapped (omega arith) (omega arith)

run_stream_example :
    contents new ++ (run (writes (1 ∷ 2 ∷ []) ∷ reads 1 ∷ []) new).0
    ≡ (run (writes (1 ∷ 2 ∷ []) ∷ reads 1 ∷ []) new).1
      ++ contents (run (writes (1 ∷ 2 ∷ []) ∷ reads 1 ∷ []) new).2
unfolding offered
run_stream_example = run_stream (writes (1 ∷ 2 ∷ []) ∷ reads 1 ∷ []) new (omega arith) (omega arith)

-- All of its bytes were read, and it takes no more.
abbrev spent : Pipe
spent = record new { nread = u32_mod - 2; nwrite = u32_mod - 2 }

pipe_write_exhausted_example : pipe_write (1 ∷ []) spent ≡ (write_blocks, spent)
pipe_write_exhausted_example =
    pipe_write_exhausted 1 [] spent (omega arith) (omega arith) (omega arith)

read_wrapped : (pipe_read 3 wrapped).0 ≡ bytes_read (510 ∷ 511 ∷ 0 ∷ [])
unfolding pipe_read
read_wrapped = refl

-- A pipe is in slot 0 already.
abbrev one_pipe : Pipes
one_pipe = update (λ _. none) 0 (some wrapped)

alloc_pipe_lem_example :
    ((alloc_pipe one_pipe ≡ none) × ((j : ℕ) → j < max_pipes → is_empty (one_pipe j) ≡ false))
    ⊎ ((k : ℕ) × (pipes' : Pipes) × (alloc_pipe one_pipe ≡ some (k, pipes'))
        × (k < max_pipes)
        × (one_pipe k ≡ none)
        × (pipes' k ≡ some new)
        × ((j : ℕ) → free_pipe k pipes' j ≡ one_pipe j))
alloc_pipe_lem_example = alloc_pipe_lem one_pipe
