-- ===== src/Wake/Readiness.antt =====
-- The conditions of `keyboard_wake` on a pipe beside the reads and writes of the pipe.
use indominus_os.Prelude.{
  ℕ, ◌≡◌, ◌≢◌, ◌<◌, ap, ◌∙◌, Bool, true, false, not, ◌||◌, ltb, if◌then◌else◌, arith, length, take,
  List,
}
use indominus_os.Pipe.{Pipe, ReadResult, pipe_read, bytes_read, eof, read_blocks}
use indominus_os.Pipe.Fifo.{Inv, contents, length-contents, pipe_read_lem}
use indominus_os.Wake.{reader_ready}

-- The result of a read, by what is left in the pipe and whether its write end is open.
abbrev read_result : Bool → Bool → List ℕ → ReadResult
read_result left is_open taken =
    if left then bytes_read taken else if not is_open then eof else read_blocks

read_result-blocks :
    (left is_open : Bool) (taken : List ℕ) (r : ReadResult)
    → r ≡ read_result left is_open taken
    → ((left || not is_open) ≡ false → r ≡ read_blocks)
      × ((left || not is_open) ≡ true → r ≢ read_blocks)
read_result-blocks true is_open taken r e = (λ h. cc h, λ h b. cc (e, b))
read_result-blocks false true taken r e = (λ h. e, λ h b. cc h)
read_result-blocks false false taken r e = (λ h. cc h, λ h b. cc (e, b))

-- A reader blocked on a pipe is woken exactly when its read would not block again: for a pipe whose
-- counters are consistent, a read of at least one byte blocks if `keyboard_wake` finds the pipe not
-- ready for a reader, and does not block if it finds it ready.
pub reader_ready_lem :
    (count : ℕ) (p : Pipe)
    → 0 < count
    → Inv p
    → (reader_ready p ≡ false → (pipe_read count p).0 ≡ read_blocks)
      × (reader_ready p ≡ true → (pipe_read count p).0 ≢ read_blocks)
unfolding reader_ready
reader_ready_lem count p pos v =
    let (queue, result) = pipe_read_lem count p pos v in
    let total : ltb 0 (length (contents p)) ≡ ltb p.nread p.nwrite =
      rw (length-contents p) (ground arith) in
    read_result-blocks (ltb p.nread p.nwrite) p.write_open (take count (contents p))
      (pipe_read count p).0
      (result ∙ ap (λ left. read_result left p.write_open (take count (contents p))) total)
