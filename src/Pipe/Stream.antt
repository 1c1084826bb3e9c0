-- ===== src/Pipe/Stream.antt =====
-- A history of reads and writes on one pipe.
use mathlib.Core.List.{append_assoc, append-nil}
use indominus_os.Prelude.{
  ℕ, zero, suc, ◌+◌, ◌≡◌, ◌≤◌, ◌<◌, refl, ap, sym, ◌∙◌, List, [], ◌∷◌, ◌++◌, arith, length, take,
  drop, ltb, leb, Bool-cases, inl, inr, length-take, take-append-drop, take_all, eq_nil, drop-nil,
  length-append,
}
use indominus_os.Pipe.{
  Pipe, pipe_size, u32_mod, ReadResult, bytes_read, eof, read_blocks, WriteResult, written,
  write_blocks, pipe_read, pipe_write, write_loop, when_full, put,
}
use indominus_os.Pipe.Fifo.{
  Inv, contents, length-contents, room, pipe_write_lem, pipe_read_lem, pipe_read_eq, write_loop-Inv,
}

pub data Call : Type 0 where
  reads : ℕ → Call
  writes : List ℕ → Call

-- The bytes that a writer was told went in, and those that a reader was given.
abbrev pub accepted : List ℕ → WriteResult → List ℕ
accepted buf (written n woken) = take n buf
accepted buf write_blocks = []

abbrev pub delivered : ReadResult → List ℕ
delivered (bytes_read got) = got
delivered eof = []
delivered read_blocks = []

-- The bytes in, the bytes out, and the pipe after the calls.
pub run : List Call → Pipe → List ℕ × List ℕ × Pipe
run [] p = ([], [], p)
run (writes buf ∷ cs) p =
    let (r, q) = pipe_write buf p in
    let (ins, outs, end) = run cs q in (accepted buf r ++ ins, outs, end)
run (reads n ∷ cs) p =
    let (r, q) = pipe_read n p in let (ins, outs, end) = run cs q in (ins, delivered r ++ outs, end)

-- The bytes that the calls offer, all together.
unfoldable pub offered : List Call → ℕ
offered [] = 0
offered (writes buf ∷ cs) = length buf + offered cs
offered (reads n ∷ cs) = offered cs

accepted-when_full : (n : ℕ) (buf : List ℕ) (p : Pipe) → accepted buf (when_full n p) ≡ take n buf
unfolding when_full
accepted-when_full zero buf p = ground arith
accepted-when_full (suc n) buf p = ground arith

accepted-pipe_write :
    (buf : List ℕ) (p : Pipe) → Inv p → accepted buf (pipe_write buf p).0 ≡ take (room p) buf
accepted-pipe_write buf p v = elim (Bool-cases (leb (length buf) (room p))) [
  | inl fits ↦
      rw ((pipe_write_lem buf p v).1, fits)
        (take_all (length buf) buf (omega arith) ∙ sym (take_all (room p) buf (ground arith)))
  | inr over ↦ rw ((pipe_write_lem buf p v).1, over) (accepted-when_full (room p) buf p)
]

delivered-pipe_read_some :
    (n : ℕ) (p : Pipe)
    → 0 < n
    → Inv p
    → delivered (pipe_read n p).0 ++ contents (pipe_read n p).1 ≡ contents p
delivered-pipe_read_some n p pos v = elim (Bool-cases (ltb 0 (length (contents p)))) [
  | inl some_left ↦
      rw ((pipe_read_lem n p pos v).0, (pipe_read_lem n p pos v).1, some_left)
        (take-append-drop n (contents p))
  | inr none_left ↦
      let empty : contents p ≡ [] = eq_nil (contents p) (ground arith) in
      let kept : drop n (contents p) ≡ contents p = rw empty (drop-nil n) in
      rw ((pipe_read_lem n p pos v).0, (pipe_read_lem n p pos v).1, none_left) (ground arith)
]

delivered-pipe_read :
    (n : ℕ) (p : Pipe)
    → Inv p
    → delivered (pipe_read n p).0 ++ contents (pipe_read n p).1 ≡ contents p
delivered-pipe_read zero p v = rw (pipe_read_eq 0 p) (ground arith)
delivered-pipe_read (suc n) p v = delivered-pipe_read_some (suc n) p (omega arith) v

write_loop-nread : (buf : List ℕ) (n : ℕ) (p : Pipe) → (write_loop buf n p).1.nread ≡ p.nread
unfolding write_loop put
write_loop-nread [] n p = refl
write_loop-nread (byte ∷ buf) n p = ground (arith, write_loop-nread buf (n + 1) (put byte p))

pipe_write-Inv : (buf : List ℕ) (p : Pipe) → Inv p → Inv (pipe_write buf p).1
unfolding pipe_write
pipe_write-Inv buf p v = write_loop-Inv buf 0 p v

pipe_write-nread : (buf : List ℕ) (p : Pipe) → (pipe_write buf p).1.nread ≡ p.nread
unfolding pipe_write
pipe_write-nread buf p = write_loop-nread buf 0 p

pipe_write-nwrite :
    (buf : List ℕ) (p : Pipe) → Inv p → (pipe_write buf p).1.nwrite ≤ p.nwrite + length buf
pipe_write-nwrite buf p v =
    let after = pipe_write-Inv buf p v in
    omega (
      arith,
      ap length (pipe_write_lem buf p v).0,
      length-append (contents p) (take (room p) buf),
      length-take (room p) buf,
      length-contents p,
      length-contents (pipe_write buf p).1,
      pipe_write-nread buf p,
      after.ordered,
      v.ordered,
    )

pipe_read-Inv :
    (n : ℕ) (p : Pipe)
    → Inv p
    → p.nwrite + pipe_size < u32_mod
    → Inv (pipe_read n p).1 × ((pipe_read n p).1.nwrite ≡ p.nwrite)
pipe_read-Inv n p v late =
    rw (pipe_read_eq n p) (ground (arith, length-take n (contents p), length-contents p))

-- Over any reads and writes that offer too few bytes to exhaust the 32-bit counters, the bytes in the
-- pipe before, followed by those that its writers were told went in, are those that its readers were
-- given, followed by the bytes in the pipe after, in this order.
pub run_stream :
    (cs : List Call) (p : Pipe)
    → Inv p
    → p.nwrite + offered cs + pipe_size < u32_mod
    → contents p ++ (run cs p).0 ≡ (run cs p).1 ++ contents (run cs p).2
unfolding run offered
run_stream [] p v small = append-nil (contents p)
run_stream (writes buf ∷ cs) p v small =
    let (r, q) = pipe_write buf p in
    let rest =
      run_stream cs (pipe_write buf p).1 (pipe_write-Inv buf p v)
        (omega (arith, pipe_write-nwrite buf p v)) in
    rw (accepted-pipe_write buf p v) (
      sym (append_assoc (contents p) (take (room p) buf) (run cs (pipe_write buf p).1).0)
      ∙ ap (λ c. c ++ (run cs (pipe_write buf p).1).0) (sym (pipe_write_lem buf p v).0)
      ∙ rest)
run_stream (reads n ∷ cs) p v small =
    let kept = pipe_read-Inv n p v (omega arith) in
    let q = (pipe_read n p).1 in
    let got = delivered (pipe_read n p).0 in
    let rest = run_stream cs q kept.0 (omega (arith, kept.1)) in
    ap (λ c. c ++ (run cs q).0) (sym (delivered-pipe_read n p v))
    ∙ append_assoc got (contents q) (run cs q).0
    ∙ ap (λ c. got ++ c) rest
    ∙ sym (append_assoc got (run cs q).1 (contents (run cs q).2))
