-- ===== src/Pipe/Fifo.antt =====
-- The pipe of indo-kernel/src/process/pipe.rs as a bounded queue of bytes.
use indominus_os.Prelude.{
  ℕ, suc, ◌+◌, ◌-◌, ◌%◌, ◌≡◌, ◌≤◌, ◌<◌, refl, ap, sym, ◌∙◌, true, false, List, [], ◌∷◌, ◌++◌, arith,
  length, take, drop, ltb, leb, if◌then◌else◌, Bool-cases, inl, inr, length-take, length-append,
  take-nil, min, not, update, drop-nil, drop-min, eq_nil,
}
use mathlib.Core.List.{append-nil, append_assoc}
use indominus_os.Pipe.{
  Pipe, pipe_size, u32_mod, bytes_read, eof, read_blocks, written, write_blocks, pipe_read, is_full,
  put, when_full, write_loop, pipe_write,
}
use indominus_os.Pipe.Window.{window, length-window, window_put, read_loop-window, drop-window}

-- The counters stand at most a buffer apart, and the reader is not within a buffer of the end of
-- the 32-bit counters.
pub record Inv (p : Pipe) : Type 0 where
  pub ordered : p.nread ≤ p.nwrite
  pub bounded : p.nwrite ≤ p.nread + pipe_size
  pub early : p.nread + pipe_size < u32_mod

-- The bytes that were written and not yet read, oldest first.
pub contents : Pipe → List ℕ
contents p = window p.bytes p.nread (p.nwrite - p.nread)

pub length-contents : (p : Pipe) → length (contents p) ≡ p.nwrite - p.nread
unfolding contents
length-contents p = length-window p.bytes p.nread (p.nwrite - p.nread)

is_full-eq : (p : Pipe) → Inv p → is_full p ≡ leb (p.nread + pipe_size) p.nwrite
unfolding is_full
is_full-eq p v = ground arith

put-Inv : (byte : ℕ) (p : Pipe) → Inv p → is_full p ≡ false → Inv (put byte p)
unfolding put
put-Inv byte p v room = ground (arith, is_full-eq p v)

contents-put :
    (byte : ℕ) (p : Pipe)
    → Inv p
    → is_full p ≡ false
    → contents (put byte p) ≡ contents p ++ byte ∷ []
unfolding put contents
contents-put byte p v room =
    let k = p.nwrite - p.nread in
    let longer : (p.nwrite + 1) % u32_mod - p.nread ≡ suc k = ground (arith, is_full-eq p v) in
    let here : p.nwrite ≡ p.nread + k = omega (arith, v.ordered) in
    let fits : k < pipe_size = ground (arith, is_full-eq p v) in
    ap (λ (m : ℕ). window (update p.bytes (p.nwrite % pipe_size) byte) p.nread m) longer
    ∙ ap (λ (m : ℕ). window (update p.bytes (m % pipe_size) byte) p.nread (suc k)) here
    ∙ window_put p.bytes byte p.nread k fits

-- The bytes that fit.
unfoldable pub room : Pipe → ℕ
room p = pipe_size - length (contents p)

room_full : (p : Pipe) → Inv p → is_full p ≡ true → room p ≡ 0
unfolding room
room_full p v full = ground (arith, is_full-eq p v, length-contents p)

room-put : (byte : ℕ) (p : Pipe) → Inv p → is_full p ≡ false → room p ≡ suc (room (put byte p))
unfolding room
room-put byte p v space = omega (
  arith,
  length-contents p,
  ap length (contents-put byte p v space),
  length-append (contents p) (byte ∷ []),
  not_full,
  v.ordered,
)
  where
    not_full : p.nwrite < p.nread + pipe_size
    not_full = ground (arith, is_full-eq p v)

when_full-put : (n byte : ℕ) (p : Pipe) → when_full n (put byte p) ≡ when_full n p
unfolding when_full put
when_full-put n byte p = refl

contents-write_loop :
    (buf : List ℕ) (n : ℕ) (p : Pipe)
    → Inv p
    → contents (write_loop buf n p).1 ≡ contents p ++ take (room p) buf
unfolding write_loop
contents-write_loop [] n p v = rw take-nil (sym (append-nil (contents p)))
contents-write_loop (byte ∷ buf) n p v = elim (Bool-cases (is_full p)) [
  | inl full ↦ rw (full, room_full p v full) (sym (append-nil (contents p)))
  | inr space ↦
      rw (space, room-put byte p v space)
        (contents-write_loop buf (n + 1) (put byte p) (put-Inv byte p v space)
          ∙ rw (contents-put byte p v space)
              (append_assoc (contents p) (byte ∷ []) (take (room (put byte p)) buf)))
]

write_loop_result :
    (buf : List ℕ) (n : ℕ) (p : Pipe)
    → Inv p
    → (write_loop buf n p).0 ≡ (
        if leb (length buf) (room p)
        then written (n + length buf) true
        else when_full (n + room p) p)
unfolding write_loop
write_loop_result [] n p v = ground arith
write_loop_result (byte ∷ buf) n p v = elim (Bool-cases (is_full p)) [
  | inl full ↦ rw (full, room_full p v full) (ground arith)
  | inr space ↦
      rw (space, room-put byte p v space)
        (ground (
          arith,
          write_loop_result buf (n + 1) (put byte p) (put-Inv byte p v space),
          when_full-put (n + suc (room (put byte p))) byte p,
        ))
]

pub write_loop-Inv : (buf : List ℕ) (n : ℕ) (p : Pipe) → Inv p → Inv (write_loop buf n p).1
unfolding write_loop
write_loop-Inv [] n p v = v
write_loop-Inv (byte ∷ buf) n p v = elim (Bool-cases (is_full p)) [
  | inl full ↦ rw full v
  | inr space ↦ rw space (write_loop-Inv buf (n + 1) (put byte p) (put-Inv byte p v space))
]

-- With the counters in order, at most a buffer apart and early, a write appends to the queue what fits
-- of the buffer, in order, and no more; its result is the length if all fits, else that of a full pipe.
pub pipe_write_lem :
    (buf : List ℕ) (p : Pipe)
    → Inv p
    → (contents (pipe_write buf p).1 ≡ contents p ++ take (room p) buf)
      × ((pipe_write buf p).0
          ≡ (if leb (length buf) (room p) then written (length buf) true else when_full (room p) p))
unfolding pipe_write
pipe_write_lem buf p v = (contents-write_loop buf 0 p v, result)
  where
    result :
        (write_loop buf 0 p).0
        ≡ (if leb (length buf) (room p) then written (length buf) true else when_full (room p) p)
    result =
        let none_before : 0 + length buf ≡ length buf = omega arith in
        let room_only : 0 + room p ≡ room p = omega arith in
        rw (none_before, room_only) at (write_loop_result buf 0 p v)

pub pipe_read_eq :
    (count : ℕ) (p : Pipe)
    → pipe_read count p ≡ (
        if ltb 0 (length (take count (contents p)))
        then (
          bytes_read (take count (contents p)),
          record p { nread = (p.nread + length (take count (contents p))) % u32_mod },
        )
        else if not p.write_open
        then (eof, p)
        else (read_blocks, p))
unfolding pipe_read contents
pipe_read_eq count p = rw (read_loop-window count p.nread p.nwrite p.bytes)

contents-advance :
    (count : ℕ) (p : Pipe)
    → Inv p
    → contents (record p { nread = (p.nread + length (take count (contents p))) % u32_mod })
      ≡ drop count (contents p)
contents-advance count p v =
    let n = min count (length (contents p)) in
    let total : (p.nread + length (take count (contents p))) % u32_mod ≡ p.nread + n =
      omega
        (arith, length-take count (contents p), length-contents p, v.ordered, v.bounded, v.early) in
    let left : p.nwrite - (p.nread + n) ≡ p.nwrite - p.nread - n = omega arith in
    let within : n ≤ p.nwrite - p.nread = omega (arith, length-contents p) in
    rw total
      (unfold contents in rw left (sym (drop-window n (p.nwrite - p.nread) p.nread p.bytes within)))
    ∙ drop-min count (contents p)

-- A read returns the first `count` bytes of the queue, or all if there are fewer, and leaves the rest.
-- At an empty queue it returns end of file if the write end is closed, and blocks if it is open.
pub pipe_read_lem :
    (count : ℕ) (p : Pipe)
    → 0 < count
    → Inv p
    → (contents (pipe_read count p).1 ≡ drop count (contents p))
      × ((pipe_read count p).0 ≡ (
          if ltb 0 (length (contents p))
          then bytes_read (take count (contents p))
          else if not p.write_open
          then eof
          else read_blocks))
pipe_read_lem count p pos v = elim (Bool-cases (ltb 0 (length (contents p)))) [
  | inl some_left ↦
      let taken : ltb 0 (length (take count (contents p))) ≡ true =
        ground (arith, length-take count (contents p)) in
      (
        rw (pipe_read_eq count p, taken) (contents-advance count p v),
        rw (pipe_read_eq count p, taken, some_left),
      )
  | inr none_left ↦
      let empty : contents p ≡ [] = eq_nil (contents p) (ground arith) in
      let nothing : ltb 0 (length (take count (contents p))) ≡ false =
        ground (arith, length-take count (contents p)) in
      let kept : drop count (contents p) ≡ contents p = rw empty (drop-nil count) in
      (
        rw (pipe_read_eq count p, nothing) (ground arith),
        rw (pipe_read_eq count p, nothing, none_left) (ground arith),
      )
]

-- Near the end of the 32-bit counters a pipe takes no more bytes, however many were read: a write
-- returns 0 if the read end is closed, and blocks if it is open.
pub pipe_write_exhausted :
    (byte : ℕ) (buf : List ℕ) (p : Pipe)
    → p.nread ≤ p.nwrite
    → p.nwrite < u32_mod
    → u32_mod ≤ p.nread + pipe_size
    → pipe_write (byte ∷ buf) p ≡ (if p.read_open then write_blocks else written 0 false, p)
unfolding pipe_write
pipe_write_exhausted byte buf p ordered narrow late = ground arith
