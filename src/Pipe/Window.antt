-- ===== src/Pipe/Window.antt =====
-- The bytes of the pipe's buffer between two positions, each read modulo the buffer's size.
use indominus_os.Prelude.{
  ℕ, zero, suc, ◌+◌, ◌-◌, ◌%◌, ◌≡◌, ◌≤◌, ◌<◌, refl, ap, ◌∙◌, List, [], ◌∷◌, ◌++◌, arith, length,
  take, drop, update, Bool-cases, inl, inr, ltb,
}
use indominus_os.Pipe.{pipe_size, read_loop}

pub window : (ℕ → ℕ) → ℕ → ℕ → List ℕ
window bytes pos zero = []
window bytes pos (suc n) = bytes (pos % pipe_size) ∷ window bytes (pos + 1) n

pub length-window : (bytes : ℕ → ℕ) (pos n : ℕ) → length (window bytes pos n) ≡ n
unfolding window
length-window bytes pos zero = refl
length-window bytes pos (suc n) = ap suc (length-window bytes (pos + 1) n)

-- One more byte at the end.
window_snoc :
    (bytes : ℕ → ℕ) (pos n : ℕ)
    → window bytes pos (suc n) ≡ window bytes pos n ++ bytes ((pos + n) % pipe_size) ∷ []
unfolding window
window_snoc bytes pos zero = let e : pos + 0 ≡ pos = omega arith in rw e
window_snoc bytes pos (suc n) =
    let e : pos + suc n ≡ pos + 1 + n = omega arith in
    rw e (ap (λ r. bytes (pos % pipe_size) ∷ r) (window_snoc bytes (pos + 1) n))

-- A write to the slot of a position at most a buffer's size ahead is outside the window up to it.
window-update :
    (bytes : ℕ → ℕ) (byte pos n end : ℕ)
    → pos + n ≤ end
    → end < pos + pipe_size
    → window (update bytes (end % pipe_size) byte) pos n ≡ window bytes pos n
unfolding window
window-update bytes byte pos zero end le lt = refl
window-update bytes byte pos (suc n) end le lt =
    ground (arith, window-update bytes byte (pos + 1) n end)

pub window_put :
    (bytes : ℕ → ℕ) (byte pos n : ℕ)
    → n < pipe_size
    → window (update bytes ((pos + n) % pipe_size) byte) pos (suc n)
      ≡ window bytes pos n ++ byte ∷ []
window_put bytes byte pos n lt =
    window_snoc (update bytes ((pos + n) % pipe_size) byte) pos n
    ∙ ground (arith, window-update bytes byte pos n (pos + n))

-- The loop of `sys_read` takes from the front of the window.
pub read_loop-window :
    (rounds pos nwrite : ℕ) (bytes : ℕ → ℕ)
    → read_loop rounds pos nwrite bytes ≡ take rounds (window bytes pos (nwrite - pos))
unfolding read_loop window
read_loop-window zero pos nwrite bytes = refl
read_loop-window (suc r) pos nwrite bytes = elim (Bool-cases (ltb pos nwrite)) [
  | inl more ↦
      let e : nwrite - pos ≡ suc (nwrite - (pos + 1)) = ground arith in
      rw (e, more)
        (ap (λ r. bytes (pos % pipe_size) ∷ r) (read_loop-window r (pos + 1) nwrite bytes))
  | inr done ↦ let e : nwrite - pos ≡ 0 = ground arith in rw (e, done)
]

pub drop-window :
    (k n pos : ℕ) (bytes : ℕ → ℕ)
    → k ≤ n
    → drop k (window bytes pos n) ≡ window bytes (pos + k) (n - k)
unfolding window
drop-window zero n pos bytes le = ground arith
drop-window (suc k) zero pos bytes le = absurd (omega arith)
drop-window (suc k) (suc n) pos bytes le = ground (arith, drop-window k n (pos + 1) bytes)
