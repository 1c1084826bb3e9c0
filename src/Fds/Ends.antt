-- ===== src/Fds/Ends.antt =====
-- How many descriptors of a table are ends of a pipe.
use indominus_os.Prelude.{
  ℕ, zero, suc, ◌+◌, ◌≤◌, ◌<◌, ◌≡◌, ◌≢◌, refl, ap, sym, ◌∙◌, inl, inr, true, false, some, ◌==◌,
  if◌then◌else◌, update, arith, Bool-cases,
}
use indominus_os.Fds.{FdType, closed, pipe_end, is_closed, find_free}

-- 1 for an end of the pipe, and 0 for any other type.
abbrev pub is_end : ℕ → FdType → ℕ
is_end idx (pipe_end i writable) = if i == idx then 1 else 0
is_end idx type = 0

unfoldable pub ends_below : ℕ → ℕ → (ℕ → FdType) → ℕ
ends_below zero idx fds = 0
ends_below (suc n) idx fds = is_end idx (fds n) + ends_below n idx fds

-- A change further up does not count.
ends_below-above :
    (n idx : ℕ) (fds : ℕ → FdType) (fd : ℕ) (type : FdType)
    → n ≤ fd
    → ends_below n idx (update fds fd type) ≡ ends_below n idx fds
unfolding ends_below
ends_below-above zero idx fds fd type above = refl
ends_below-above (suc n) idx fds fd type above =
    let other : (fd == n) ≡ false = ground (arith, above) in
    let same : update fds fd type n ≡ fds n = rw other refl in
    let kept = ap (is_end idx) same in
    omega (arith, kept, ends_below-above n idx fds fd type (omega (arith, above)))

-- A change of one descriptor changes the number by what it was and what it is.
pub ends_below-update :
    (n idx : ℕ) (fds : ℕ → FdType) (fd : ℕ) (type : FdType)
    → fd < n
    → ends_below n idx (update fds fd type) + is_end idx (fds fd)
      ≡ ends_below n idx fds + is_end idx type
unfolding ends_below
ends_below-update zero idx fds fd type below = absurd (omega (arith, below))
ends_below-update (suc n) idx fds fd type below = elim (Bool-cases (fd == n)) [
  | inl last ↦
      let at : fd ≡ n = ground arith in
      let new : update fds fd type n ≡ type = rw last refl in
      let counted = ap (is_end idx) new in
      let was = ap (λ i. is_end idx (fds i)) at in
      omega (arith, counted, was, ends_below-above n idx fds fd type (omega (arith, at)))
  | inr other ↦
      let away : fd ≢ n = ground (arith, other) in
      let same : update fds fd type n ≡ fds n = rw other refl in
      let kept = ap (is_end idx) same in
      omega (arith, kept, ends_below-update n idx fds fd type (omega (arith, below, away)))
]

some_inj : {a b : ℕ} → some a ≡ some b → a ≡ b
some_inj h = cc

-- A closed descriptor is no end of a pipe.
pub is_end-closed : (idx : ℕ) (type : FdType) → is_closed type ≡ true → is_end idx type ≡ 0
is_end-closed idx closed h = refl
is_end-closed idx FdType.stdin h = refl
is_end-closed idx FdType.stdout h = refl
is_end-closed idx FdType.stderr h = refl
is_end-closed idx FdType.null h = refl
is_end-closed idx FdType.tty h = refl
is_end-closed idx (FdType.fs_file f) h = refl
is_end-closed idx (pipe_end i w) h = absurd (ground (arith, h))

-- A descriptor that is found is closed.
pub find_free-closed :
    (rounds i : ℕ) (fds : ℕ → FdType) (found : ℕ)
    → find_free rounds i fds ≡ some found
    → (i ≤ found) × (found < i + rounds) × (is_closed (fds found) ≡ true)
unfolding find_free
find_free-closed zero i fds found h = cc
find_free-closed (suc rounds) i fds found h = elim (Bool-cases (is_closed (fds i))) [
  | inl here ↦
      let first : find_free (suc rounds) i fds ≡ some i = rw here refl in
      let same : i ≡ found = some_inj (sym first ∙ h) in
      (omega (arith, same), omega (arith, same), ap (λ j. is_closed (fds j)) (sym same) ∙ here)
  | inr taken ↦
      let later : find_free (suc rounds) i fds ≡ find_free rounds (i + 1) fds = rw taken refl in
      let (low, high, is) = find_free-closed rounds (i + 1) fds found (sym later ∙ h) in
      (omega (arith, low), omega (arith, high), is)
]

pub ends_below-le : (n idx : ℕ) (fds : ℕ → FdType) → ends_below n idx fds ≤ n
unfolding ends_below
ends_below-le zero idx fds = omega arith
ends_below-le (suc n) idx fds = omega (arith, is_end-le idx (fds n), ends_below-le n idx fds)
  where
    is_end-le : (idx : ℕ) (type : FdType) → is_end idx type ≤ 1
    is_end-le idx (pipe_end i w) = ground arith
    is_end-le idx closed = omega arith
    is_end-le idx FdType.stdin = omega arith
    is_end-le idx FdType.stdout = omega arith
    is_end-le idx FdType.stderr = omega arith
    is_end-le idx FdType.null = omega arith
    is_end-le idx FdType.tty = omega arith
    is_end-le idx (FdType.fs_file f) = omega arith

pub is_end-le-ends_below :
    (n idx : ℕ) (fds : ℕ → FdType) (fd : ℕ) → fd < n → is_end idx (fds fd) ≤ ends_below n idx fds
unfolding ends_below
is_end-le-ends_below zero idx fds fd below = absurd (omega (arith, below))
is_end-le-ends_below (suc n) idx fds fd below = elim (Bool-cases (fd == n)) [
  | inl last ↦ let at : fd ≡ n = ground arith in omega (arith, ap (λ i. is_end idx (fds i)) at)
  | inr other ↦
      let away : fd ≢ n = ground (arith, other) in
      omega (arith, is_end-le-ends_below n idx fds fd (omega (arith, below, away)))
]
