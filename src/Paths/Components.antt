-- ===== src/Paths/Components.antt =====
-- The parts of a path that is put together from parts.
use indominus_os.Prelude.{
  ℕ, ◌≡◌, refl, ap, ◌∙◌, inl, inr, Bool, true, false, not, ◌&&◌, ◌||◌, List, [], ◌∷◌, ◌++◌, ◌==◌,
  arith, Bool-cases, All,
}
use indominus_os.Paths.{Text, slash, longer, split, is_empty, keep_nonempty, components, join}

abbrev pub has_slash : Text → Bool
has_slash [] = false
has_slash (c ∷ s) = c == slash || has_slash s

-- A part: not empty, and without a slash.
abbrev pub is_part : Text → Bool
is_part p = not (is_empty p) && not (has_slash p)

split-cons : (s : Text) → (p : Text) × (ps : List Text) × (split s ≡ p ∷ ps)
unfolding split
split-cons [] = ([], [], refl)
split-cons (c ∷ s) = elim (Bool-cases (c == slash)) [
  | inl here ↦ ([], split s, rw here refl)
  | inr other ↦ let (p, ps, e) = split-cons s in (c ∷ p, ps, rw (other, e) refl)
]

split-append : (a b : Text) → split (a ++ slash ∷ b) ≡ split a ++ split b
unfolding split
split-append [] b = refl
split-append (c ∷ a) b = elim (Bool-cases (c == slash)) [
  | inl here ↦ rw (here, split-append a b) refl
  | inr other ↦ let (p, ps, e) = split-cons a in rw (other, split-append a b, e) refl
]

keep_nonempty-append :
    (ps qs : List Text) → keep_nonempty (ps ++ qs) ≡ keep_nonempty ps ++ keep_nonempty qs
keep_nonempty-append [] qs = refl
keep_nonempty-append (p ∷ ps) qs = elim (Bool-cases (is_empty p)) [
  | inl gone ↦ rw (gone, keep_nonempty-append ps qs) refl
  | inr kept ↦ rw (kept, keep_nonempty-append ps qs) refl
]

-- A slash between two texts puts their parts one after the other.
pub components-append : (a b : Text) → components (a ++ slash ∷ b) ≡ components a ++ components b
unfolding components
components-append a b =
    ap keep_nonempty (split-append a b) ∙ keep_nonempty-append (split a) (split b)

split_part : (p : Text) → has_slash p ≡ false → split p ≡ p ∷ []
unfolding split
split_part [] h = refl
split_part (c ∷ p) h = elim (Bool-cases (c == slash)) [
  | inl here ↦ absurd (ground (arith, h, here))
  | inr other ↦ rw (other, split_part p (ground (arith, h, other))) refl
]

components_part : (p : Text) → is_part p ≡ true → components p ≡ p ∷ []
unfolding components
components_part p h =
    let full : is_empty p ≡ false = ground (arith, h) in
    ap keep_nonempty (split_part p (ground (arith, h))) ∙ rw full refl

pub components-join : (ps : List Text) → All (λ p. is_part p ≡ true) ps → components (join ps) ≡ ps
unfolding join components split
components-join [] h = refl
components-join (p ∷ []) (h, _) = components_part p h
components-join (p ∷ q ∷ ps) (h, hs) =
    components-append p (join (q ∷ ps))
    ∙ ap (λ l. l ++ components (join (q ∷ ps))) (components_part p h)
    ∙ ap (λ l. p ∷ l) (components-join (q ∷ ps) hs)

split_slashless : (s : Text) → All (λ p. has_slash p ≡ false) (split s)
unfolding split
split_slashless [] = (refl, tt)
split_slashless (c ∷ s) = elim (Bool-cases (c == slash)) [
  | inl here ↦ rw here (refl, split_slashless s)
  | inr other ↦ rw other (longer_slashless c (split s) other (split_slashless s))
]
  where
    longer_slashless :
        (c : ℕ) (ps : List Text)
        → (c == slash) ≡ false
        → All (λ p. has_slash p ≡ false) ps
        → All (λ p. has_slash p ≡ false) (longer c ps)
    longer_slashless c [] other h = (rw other refl, tt)
    longer_slashless c (p ∷ ps) other (h, hs) = (rw (other, h) refl, hs)

keep_nonempty-parts :
    (ps : List Text)
    → All (λ p. has_slash p ≡ false) ps
    → All (λ p. is_part p ≡ true) (keep_nonempty ps)
keep_nonempty-parts [] h = tt
keep_nonempty-parts (p ∷ ps) (h, hs) = elim (Bool-cases (is_empty p)) [
  | inl gone ↦ rw gone (keep_nonempty-parts ps hs)
  | inr kept ↦ rw kept (rw (kept, h) refl, keep_nonempty-parts ps hs)
]

pub components-parts : (s : Text) → All (λ p. is_part p ≡ true) (components s)
unfolding components
components-parts s = keep_nonempty-parts (split s) (split_slashless s)
