-- ===== src/Vfs/Entries.antt =====
-- The entries of a directory as a map from names.
use indominus_os.Prelude.{
  ◌≡◌, refl, ap, sym, ◌∙◌, inl, inr, true, false, none, some, [], ◌∷◌, if◌then◌else◌, arith,
  Bool-cases,
}
use indominus_os.Paths.{Text}
use indominus_os.Vfs.Ramfs.{RamNode, Entries, text_eq, text_lt, get, insert, remove}

pub text_eq_refl : (s : Text) → text_eq s s ≡ true
text_eq_refl [] = refl
text_eq_refl (c ∷ s) = ground (arith, text_eq_refl s)

pub text_eq→≡ : (s t : Text) → text_eq s t ≡ true → s ≡ t
text_eq→≡ [] [] h = refl
text_eq→≡ [] (d ∷ t) h = absurd (ground (arith, h))
text_eq→≡ (c ∷ s) [] h = absurd (ground (arith, h))
text_eq→≡ (c ∷ s) (d ∷ t) h =
    let e : c ≡ d = ground (arith, h) in
    let tails : text_eq s t ≡ true = ground (arith, h) in
    ap (λ a. a ∷ s) e ∙ ap (λ r. d ∷ r) (text_eq→≡ s t tails)

pub get-insert_same :
    (name : Text) (new : RamNode) (entries : Entries)
    → get name (insert name new entries) ≡ some new
get-insert_same name new [] = rw (text_eq_refl name) refl
get-insert_same name new ((n, node) ∷ entries) = elim (Bool-cases (text_eq name n)) [
  | inl here ↦ rw (here, text_eq_refl name) refl
  | inr other ↦ elim (Bool-cases (text_lt name n)) [
    | inl before ↦ rw (other, before, text_eq_refl name) refl
    | inr after ↦ rw (other, after, other) (get-insert_same name new entries)
  ]
]

pub get-insert_other :
    (name other : Text) (new : RamNode) (entries : Entries)
    → text_eq other name ≡ false
    → get other (insert name new entries) ≡ get other entries
get-insert_other name other new [] h = rw h refl
get-insert_other name other new ((n, node) ∷ entries) h = elim (Bool-cases (text_eq name n)) [
  | inl here ↦
      let apart : text_eq other n ≡ false = ap (text_eq other) (sym (text_eq→≡ name n here)) ∙ h in
      rw (here, h, apart) refl
  | inr away ↦ elim (Bool-cases (text_lt name n)) [
    | inl before ↦ rw (away, before, h) refl
    | inr after ↦
        rw (away, after)
          (ap (λ r. if text_eq other n then some node else r)
            (get-insert_other name other new entries h))
  ]
]

pub get-remove_same : (name : Text) (entries : Entries) → get name (remove name entries) ≡ none
get-remove_same name [] = refl
get-remove_same name ((n, node) ∷ entries) = elim (Bool-cases (text_eq name n)) [
  | inl here ↦ rw here (get-remove_same name entries)
  | inr other ↦ rw (other, other) (get-remove_same name entries)
]

pub get-remove_other :
    (name other : Text) (entries : Entries)
    → text_eq other name ≡ false
    → get other (remove name entries) ≡ get other entries
get-remove_other name other [] h = refl
get-remove_other name other ((n, node) ∷ entries) h = elim (Bool-cases (text_eq name n)) [
  | inl here ↦
      let apart : text_eq other n ≡ false = ap (text_eq other) (sym (text_eq→≡ name n here)) ∙ h in
      rw (here, apart) (get-remove_other name other entries h)
  | inr away ↦
      rw away
        (ap (λ r. if text_eq other n then some node else r) (get-remove_other name other entries h))
]
