-- ===== src/Paths/Canonical.antt =====
-- The form of the paths that `normalize_path` gives.
use mathlib.Core.List.{reverse, reverse_aux, reverse-reverse, reverse-cons}
use indominus_os.Prelude.{
  ◌≡◌, refl, ap, sym, ◌∙◌, inl, inr, Bool, true, false, not, ◌&&◌, List, [], ◌∷◌, ◌++◌, arith,
  Bool-cases, All,
}
use indominus_os.Paths.{
  Text, is_dot, is_dotdot, pop, apply_part, apply_parts, components, split, join, render,
  normalize_path,
}
use indominus_os.Paths.Components.{is_part, components-parts, components-join, components-append}

-- A part that names something: neither "." nor "..".
abbrev pub is_name : Text → Bool
is_name p = is_part p && not (is_dot p) && not (is_dotdot p)

abbrev pub Names : List Text → Type 0
Names = All (λ p. is_name p ≡ true)

-- A path that starts with a slash, with single slashes, without "." or "..", and without a slash at
-- the end unless it is the root.
unfoldable pub Canonical : Text → Type 0
Canonical path = (names : List Text) × Names names × (path ≡ render names)

Names-append : (ps qs : List Text) → Names ps → Names qs → Names (ps ++ qs)
Names-append [] qs h k = k
Names-append (p ∷ ps) qs (h, hs) k = (h, Names-append ps qs hs k)

Names-reverse : (ps : List Text) → Names ps → Names (reverse ps)
Names-reverse [] h = tt
Names-reverse (p ∷ ps) (h, hs) =
    rw (reverse-cons p ps) (Names-append (reverse ps) (p ∷ []) (Names-reverse ps hs) (h, tt))

pop-Names : (ps : List Text) → Names ps → Names (pop ps)
pop-Names [] h = tt
pop-Names (p ∷ ps) (h, hs) = hs

apply_parts-Names :
    (parts stack : List Text)
    → All (λ p. is_part p ≡ true) parts
    → Names stack
    → Names (apply_parts parts stack)
unfolding apply_parts
apply_parts-Names [] stack h k = k
apply_parts-Names (p ∷ parts) stack (h, hs) k = apply_parts-Names parts (apply_part p stack) hs step
  where
    step : Names (apply_part p stack)
    step = elim (Bool-cases (is_dot p)) [
      | inl here ↦ rw here k
      | inr no_dot ↦ elim (Bool-cases (is_dotdot p)) [
        | inl up ↦ rw (no_dot, up) (pop-Names stack k)
        | inr no_up ↦ rw (no_dot, no_up) (rw (h, no_dot, no_up) refl, k)
      ]
    ]

-- Names are pushed one after the other.
pub apply_parts-eq-reverse_aux :
    (names stack : List Text) → Names names → apply_parts names stack ≡ reverse_aux names stack
unfolding apply_parts
apply_parts-eq-reverse_aux [] stack h = refl
apply_parts-eq-reverse_aux (p ∷ names) stack (h, hs) =
    let no_dot : is_dot p ≡ false = ground (arith, h) in
    let no_up : is_dotdot p ≡ false = ground (arith, h) in
    let pushed : apply_part p stack ≡ p ∷ stack = rw (no_dot, no_up) refl in
    ap (apply_parts names) pushed ∙ apply_parts-eq-reverse_aux names (p ∷ stack) hs

Names-parts : (ps : List Text) → Names ps → All (λ p. is_part p ≡ true) ps
Names-parts [] h = tt
Names-parts (p ∷ ps) (h, hs) = (ground (arith, h), Names-parts ps hs)

pub components-render : (names : List Text) → Names names → components (render names) ≡ names
unfolding components split
components-render names h =
    components-append [] (join names) ∙ components-join names (Names-parts names h)

-- `normalize_path` gives a canonical path.
pub normalize_path-Canonical : (path : Text) → Canonical (normalize_path path)
unfolding normalize_path Canonical
normalize_path-Canonical path =
    let stack = apply_parts (components path) [] in
    (
      reverse stack,
      Names-reverse stack (apply_parts-Names (components path) [] (components-parts path) tt),
      refl,
    )

-- What `normalize_path` does to the path of some names: nothing.
normalize_path-render :
    (names : List Text) → Names names → normalize_path (render names) ≡ render names
unfolding normalize_path
normalize_path-render names h =
    ap (λ l. render (reverse (apply_parts l []))) (components-render names h)
    ∙ ap (λ l. render (reverse l)) (apply_parts-eq-reverse_aux names [] h)
    ∙ ap render (reverse-reverse names)

-- `normalize_path` gives a canonical path, and leaves every canonical path as it is; so a second
-- application changes nothing.
pub normalize_path_lem :
    (path : Text)
    → Canonical (normalize_path path)
      × (Canonical path → normalize_path path ≡ path)
      × (normalize_path (normalize_path path) ≡ normalize_path path)
unfolding Canonical
normalize_path_lem path = (
  normalize_path-Canonical path,
  kept path,
  kept (normalize_path path) (normalize_path-Canonical path),
)
  where
    kept : (path : Text) → Canonical path → normalize_path path ≡ path
    kept path (names, h, e) = ap normalize_path e ∙ normalize_path-render names h ∙ sym e
