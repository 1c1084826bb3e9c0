-- ===== src/Paths/Relative.antt =====
-- `resolve_cwd` beside `normalize_path`.
use mathlib.Core.List.{reverse}
use indominus_os.Prelude.{
  ◌≡◌, refl, ap, sym, ◌∙◌, subst, Bool, true, false, List, [], ◌∷◌, ◌++◌, if◌then◌else◌,
}
use indominus_os.Paths.{
  Text, slash, apply_part, apply_parts, components, render, is_absolute, normalize_path,
  resolve_cwd,
}
use indominus_os.Paths.Components.{components-append}
use indominus_os.Paths.Canonical.{
  Canonical, components-render, apply_parts-eq-reverse_aux, normalize_path-Canonical,
}

apply_parts-append :
    (a b stack : List Text) → apply_parts (a ++ b) stack ≡ apply_parts b (apply_parts a stack)
unfolding apply_parts
apply_parts-append [] b stack = refl
apply_parts-append (p ∷ a) b stack = apply_parts-append a b (apply_part p stack)

-- An absolute path is normalised by itself. A relative path is resolved as if it stood after the
-- current directory and a slash, if the current directory is canonical; the result is canonical.
pub resolve_cwd_lem :
    (cwd path : Text)
    → Canonical cwd
    → (resolve_cwd cwd path
        ≡ normalize_path (if is_absolute path then path else cwd ++ slash ∷ path))
      × Canonical (resolve_cwd cwd path)
unfolding resolve_cwd normalize_path Canonical
resolve_cwd_lem cwd path (names, h, e) =
    let target = if is_absolute path then path else cwd ++ slash ∷ path in
    let same : resolve_cwd cwd path ≡ normalize_path target = by_case (is_absolute path) in
    (same, subst Canonical (sym same) (normalize_path-Canonical target))
  where
    of_names : components cwd ≡ names
    of_names = ap components e ∙ components-render names h

    started : apply_parts (components cwd) [] ≡ reverse (components cwd)
    started =
        ap (λ l. apply_parts l []) of_names
        ∙ apply_parts-eq-reverse_aux names [] h
        ∙ ap reverse (sym of_names)

    relative :
        render (reverse (apply_parts (components path) (reverse (components cwd))))
        ≡ normalize_path (cwd ++ slash ∷ path)
    relative =
        ap (λ l. render (reverse (apply_parts (components path) l))) (sym started)
        ∙ ap (λ l. render (reverse l))
            (sym (apply_parts-append (components cwd) (components path) []))
        ∙ ap (λ l. render (reverse (apply_parts l []))) (sym (components-append cwd path))

    by_case :
        (b : Bool)
        → (if b
            then normalize_path path
            else render (reverse (apply_parts (components path) (reverse (components cwd)))))
          ≡ normalize_path (if b then path else cwd ++ slash ∷ path)
    by_case true = refl
    by_case false = relative
