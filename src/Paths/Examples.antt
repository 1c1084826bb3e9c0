-- ===== src/Paths/Examples.antt =====
-- Paths resolved at concrete inputs.
use indominus_os.Prelude.{◌≡◌, refl, [], ◌∷◌, ◌++◌, if◌then◌else◌}
use indominus_os.Paths.{Text, slash, join, is_absolute, normalize_path, resolve_cwd}
use indominus_os.Paths.Canonical.{Canonical, normalize_path_lem}
use indominus_os.Paths.Relative.{resolve_cwd_lem}

-- "/a", "//a/./b/../" and "../b"
abbrev root_a : Text
root_a = slash ∷ 0x61 ∷ []

abbrev untidy : Text
untidy = slash ∷ slash ∷ 0x61 ∷ slash ∷ 0x2E ∷ slash ∷ 0x62 ∷ slash ∷ 0x2E ∷ 0x2E ∷ slash ∷ []

abbrev up_b : Text
up_b = 0x2E ∷ 0x2E ∷ slash ∷ 0x62 ∷ []

normalize_path_lem_example :
    Canonical (normalize_path untidy)
    × (Canonical untidy → normalize_path untidy ≡ untidy)
    × (normalize_path (normalize_path untidy) ≡ normalize_path untidy)
normalize_path_lem_example = normalize_path_lem untidy

normalize_untidy : normalize_path untidy ≡ root_a
unfolding normalize_path
normalize_untidy = refl

root_a-Canonical : Canonical root_a
unfolding Canonical join
root_a-Canonical = ((0x61 ∷ []) ∷ [], (refl, tt), refl)

resolve_cwd_lem_example :
    (resolve_cwd root_a up_b
      ≡ normalize_path (if is_absolute up_b then up_b else root_a ++ slash ∷ up_b))
    × Canonical (resolve_cwd root_a up_b)
resolve_cwd_lem_example = resolve_cwd_lem root_a up_b root_a-Canonical
