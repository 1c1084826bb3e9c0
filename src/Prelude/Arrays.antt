-- ===== src/Prelude/Arrays.antt =====
-- Fixed-size arrays as functions of the index, and their updates.
use Prim.Native.Nat.{ℕ}
use mathlib.Core.Path.{◌≡◌}
use native.Mathlib.Omega.{arith}
use indominus_os.Prelude.Tests.{◌==◌, if◌then◌else◌}

-- `a[i] = v`
abbrev pub update {ℓ} : {A : Type ℓ} → (ℕ → A) → ℕ → A → ℕ → A
update a i v j = if i == j then v else a j

pub update_self {ℓ} : {A : Type ℓ} (a : ℕ → A) (i : ℕ) (v : A) → update a i v i ≡ v
update_self a i v = ground arith
