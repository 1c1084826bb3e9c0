-- ===== src/Prelude/Results.antt =====
-- Rust's `Result<A, E>`, with `?` as bind. A panic is an error value too.
use mathlib.Core.Path.{◌≡◌, refl}
use mathlib.Core.Bool.{Bool, true, false}
use mathlib.Core.Option.{Option, none, some}

pub data Result {ℓ} (E : Type 0) (A : Type ℓ) : Type ℓ where
  ok : A → Result E A
  err : E → Result E A

-- `r?` and what follows it.
infixl 5 ◌>>=◌ ◌>>◌
abbrev pub ◌>>=◌ {ℓ κ} :
    {E : Type 0} {A : Type ℓ} {B : Type κ} → Result E A → (A → Result E B) → Result E B
r >>= next = elim r [ ok a ↦ next a | err e ↦ err e ]

abbrev pub ◌>>◌ {ℓ} : {E : Type 0} {B : Type ℓ} → Result E (Unit {0}) → Result E B → Result E B
first >> second = elim first [ ok _ ↦ second | err e ↦ err e ]

-- `assert!(b, …)`, and `if !b { return Err(e) }`
abbrev pub ensure : {E : Type 0} → Bool → E → Result E (Unit {0})
ensure true e = ok tt
ensure false e = err e

-- `o.ok_or(e)?`
abbrev pub ok_or {ℓ} : {E : Type 0} {A : Type ℓ} → Option A → E → Result E A
ok_or none e = err e
ok_or (some a) e = ok a

-- A chain that succeeds has succeeded at its first step.
pub bind-eq-ok {ℓ κ} :
    {E : Type 0} {A : Type ℓ} {B : Type κ} (r : Result E A) (next : A → Result E B) {end : B}
    → (r >>= next) ≡ ok end
    → (mid : A) × (r ≡ ok mid) × (next mid ≡ ok end)
bind-eq-ok (ok mid) next done = (mid, refl, done)
bind-eq-ok (err e) next done = cc
