-- ===== src/Prelude/Words.antt =====
-- Arithmetic of the machine's 64-bit words, as a build without overflow checks does it.
use Prim.Native.Nat.{ℕ, ◌+◌, ◌-◌, ◌%◌, ◌^◌}

abbrev pub u64_mod : ℕ
u64_mod = 2 ^ 64

abbrev pub wrapping_add : ℕ → ℕ → ℕ
wrapping_add a b = (a + b) % u64_mod

abbrev pub wrapping_sub : ℕ → ℕ → ℕ
wrapping_sub a b = (a + u64_mod - b) % u64_mod

-- PAGE_SIZE of indo-kernel/src/memory/mod.rs
abbrev pub page_size : ℕ
page_size = 4096
