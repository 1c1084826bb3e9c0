-- ===== src/Prelude/Bytes.antt =====
-- Bits of a byte. A law over all bytes and bit positions is checked by evaluation.
use Prim.Native.Nat.{ℕ, zero, suc, ◌^◌, ◌<◌, bit_and, bit_or, bit_xor}
use mathlib.Core.Path.{◌≡◌, refl}
use mathlib.Core.Bool.{Bool, true, false, ◌&&◌, not}
use native.Mathlib.Omega.{arith}
use indominus_os.Prelude.Tests.{ltb, ◌==◌, if◌then◌else◌}

-- `b |= 1 << o`
unfoldable pub set_bit : ℕ → ℕ → ℕ
set_bit b o = bit_or b (2 ^ o)

-- `b &= !(1 << o)` on a `u8`
unfoldable pub clear_bit : ℕ → ℕ → ℕ
clear_bit b o = bit_and b (bit_xor 255 (2 ^ o))

-- `b & (1 << o) != 0`
unfoldable pub test_bit : ℕ → ℕ → Bool
test_bit b o = not (bit_and b (2 ^ o) == 0)

unfoldable pub for_all_below : (ℕ → Bool) → ℕ → Bool
for_all_below test zero = true
for_all_below test (suc bound) = for_all_below test bound && test bound

pub for_all_below-at :
    (bound k : ℕ) (test : ℕ → Bool) → k < bound → for_all_below test bound ≡ true → test k ≡ true
unfolding for_all_below
for_all_below-at zero k test below holds = elim below [ ]
for_all_below-at (suc bound) k test below holds = ground (arith, for_all_below-at bound k test)

abbrev same : Bool → Bool → Bool
same true b = b
same false b = not b

same-eq : (a b : Bool) → same a b ≡ true → a ≡ b
same-eq a b h = ground arith

abbrev set_row : ℕ → ℕ → ℕ → Bool
set_row b o p =
    same (test_bit (set_bit b o) p) (if o == p then true else test_bit b p) && ltb (set_bit b o) 256

abbrev clear_row : ℕ → ℕ → ℕ → Bool
clear_row b o p =
    same (test_bit (clear_bit b o) p) (if o == p then false else test_bit b p)
    && ltb (clear_bit b o) 256

abbrev table : (ℕ → ℕ → ℕ → Bool) → Bool
table row = for_all_below (λ b. for_all_below (λ o. for_all_below (row b o) 8) 8) 256

set_table : table set_row ≡ true
unfolding for_all_below set_bit test_bit
set_table = refl

clear_table : table clear_row ≡ true
unfolding for_all_below clear_bit test_bit
clear_table = refl

table_sound :
    (row : ℕ → ℕ → ℕ → Bool) (b o p : ℕ)
    → table row ≡ true
    → b < 256
    → o < 8
    → p < 8
    → row b o p ≡ true
table_sound row b o p h hb ho hp = for_all_below-at 8 p (row b o) hp (
    for_all_below-at 8 o (λ o. for_all_below (row b o) 8) ho
      (for_all_below-at 256 b (λ b. for_all_below (λ o. for_all_below (row b o) 8) 8) hb h))

module _ (b o p : ℕ) (hb : b < 256) (ho : o < 8) (hp : p < 8) where
  pub test_bit-set_bit : test_bit (set_bit b o) p ≡ (if o == p then true else test_bit b p)
  test_bit-set_bit = same-eq _ _ (ground (arith, table_sound set_row b o p set_table hb ho hp))

  pub test_bit-clear_bit : test_bit (clear_bit b o) p ≡ (if o == p then false else test_bit b p)
  test_bit-clear_bit =
      same-eq _ _ (ground (arith, table_sound clear_row b o p clear_table hb ho hp))

module _ (b o : ℕ) (hb : b < 256) (ho : o < 8) where
  pub set_bit-lt : set_bit b o < 256
  set_bit-lt = ground (arith, table_sound set_row b o 0 set_table hb ho (omega arith))

  pub clear_bit-lt : clear_bit b o < 256
  clear_bit-lt = ground (arith, table_sound clear_row b o 0 clear_table hb ho (omega arith))

full_table : for_all_below (test_bit 255) 8 ≡ true
unfolding for_all_below test_bit
full_table = refl

pub test_bit_full : (o : ℕ) → o < 8 → test_bit 255 o ≡ true
test_bit_full o h = for_all_below-at 8 o (test_bit 255) h full_table
