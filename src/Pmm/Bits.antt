-- ===== src/Pmm/Bits.antt =====
-- indo-kernel/src/memory/pmm.rs, "Bitmap operations": one bit for each frame, eight to a byte.
-- The static byte array is a function of the byte's index; every frame that the callers name is
-- below TOTAL_FRAMES, hence within the array.
use indominus_os.Prelude.{
  ℕ, zero, suc, ◌/◌, ◌%◌, ◌<◌, ◌≤◌, ◌≡◌, refl, Bool, true, false, arith, ◌==◌, if◌then◌else◌,
  update, set_bit, clear_bit, test_bit, test_bit-set_bit, test_bit-clear_bit, set_bit-lt,
  clear_bit-lt, test_bit_full, Bool-cases, inl, inr,
}

abbrev pub Bitmap : Type 0
Bitmap = ℕ → ℕ

unfoldable pub bitmap_set : ℕ → Bitmap → Bitmap
unfolding set_bit
bitmap_set index m =
    let byte_index = index / 8 in
    let bit_offset = index % 8 in update m byte_index (set_bit (m byte_index) bit_offset)

unfoldable pub bitmap_clear : ℕ → Bitmap → Bitmap
unfolding clear_bit
bitmap_clear index m =
    let byte_index = index / 8 in
    let bit_offset = index % 8 in update m byte_index (clear_bit (m byte_index) bit_offset)

unfoldable pub bitmap_test : ℕ → Bitmap → Bool
unfolding test_bit
bitmap_test index m =
    let byte_index = index / 8 in let bit_offset = index % 8 in test_bit (m byte_index) bit_offset

-- Every entry is a `u8`.
pub record IsBytes (m : Bitmap) : Type 0 where
  pub byte : (k : ℕ) → m k < 256

module _ (i : ℕ) (m : Bitmap) (v : IsBytes m) where
  pub bitmap_set-IsBytes : IsBytes (bitmap_set i m)
  unfolding bitmap_set
  bitmap_set-IsBytes = record {
    byte = λ k.
        ground (arith, v.byte k, set_bit-lt (m (i / 8)) (i % 8) (v.byte (i / 8)) (omega arith));
  }

  pub bitmap_clear-IsBytes : IsBytes (bitmap_clear i m)
  unfolding bitmap_clear
  bitmap_clear-IsBytes = record {
    byte = λ k.
        ground (arith, v.byte k, clear_bit-lt (m (i / 8)) (i % 8) (v.byte (i / 8)) (omega arith));
  }

  pub bitmap_test-set :
      (j : ℕ) → bitmap_test j (bitmap_set i m) ≡ (if i == j then true else bitmap_test j m)
  unfolding bitmap_set bitmap_test
  bitmap_test-set j = ground (
    arith,
    test_bit-set_bit (m (i / 8)) (i % 8) (j % 8) (v.byte (i / 8)) (omega arith) (omega arith),
  )

  pub bitmap_test-clear :
      (j : ℕ) → bitmap_test j (bitmap_clear i m) ≡ (if i == j then false else bitmap_test j m)
  unfolding bitmap_clear bitmap_test
  bitmap_test-clear j = ground (
    arith,
    test_bit-clear_bit (m (i / 8)) (i % 8) (j % 8) (v.byte (i / 8)) (omega arith) (omega arith),
  )

-- The clear bits below n.
pub count_free : Bitmap → ℕ → ℕ
count_free m zero = 0
count_free m (suc n) = if bitmap_test n m then count_free m n else suc (count_free m n)

-- Two bitmaps that agree below n have as many clear bits there.
count_free_ext :
    (m k : Bitmap) (n : ℕ)
    → ((j : ℕ) → j < n → bitmap_test j m ≡ bitmap_test j k)
    → count_free m n ≡ count_free k n
unfolding count_free
count_free_ext m k zero h = refl
count_free_ext m k (suc n) h =
    ground (arith, h n (omega arith), count_free_ext m k n (λ j lt. h j (omega arith)))

module _ (i : ℕ) (m : Bitmap) (v : IsBytes m) where
  pub count_free-set_above : (n : ℕ) → n ≤ i → count_free (bitmap_set i m) n ≡ count_free m n
  count_free-set_above n h = count_free_ext _ m n (λ j lt. ground (arith, bitmap_test-set i m v j))

  pub count_free-clear_above : (n : ℕ) → n ≤ i → count_free (bitmap_clear i m) n ≡ count_free m n
  count_free-clear_above n h =
      count_free_ext _ m n (λ j lt. ground (arith, bitmap_test-clear i m v j))

  -- Setting a clear bit below n takes one from the count.
  pub count_free-set :
      (n : ℕ)
      → i < n
      → bitmap_test i m ≡ false
      → suc (count_free (bitmap_set i m) n) ≡ count_free m n
  unfolding count_free
  count_free-set zero lt e = absurd (omega arith)
  count_free-set (suc n) lt e =
      ground (arith, bitmap_test-set i m v n, count_free-set n, count_free-set_above n)

  -- Clearing a set bit below n adds one.
  pub count_free-clear :
      (n : ℕ)
      → i < n
      → bitmap_test i m ≡ true
      → count_free (bitmap_clear i m) n ≡ suc (count_free m n)
  unfolding count_free
  count_free-clear zero lt e = absurd (omega arith)
  count_free-clear (suc n) lt e =
      ground (arith, bitmap_test-clear i m v n, count_free-clear n, count_free-clear_above n)

-- A positive count comes from a clear bit.
pub count_free_pos : (m : Bitmap) (n i : ℕ) → i < n → bitmap_test i m ≡ false → 0 < count_free m n
unfolding count_free
count_free_pos m zero i lt e = absurd (omega arith)
count_free_pos m (suc n) i lt e = elim (Bool-cases (i == n)) [
  | inl same ↦ ground arith
  | inr other ↦ ground (arith, count_free_pos m n i)
]

pub count_free_zero :
    (m : Bitmap) (n : ℕ) → ((i : ℕ) → i < n → bitmap_test i m ≡ true) → count_free m n ≡ 0
unfolding count_free
count_free_zero m zero h = refl
count_free_zero m (suc n) h =
    ground (arith, h n (omega arith), count_free_zero m n (λ i lt. h i (omega arith)))

pub count_free-le : (m : Bitmap) (n : ℕ) → count_free m n ≤ n
unfolding count_free
count_free-le m zero = omega arith
count_free-le m (suc n) = ground (arith, count_free-le m n)

-- All bits set.
pub bitmap_test_full : (j : ℕ) → bitmap_test j (λ _. 255) ≡ true
unfolding bitmap_test
bitmap_test_full j = test_bit_full (j % 8) (omega arith)
