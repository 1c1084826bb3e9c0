-- ===== src/Initrd/Loading.antt =====
-- The whole loop of `load_initrd`.
use indominus_os.Prelude.{
  ℕ, zero, suc, ◌-◌, ◌<◌, ◌≡◌, refl, Bool, Option, some, List, length, arith, Result, ok, u64_mod,
}
use indominus_os.Vfs.{Vfs, root_fs}
use indominus_os.Vfs.Ramfs.{Store}
use indominus_os.Vfs.Invariant.{Sound}
use indominus_os.Initrd.{
  Failure, Load, Turn, goes_on, stops, panics, load_turn, next_turn, load_loop, load_initrd,
}
use indominus_os.Initrd.Turns.{Forward, load_turn-Forward}

module _ (is_utf8 : List ℕ → Bool) (vfs : Vfs) (fs : ℕ) (bytes : List ℕ)
    (has_root : root_fs vfs ≡ ok fs) (small : length bytes < u64_mod) where
  abbrev Returns : Option (Result Failure Load) → Type 0
  Returns out = (l : Load) × (out ≡ some (ok l)) × Sound fs l.store

  load_loop-Returns :
      (fuel : ℕ) (l : Load)
      → Sound fs l.store
      → length bytes - l.offset < fuel
      → Returns (load_loop is_utf8 vfs bytes fuel l)
  unfolding load_loop
  load_loop-Returns zero l sound enough = absurd (omega (arith, enough))
  load_loop-Returns (suc fuel) l sound enough =
      after (load_loop-Returns fuel) (load_turn is_utf8 vfs bytes l)
        (load_turn-Forward is_utf8 vfs fs bytes has_root small l sound)
    where
      after :
          ((l' : Load)
            → Sound fs l'.store
            → length bytes - l'.offset < fuel
            → Returns (load_loop is_utf8 vfs bytes fuel l'))
          → (turn : Turn) → Forward bytes fs l.offset turn
          → Returns (next_turn is_utf8 vfs bytes turn (load_loop is_utf8 vfs bytes fuel))
      after later (goes_on l') (ahead, inside, sound') =
          later l' sound' (omega (arith, ahead, inside, enough))
      after later (stops l') sound' = (l', refl, sound')
      after later panics never = absurd never

  -- Allowed more turns than the archive has bytes, `load_initrd` returns, without a panic: no slice or
  -- index is out of bounds, and the files are a forest with the root directory afterwards, if they
  -- were before. The archive has fewer than 2^64 bytes and may be malformed; the test of UTF-8 may
  -- say anything.
  pub load_initrd-returns :
      (fuel : ℕ) (st : Store)
      → Sound fs st
      → length bytes < fuel
      → (l : Load) × (load_initrd is_utf8 vfs bytes fuel st ≡ some (ok l)) × Sound fs l.store
  unfolding load_initrd
  load_initrd-returns fuel st sound enough =
      load_loop-Returns fuel (record { offset = 0; file_count = 0; dir_count = 0; store = st })
        sound (omega (arith, enough))
