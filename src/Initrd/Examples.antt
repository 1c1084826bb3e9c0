-- ===== src/Initrd/Examples.antt =====
-- An archive with one file.
use indominus_os.Prelude.{
  ℕ, zero, suc, ◌≡◌, refl, Bool, true, List, [], ◌∷◌, ◌++◌, Option, none, some, Result, ok, err,
  arith,
}
use indominus_os.Vfs.{Vfs, init, read_file, write_file}
use indominus_os.Vfs.Ramfs.{Store, Fault, read, write}
use indominus_os.Vfs.Invariant.{Sound, no_files, init-Sound}
use indominus_os.Initrd.{Failure, Load, trailer, load_initrd}
use indominus_os.Initrd.Loading.{load_initrd-returns}

-- `n` zero digits
abbrev digits : ℕ → List ℕ
digits zero = []
digits (suc n) = b'0' ∷ digits n

-- A header with the last digits of the two sizes.
abbrev header : ℕ → ℕ → List ℕ
header file_digit name_digit =
    b'0' ∷ b'7' ∷ b'0' ∷ b'7' ∷ b'0' ∷ b'1' ∷ digits 55
    ++ file_digit ∷ digits 39
    ++ name_digit ∷ digits 8

-- The file "a" with the byte 7, and the trailer.
abbrev archive : List ℕ
archive =
    header b'1' b'2' ++ b'a' ∷ 0 ∷ 0 ∷ 0 ∷ 7 ∷ 0 ∷ 0 ∷ 0 ∷ header b'0' b'b' ++ trailer ++ 0 ∷ 0 ∷ []

abbrev yes_utf8 : List ℕ → Bool
yes_utf8 name = true

abbrev booted : Vfs × Store
booted = init no_files

load_initrd-returns_example :
    (l : Load) × (load_initrd yes_utf8 booted.0 archive 300 booted.1 ≡ some (ok l))
    × Sound 0 l.store
load_initrd-returns_example =
    load_initrd-returns yes_utf8 booted.0 0 archive refl (omega arith) 300 booted.1 init-Sound
      (omega arith)

abbrev read_back : Option (Result Failure Load) → Option (Result Fault (List ℕ))
read_back (some (ok l)) = read_file 9 booted.0 (b'a' ∷ []) l.store
read_back (some (err e)) = none
read_back none = none

file_a : read_back (load_initrd yes_utf8 booted.0 archive 300 booted.1) ≡ some (ok (7 ∷ []))
unfolding load_initrd read_file write_file read write
file_a = refl
