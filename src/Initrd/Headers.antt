-- ===== src/Initrd/Headers.antt =====
-- What `parse_header` reads lies in the archive, and so does what it accepts.
use indominus_os.Prelude.{
  ℕ, zero, suc, ◌+◌, ◌-◌, ◌≤◌, ◌<◌, ◌≡◌, refl, sym, subst, Bool, true, false, not, ◌||◌, List, [],
  ◌∷◌, length, take, drop, get_elem?, ltb, leb, ◌==◌, arith, Result, ok, err, ◌>>=◌, ◌>>◌, ensure,
  ok_or,
}
use indominus_os.Initrd.{
  Failure, bad, panic, slice, all_hex_digits, from_hex, parse_hex8, header_size, is_magic, align4,
  Header, header_of, check_sizes, parse_header,
}

-- No panic, and on success what `Q` says.
abbrev pub Calm {ℓ} : {A : Type ℓ} → (A → Type 0) → Result Failure A → Type 0
Calm Q (ok a) = Q a
Calm Q (err bad) = Unit
Calm Q (err panic) = ⊥

Calm-ensure {ℓ} :
    {A : Type ℓ} (Q : A → Type 0) (b : Bool) (next : Result Failure A)
    → (b ≡ true → Calm Q next)
    → Calm Q (ensure b bad >> next)
Calm-ensure Q true next h = h refl
Calm-ensure Q false next h = tt

Calm-bind {ℓ κ} :
    {A : Type ℓ} {B : Type κ} (P : A → Type 0) (Q : B → Type 0) (r : Result Failure A)
    (next : A → Result Failure B)
    → Calm P r
    → ((a : A) → P a → Calm Q (next a))
    → Calm Q (r >>= next)
Calm-bind P Q (ok a) next h k = k a h
Calm-bind P Q (err bad) next h k = tt
Calm-bind P Q (err panic) next h k = absurd h

abbrev pub Any {ℓ} : {A : Type ℓ} → A → Type 0
Any a = Unit

-- A slice within the archive.
pub slice_inside :
    (start end : ℕ) (bytes : List ℕ)
    → start ≤ end
    → end ≤ length bytes
    → slice start end bytes ≡ ok (take (end - start) (drop start bytes))
unfolding slice
slice_inside start end bytes ordered inside =
    let first : leb start end ≡ true = ground (arith, ordered) in
    let second : leb end (length bytes) ≡ true = ground (arith, inside) in rw (first, second) refl

slice-Calm :
    (start end : ℕ) (bytes : List ℕ)
    → start ≤ end
    → end ≤ length bytes
    → Calm Any (slice start end bytes)
slice-Calm start end bytes ordered inside =
    subst (Calm Any) (sym (slice_inside start end bytes ordered inside)) tt

parse_hex8-Calm : (bytes : List ℕ) (at : ℕ) → Calm Any (parse_hex8 bytes at)
unfolding parse_hex8
parse_hex8-Calm bytes at =
    Calm-ensure Any (not (ltb (length bytes) (at + 8)))
      (slice at (at + 8) bytes >>= λ field.
        ensure (all_hex_digits field) bad >> ok (from_hex 0 field))
      (λ fits.
        Calm-bind Any Any (slice at (at + 8) bytes)
          (λ field. ensure (all_hex_digits field) bad >> ok (from_hex 0 field))
          (slice-Calm at (at + 8) bytes (omega arith) (ground (arith, fits)))
          (λ field _. Calm-ensure Any (all_hex_digits field) (ok (from_hex 0 field)) (λ _. tt)))

-- A header that is accepted: the name and the bytes of the file lie in the archive, and the next
-- header lies further ahead.
pub record Fits (bytes : List ℕ) (offset : ℕ) (h : Header) : Type 0 where
  pub named : 0 < h.namesize
  pub name_fits : offset + header_size + h.namesize ≤ length bytes
  pub file_fits : offset + header_size + align4 h.namesize + h.filesize ≤ length bytes
  pub ahead : offset < h.next_header

get_elem?-Calm :
    (bytes : List ℕ) (i : ℕ) → i < length bytes → Calm Any (ok_or (get_elem? bytes i) panic)
get_elem?-Calm [] i below = absurd (omega (arith, below))
get_elem?-Calm (b ∷ bytes) zero below = tt
get_elem?-Calm (b ∷ bytes) (suc i) below = get_elem?-Calm bytes i (omega (arith, below))

check_sizes-Calm :
    (bytes : List ℕ) (offset namesize filesize : ℕ)
    → Calm (Fits bytes offset) (check_sizes bytes offset namesize filesize)
unfolding check_sizes
check_sizes-Calm bytes offset namesize filesize =
    Calm-ensure Q (not (namesize == 0 || ltb 4096 namesize)) after_size λ sized.
      Calm-ensure Q (not (ltb (length bytes) (name_start + namesize))) after_name λ name_in.
        Calm-ensure Q (not (ltb (length bytes) (data_start + filesize))) after_file λ file_in.
          let positive : 0 < namesize = ground (arith, sized) in
          let inside : name_start + namesize ≤ length bytes = ground (arith, name_in) in
          let whole : name_start + align4 namesize + filesize ≤ length bytes =
            ground (arith, file_in) in
          Calm-bind Any Q (ok_or (get_elem? bytes (name_start + namesize - 1)) panic) last_step
            (get_elem?-Calm bytes (name_start + namesize - 1) (omega (arith, inside, positive)))
            (λ last _. Calm-ensure Q (last == 0) (ok (header_of offset namesize filesize)) λ _.
              record {
                named = positive;
                name_fits = inside;
                file_fits = whole;
                ahead = omega arith;
              })
  where
    Q : Header → Type 0
    Q = Fits bytes offset

    name_start : ℕ
    name_start = offset + header_size

    data_start : ℕ
    data_start = name_start + align4 namesize

    last_step : ℕ → Result Failure Header
    last_step last = ensure (last == 0) bad >> ok (header_of offset namesize filesize)

    after_file : Result Failure Header
    after_file = ok_or (get_elem? bytes (name_start + namesize - 1)) panic >>= last_step

    after_name : Result Failure Header
    after_name = ensure (not (ltb (length bytes) (data_start + filesize))) bad >> after_file

    after_size : Result Failure Header
    after_size = ensure (not (ltb (length bytes) (name_start + namesize))) bad >> after_name

pub parse_header-Calm :
    (bytes : List ℕ) (offset : ℕ) → Calm (Fits bytes offset) (parse_header bytes offset)
unfolding parse_header
parse_header-Calm bytes offset =
    Calm-ensure Q (not (ltb (length bytes) (offset + header_size)))
      (slice offset (offset + 6) bytes >>= after_magic)
      λ whole.
        Calm-bind Any Q (slice offset (offset + 6) bytes) after_magic
          (slice-Calm offset (offset + 6) bytes (omega arith) (ground (arith, whole)))
          (λ magic _. Calm-ensure Q (is_magic magic) sizes λ _.
            Calm-bind Any Q (parse_hex8 bytes (offset + 94)) after_namesize
              (parse_hex8-Calm bytes (offset + 94))
              λ namesize _.
                Calm-bind Any Q (parse_hex8 bytes (offset + 54)) (check_sizes bytes offset namesize)
                  (parse_hex8-Calm bytes (offset + 54))
                  λ filesize _. check_sizes-Calm bytes offset namesize filesize)
  where
    Q : Header → Type 0
    Q = Fits bytes offset

    after_namesize : ℕ → Result Failure Header
    after_namesize namesize = parse_hex8 bytes (offset + 54) >>= check_sizes bytes offset namesize

    sizes : Result Failure Header
    sizes = parse_hex8 bytes (offset + 94) >>= after_namesize

    after_magic : List ℕ → Result Failure Header
    after_magic magic = ensure (is_magic magic) bad >> sizes
