-- ===== src/Vfs/Contents.antt =====
-- What reads and writes do to the bytes of a file.
use mathlib.Core.List.{append_assoc, append-nil}
use indominus_os.Prelude.{
  ℕ, zero, suc, ◌+◌, ◌-◌, ◌<◌, ◌≡◌, refl, ap, sym, ◌∙◌, some, List, [], ◌∷◌, ◌++◌, length, take,
  drop, arith, ok, length-take, drop-nil, length-drop,
}
use indominus_os.Vfs.{chunk, next_chunk, read_all}
use indominus_os.Vfs.Ramfs.{file_handle, Store, read, overwrite, zeros}

drop-append_zeros :
    (n : ℕ) (bytes : List ℕ) → drop n (bytes ++ zeros (n - length bytes)) ≡ drop n bytes
drop-append_zeros zero [] = let e : zero - zero ≡ zero = omega arith in ap zeros e
drop-append_zeros zero (b ∷ bytes) =
    let e : zero - suc (length bytes) ≡ zero = omega arith in
    ap (λ k. b ∷ (bytes ++ zeros k)) e ∙ append-nil (b ∷ bytes)
drop-append_zeros (suc n) [] =
    let e : suc n - zero ≡ suc n = omega arith in
    let e' : n - zero ≡ n = omega arith in
    ap (λ k. drop (suc n) (zeros k)) e
    ∙ ap (λ k. drop n (zeros k)) (sym e')
    ∙ drop-append_zeros n []
    ∙ drop-nil n
drop-append_zeros (suc n) (b ∷ bytes) =
    let e : suc n - suc (length bytes) ≡ n - length bytes = omega arith in
    ap (λ k. drop n (bytes ++ zeros k)) e ∙ drop-append_zeros n bytes

-- A write at the start replaces the first bytes and leaves the others.
pub overwrite_start : (buf bytes : List ℕ) → overwrite 0 buf bytes ≡ buf ++ drop (length buf) bytes
unfolding overwrite
overwrite_start buf bytes =
    let e : 0 + length buf ≡ length buf = omega arith in
    ap (λ k. buf ++ drop k (bytes ++ zeros (k - length bytes))) e
    ∙ ap (λ rest. buf ++ rest) (drop-append_zeros (length buf) bytes)

drop-drop : (a b : ℕ) (xs : List ℕ) → drop (a + b) xs ≡ drop b (drop a xs)
drop-drop zero b xs = let e : zero + b ≡ b = omega arith in ap (λ k. drop k xs) e
drop-drop (suc a) b [] = drop-nil (suc a + b) ∙ sym (drop-nil b)
drop-drop (suc a) b (x ∷ xs) =
    let e : suc a + b ≡ suc (a + b) = omega arith in ap (λ k. drop k (x ∷ xs)) e ∙ drop-drop a b xs

append_split :
    (buf got rest whole : List ℕ) → got ++ rest ≡ whole → (buf ++ got) ++ rest ≡ buf ++ whole
append_split buf got rest whole e = append_assoc buf got rest ∙ ap (λ r. buf ++ r) e

take_part : (n : ℕ) (xs : List ℕ) → take n xs ++ drop (length (take n xs)) xs ≡ xs
take_part zero xs = refl
take_part (suc n) [] = refl
take_part (suc n) (x ∷ xs) = ap (λ r. x ∷ r) (take_part n xs)

eq_nil_take : (xs : List ℕ) → take chunk xs ≡ [] → xs ≡ []
eq_nil_take [] h = refl
eq_nil_take (x ∷ xs) h = absurd (omega (arith, ap length h, length-take chunk (x ∷ xs)))

-- The chunk that was read and what is left after it are what was left before.
chunk_split :
    (pos : ℕ) (all got : List ℕ)
    → take chunk (drop pos all) ≡ got
    → got ++ drop (pos + length got) all ≡ drop pos all
chunk_split pos all got e =
    ap (λ rest. got ++ rest) (drop-drop pos (length got) all)
    ∙ ap (λ g. g ++ drop (length g) (drop pos all)) (sym e)
    ∙ take_part chunk (drop pos all)

-- The loop of `read_file` on an open file comes to its end with the bytes from the position on.
pub read_all-file :
    (fuel : ℕ) (st : Store) (f pos : ℕ) (buf : List ℕ)
    → length (st.file_data f) - pos < fuel
    → read_all fuel st (file_handle f pos) buf ≡ some (ok (buf ++ drop pos (st.file_data f)))
unfolding read_all read
read_all-file zero st f pos buf enough = absurd (omega (arith, enough))
read_all-file (suc fuel) st f pos buf enough =
    turn (read_all-file fuel st f) (take chunk (drop pos (st.file_data f))) refl
  where
    all : List ℕ
    all = st.file_data f

    turn :
        ((pos' : ℕ) (buf' : List ℕ)
          → length all - pos' < fuel
          → read_all fuel st (file_handle f pos') buf' ≡ some (ok (buf' ++ drop pos' all)))
        → (got : List ℕ) → take chunk (drop pos all) ≡ got
        → next_chunk (ok got, file_handle f (pos + length got)) buf (read_all fuel st)
          ≡ some (ok (buf ++ drop pos all))
    turn later [] e =
        let nothing = eq_nil_take (drop pos all) e in
        ap (λ rest. some (ok rest)) (sym (append-nil buf) ∙ ap (λ rest. buf ++ rest) (sym nothing))
    turn later (b ∷ got) e =
        let split : (b ∷ got) ++ drop (pos + suc (length got)) all ≡ drop pos all =
          chunk_split pos all (b ∷ got) e in
        let longer : 0 < length (drop pos all) = omega (arith, ap length split) in
        let room : length all - (pos + suc (length got)) < fuel =
          omega (arith, enough, longer, length-drop pos all) in
        let same : (buf ++ b ∷ got) ++ drop (pos + suc (length got)) all ≡ buf ++ drop pos all =
          append_split buf (b ∷ got) (drop (pos + suc (length got)) all) (drop pos all) split in
        later (pos + suc (length got)) (buf ++ b ∷ got) room ∙ ap (λ rest. some (ok rest)) same
