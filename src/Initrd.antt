-- ===== src/Initrd.antt =====
-- indo-kernel/src/initrd.rs: the archive is the list of its bytes, and what the loader puts into the
-- file system goes through Vfs.antt. The test of `core::str::from_utf8` is a parameter; the messages
-- on the serial line are left out. Sums of offsets are exact: a slice has fewer than 2^63 bytes and
-- the two sizes of a header fewer than 2^32, so that they stay below 2^64.
pub mod Headers
pub mod Turns
pub mod Loading
mod Examples
use indominus_os.Prelude.{
  ℕ, zero, suc, ◌+◌, ◌-◌, ◌*◌, ◌%◌, Bool, true, false, not, ◌&&◌, ◌||◌, Option, none, some, List,
  [], ◌∷◌, length, take, drop, get_elem?, ltb, leb, ◌==◌, if◌then◌else◌, Result, ok, err, ◌>>=◌,
  ◌>>◌, ensure, ok_or,
}
use indominus_os.Paths.{Text, slash, dot, is_empty}
use indominus_os.Vfs.{Vfs, create_dir_path, write_file}
use indominus_os.Vfs.Ramfs.{VfsError, Fault, Store, Outcome, text_eq, zeros}

-- `Err(())`, or a panic of an index or a slice.
pub data Failure : Type 0 where
  bad : Failure
  panic : Failure

-- `&data[start..end]`
unfoldable pub slice : ℕ → ℕ → List ℕ → Result Failure (List ℕ)
slice start end bytes =
    if leb start end && leb end (length bytes)
    then ok (take (end - start) (drop start bytes))
    else err panic

abbrev pub is_hex_digit : ℕ → Bool
is_hex_digit b = leb b'0' b && leb b b'9' || leb b'a' b && leb b b'f'

abbrev pub all_hex_digits : List ℕ → Bool
all_hex_digits [] = true
all_hex_digits (b ∷ field) = is_hex_digit b && all_hex_digits field

abbrev pub digit : ℕ → ℕ
digit b = if leb b b'9' then b - b'0' else b - b'a' + 10

-- `u64::from_str_radix(s, 16)` on hexadecimal digits, after the value `n` of those before.
abbrev pub from_hex : ℕ → List ℕ → ℕ
from_hex n [] = n
from_hex n (b ∷ field) = from_hex (n * 16 + digit b) field

unfoldable pub parse_hex8 : List ℕ → ℕ → Result Failure ℕ
unfolding slice
parse_hex8 header offset =
    ensure (not (ltb (length header) (offset + 8))) bad
    >> (slice offset (offset + 8) header >>= λ field.
        ensure (all_hex_digits field) bad >> ok (from_hex 0 field))

abbrev pub header_size : ℕ
header_size = 110

-- b"070701" and b"070702"
abbrev pub is_magic : List ℕ → Bool
is_magic magic =
    text_eq magic (b'0' ∷ b'7' ∷ b'0' ∷ b'7' ∷ b'0' ∷ b'1' ∷ [])
    || text_eq magic (b'0' ∷ b'7' ∷ b'0' ∷ b'7' ∷ b'0' ∷ b'2' ∷ [])

-- `(n + 3) & !3`
abbrev pub align4 : ℕ → ℕ
align4 n = n + 3 - (n + 3) % 4

pub record Header : Type 0 where
  pub namesize : ℕ
  pub filesize : ℕ
  pub next_header : ℕ

abbrev pub header_of : ℕ → ℕ → ℕ → Header
header_of offset namesize filesize = record {
  namesize = namesize;
  filesize = filesize;
  next_header = offset + header_size + align4 namesize + align4 filesize;
}

-- The checks of the two sizes that were parsed.
unfoldable pub check_sizes : List ℕ → ℕ → ℕ → ℕ → Result Failure Header
check_sizes bytes offset namesize filesize =
    let name_start = offset + header_size in
    let data_start = name_start + align4 namesize in
    ensure (not (namesize == 0 || ltb 4096 namesize)) bad
    >> (ensure (not (ltb (length bytes) (name_start + namesize))) bad
        >> (ensure (not (ltb (length bytes) (data_start + filesize))) bad
            >> (ok_or (get_elem? bytes (name_start + namesize - 1)) panic >>= λ last.
                ensure (last == 0) bad >> ok (header_of offset namesize filesize))))

unfoldable pub parse_header : List ℕ → ℕ → Result Failure Header
unfolding slice parse_hex8 check_sizes
parse_header bytes offset =
    ensure (not (ltb (length bytes) (offset + header_size))) bad
    >> (slice offset (offset + 6) bytes >>= λ magic.
        ensure (is_magic magic) bad
        >> (parse_hex8 bytes (offset + 94) >>= λ namesize.
            parse_hex8 bytes (offset + 54) >>= check_sizes bytes offset namesize))

pub record Load : Type 0 where
  pub offset : ℕ
  pub file_count : ℕ
  pub dir_count : ℕ
  pub store : Store

-- A turn of the loop goes on, ends it, or panics.
pub data Turn : Type 0 where
  goes_on : Load → Turn
  stops : Load → Turn
  panics : Turn

-- "TRAILER!!!"
abbrev pub trailer : Text
trailer = b'T' ∷ b'R' ∷ b'A' ∷ b'I' ∷ b'L' ∷ b'E' ∷ b'R' ∷ b'!' ∷ b'!' ∷ b'!' ∷ []

-- `name.contains("..")`
abbrev pub contains_dotdot : Text → Bool
contains_dotdot [] = false
contains_dotdot (c ∷ []) = false
contains_dotdot (c ∷ d ∷ s) = c == dot && d == dot || contains_dotdot (d ∷ s)

abbrev pub ends_with_slash : Text → Bool
ends_with_slash [] = false
ends_with_slash (c ∷ []) = c == slash
ends_with_slash (c ∷ d ∷ s) = ends_with_slash (d ∷ s)

-- `&name[..name.len() - 1]`
abbrev pub without_last : Text → Text
without_last [] = []
without_last (c ∷ []) = []
without_last (c ∷ d ∷ s) = c ∷ without_last (d ∷ s)

-- The end of the turn: `offset = next_offset`, and the test against an endless loop.
abbrev pub advance : List ℕ → ℕ → Load → Turn
advance bytes next l =
    let l' : Load = record l { offset = next } in
    if next == 0 || leb (length bytes) next then stops l' else goes_on l'

abbrev pub made_dir : Outcome (Unit {0}) → Load → Load
made_dir (done, st) l = record l { dir_count = l.dir_count + 1; store = st }

abbrev pub made_file : List ℕ → ℕ → Result Fault ℕ × Store → Load → Turn
made_file bytes next (ok n, st) l =
    advance bytes next (record l { file_count = l.file_count + 1; store = st })
made_file bytes next (err (Fault.refused e), st) l = advance bytes next (record l { store = st })
made_file bytes next (err Fault.panics, st) l = panics

-- "Add to VFS"
unfoldable pub add_entry : Vfs → List ℕ → ℕ → Text → List ℕ → Load → Turn
unfolding create_dir_path write_file
add_entry vfs bytes next name file_data l =
    if ends_with_slash name
    then (if is_empty (without_last name)
        then advance bytes next l
        else advance bytes next (made_dir (create_dir_path vfs (without_last name) l.store) l))
    else made_file bytes next (write_file vfs name file_data l.store) l

module _ (is_utf8 : List ℕ → Bool) (vfs : Vfs) (bytes : List ℕ) where
  abbrev pub with_data : ℕ → Text → Result Failure (List ℕ) → Load → Turn
  with_data next name (ok file_data) l = add_entry vfs bytes next name file_data l
  with_data next name (err e) l = panics

  abbrev pub with_name : Header → Result Failure Text → Load → Turn
  with_name h (err e) l = panics
  with_name h (ok name) l =
      let skipped : Load = record l { offset = h.next_header } in
      let data_start = l.offset + header_size + align4 h.namesize in
      if not (is_utf8 name)
      then goes_on skipped
      else if text_eq name trailer
      then stops l
      else if contains_dotdot name
      then goes_on skipped
      else with_data h.next_header name (slice data_start (data_start + h.filesize) bytes) l

  abbrev pub with_header : Result Failure Header → Load → Turn
  with_header (err bad) l = stops l
  with_header (err panic) l = panics
  with_header (ok h) l =
      let name_start = l.offset + header_size in
      with_name h (slice name_start (name_start + h.namesize - 1) bytes) l

  abbrev pub with_start : Result Failure (List ℕ) → Load → Turn
  with_start (err e) l = panics
  with_start (ok start) l =
      if text_eq start (zeros 6)
      then goes_on (record l { offset = l.offset + 1 })
      else with_header (parse_header bytes l.offset) l

  -- One turn of the loop of `load_initrd`.
  unfoldable pub load_turn : Load → Turn
  unfolding parse_header add_entry
  load_turn l =
      if ltb (length bytes) (l.offset + header_size)
      then stops l
      else with_start (slice l.offset (l.offset + 6) bytes) l

  abbrev pub next_turn : Turn → (Load → Option (Result Failure Load)) → Option (Result Failure Load)
  next_turn (goes_on l) next = next l
  next_turn (stops l) next = some (ok l)
  next_turn panics next = some (err panic)

  -- The loop cut off after `fuel` turns, with `none` if it has not come to its end.
  unfoldable pub load_loop : ℕ → Load → Option (Result Failure Load)
  unfolding load_turn
  load_loop zero l = none
  load_loop (suc fuel) l = next_turn (load_turn l) (load_loop fuel)

  unfoldable pub load_initrd : ℕ → Store → Option (Result Failure Load)
  unfolding load_loop
  load_initrd fuel st =
      load_loop fuel (record { offset = 0; file_count = 0; dir_count = 0; store = st })
