-- ===== src/Elf/Examples.antt =====
-- The loader at a file of one segment.
use indominus_os.Prelude.{
  ℕ, ◌+◌, ◌-◌, ◌*◌, ◌/◌, ◌%◌, ◌≡◌, ◌≤◌, ◌<◌, refl, not, ◌&&◌, Option, none, some, List, [], ◌∷◌,
  ltb, leb, if◌then◌else◌, ok, err, page_size, arith, get_elem?, min,
}
use indominus_os.Pmm.{alloc_frame}
use indominus_os.Elf.{
  Slice, Elf64Phdr, Ehdr, parse_ehdr, Segment, check_segment, page_copy, user_space_end,
  max_user_mem,
}
use indominus_os.Elf.Load.{Memory, Loaded, Flags, load_elf, validate_elf, copy_page}
use indominus_os.Elf.Bounds.{check_segment_lem}
use indominus_os.Elf.Pages.{copy_page_lem, copy_page_overrun}
use indominus_os.Elf.Accept.{Covers, load_elf-Covers}

abbrev byte : Option ℕ → ℕ
byte none = 0
byte (some b) = b

-- The header, one program header at 64 (PT_LOAD, R+X, offset 120, address 0x400000, 2 bytes in the file
-- and 8 in memory) and the two bytes.
abbrev tiny_bytes : List ℕ
tiny_bytes =
    0x7F ∷ 0x45 ∷ 0x4C ∷ 0x46 ∷ 2 ∷ 1 ∷ 1 ∷ 0 ∷ 0 ∷ 0 ∷ 0 ∷ 0 ∷ 0 ∷ 0 ∷ 0 ∷ 0 ∷ 2 ∷ 0 ∷ 62 ∷ 0 ∷ 1
    ∷ 0 ∷ 0 ∷ 0 ∷ 0 ∷ 0 ∷ 0x40 ∷ 0 ∷ 0 ∷ 0 ∷ 0 ∷ 0 ∷ 64 ∷ 0 ∷ 0 ∷ 0 ∷ 0 ∷ 0 ∷ 0 ∷ 0 ∷ 0 ∷ 0 ∷ 0 ∷ 0
    ∷ 0 ∷ 0 ∷ 0 ∷ 0 ∷ 0 ∷ 0 ∷ 0 ∷ 0 ∷ 64 ∷ 0 ∷ 56 ∷ 0 ∷ 1 ∷ 0 ∷ 0 ∷ 0 ∷ 0 ∷ 0 ∷ 0 ∷ 0 ∷ 1 ∷ 0 ∷ 0
    ∷ 0 ∷ 5 ∷ 0 ∷ 0 ∷ 0 ∷ 120 ∷ 0 ∷ 0 ∷ 0 ∷ 0 ∷ 0 ∷ 0 ∷ 0 ∷ 0 ∷ 0 ∷ 0x40 ∷ 0 ∷ 0 ∷ 0 ∷ 0 ∷ 0 ∷ 0 ∷ 0
    ∷ 0x40 ∷ 0 ∷ 0 ∷ 0 ∷ 0 ∷ 0 ∷ 2 ∷ 0 ∷ 0 ∷ 0 ∷ 0 ∷ 0 ∷ 0 ∷ 0 ∷ 8 ∷ 0 ∷ 0 ∷ 0 ∷ 0 ∷ 0 ∷ 0 ∷ 0 ∷ 0
    ∷ 16 ∷ 0 ∷ 0 ∷ 0 ∷ 0 ∷ 0 ∷ 0 ∷ 0xEB ∷ 0xFE ∷ []

abbrev tiny : Slice
tiny = record { size = 122; at = λ i. byte (get_elem? tiny_bytes i) }

abbrev tiny_phdr : Elf64Phdr
tiny_phdr = record {
  p_type = 1;
  p_flags = 5;
  p_offset = 120;
  p_vaddr = 0x400000;
  p_paddr = 0x400000;
  p_filesz = 2;
  p_memsz = 8;
  p_align = 4096;
}

abbrev tiny_segment : Segment
tiny_segment = record { virt_start = 0x400000; virt_end = 0x401000; total_mem = 4096 }

check_segment_lem_example :
    (120 + 2 ≤ 122)
    × (0x400000 % page_size ≡ 0)
    × (0x401000 % page_size ≡ 0)
    × (0x400000 ≤ 0x400000)
    × (0x400000 + 8 ≤ 0x401000)
    × (0x401000 < user_space_end)
    × (4096 ≡ 0 + (0x401000 - 0x400000))
    × (4096 ≤ max_user_mem)
unfolding check_segment
check_segment_lem_example = check_segment_lem tiny tiny_phdr 0 tiny_segment (omega arith) refl

-- Frame 1 is free.
abbrev free_memory : Memory
free_memory = record {
  frames = record { bitmap = λ _. 0; refcounts = λ _. 0; total_frames = 2; free_frames = 1 };
  bytes = λ _. 255;
}

abbrev no_tables : ℕ → ℕ → ℕ → Flags → Memory → Memory
no_tables pml4 page frame flags m = m

memory_of : Loaded (ℕ × Memory) → Memory
memory_of (ok (entry, m)) = m
memory_of (err (e, m)) = m

load_elf-Covers_example :
    (h : Ehdr) × (parse_ehdr tiny ≡ ok h)
    × (0x400000 ≡ h.e_entry)
    × Covers tiny h
    × (t : ℕ) × (validate_elf tiny ≡ ok (0x400000, t))
unfolding load_elf memory_of alloc_frame
load_elf-Covers_example =
    load_elf-Covers no_tables tiny 4096 0x400000 free_memory
      (memory_of (load_elf no_tables tiny 4096 free_memory)) refl

-- One page of a segment at the aligned address of `tiny_phdr`, and one at 0x400010 with 4096 bytes.
copy_page_lem_example :
    copy_page tiny (page_copy tiny_phdr (0x400000 / page_size * page_size) 0) 8192 (λ _. 255) 8193
    ≡ (if not (leb 8192 8193 && ltb 8193 (8192 + page_size))
        then 255
        else if ltb (0 * page_size + (8193 - 8192)) (min 2 8)
        then tiny.at (120 + 0 * page_size + (8193 - 8192))
        else if ltb (0 * page_size + (8193 - 8192)) 8
        then 0
        else 255)
copy_page_lem_example = copy_page_lem tiny tiny_phdr 0 8192 8193 (λ _. 255) refl (omega arith)

abbrev shifted_phdr : Elf64Phdr
shifted_phdr = record tiny_phdr { p_vaddr = 0x400010; p_filesz = 4096; p_memsz = 4096 }

copy_page_overrun_example :
    copy_page tiny
      (page_copy shifted_phdr (0x400010 / page_size * page_size) 0)
      8192
      (λ _. 255)
      (8192 + page_size)
    ≡ tiny.at (120 + (page_size - 0x400010 % page_size))
copy_page_overrun_example =
    copy_page_overrun tiny shifted_phdr 8192 (λ _. 255) (omega arith) (omega arith) (omega arith)
