-- ===== src/Elf/Load.antt =====
-- `load_elf`, `validate_elf` and `validate_elf_header` of indo-kernel/src/elf/mod.rs.
-- `map_page` of memory/vmm.rs calls the x86_64 crate's mapper, which walks the page tables and takes
-- frames for them: it is a parameter, which may change all of the memory.
use indominus_os.Prelude.{
  ℕ, zero, suc, ◌+◌, ◌-◌, ◌*◌, ◌/◌, Bool, false, not, ◌&&◌, ◌||◌, Option, none, some, ltb, leb,
  ◌==◌, if◌then◌else◌, Result, ok, err, ◌>>=◌, ◌>>◌, ensure, ok_or, wrapping_add, page_size,
  bit_and,
}
use indominus_os.Pmm.{Pmm, alloc_frame}
use indominus_os.Elf.{
  Slice, ElfError, segment_out_of_bounds, map_failed, bad_entry, Elf64Phdr, Ehdr, parse_ehdr,
  parse_phdr, pt_load, check_segment, PageCopy, page_copy, saturating_add,
}

-- The frames, and every byte of the physical memory by its address.
pub record Memory : Type 0 where
  pub frames : Pmm
  pub bytes : ℕ → ℕ

-- PRESENT and USER_ACCESSIBLE are always set.
pub record Flags : Type 0 where
  pub writable : Bool
  pub no_execute : Bool

-- `core::ptr::write_bytes`
abbrev pub write_bytes : ℕ → ℕ → ℕ → (ℕ → ℕ) → ℕ → ℕ
write_bytes dest value count bytes a = if leb dest a && ltb a (dest + count) then value else bytes a

-- `core::ptr::copy_nonoverlapping` from the file
abbrev pub copy_from : Slice → ℕ → ℕ → ℕ → (ℕ → ℕ) → ℕ → ℕ
copy_from elf_data src dest count bytes a =
    if leb dest a && ltb a (dest + count) then elf_data.at (src + (a - dest)) else bytes a

-- `PmmFrameAllocator::allocate_frame`: a frame of the PMM, zeroed.
unfoldable pub allocate_frame : Memory → Option (ℕ × Memory)
allocate_frame m = elim (alloc_frame m.frames) [
  | none ↦ none
  | some (frame, p) ↦
      some (frame, record { frames = p; bytes = write_bytes frame 0 page_size m.bytes })
]

unfoldable pub copy_page : Slice → PageCopy → ℕ → (ℕ → ℕ) → ℕ → ℕ
copy_page elf_data c frame bytes =
    let dest = frame + c.page_offset in
    write_bytes (dest + c.data_in_page) 0 c.bss_in_page
      (copy_from elf_data c.src_offset dest c.data_in_page bytes)

-- PF_W is 2, PF_X is 1.
abbrev pub segment_flags : Elf64Phdr → Flags
segment_flags phdr = record {
  writable = not (bit_and phdr.p_flags 2 == 0);
  no_execute = bit_and phdr.p_flags 1 == 0;
}

pub record Loading : Type 0 where
  pub entry_in_segment : Bool
  pub total_mem : ℕ
  pub memory : Memory

-- What was mapped and written before an error stays.
abbrev pub Loaded : Type 0 → Type 0
Loaded A = Result (ElfError × Memory) A

abbrev pub at_memory : {A : Type 0} → Memory → Result ElfError A → Loaded A
at_memory m (ok a) = ok a
at_memory m (err e) = err (e, m)

-- The last check of `load_elf`, and its result.
abbrev pub finish : Ehdr → Loading → Loaded (ℕ × Memory)
finish h l = if l.entry_in_segment then ok (h.e_entry, l.memory) else err (bad_entry, l.memory)

module _ (map_page : ℕ → ℕ → ℕ → Flags → Memory → Memory) where
  -- `rounds` pages of a segment, from page `page_idx` on.
  unfoldable pub load_pages : ℕ → ℕ → Slice → ℕ → Elf64Phdr → ℕ → Memory → Loaded Memory
  unfolding allocate_frame copy_page page_copy
  load_pages zero page_idx elf_data pml4_phys phdr virt_start m = ok m
  load_pages (suc rounds) page_idx elf_data pml4_phys phdr virt_start m =
      at_memory m (ok_or (allocate_frame m) map_failed) >>= (λ (frame, taken).
        let mapped =
          map_page pml4_phys (virt_start + page_idx * page_size) frame (segment_flags phdr) taken in
        load_pages rounds (page_idx + 1) elf_data pml4_phys phdr virt_start (record mapped {
          bytes = copy_page elf_data (page_copy phdr virt_start page_idx) frame mapped.bytes;
        }))

  unfoldable pub load_segment : Slice → ℕ → ℕ → Elf64Phdr → Loading → Loaded Loading
  unfolding load_pages check_segment
  load_segment elf_data pml4_phys entry phdr l =
      at_memory l.memory (check_segment elf_data phdr l.total_mem) >>= (λ seg.
        load_pages ((seg.virt_end - seg.virt_start) / page_size) 0 elf_data pml4_phys phdr
          seg.virt_start l.memory
        >>= (λ m. ok (record {
          entry_in_segment =
              l.entry_in_segment || leb seg.virt_start entry && ltb entry seg.virt_end;
          total_mem = seg.total_mem;
          memory = m;
        })))

  -- `for i in 0..phnum`, over `rounds` headers from header i on.
  unfoldable pub load_loop : ℕ → ℕ → Slice → ℕ → Ehdr → Loading → Loaded Loading
  unfolding load_segment parse_phdr
  load_loop zero i elf_data pml4_phys h l = ok l
  load_loop (suc rounds) i elf_data pml4_phys h l =
      at_memory l.memory
        (ok_or (parse_phdr elf_data h.e_phoff h.e_phentsize i) segment_out_of_bounds)
      >>= (λ phdr.
          (if not (phdr.p_type == pt_load)
            then ok l
            else load_segment elf_data pml4_phys h.e_entry phdr l)
          >>= (λ l'. load_loop rounds (i + 1) elf_data pml4_phys h l'))

  -- The entry point and the memory.
  unfoldable pub load_elf : Slice → ℕ → Memory → Loaded (ℕ × Memory)
  unfolding parse_ehdr load_loop
  load_elf elf_data pml4_phys m = at_memory m (parse_ehdr elf_data) >>= (λ h.
      load_loop h.e_phnum 0 elf_data pml4_phys h
        (record { entry_in_segment = false; total_mem = 0; memory = m })
      >>= (λ l. finish h l))

unfoldable pub validate_loop : ℕ → ℕ → Slice → Ehdr → ℕ → Result ElfError ℕ
unfolding parse_phdr
validate_loop zero i elf_data h total = ok total
validate_loop (suc rounds) i elf_data h total =
    ok_or (parse_phdr elf_data h.e_phoff h.e_phentsize i) segment_out_of_bounds >>= (λ phdr.
      (if not (phdr.p_type == pt_load)
        then ok total
        else ensure (leb (saturating_add phdr.p_offset phdr.p_filesz) elf_data.size)
            segment_out_of_bounds
          >> ok (wrapping_add total phdr.p_memsz))
      >>= (λ total'. validate_loop rounds (i + 1) elf_data h total'))

-- The entry point and the segments' memory.
unfoldable pub validate_elf : Slice → Result ElfError (ℕ × ℕ)
unfolding parse_ehdr validate_loop
validate_elf elf_data =
    parse_ehdr elf_data
    >>= (λ h. validate_loop h.e_phnum 0 elf_data h 0 >>= (λ total. ok (h.e_entry, total)))

unfoldable pub header_loop : ℕ → ℕ → Slice → Ehdr → Result ElfError (Unit {0})
unfolding parse_phdr
header_loop zero i elf_data h = ok tt
header_loop (suc rounds) i elf_data h =
    ok_or (parse_phdr elf_data h.e_phoff h.e_phentsize i) segment_out_of_bounds
    >>= (λ phdr. header_loop rounds (i + 1) elf_data h)

unfoldable pub validate_elf_header : Slice → Result ElfError (ℕ × ℕ)
unfolding parse_ehdr header_loop
validate_elf_header elf_data =
    parse_ehdr elf_data >>= (λ h. header_loop h.e_phnum 0 elf_data h >> ok (h.e_entry, h.e_phnum))
