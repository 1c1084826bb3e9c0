-- ===== src/Elf/Pages.antt =====
-- What `load_elf` writes to the frame of one page of a segment.
use indominus_os.Prelude.{
  ℕ, ◌+◌, ◌-◌, ◌*◌, ◌/◌, ◌%◌, ◌≡◌, ◌≤◌, ◌<◌, ◌∙◌, min, not, ◌&&◌, ltb, leb, if◌then◌else◌,
  page_size, arith,
}
use indominus_os.Elf.{Slice, Elf64Phdr, PageCopy, page_copy}
use indominus_os.Elf.Load.{copy_page}

-- The page at `page_idx` of a segment whose address is page-aligned.
aligned_page :
    (phdr : Elf64Phdr) (idx : ℕ)
    → phdr.p_vaddr % page_size ≡ 0
    → idx * page_size < phdr.p_memsz
    → let c = page_copy phdr (phdr.p_vaddr / page_size * page_size) idx in
      (c.page_offset ≡ 0)
      × (c.src_offset ≡ phdr.p_offset + idx * page_size)
      × (c.data_in_page ≡ min (min phdr.p_filesz phdr.p_memsz - idx * page_size) page_size)
      × (c.data_in_page + c.bss_in_page ≡ min (phdr.p_memsz - idx * page_size) page_size)
unfolding page_copy
aligned_page phdr idx aligned inside =
    let start : phdr.p_vaddr / page_size * page_size ≡ phdr.p_vaddr = omega arith in
    rw start (ground arith, ground arith, ground arith, ground arith)

copy_page_at :
    (elf_data : Slice) (c : PageCopy) (frame a : ℕ) (bytes : ℕ → ℕ)
    → c.page_offset ≡ 0
    → copy_page elf_data c frame bytes a ≡ (
        if leb frame a && ltb a (frame + c.data_in_page)
        then elf_data.at (c.src_offset + (a - frame))
        else if leb frame a && ltb a (frame + c.data_in_page + c.bss_in_page)
        then 0
        else bytes a)
unfolding copy_page
copy_page_at elf_data c frame a bytes none =
    let dest : frame + c.page_offset ≡ frame = omega (arith, none) in rw dest (ground arith)

-- For a segment at a page-aligned address, and a page that starts below `p_memsz`, `load_elf` fills the
-- frame of the page with the segment's bytes of the file for that page, as far as both `p_filesz` and
-- `p_memsz` reach, then with zeros up to `p_memsz`, and writes no byte outside the frame.
pub copy_page_lem :
    (elf_data : Slice) (phdr : Elf64Phdr) (idx frame a : ℕ) (bytes : ℕ → ℕ)
    → phdr.p_vaddr % page_size ≡ 0
    → idx * page_size < phdr.p_memsz
    → copy_page elf_data (page_copy phdr (phdr.p_vaddr / page_size * page_size) idx) frame bytes a
      ≡ (if not (leb frame a && ltb a (frame + page_size))
          then bytes a
          else if ltb (idx * page_size + (a - frame)) (min phdr.p_filesz phdr.p_memsz)
          then elf_data.at (phdr.p_offset + idx * page_size + (a - frame))
          else if ltb (idx * page_size + (a - frame)) phdr.p_memsz
          then 0
          else bytes a)
copy_page_lem elf_data phdr idx frame a bytes aligned inside =
    let c = page_copy phdr (phdr.p_vaddr / page_size * page_size) idx in
    let (off, src, count, zeros) = aligned_page phdr idx aligned inside in
    copy_page_at elf_data c frame a bytes off ∙ go c src count zeros
  where
    go :
        (c : PageCopy)
        → c.src_offset ≡ phdr.p_offset + idx * page_size
        → c.data_in_page ≡ min (min phdr.p_filesz phdr.p_memsz - idx * page_size) page_size
        → c.data_in_page + c.bss_in_page ≡ min (phdr.p_memsz - idx * page_size) page_size
        → (if leb frame a && ltb a (frame + c.data_in_page)
            then elf_data.at (c.src_offset + (a - frame))
            else if leb frame a && ltb a (frame + c.data_in_page + c.bss_in_page)
            then 0
            else bytes a)
          ≡ (if not (leb frame a && ltb a (frame + page_size))
              then bytes a
              else if ltb (idx * page_size + (a - frame)) (min phdr.p_filesz phdr.p_memsz)
              then elf_data.at (phdr.p_offset + idx * page_size + (a - frame))
              else if ltb (idx * page_size + (a - frame)) phdr.p_memsz
              then 0
              else bytes a)
    go c src count zeros = rw src (ground (arith, count, zeros))

unaligned_page :
    (phdr : Elf64Phdr)
    → 0 < phdr.p_vaddr % page_size
    → page_size ≤ phdr.p_filesz
    → page_size ≤ phdr.p_memsz
    → let c = page_copy phdr (phdr.p_vaddr / page_size * page_size) 0 in
      (c.page_offset ≡ phdr.p_vaddr % page_size)
      × (c.src_offset ≡ phdr.p_offset)
      × (c.data_in_page ≡ page_size)
      × (c.bss_in_page ≡ 0)
unfolding page_copy
unaligned_page phdr off page mem = (ground arith, ground arith, ground arith, ground arith)

-- A segment at an address that is not page-aligned, with at least a page of data in the file and at
-- least a page of memory: the copy for its first page overruns the frame, and writes a byte of the file
-- at the frame that follows.
pub copy_page_overrun :
    (elf_data : Slice) (phdr : Elf64Phdr) (frame : ℕ) (bytes : ℕ → ℕ)
    → 0 < phdr.p_vaddr % page_size
    → page_size ≤ phdr.p_filesz
    → page_size ≤ phdr.p_memsz
    → copy_page elf_data
        (page_copy phdr (phdr.p_vaddr / page_size * page_size) 0)
        frame
        bytes
        (frame + page_size)
      ≡ elf_data.at (phdr.p_offset + (page_size - phdr.p_vaddr % page_size))
unfolding copy_page
copy_page_overrun elf_data phdr frame bytes off page mem =
    let c = page_copy phdr (phdr.p_vaddr / page_size * page_size) 0 in
    let (shift, src, count, zeros) = unaligned_page phdr off page mem in
    let o_lt : phdr.p_vaddr % page_size < page_size = omega arith in
    past c (phdr.p_vaddr % page_size) off o_lt shift src count zeros
  where
    past :
        (c : PageCopy) (o : ℕ)
        → 0 < o
        → o < page_size
        → c.page_offset ≡ o
        → c.src_offset ≡ phdr.p_offset
        → c.data_in_page ≡ page_size
        → c.bss_in_page ≡ 0
        → copy_page elf_data c frame bytes (frame + page_size)
          ≡ elf_data.at (phdr.p_offset + (page_size - o))
    past c o off o_lt shift src count zeros =
        let to : c.src_offset + (frame + page_size - (frame + c.page_offset))
            ≡ phdr.p_offset + (page_size - o) =
          omega arith in
        rw⁻¹ to (ground (arith, off, o_lt, shift, count, zeros))
