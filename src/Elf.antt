-- ===== src/Elf.antt =====
-- indo-kernel/src/elf/mod.rs: the headers of an ELF64 file, and what each segment may map.
-- A slice of bytes is its length and its bytes by index. Offsets are `usize`, which wraps at 2^64.
pub mod Load
pub mod Bounds
pub mod Pages
pub mod Accept
mod Examples
use indominus_os.Prelude.{
  ℕ, zero, suc, ◌+◌, ◌-◌, ◌*◌, ◌/◌, ◌%◌, ◌^◌, min, Bool, true, false, not, ◌&&◌, ◌||◌, Option, none,
  some, ltb, leb, ◌==◌, if◌then◌else◌, Result, ok, err, ◌>>=◌, ◌>>◌, ensure, ok_or, u64_mod,
  wrapping_add, page_size,
}

pub record Slice : Type 0 where
  pub size : ℕ
  pub at : ℕ → ℕ

pub data ElfError : Type 0 where
  bad_magic not_elf64 not_little_endian not_executable no_program_headers segment_out_of_bounds :
      ElfError
  segment_overlap map_failed bad_entry bad_phdr_size segment_too_large : ElfError

pub record Elf64Phdr : Type 0 where
  pub p_type : ℕ
  pub p_flags : ℕ
  pub p_offset : ℕ
  pub p_vaddr : ℕ
  pub p_paddr : ℕ
  pub p_filesz : ℕ
  pub p_memsz : ℕ
  pub p_align : ℕ

pub record Ehdr : Type 0 where
  pub e_entry : ℕ
  pub e_phoff : ℕ
  pub e_phentsize : ℕ
  pub e_phnum : ℕ
  pub e_type : ℕ

-- Little-endian.
abbrev pub from_le_bytes : ℕ → ℕ → Slice → ℕ
from_le_bytes zero offset elf_data = 0
from_le_bytes (suc n) offset elf_data =
    elf_data.at offset + 256 * from_le_bytes n (offset + 1) elf_data

abbrev read_uint : ℕ → Slice → ℕ → Option ℕ
read_uint width elf_data offset =
    if ltb elf_data.size (wrapping_add offset width)
    then none
    else some (from_le_bytes width offset elf_data)

unfoldable pub read_u16 : Slice → ℕ → Option ℕ
read_u16 elf_data offset = read_uint 2 elf_data offset

unfoldable pub read_u32 : Slice → ℕ → Option ℕ
read_u32 elf_data offset = read_uint 4 elf_data offset

unfoldable pub read_u64 : Slice → ℕ → Option ℕ
read_u64 elf_data offset = read_uint 8 elf_data offset

-- 0x7F, 'E', 'L', 'F'
abbrev has_magic : Slice → Bool
has_magic elf_data =
    elf_data.at 0 == 0x7F && elf_data.at 1 == 0x45 && elf_data.at 2 == 0x4C && elf_data.at 3 == 0x46

-- The size of `Elf64Phdr`.
abbrev pub phdr_size : ℕ
phdr_size = 56

unfoldable pub parse_ehdr : Slice → Result ElfError Ehdr
unfolding read_u16 read_u64
parse_ehdr elf_data =
    ensure (not (ltb elf_data.size 64)) bad_magic
    >> ensure (has_magic elf_data) bad_magic
    >> ensure (elf_data.at 4 == 2) not_elf64
    >> ensure (elf_data.at 5 == 1) not_little_endian
    >> (ok_or (read_u16 elf_data 16) bad_magic >>= (λ type.
        ensure (type == 2 || type == 3) not_executable
        >> (ok_or (read_u64 elf_data 24) bad_magic >>= (λ entry.
            ok_or (read_u64 elf_data 32) bad_magic >>= (λ phoff.
              ok_or (read_u16 elf_data 54) bad_magic >>= (λ phentsize.
                ok_or (read_u16 elf_data 56) bad_magic >>= (λ phnum.
                  ensure (not (phnum == 0)) no_program_headers
                  >> ensure (not (ltb phentsize phdr_size)) bad_phdr_size
                  >> ensure (ltb phoff elf_data.size) segment_out_of_bounds
                  >> ok (record {
                    e_entry = entry;
                    e_phoff = phoff;
                    e_phentsize = phentsize;
                    e_phnum = phnum;
                    e_type = type;
                  }))))))))

abbrev chain {ℓ κ} : {A : Type ℓ} {B : Type κ} → Option A → (A → Option B) → Option B
chain none next = none
chain (some a) next = next a

unfoldable pub parse_phdr : Slice → ℕ → ℕ → ℕ → Option Elf64Phdr
unfolding read_u32 read_u64
parse_phdr elf_data phoff phentsize index =
    let offset = wrapping_add phoff (index * phentsize) in
    if ltb elf_data.size (wrapping_add offset 56)
    then none
    else chain (read_u32 elf_data offset) (λ type.
      chain (read_u32 elf_data (wrapping_add offset 4)) (λ flags.
        chain (read_u64 elf_data (wrapping_add offset 8)) (λ file_offset.
          chain (read_u64 elf_data (wrapping_add offset 16)) (λ vaddr.
            chain (read_u64 elf_data (wrapping_add offset 24)) (λ paddr.
              chain (read_u64 elf_data (wrapping_add offset 32)) (λ filesz.
                chain (read_u64 elf_data (wrapping_add offset 40)) (λ memsz.
                  chain (read_u64 elf_data (wrapping_add offset 48)) (λ align. some (record {
                    p_type = type;
                    p_flags = flags;
                    p_offset = file_offset;
                    p_vaddr = vaddr;
                    p_paddr = paddr;
                    p_filesz = filesz;
                    p_memsz = memsz;
                    p_align = align;
                  })))))))))

abbrev pub max_user_mem : ℕ
max_user_mem = 256 * 1024 * 1024

abbrev pub user_space_end : ℕ
user_space_end = 0x0000_8000_0000_0000

abbrev pub pt_load : ℕ
pt_load = 1

abbrev pub saturating_add : ℕ → ℕ → ℕ
saturating_add a b = min (a + b) (u64_mod - 1)

-- The checks of `load_elf` on one PT_LOAD header: its page-aligned bounds and the memory so far.
pub record Segment : Type 0 where
  pub virt_start : ℕ
  pub virt_end : ℕ
  pub total_mem : ℕ

unfoldable pub check_segment : Slice → Elf64Phdr → ℕ → Result ElfError Segment
check_segment elf_data phdr total =
    let virt_start = phdr.p_vaddr / page_size * page_size in
    let raw_end = phdr.p_vaddr + phdr.p_memsz in
    let virt_end = (raw_end + page_size - 1) / page_size * page_size in
    let total_mem = total + (virt_end - virt_start) in
    ensure (leb (saturating_add phdr.p_offset phdr.p_filesz) elf_data.size) segment_out_of_bounds
    >> ensure (ltb phdr.p_vaddr user_space_end) segment_overlap
    >> ensure (ltb raw_end u64_mod) segment_overlap
    >> ensure (ltb raw_end user_space_end) segment_overlap
    >> ensure (ltb virt_end user_space_end) segment_overlap
    >> ensure (ltb total_mem u64_mod) segment_too_large
    >> ensure (leb total_mem max_user_mem) segment_too_large
    >> ok (record { virt_start = virt_start; virt_end = virt_end; total_mem = total_mem })

-- The copy for one page of a segment: where in the page, from where in the file, and how much.
pub record PageCopy : Type 0 where
  pub page_offset : ℕ
  pub src_offset : ℕ
  pub data_in_page : ℕ
  pub bss_in_page : ℕ

unfoldable pub page_copy : Elf64Phdr → ℕ → ℕ → PageCopy
page_copy phdr virt_start page_idx =
    let page_virt_addr = virt_start + page_idx * page_size in
    let seg_data_start =
      if leb phdr.p_vaddr page_virt_addr then page_virt_addr - phdr.p_vaddr else 0 in
    let seg_data_end = min (seg_data_start + page_size) phdr.p_memsz in
    let data_in_page =
      if ltb seg_data_start phdr.p_filesz
      then min seg_data_end phdr.p_filesz - seg_data_start
      else 0 in
    record {
      page_offset = if ltb page_virt_addr phdr.p_vaddr then phdr.p_vaddr - page_virt_addr else 0;
      src_offset = phdr.p_offset + seg_data_start;
      data_in_page = data_in_page;
      bss_in_page =
          if ltb seg_data_start seg_data_end
          then seg_data_end - seg_data_start - data_in_page
          else 0;
    }
