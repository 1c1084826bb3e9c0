-- ===== src/Elf/Bounds.antt =====
-- What the checks of `load_elf` on a segment give.
use indominus_os.Prelude.{
  ℕ, ◌+◌, ◌-◌, ◌*◌, ◌/◌, ◌%◌, ◌≡◌, ◌≤◌, ◌<◌, refl, Bool, true, false, ltb, leb, ok, ◌>>◌, ensure,
  u64_mod, page_size, arith, ltb→lt, leb→le, subst,
}
use indominus_os.Elf.{
  Slice, Elf64Phdr, Segment, check_segment, segment_out_of_bounds, segment_overlap,
  segment_too_large, user_space_end, max_user_mem, saturating_add,
}

all_pass :
    {E A : Type 0} (b1 b2 b3 b4 b5 b6 b7 : Bool) (e1 e2 e3 e4 e5 e6 e7 : E) (x : A) {a : A}
    → (ensure b1 e1
        >> ensure b2 e2
        >> ensure b3 e3
        >> ensure b4 e4
        >> ensure b5 e5
        >> ensure b6 e6
        >> ensure b7 e7
        >> ok x)
      ≡ ok a
    → (b1 ≡ true)
      × (b2 ≡ true)
      × (b3 ≡ true)
      × (b4 ≡ true)
      × (b5 ≡ true)
      × (b6 ≡ true)
      × (b7 ≡ true)
      × (x ≡ a)
all_pass true true true true true true true e1 e2 e3 e4 e5 e6 e7 x done =
    (refl, refl, refl, refl, refl, refl, refl, cc done)
all_pass false b2 b3 b4 b5 b6 b7 e1 e2 e3 e4 e5 e6 e7 x done = cc done
all_pass true false b3 b4 b5 b6 b7 e1 e2 e3 e4 e5 e6 e7 x done = cc done
all_pass true true false b4 b5 b6 b7 e1 e2 e3 e4 e5 e6 e7 x done = cc done
all_pass true true true false b5 b6 b7 e1 e2 e3 e4 e5 e6 e7 x done = cc done
all_pass true true true true false b6 b7 e1 e2 e3 e4 e5 e6 e7 x done = cc done
all_pass true true true true true false b7 e1 e2 e3 e4 e5 e6 e7 x done = cc done
all_pass true true true true true true false e1 e2 e3 e4 e5 e6 e7 x done = cc done

-- A segment that passes the checks of `load_elf` has its data inside the file; its pages are whole,
-- lie in the user half below USER_SPACE_END and contain its memory; and with the segments before it
-- it takes at most MAX_USER_MEM.
pub check_segment_lem :
    (elf_data : Slice) (phdr : Elf64Phdr) (total : ℕ) (seg : Segment)
    → elf_data.size < u64_mod - 1
    → check_segment elf_data phdr total ≡ ok seg
    → (phdr.p_offset + phdr.p_filesz ≤ elf_data.size)
      × (seg.virt_start % page_size ≡ 0)
      × (seg.virt_end % page_size ≡ 0)
      × (seg.virt_start ≤ phdr.p_vaddr)
      × (phdr.p_vaddr + phdr.p_memsz ≤ seg.virt_end)
      × (seg.virt_end < user_space_end)
      × (seg.total_mem ≡ total + (seg.virt_end - seg.virt_start))
      × (seg.total_mem ≤ max_user_mem)
unfolding check_segment
check_segment_lem elf_data phdr total seg small done =
    let start = phdr.p_vaddr / page_size * page_size in
    let raw = phdr.p_vaddr + phdr.p_memsz in
    let end = (raw + page_size - 1) / page_size * page_size in
    let (file, user, whole, ends, last, sum, limit, e) =
      all_pass (leb (saturating_add phdr.p_offset phdr.p_filesz) elf_data.size)
        (ltb phdr.p_vaddr user_space_end) (ltb raw u64_mod) (ltb raw user_space_end)
        (ltb end user_space_end) (ltb (total + (end - start)) u64_mod)
        (leb (total + (end - start)) max_user_mem) segment_out_of_bounds segment_overlap
        segment_overlap segment_overlap segment_overlap segment_too_large segment_too_large
        (record { virt_start = start; virt_end = end; total_mem = total + (end - start) }) done in
    subst
      (λ (g : Segment).
        (phdr.p_offset + phdr.p_filesz ≤ elf_data.size)
        × (g.virt_start % page_size ≡ 0)
        × (g.virt_end % page_size ≡ 0)
        × (g.virt_start ≤ phdr.p_vaddr)
        × (phdr.p_vaddr + phdr.p_memsz ≤ g.virt_end)
        × (g.virt_end < user_space_end)
        × (g.total_mem ≡ total + (g.virt_end - g.virt_start))
        × (g.total_mem ≤ max_user_mem))
      e
      (
        ground (arith, file),
        omega arith,
        omega arith,
        omega arith,
        omega arith,
        ltb→lt _ _ last,
        refl,
        leb→le _ _ limit,
      )
