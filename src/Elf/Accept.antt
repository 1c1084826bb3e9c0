-- ===== src/Elf/Accept.antt =====
-- What a successful `load_elf` has checked.
use indominus_os.Prelude.{
  ℕ, zero, suc, ◌+◌, ◌-◌, ◌/◌, ◌≡◌, ◌≤◌, ◌<◌, ◌⊎◌, refl, ap, sym, ◌∙◌, inl, inr, true, false, not,
  ◌&&◌, ◌||◌, Option, none, some, ltb, leb, ◌==◌, if◌then◌else◌, Result, ok, err, ◌>>=◌, ◌>>◌,
  ensure, ok_or, bind-eq-ok, page_size, wrapping_add, arith, Bool-cases,
}
use indominus_os.Elf.{
  Slice, ElfError, segment_out_of_bounds, bad_entry, Elf64Phdr, Ehdr, parse_ehdr, parse_phdr,
  pt_load, Segment, check_segment, saturating_add,
}
use indominus_os.Elf.Load.{
  Memory, Flags, Loading, at_memory, load_pages, load_segment, load_loop, load_elf, finish,
  validate_loop, validate_elf,
}

at_memory-ok :
    {A : Type 0} (m : Memory) (r : Result ElfError A) {a : A} → at_memory m r ≡ ok a → r ≡ ok a
at_memory-ok m (ok a) done = cc done
at_memory-ok m (err e) done = cc done

ok_or-some : {A E : Type 0} (o : Option A) (e : E) {a : A} → ok_or o e ≡ ok a → o ≡ some a
ok_or-some none e done = cc done
ok_or-some (some a) e done = cc done

module _ (map_page : ℕ → ℕ → ℕ → Flags → Memory → Memory) where
  load_segment-checks :
      (elf_data : Slice) (pml4 entry : ℕ) (phdr : Elf64Phdr) (l l' : Loading)
      → load_segment map_page elf_data pml4 entry phdr l ≡ ok l'
      → (seg : Segment) × (check_segment elf_data phdr l.total_mem ≡ ok seg)
        × (l'.entry_in_segment
            ≡ (l.entry_in_segment || leb seg.virt_start entry && ltb entry seg.virt_end))
  unfolding load_segment
  load_segment-checks elf_data pml4 entry phdr l l' done =
      let (seg, checked, d1) =
        bind-eq-ok (at_memory l.memory (check_segment elf_data phdr l.total_mem)) _ done in
      let (m, loaded, d2) =
        bind-eq-ok
          (load_pages map_page ((seg.virt_end - seg.virt_start) / page_size) 0 elf_data pml4 phdr
            seg.virt_start l.memory)
          _ d1 in
      (seg, at_memory-ok l.memory _ checked, cc d2)

  load_loop-steps :
      (r i : ℕ) (elf_data : Slice) (pml4 : ℕ) (h : Ehdr) (l l' : Loading)
      → load_loop map_page (suc r) i elf_data pml4 h l ≡ ok l'
      → (phdr : Elf64Phdr) × (parse_phdr elf_data h.e_phoff h.e_phentsize i ≡ some phdr)
        × (mid : Loading) × ((if not (phdr.p_type == pt_load)
              then ok l
              else load_segment map_page elf_data pml4 h.e_entry phdr l)
            ≡ ok mid)
        × (load_loop map_page r (i + 1) elf_data pml4 h mid ≡ ok l')
  unfolding load_loop
  load_loop-steps r i elf_data pml4 h l l' done =
      let (phdr, parsed, d1) =
        bind-eq-ok
          (at_memory l.memory
            (ok_or (parse_phdr elf_data h.e_phoff h.e_phentsize i) segment_out_of_bounds))
          _ done in
      let (mid, step, d2) =
        bind-eq-ok
          (if not (phdr.p_type == pt_load)
            then ok l
            else load_segment map_page elf_data pml4 h.e_entry phdr l)
          _ d1 in
      (phdr, ok_or-some _ _ (at_memory-ok l.memory _ parsed), mid, step, d2)

check_segment-file :
    (elf_data : Slice) (phdr : Elf64Phdr) (total : ℕ) (seg : Segment)
    → check_segment elf_data phdr total ≡ ok seg
    → leb (saturating_add phdr.p_offset phdr.p_filesz) elf_data.size ≡ true
unfolding check_segment
check_segment-file elf_data phdr total seg done =
    elim (Bool-cases (leb (saturating_add phdr.p_offset phdr.p_filesz) elf_data.size)) [
      | inl inside ↦ inside
      | inr outside ↦
          let no : check_segment elf_data phdr total ≡ err segment_out_of_bounds =
            rw outside refl in
          cc (no, done)
    ]

abbrev add_segment : Slice → Elf64Phdr → ℕ → Result ElfError ℕ
add_segment elf_data phdr total =
    if not (phdr.p_type == pt_load)
    then ok total
    else ensure (leb (saturating_add phdr.p_offset phdr.p_filesz) elf_data.size)
        segment_out_of_bounds
      >> ok (wrapping_add total phdr.p_memsz)

validate_loop-step :
    (r i : ℕ) (elf_data : Slice) (h : Ehdr) (total total' : ℕ) (phdr : Elf64Phdr)
    → parse_phdr elf_data h.e_phoff h.e_phentsize i ≡ some phdr
    → add_segment elf_data phdr total ≡ ok total'
    → validate_loop (suc r) i elf_data h total ≡ validate_loop r (i + 1) elf_data h total'
unfolding validate_loop
validate_loop-step r i elf_data h total total' phdr parsed added =
    ap
      (λ o.
        ok_or o segment_out_of_bounds
        >>= (λ p. add_segment elf_data p total >>= (λ t. validate_loop r (i + 1) elf_data h t)))
      parsed
    ∙ ap (λ (x : Result ElfError ℕ). x >>= (λ t. validate_loop r (i + 1) elf_data h t)) added

-- Some PT_LOAD header of the file passes the checks, and its pages contain the entry point.
pub Covers : Slice → Ehdr → Type 0
Covers elf_data h =
    (j : ℕ) × (phdr : Elf64Phdr) × (total : ℕ) × (seg : Segment) × (j < h.e_phnum)
    × (parse_phdr elf_data h.e_phoff h.e_phentsize j ≡ some phdr)
    × (phdr.p_type ≡ pt_load)
    × (check_segment elf_data phdr total ≡ ok seg)
    × (seg.virt_start ≤ h.e_entry)
    × (h.e_entry < seg.virt_end)

module _ (map_page : ℕ → ℕ → ℕ → Flags → Memory → Memory) where
  load_loop-validate_loop :
      (r i : ℕ) (elf_data : Slice) (pml4 : ℕ) (h : Ehdr) (l l' : Loading) (total : ℕ)
      → load_loop map_page r i elf_data pml4 h l ≡ ok l'
      → (t : ℕ) × (validate_loop r i elf_data h total ≡ ok t)
  unfolding load_loop validate_loop
  load_loop-validate_loop zero i elf_data pml4 h l l' total done = (total, refl)
  load_loop-validate_loop (suc r) i elf_data pml4 h l l' total done =
      let (phdr, parsed, mid, step, rest) =
        load_loop-steps map_page r i elf_data pml4 h l l' done in
      let (total', added) = adds phdr mid step in
      let (t, valid) = load_loop-validate_loop r (i + 1) elf_data pml4 h mid l' total' rest in
      (t, validate_loop-step r i elf_data h total total' phdr parsed added ∙ valid)
    where
      adds :
          (phdr : Elf64Phdr) (mid : Loading)
          → (if not (phdr.p_type == pt_load)
              then ok l
              else load_segment map_page elf_data pml4 h.e_entry phdr l)
            ≡ ok mid
          → (total' : ℕ) × (add_segment elf_data phdr total ≡ ok total')
      adds phdr mid step = elim (Bool-cases (phdr.p_type == pt_load)) [
        | inr other ↦ (total, rw other refl)
        | inl load ↦
            let loaded : load_segment map_page elf_data pml4 h.e_entry phdr l ≡ ok mid =
              rw load at step in
            let (seg, checked, e) =
              load_segment-checks map_page elf_data pml4 h.e_entry phdr l mid loaded in
            let file = check_segment-file elf_data phdr l.total_mem seg checked in
            (wrapping_add total phdr.p_memsz, rw (load, file) refl)
      ]

  load_loop-Covers :
      (r i : ℕ) (elf_data : Slice) (pml4 : ℕ) (h : Ehdr) (l l' : Loading)
      → i + r ≡ h.e_phnum
      → load_loop map_page r i elf_data pml4 h l ≡ ok l'
      → l'.entry_in_segment ≡ true
      → (l.entry_in_segment ≡ true) ⊎ Covers elf_data h
  unfolding load_loop Covers
  load_loop-Covers zero i elf_data pml4 h l l' e done in_segment = inl (cc (done, in_segment))
  load_loop-Covers (suc r) i elf_data pml4 h l l' e done in_segment =
      let (phdr, parsed, mid, step, rest) =
        load_loop-steps map_page r i elf_data pml4 h l l' done in
      elim (load_loop-Covers r (i + 1) elf_data pml4 h mid l' (omega arith) rest in_segment) [
        | inr covers ↦ inr covers
        | inl at_mid ↦ here phdr mid parsed step at_mid
      ]
    where
      here :
          (phdr : Elf64Phdr) (mid : Loading)
          → parse_phdr elf_data h.e_phoff h.e_phentsize i ≡ some phdr
          → (if not (phdr.p_type == pt_load)
              then ok l
              else load_segment map_page elf_data pml4 h.e_entry phdr l)
            ≡ ok mid
          → mid.entry_in_segment ≡ true
          → (l.entry_in_segment ≡ true) ⊎ Covers elf_data h
      here phdr mid parsed step at_mid = elim (Bool-cases (phdr.p_type == pt_load)) [
        | inr other ↦ let same : ok l ≡ ok mid = rw other at step in inl (cc (same, at_mid))
        | inl load ↦
            let loaded : load_segment map_page elf_data pml4 h.e_entry phdr l ≡ ok mid =
              rw load at step in
            let (seg, checked, is) =
              load_segment-checks map_page elf_data pml4 h.e_entry phdr l mid loaded in
            let now : (l.entry_in_segment
                  || leb seg.virt_start h.e_entry && ltb h.e_entry seg.virt_end)
                ≡ true =
              sym is ∙ at_mid in
            elim (Bool-cases l.entry_in_segment) [
              | inl before ↦ inl before
              | inr not_before ↦ inr (
                i,
                phdr,
                l.total_mem,
                seg,
                omega arith,
                parsed,
                ground (arith, load),
                checked,
                ground (arith, now, not_before),
                ground (arith, now, not_before),
              )
            ]
      ]

  -- If `load_elf` succeeds, whatever `map_page` does, the entry point it returns is the one of the
  -- header, it lies in the pages of a PT_LOAD segment that passed the checks, and `validate_elf` accepts
  -- the file with the same entry point.
  pub load_elf-Covers :
      (elf_data : Slice) (pml4 entry : ℕ) (m m' : Memory)
      → load_elf map_page elf_data pml4 m ≡ ok (entry, m')
      → (h : Ehdr) × (parse_ehdr elf_data ≡ ok h)
        × (entry ≡ h.e_entry)
        × Covers elf_data h
        × (t : ℕ) × (validate_elf elf_data ≡ ok (entry, t))
  unfolding load_elf validate_elf
  load_elf-Covers elf_data pml4 entry m m' done =
      let (h, parsed, d1) = bind-eq-ok (at_memory m (parse_ehdr elf_data)) _ done in
      let start : Loading = record { entry_in_segment = false; total_mem = 0; memory = m } in
      let (l, looped, d2) =
        bind-eq-ok (load_loop map_page h.e_phnum 0 elf_data pml4 h start) _ d1 in
      let (inside, result) = last h l d2 in
      let (t, valid) = load_loop-validate_loop h.e_phnum 0 elf_data pml4 h start l 0 looped in
      let ehdr = at_memory-ok m _ parsed in
      (h, ehdr, result, covered h l looped inside, t, validated h t ehdr valid result)
    where
      last :
          (h : Ehdr) (l : Loading)
          → finish h l ≡ ok (entry, m')
          → (l.entry_in_segment ≡ true) × (entry ≡ h.e_entry)
      last h l d2 = elim (Bool-cases l.entry_in_segment) [
        | inl inside ↦
            let e : finish h l ≡ ok (h.e_entry, l.memory) = rw inside refl in (inside, cc (e, d2))
        | inr outside ↦
            let e : finish h l ≡ err (bad_entry, l.memory) = rw outside refl in cc (e, d2)
      ]

      covered :
          (h : Ehdr) (l : Loading)
          → load_loop map_page h.e_phnum 0 elf_data pml4 h
              (record { entry_in_segment = false; total_mem = 0; memory = m })
            ≡ ok l
          → l.entry_in_segment ≡ true
          → Covers elf_data h
      covered h l looped inside =
          elim (load_loop-Covers h.e_phnum 0 elf_data pml4 h
            (record { entry_in_segment = false; total_mem = 0; memory = m }) l (omega arith) looped
            inside) [ inr covers ↦ covers | inl off ↦ cc off ]

      validated :
          (h : Ehdr) (t : ℕ)
          → parse_ehdr elf_data ≡ ok h
          → validate_loop h.e_phnum 0 elf_data h 0 ≡ ok t
          → entry ≡ h.e_entry
          → validate_elf elf_data ≡ ok (entry, t)
      validated h t ehdr valid result = rw (ehdr, valid, result) refl
