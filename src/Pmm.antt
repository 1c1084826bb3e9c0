-- ===== src/Pmm.antt =====
-- indo-kernel/src/memory/pmm.rs: the physical memory manager. The four statics are the fields of
-- `Pmm`; `free_frames` is a machine word and wraps. Serial output is left out.
mod Bits
pub mod Init
pub mod Invariant
pub mod Calls
pub mod Alloc
pub mod Refcounts
mod Examples
use indominus_os.Prelude.{
  ℕ, zero, suc, ◌+◌, ◌-◌, ◌*◌, ◌/◌, ◌%◌, ◌≡◌, ◌<◌, min, Bool, true, false, not, ◌&&◌, Option, none,
  some, List, [], ◌∷◌, Result, ok, err, ◌>>=◌, ◌>>◌, ensure, ltb, ◌==◌, if◌then◌else◌, update,
  wrapping_add, wrapping_sub, page_size,
}
use Bits.{Bitmap, bitmap_set, bitmap_clear, bitmap_test}

-- 16 GiB of frames.
abbrev pub max_frames : ℕ
max_frames = 16 * 1024 * 1024 * 1024 / page_size

pub record Pmm : Type 0 where
  pub bitmap : Bitmap
  pub refcounts : ℕ → ℕ
  pub total_frames : ℕ
  pub free_frames : ℕ

pub data Panic : Type 0 where
  frame_zero out_of_range not_aligned double_free bad_refcount incref_unallocated : Panic
  decref_unallocated refcount_zero : Panic

abbrev pub Checked : Type 0 → Type 0
Checked A = Result Panic A

-- The statics before `init`: zero bytes in BSS.
abbrev pub bss : Pmm
bss = record { bitmap = λ _. 0; refcounts = λ _. 0; total_frames = 0; free_frames = 0 }

-- Set a frame's bit or clear it, with the count of free frames.
abbrev pub take_frame : ℕ → Pmm → Pmm
take_frame frame p = record p {
  bitmap = bitmap_set frame p.bitmap;
  free_frames = wrapping_sub p.free_frames 1;
}

abbrev pub give_frame : ℕ → Pmm → Pmm
give_frame frame p = record p {
  bitmap = bitmap_clear frame p.bitmap;
  free_frames = wrapping_add p.free_frames 1;
}

-- The loop of `alloc_frame`, `rounds` indices from `index` on.
unfoldable pub alloc_loop : ℕ → ℕ → Pmm → Option (ℕ × Pmm)
unfolding bitmap_test
alloc_loop zero index p = none
alloc_loop (suc rounds) index p =
    let rest = alloc_loop rounds (index + 1) p in
    if bitmap_test index p.bitmap
    then rest
    else some
        (index * page_size, record (take_frame index p) { refcounts = update p.refcounts index 1 })

-- `none` leaves the statics as they are.
unfoldable pub alloc_frame : Pmm → Option (ℕ × Pmm)
unfolding alloc_loop
alloc_frame p = alloc_loop (p.total_frames - 1) 1 p

pub free_frame : ℕ → Pmm → Checked Pmm
free_frame frame p = do
  let index = frame / page_size
  ensure (not (index == 0)) frame_zero
  ensure (ltb index p.total_frames) out_of_range
  ensure (frame % page_size == 0) not_aligned
  ensure (bitmap_test index p.bitmap) double_free
  ensure (p.refcounts index == 1) bad_refcount
  ok (record (give_frame index p) { refcounts = update p.refcounts index 0 })

pub incref : ℕ → Pmm → Checked Pmm
incref frame p = do
  let index = frame / page_size
  ensure (ltb index p.total_frames) out_of_range
  ensure (bitmap_test index p.bitmap) incref_unallocated
  let old = p.refcounts index
  ok (
      if ltb old 255
      then record p { refcounts = update p.refcounts index (min (old + 1) 255) }
      else p)

pub decref : ℕ → Pmm → Checked Pmm
decref frame p = do
  let index = frame / page_size
  ensure (ltb index p.total_frames) out_of_range
  ensure (bitmap_test index p.bitmap) decref_unallocated
  ensure (ltb 0 (p.refcounts index)) refcount_zero
  let p' = record p { refcounts = update p.refcounts index (p.refcounts index - 1) }
  ok (if p.refcounts index - 1 == 0 then give_frame index p' else p')

pub get_refcount : ℕ → Pmm → Checked ℕ
get_refcount frame p = do
  let index = frame / page_size
  ensure (ltb index p.total_frames) out_of_range
  ok (p.refcounts index)

-- `for frame in start_frame..end_frame`, as rounds.
pub mark_loop : ℕ → ℕ → Pmm → Pmm
mark_loop zero frame p = p
mark_loop (suc rounds) frame p =
    mark_loop rounds (frame + 1) (
      if ltb frame p.total_frames && not (bitmap_test frame p.bitmap)
      then take_frame frame p
      else p)

pub mark_region_used : ℕ → ℕ → Pmm → Pmm
unfolding mark_loop
mark_region_used phys_start phys_end p =
    let start_frame = phys_start / page_size in
    let end_frame = wrapping_add phys_end (page_size - 1) / page_size in
    mark_loop (end_frame - start_frame) start_frame p
