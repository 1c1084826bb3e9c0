-- ===== src/Sched/Kinship.antt =====
-- What the processes of indo-kernel/src/process/scheduler.rs know of generations: each its own, and its
-- parent's. Slot 0 is left out, since the idle process has generation 1 and its slot is at 0.
pub mod Signals
pub mod Calls
use mathlib.Core.Option
use indominus_os.Prelude.{
  ℕ, suc, ◌+◌, ◌%◌, ◌^◌, ◌≡◌, ◌≤◌, ◌<◌, refl, ap, sym, ◌∙◌, subst, inl, inr, true, false, Option,
  none, some, arith, ltb, ◌==◌, if◌then◌else◌, update, Bool-cases,
}
use indominus_os.Process.{Process, max_processes}
use indominus_os.Sched.{Scheduler, modify}
use indominus_os.Sched.Switch.{for_each}
use indominus_os.Sched.Spawn.{next_generation, place}

-- A process of slot i knows no generation that its slot, or the slot of its parent, has not had.
abbrev pub Kin : (ℕ → ℕ) → ℕ → Process → Type 0
Kin generations i p =
    (0 < i → p.generation ≤ generations i)
    × ((parent : ℕ)
        → p.parent_pid ≡ some parent
        → 0 < parent
        → p.parent_generation ≤ generations parent)

-- All do, and no slot has had more than n processes.
unfoldable pub Known : ℕ → Scheduler → Type 0
Known n s =
    ((i : ℕ) (p : Process) → s.processes i ≡ some p → Kin s.generations i p)
    × ((j : ℕ) → s.generations j ≤ n)

-- A change of a process that respects this.
abbrev pub Quiet : (ℕ → ℕ) → (Process → Process) → Type 0
Quiet generations f = (i : ℕ) (p : Process) → Kin generations i p → Kin generations i (f p)

-- A change of a process that leaves what it knows of generations.
abbrev pub KeepsKin : (Process → Process) → Type 0
KeepsKin f =
    (p : Process)
    → ((f p).generation ≡ p.generation)
      × ((f p).parent_pid ≡ p.parent_pid)
      × ((f p).parent_generation ≡ p.parent_generation)

pub KeepsKin-Quiet :
    (generations : ℕ → ℕ) (f : Process → Process) → KeepsKin f → Quiet generations f
KeepsKin-Quiet generations f keeps i p (own, of_parent) =
    let (same_own, same_parent, same_known) = keeps p in
    (
      λ pos. let o = own pos in omega (arith, same_own, o),
      λ parent is pos.
          let o = of_parent parent (sym same_parent ∙ is) pos in omega (arith, same_known, o),
    )

map_inverse :
    (f : Process → Process) (o : Option Process) (p : Process)
    → Option.map f o ≡ some p
    → (q : Process) × (o ≡ some q) × (f q ≡ p)
map_inverse f none p e = cc e
map_inverse f (some q) p e = (q, refl, cc e)

pub modify-Known :
    (pid : ℕ) (f : Process → Process) (n : ℕ) (s : Scheduler)
    → Quiet s.generations f
    → Known n s
    → Known n (modify pid f s)
unfolding Known
modify-Known pid f n s quiet (slots, counts) = (
  λ i p e. elim (Bool-cases (i == pid)) [
    | inr other ↦ slots i p (ground (arith, e, other))
    | inl itself ↦
        let there : i ≡ pid = ground (arith, itself) in
        let (q, held, changed) = map_inverse f (s.processes pid) p (ground (arith, e, itself)) in
        subst (Kin s.generations i) changed (quiet i q (slots i q (ap s.processes there ∙ held)))
  ],
  counts,
)

pub for_each-Known :
    (f : Process → Process) (n : ℕ) (s : Scheduler)
    → Quiet s.generations f
    → Known n s
    → Known n (for_each f s)
unfolding Known for_each
for_each-Known f n s quiet (slots, counts) = (
  λ i p e. elim (Bool-cases (ltb i max_processes)) [
    | inr outside ↦ slots i p (ground (arith, e, outside))
    | inl inside ↦
        let (q, held, changed) = map_inverse f (s.processes i) p (ground (arith, e, inside)) in
        subst (Kin s.generations i) changed (quiet i q (slots i q held))
  ],
  counts,
)

pub Known-suc : (n : ℕ) (s : Scheduler) → Known n s → Known (suc n) s
unfolding Known
Known-suc n s (slots, counts) = (slots, λ j. let c = counts j in omega (arith, c))

counted_up :
    (slot n j : ℕ) (s : Scheduler)
    → ((k : ℕ) → s.generations k ≤ n)
    → suc n < 2 ^ 32
    → (s.generations j ≤ (next_generation slot s).generations j)
      × ((next_generation slot s).generations j ≤ suc n)
counted_up slot n j s counts small =
    let c = counts slot in
    let d = counts j in
    let low : (s.generations slot + 1) % 2 ^ 32 ≡ s.generations slot + 1 =
      omega (arith, c, small) in
    elim (Bool-cases (j == slot)) [
      | inr other ↦ (ground (arith, other), ground (arith, other, d))
      | inl itself ↦
          let e : j ≡ slot = ground (arith, itself) in
          let same : s.generations j ≡ s.generations slot = ap s.generations e in
          (ground (arith, itself, same, low), ground (arith, itself, low, c))
    ]

pub generations-next_generation :
    (slot n j : ℕ) (s : Scheduler)
    → suc n < 2 ^ 32
    → Known n s
    → s.generations j ≤ (next_generation slot s).generations j
unfolding Known
generations-next_generation slot n j s small (slots, counts) =
    (counted_up slot n j s counts small).0

-- More processes in a slot than were known change nothing.
pub Kin-next_generation :
    (slot n i : ℕ) (p : Process) (s : Scheduler)
    → ((k : ℕ) → s.generations k ≤ n)
    → suc n < 2 ^ 32
    → Kin s.generations i p
    → Kin (next_generation slot s).generations i p
Kin-next_generation slot n i p s counts small (own, of_parent) = (
  λ pos.
      let (up, top) = counted_up slot n i s counts small in let o = own pos in omega (arith, o, up),
  λ parent is pos.
      let (up, top) = counted_up slot n parent s counts small in
      let o = of_parent parent is pos in omega (arith, o, up),
)

pub next_generation-Known :
    (slot n : ℕ) (s : Scheduler)
    → suc n < 2 ^ 32
    → Known n s
    → Known (suc n) (next_generation slot s)
unfolding Known
next_generation-Known slot n s small (slots, counts) = (
  λ i p e. Kin-next_generation slot n i p s counts small (slots i p e),
  λ j. (counted_up slot n j s counts small).1,
)

pub place-Known :
    (slot n : ℕ) (p : Process) (s : Scheduler)
    → Kin s.generations slot p
    → Known n s
    → Known n (place slot p s)
unfolding Known
place-Known slot n p s kin (slots, counts) = (
  λ i q e. elim (Bool-cases (i == slot)) [
    | inr other ↦ slots i q (ground (arith, e, other))
    | inl itself ↦
        let there : slot ≡ i = ground (arith, itself) in
        let held : some p ≡ some q = ground (arith, e, itself) in
        let same : p ≡ q = cc held in
        subst (Kin s.generations i) same (subst (λ x. Kin s.generations x p) there kin)
  ],
  counts,
)

pub fields-Known :
    (n : ℕ) (s : Scheduler) (cur : Option ℕ) (ticks : ℕ)
    → Known n s
    → Known n (record s { current_pid = cur; tick_counter = ticks })
unfolding Known
fields-Known n s cur ticks known = known
