-- ===== src/Wake/Slots.antt =====
-- What `keyboard_wake` of indo-kernel/src/process/mod.rs makes of each slot.
use mathlib.Core.Option
use indominus_os.Prelude.{
  ℕ, zero, suc, ◌+◌, ◌≡◌, ◌<◌, refl, ap, sym, ◌∙◌, subst, inl, inr, Bool, true, false, ◌&&◌, ◌||◌,
  Option, none, some, List, [], ◌∷◌, ltb, leb, ◌==◌, if◌then◌else◌, update, update_self, arith,
  Bool-cases,
}
use indominus_os.Process.{Process, max_processes}
use indominus_os.Sched.{Scheduler, modify}
use indominus_os.Pipe.Table.{Pipes}
use indominus_os.Wake.{collect, slot_is, wake, wake_listed, should_wake, keyboard_wake}

abbrev elem : ℕ → List ℕ → Bool
elem j [] = false
elem j (a ∷ rest) = a == j || elem j rest

elem-collect :
    (r i j : ℕ) (test : ℕ → Bool) → elem j (collect r i test) ≡ (leb i j && ltb j (i + r) && test j)
unfolding collect
elem-collect zero i j test = ground arith
elem-collect (suc r) i j test =
    let rest = elem-collect r (i + 1) j test in
    elim (Bool-cases (i == j)) [
      | inl same ↦
          let e : i ≡ j = ground (arith, same) in
          let th : test j ≡ test i = ap test (sym e) in
          elim (Bool-cases (test i)) [
            | inl here ↦ let th' : test j ≡ true = th ∙ here in rw here (ground (arith, th', same))
            | inr passes ↦
                let th' : test j ≡ false = th ∙ passes in rw (passes, rest, th') (ground arith)
          ]
      | inr other ↦ elim (Bool-cases (test i)) [
        | inl here ↦ rw (here, rest) (ground (arith, other))
        | inr passes ↦ rw (passes, rest) (ground (arith, other))
      ]
    ]

wake_twice : (o : Option Process) → Option.map wake (Option.map wake o) ≡ Option.map wake o
wake_twice none = refl
wake_twice (some p) = refl

-- What phase 2 makes of a slot.
wake_listed-at :
    (pids : List ℕ) (s : Scheduler) (j : ℕ)
    → (wake_listed pids s).processes j
      ≡ (if elem j pids then Option.map wake (s.processes j) else s.processes j)
unfolding wake_listed
wake_listed-at [] s j = refl
wake_listed-at (a ∷ rest) s j =
    wake_listed-at rest (modify a wake s) j ∙ elim (Bool-cases (a == j)) [
      | inr other ↦ rw other refl
      | inl same ↦
          let e : a ≡ j = ground (arith, same) in
          let woken : (modify a wake s).processes j ≡ Option.map wake (s.processes j) =
            subst
              (λ x.
                update s.processes x (Option.map wake (s.processes x)) j
                ≡ Option.map wake (s.processes j))
              (sym e) (update_self s.processes j (Option.map wake (s.processes j))) in
          ap (λ (o : Option Process). if elem j rest then Option.map wake o else o) woken
          ∙ again (elem j rest)
          ∙ rw same refl
    ]
  where
    again :
        (b : Bool)
        → (if b
            then Option.map wake (Option.map wake (s.processes j))
            else Option.map wake (s.processes j))
          ≡ Option.map wake (s.processes j)
    again true = wake_twice (s.processes j)
    again false = refl

-- What `keyboard_wake` makes of a slot of the table.
keyboard_wake-at :
    (pipes : Pipes) (s : Scheduler) (j : ℕ)
    → (keyboard_wake pipes s).processes j ≡ (
        if ltb j max_processes && slot_is (should_wake pipes s) (s.processes j)
        then Option.map wake (s.processes j)
        else s.processes j)
unfolding keyboard_wake
keyboard_wake-at pipes s j =
    let test : ℕ → Bool = λ i. slot_is (should_wake pipes s) (s.processes i) in
    let found = elem-collect max_processes 0 j test in
    wake_listed-at (collect max_processes 0 test) s j ∙ rw found (ground arith)

-- `keyboard_wake` wakes the processes of the table that pass its test, and leaves the others.
pub keyboard_wake_lem :
    (pipes : Pipes) (s : Scheduler) (j : ℕ) (p : Process)
    → j < max_processes
    → s.processes j ≡ some p
    → (keyboard_wake pipes s).processes j ≡ some (if should_wake pipes s p then wake p else p)
keyboard_wake_lem pipes s j p below there =
    let inside : ltb j max_processes ≡ true = ground arith in
    keyboard_wake-at pipes s j
    ∙ ap
        (λ (o : Option Process).
          if ltb j max_processes && slot_is (should_wake pipes s) o then Option.map wake o else o)
        there
    ∙ rw inside
        (elim (Bool-cases (should_wake pipes s p)) [ inl e ↦ rw e refl | inr e ↦ rw e refl ])
