-- ===== src/Lifecycle/Orphans.antt =====
-- kernel/proc.c, `reparent`: the parents after a process has given its children away.
use mathlib.Core.Path.{subst}
use kus_operating_system_pro.Lock.Laws.{IsNested}
use kus_operating_system_pro.Sched.{wake}
use kus_operating_system_pro.Lock.{is_index}
use kus_operating_system_pro.Machine.{Cpu, and_then, Kernel, Proc, Run, nproc, ok, proc_chan}
use kus_operating_system_pro.Lifecycle.{reparent, reparent_from, reparent_one}
use kus_operating_system_pro.Shared.{
  ap, false, sym, ◌∙◌, Bool-cases, Option, arith, if◌then◌else◌, inl, inr, leb, ltb, refl, some,
  suc, update, zero, ℕ, ◌&&◌, ◌+◌, ◌≡◌, ◌≢◌,
}
use kus_operating_system_pro.Sched.Wakeup.{FreeRange, wakeup-free, woken_range}

wake-parent : (chan : ℕ) (p : Proc) → (wake chan p).parent ≡ p.parent
unfolding wake
wake-parent chan p = ground arith

woken_range-parent :
    (chan : ℕ) (me : Option ℕ) (lo n : ℕ) (f : ℕ → Proc) (j : ℕ)
    → (woken_range chan me lo n f j).parent ≡ (f j).parent
unfolding woken_range
woken_range-parent chan me lo n f j = ground (arith, wake-parent chan (f j))

-- The parent of `j` after rounds `lo` to `lo + n - 1` of the loop of `reparent`.
abbrev pub new_parent : ℕ → ℕ → ℕ → Kernel → ℕ → Option ℕ
new_parent p lo n k j =
    if leb lo j && ltb j (lo + n) && is_index (k.procs j).parent p
    then some k.initproc
    else (k.procs j).parent

-- What a part of the loop has done: all but the processes is as before, and of these the parents
-- are as stated.
record Adopted (p lo n : ℕ) (k : Kernel) (r : Run (Unit {0})) : Type 0 where
  after : Kernel
  returns : r ≡ ok tt after
  cpu_kept : after.cpu ≡ k.cpu
  locks_kept : after.locks ≡ k.locks
  init_kept : after.initproc ≡ k.initproc
  parents : (j : ℕ) → (after.procs j).parent ≡ new_parent p lo n k j

one_round :
    (p i : ℕ) (k : Kernel)
    → IsNested k.cpu
    → FreeRange 0 nproc k
    → Adopted p i 1 k (reparent_one p i k)
unfolding reparent_one
one_round p i k m free = elim (Bool-cases (is_index (k.procs i).parent p)) [
  | inl kid ↦ rw kid (
      rw (wakeup-free (proc_chan k.initproc) given m free) (record {
        after = record given { procs = woken };
        returns = refl;
        cpu_kept = refl;
        locks_kept = refl;
        init_kept = refl;
        parents = λ j.
            ground
              (arith, woken_range-parent (proc_chan k.initproc) k.cpu.proc 0 nproc given.procs j);
      }))
  | inr not_kid ↦ rw not_kid (record {
    after = k;
    returns = refl;
    cpu_kept = refl;
    locks_kept = refl;
    init_kept = refl;
    parents = λ j. ground arith;
  })
]
  where
    given : Kernel
    given = record k { procs = update k.procs i (record (k.procs i) { parent = some k.initproc }) }

    woken : ℕ → Proc
    woken = woken_range (proc_chan k.initproc) k.cpu.proc 0 nproc given.procs

two_parts :
    (p lo n : ℕ) (k k' k'' : Kernel)
    → k.initproc ≢ p
    → k'.initproc ≡ k.initproc
    → (j : ℕ) → (k'.procs j).parent ≡ new_parent p lo 1 k j
    → (k''.procs j).parent ≡ new_parent p (lo + 1) n k' j
    → (k''.procs j).parent ≡ new_parent p lo (suc n) k j
two_parts p lo n k k' k'' ne e j a b = ground arith

rounds :
    (p n lo : ℕ) (k : Kernel)
    → IsNested k.cpu
    → FreeRange 0 nproc k
    → k.initproc ≢ p
    → Adopted p lo n k (reparent_from p n lo k)
unfolding reparent_from
rounds p zero lo k m free ne = record {
  after = k;
  returns = refl;
  cpu_kept = refl;
  locks_kept = refl;
  init_kept = refl;
  parents = λ j. ground arith;
}
rounds p (suc n) lo k m free ne =
    let a = one_round p lo k m free in
    let b =
      rounds p n (lo + 1) a.after (subst IsNested (sym a.cpu_kept) m)
        (λ j x y other.
          ap (λ l. l j) a.locks_kept
          ∙ free j x y (ap (λ (c : Cpu). is_index c.proc j) (sym a.cpu_kept) ∙ other))
        (λ e. ne (sym a.init_kept ∙ e)) in
    record {
      after = b.after;
      returns = ap (λ r. and_then r (λ _. reparent_from p n (lo + 1))) a.returns ∙ b.returns;
      cpu_kept = b.cpu_kept ∙ a.cpu_kept;
      locks_kept = b.locks_kept ∙ a.locks_kept;
      init_kept = b.init_kept ∙ a.init_kept;
      parents =
          λ j. two_parts p lo n k a.after b.after ne a.init_kept j (a.parents j) (b.parents j);
    }

-- `reparent` of a process other than `init`, with interrupts off and the process locks free,
-- returns with every lock as before: each process of the table whose parent it was has `init` for its
-- parent, every other one has the parent that it had, so that no process of the table is its child.
pub reparent-parents :
    (p : ℕ) (k : Kernel)
    → IsNested k.cpu
    → FreeRange 0 nproc k
    → k.initproc ≢ p
    → (k' : Kernel) × (reparent p k ≡ ok tt k')
      × (k'.locks ≡ k.locks)
      × ((j : ℕ) → (k'.procs j).parent ≡ new_parent p 0 nproc k j)
      × ((j : ℕ) → (ltb j nproc && is_index (k'.procs j).parent p) ≡ false)
unfolding reparent
reparent-parents p k m free ne =
    let a = rounds p nproc 0 k m free ne in
    (a.after, a.returns, a.locks_kept, a.parents, λ j. ground (arith, a.parents j))
