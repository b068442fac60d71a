-- ===== src/Sched/Wakeup.antt =====
-- kernel/proc.c, `wakeup`: which processes it wakes, and when it panics.
use kus_operating_system_pro.Shared.{
  ℕ, zero, suc, ◌+◌, ◌≤◌, ◌<◌, ◌≡◌, refl, ap, ◌∙◌, fun_ext, true, false, ◌&&◌, not, Option, some,
  arith, ltb, leb, if◌then◌else◌, update, Bool-cases, inl, inr,
}
use kus_operating_system_pro.Machine.{Proc, Kernel, Message, ok, panic, nproc}
use kus_operating_system_pro.Lock.{unlocked, is_index}
use kus_operating_system_pro.Lock.Laws.{
  IsNested, acquire-free, acquire-held, release-held, myproc-nested,
}
use kus_operating_system_pro.Sched.{wake, wakeup_one, wakeup_from, wakeup}

-- The locks that the loop takes on processes `lo` to `lo + n - 1`: all but that of the caller.
abbrev pub FreeRange : ℕ → ℕ → Kernel → Type 0
FreeRange lo n k =
    (j : ℕ) → lo ≤ j → j < lo + n → is_index k.cpu.proc j ≡ false → k.locks j ≡ unlocked

-- The table after the loop: of processes `lo` to `lo + n - 1`, each but the caller is woken.
unfoldable pub woken_range : ℕ → Option ℕ → ℕ → ℕ → (ℕ → Proc) → ℕ → Proc
woken_range chan me lo n f j =
    if leb lo j && ltb j (lo + n) && not (is_index me j) then wake chan (f j) else f j

wakeup_one-other :
    (chan i : ℕ) (k : Kernel)
    → IsNested k.cpu
    → is_index k.cpu.proc i ≡ false
    → k.locks i ≡ unlocked
    → wakeup_one chan i k ≡ ok tt (record k { procs = update k.procs i (wake chan (k.procs i)) })
unfolding wakeup_one
wakeup_one-other chan i k n other free = rw (myproc-nested k n) (
    rw other (
      rw (acquire-free i k n free)
        (release-held i (record k { procs = update k.procs i (wake chan (k.procs i)) }) n free)))

wakeup_one_self :
    (chan i : ℕ) (k : Kernel)
    → IsNested k.cpu
    → is_index k.cpu.proc i ≡ true
    → wakeup_one chan i k ≡ ok tt k
unfolding wakeup_one
wakeup_one_self chan i k n self = rw (myproc-nested k n) (rw self refl)

woken_range-zero :
    (chan : ℕ) (me : Option ℕ) (lo : ℕ) (f : ℕ → Proc) → woken_range chan me lo 0 f ≡ f
unfolding woken_range
woken_range-zero chan me lo f = fun_ext (λ j. ground arith)

woken_range_self :
    (chan : ℕ) (me : Option ℕ) (lo n : ℕ) (f : ℕ → Proc)
    → is_index me lo ≡ true
    → woken_range chan me (lo + 1) n f ≡ woken_range chan me lo (suc n) f
unfolding woken_range
woken_range_self chan me lo n f h = fun_ext (λ j. ground arith)

woken_range-other :
    (chan : ℕ) (me : Option ℕ) (lo n : ℕ) (f : ℕ → Proc)
    → is_index me lo ≡ false
    → woken_range chan me (lo + 1) n (update f lo (wake chan (f lo)))
      ≡ woken_range chan me lo (suc n) f
unfolding woken_range
woken_range-other chan me lo n f h = fun_ext (λ j. ground arith)

pub wakeup_from-free :
    (chan n lo : ℕ) (k : Kernel)
    → IsNested k.cpu
    → FreeRange lo n k
    → wakeup_from chan n lo k
      ≡ ok tt (record k { procs = woken_range chan k.cpu.proc lo n k.procs })
unfolding wakeup_from
wakeup_from-free chan zero lo k m free = rw (woken_range-zero chan k.cpu.proc lo k.procs) refl
wakeup_from-free chan (suc n) lo k m free = elim (Bool-cases (is_index k.cpu.proc lo)) [
  | inl self ↦ rw (wakeup_one_self chan lo k m self) (
      wakeup_from-free chan n (lo + 1) k m (λ j a b. free j (omega arith) (omega arith))
      ∙ ap (λ f. ok tt (record k { procs = f })) (woken_range_self chan _ lo n k.procs self))
  | inr other ↦
      rw (wakeup_one-other chan lo k m other (free lo (omega arith) (omega arith) other)) (
        wakeup_from-free chan n (lo + 1) (record k { procs = _ }) m
          (λ j a b. free j (omega arith) (omega arith))
        ∙ ap (λ f. ok tt (record k { procs = f })) (woken_range-other chan _ lo n k.procs other))
]

-- Where every lock of the table but the caller's is free and interrupts are off, `wakeup` returns,
-- with every lock and the CPU as they were: each process of the table but the caller that sleeps on
-- the channel is runnable, and nothing else has changed.
pub wakeup-free :
    (chan : ℕ) (k : Kernel)
    → IsNested k.cpu
    → FreeRange 0 nproc k
    → wakeup chan k ≡ ok tt (record k { procs = woken_range chan k.cpu.proc 0 nproc k.procs })
unfolding wakeup
wakeup-free chan k m free = wakeup_from-free chan nproc 0 k m free

wakeup_one-panics :
    (chan i : ℕ) (k : Kernel)
    → IsNested k.cpu
    → is_index k.cpu.proc i ≡ false
    → k.locks i ≡ record { locked = true; cpu = some k.cpu.id }
    → wakeup_one chan i k ≡ panic Message.acquire
unfolding wakeup_one
wakeup_one-panics chan i k n other mine =
    rw (myproc-nested k n) (rw other (rw (acquire-held i k mine) refl))

wakeup_from-panics :
    (chan n d lo : ℕ) (k : Kernel)
    → d < n
    → IsNested k.cpu
    → FreeRange lo d k
    → is_index k.cpu.proc (lo + d) ≡ false
    → k.locks (lo + d) ≡ record { locked = true; cpu = some k.cpu.id }
    → wakeup_from chan n lo k ≡ panic Message.acquire
unfolding wakeup_from
wakeup_from-panics chan zero d lo k lt m free other mine = absurd (omega arith)
wakeup_from-panics chan (suc n) zero lo k lt m free other mine =
    rw
      (wakeup_one-panics chan lo k m (ap (is_index k.cpu.proc) lo-zero ∙ other)
        (ap k.locks lo-zero ∙ mine))
      refl
  where
    lo-zero : lo ≡ lo + 0
    lo-zero = omega arith
wakeup_from-panics chan (suc n) (suc d) lo k lt m free other mine =
    elim (Bool-cases (is_index k.cpu.proc lo)) [
      | inl self ↦
          rw (wakeup_one_self chan lo k m self)
            (wakeup_from-panics chan n d (lo + 1) k (omega arith) m later other' mine')
      | inr not_self ↦
          rw (wakeup_one-other chan lo k m not_self (free lo (omega arith) (omega arith) not_self))
            (wakeup_from-panics chan n d (lo + 1) (record k { procs = _ }) (omega arith) m later
              other' mine')
    ]
  where
    shift : lo + 1 + d ≡ lo + suc d
    shift = omega arith

    later : FreeRange (lo + 1) d k
    later j a b = free j (omega arith) (omega arith)

    other' : is_index k.cpu.proc (lo + 1 + d) ≡ false
    other' = ap (is_index k.cpu.proc) shift ∙ other

    mine' : k.locks (lo + 1 + d) ≡ record { locked = true; cpu = some k.cpu.id }
    mine' = ap k.locks shift ∙ mine

-- `wakeup` called while this CPU holds the lock of process `j`, which is not the running process,
-- panics in `acquire`, whatever the channel, if the locks of the processes before `j` are free.
pub wakeup-panics :
    (chan j : ℕ) (k : Kernel)
    → j < nproc
    → IsNested k.cpu
    → FreeRange 0 j k
    → is_index k.cpu.proc j ≡ false
    → k.locks j ≡ record { locked = true; cpu = some k.cpu.id }
    → wakeup chan k ≡ panic Message.acquire
unfolding wakeup
wakeup-panics chan j k lt m free other mine =
    wakeup_from-panics chan nproc j 0 k lt m free (ap (is_index k.cpu.proc) same ∙ other)
      (ap k.locks same ∙ mine)
  where
    same : 0 + j ≡ j
    same = omega arith
