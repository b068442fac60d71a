-- ===== src/Kalloc/Held.antt =====
-- kernel/kalloc.c, `kalloc`: a stall of a caller that holds a lock of its own.
use kus_operating_system_pro.Lock.Laws.{
  mine, IsNested, IsNested-deeper, held, acquire-free, pop_off-deeper, myproc-nested,
}
use kus_operating_system_pro.Kalloc.Alloc.{mark_stall-nested, release-mine, stalls-nil}
use kus_operating_system_pro.Sched.{sched, sleep}
use kus_operating_system_pro.Kalloc.{asleep, kalloc, kalloc_choose, kalloc_sleep, stalls}
use kus_operating_system_pro.Lock.{holding, unlocked}
use kus_operating_system_pro.Shared.{
  ==_refl, [], ap, arith, false, refl, some, sym, update, update_ne, update_self, ℕ, ◌<◌, ◌==◌, ◌∙◌,
  ◌≡◌, ◌≢◌, ◌≤◌,
}
use kus_operating_system_pro.Machine.{
  Kernel, and_then, kmem_chan, kmem_lock, nproc, ok, panic, sleeping, tickslock, Message,
}

sched-panics :
    (p : ℕ) (k : Kernel)
    → k.locks p ≡ mine k
    → 2 ≤ k.cpu.noff
    → sched p k ≡ panic Message.sched_locks
unfolding sched holding
sched-panics p k h deep =
    let c : (k.cpu.noff == 1) ≡ false = ground arith in rw h (rw (==_refl k.cpu.id) (rw c refl))

sleep-panics :
    (p chan lk : ℕ) (k : Kernel)
    → k.cpu.intr ≡ false
    → 2 ≤ k.cpu.noff
    → k.locks lk ≡ mine k
    → k.locks p ≡ unlocked
    → sleep p chan lk k ≡ panic Message.sched_locks
unfolding sleep
sleep-panics p chan lk k off deep has free = rw (acquire-free p k nested free) (
    rw (release-mine lk (held p k) (update_ne k.locks (mine k) apart ∙ has)) (
      rw
        (pop_off-deeper (record k { locks = update (update k.locks p (mine k)) lk unlocked })
          nested)
        (sched-panics p asleep_state
          (update_ne (update k.locks p (mine k)) unlocked (λ e. apart (sym e))
            ∙ update_self k.locks p (mine k))
          deep)))
  where
    nested : IsNested k.cpu
    nested = record { off = off; depth = omega arith }

    apart : lk ≢ p
    apart e = cc (has, free, ap k.locks e)

    asleep_state : Kernel
    asleep_state = record k {
      locks = update (update k.locks p (mine k)) lk unlocked;
      procs = update k.procs p (record (k.procs p) { chan = chan; state = sleeping });
    }

-- With no page free, `kalloc` panics in `sched` for a process whose CPU holds a lock already, which is
-- none of `kmem.lock`, `tickslock` and the process's own: it cannot give up the CPU.
pub kalloc-panics :
    (p : ℕ) (k : Kernel)
    → IsNested k.cpu
    → k.cpu.proc ≡ some p
    → p < nproc
    → k.freelist ≡ []
    → k.locks kmem_lock ≡ unlocked
    → k.locks tickslock ≡ unlocked
    → k.locks p ≡ unlocked
    → kalloc k ≡ panic Message.sched_locks
unfolding kalloc kalloc_choose kalloc_sleep
kalloc-panics p k n run lt none_free kmem tick own = rw (myproc-nested k n) (
    rw (acquire-free kmem_lock k n kmem) (
      ap (λ o. kalloc_choose o inside) stalling
      ∙ rw (mark_stall-nested p inside nested tick') (
          ap (λ x. and_then x (λ i k'. ok (asleep i) k'))
            (sleep-panics p kmem_chan kmem_lock marked n.off deep
              (update_self k.locks kmem_lock (mine k))
              (update_ne k.locks {i = kmem_lock} (mine k) (omega arith) ∙ own)))))
  where
    inside : Kernel
    inside = held kmem_lock k

    nested : IsNested inside.cpu
    nested = IsNested-deeper n

    deep : 2 ≤ inside.cpu.noff
    deep = let d = n.depth in omega arith

    tick' : inside.locks tickslock ≡ unlocked
    tick' = update_ne k.locks {i = kmem_lock} (mine k) (omega arith) ∙ tick

    stalling : stalls k.freelist k.cpu.proc ≡ some p
    stalling = ap (λ l. stalls l k.cpu.proc) none_free ∙ stalls-nil k.cpu.proc ∙ run

    marked : Kernel
    marked = record inside {
      procs = update k.procs p (record (k.procs p) { last_stall_start = k.ticks });
    }
