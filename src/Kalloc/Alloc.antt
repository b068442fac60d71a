-- ===== src/Kalloc/Alloc.antt =====
-- kernel/kalloc.c, `kalloc`: the page that it takes, the stall that it starts, and how it ends.
use kus_operating_system_pro.Shared.{
  update_again, update_handover, ◌+◌, Option, none, [], ◌<◌, ==_refl, ℕ, ◌≡◌, ◌≢◌, refl, ap, sym,
  ◌∙◌, false, some, List, ◌∷◌, arith, update, update_ne, update_self,
}
use kus_operating_system_pro.Machine.{
  and_then, kmem_chan, nproc, tickslock, Proc, Kernel, ok, pgsize, kmem_lock, sleeping,
}
use kus_operating_system_pro.Lock.{cpu_push_off, pop_off, holding, unlocked, release}
use kus_operating_system_pro.Lock.Laws.{
  mine, settle-settle, IsNested-push_off, entered, release-held, IsMasked, IsNested, settle,
  acquire-entered, release-entered, held, myproc-any, acquire-free, pop_off-deeper,
}
use kus_operating_system_pro.Sched.{is_running, sched, sleep}
use kus_operating_system_pro.Kalloc.{
  kalloc_choose, stalls, asleep, kalloc_sleep, mark_stall, fill, kalloc, kalloc_finish, returned,
}

stalls-page : (r : ℕ) (rest : List ℕ) (me : Option ℕ) → stalls (r ∷ rest) me ≡ none
unfolding stalls
stalls-page r rest me = refl

pub stalls-nil : (me : Option ℕ) → stalls [] me ≡ me
unfolding stalls
stalls-nil me = refl

kalloc_finish-page :
    (r : ℕ) (rest : List ℕ) (k : Kernel)
    → k.freelist ≡ r ∷ rest
    → kalloc_finish k
      ≡ and_then
          (release kmem_lock (record k { freelist = rest }))
          (λ _ k'. ok (returned (some r)) (record k' { mem = fill r 5 pgsize k'.mem }))
unfolding kalloc_finish
kalloc_finish-page r rest k e = rw e refl

-- With a page free, `kalloc` returns the first of the free list without giving up the CPU: the page
-- leaves the list and is filled with 5, and every lock and process is as before.
pub kalloc-page :
    (r : ℕ) (rest : List ℕ) (k : Kernel)
    → IsMasked k.cpu
    → k.locks kmem_lock ≡ unlocked
    → k.freelist ≡ r ∷ rest
    → kalloc k
      ≡ ok
          (returned (some r))
          (record k { cpu = settle k.cpu; freelist = rest; mem = fill r 5 pgsize k.mem })
unfolding kalloc kalloc_choose
kalloc-page r rest k m free e = rw (myproc-any k m) (
    rw (acquire-entered kmem_lock settled free) (
      ap (λ o. kalloc_choose o inside)
        (ap (λ l. stalls l k.cpu.proc) e ∙ stalls-page r rest k.cpu.proc)
      ∙ kalloc_finish-page r rest inside e
      ∙ ap
          (λ x.
            and_then x
              (λ _ k'. ok (returned (some r)) (record k' { mem = fill r 5 pgsize k'.mem })))
          (release-entered kmem_lock (record settled { freelist = rest }) m free)
      ∙ ap
          (λ c.
            ok (returned (some r))
              (record k { cpu = c; freelist = rest; mem = fill r 5 pgsize k.mem }))
          (settle-settle k.cpu)))
  where
    settled : Kernel
    settled = record k { cpu = settle k.cpu }

    inside : Kernel
    inside = entered kmem_lock settled

pub release-mine :
    (l : ℕ) (k : Kernel)
    → k.locks l ≡ mine k
    → release l k ≡ pop_off (record k { locks = update k.locks l unlocked })
unfolding release holding
release-mine l k h = rw h (rw (==_refl k.cpu.id) refl)

sched-returns :
    (p : ℕ) (k : Kernel)
    → k.locks p ≡ mine k
    → k.cpu.noff ≡ 1
    → k.cpu.intr ≡ false
    → is_running (k.procs p).state ≡ false
    → sched p k ≡ ok k.cpu.intena k
unfolding sched holding
sched-returns p k h one off still = rw h (rw (==_refl k.cpu.id) (rw one (rw still (ground arith))))

-- `sleep` of a running process that holds only the condition lock, on the way to the scheduler: the
-- condition lock is free, the process sleeps on the channel, and its own lock, which the scheduler
-- gives back, is the only one that this CPU holds.
pub sleep-enters :
    (p chan lk : ℕ) (k : Kernel)
    → k.cpu.intr ≡ false
    → k.cpu.noff ≡ 1
    → k.locks lk ≡ mine k
    → k.locks p ≡ unlocked
    → sleep p chan lk k
      ≡ ok k.cpu.intena (record k {
        locks = update (update k.locks p (mine k)) lk unlocked;
        procs = update k.procs p (record (k.procs p) { chan = chan; state = sleeping });
      })
unfolding sleep
sleep-enters p chan lk k off one has free = rw (acquire-free p k nested free) (
    rw (release-mine lk (held p k) (update_ne k.locks (mine k) apart ∙ has)) (
      rw
        (pop_off-deeper (record k { locks = update (update k.locks p (mine k)) lk unlocked })
          nested)
        (sched-returns p asleep_state
          (update_ne (update k.locks p (mine k)) unlocked (λ e. apart (sym e))
            ∙ update_self k.locks p (mine k))
          one off (ap (λ (q : Proc). is_running q.state) (update_self k.procs p _)))))
  where
    nested : IsNested k.cpu
    nested = record { off = off; depth = omega arith }

    apart : lk ≢ p
    apart e = cc (has, free, ap k.locks e)

    asleep_state : Kernel
    asleep_state = record k {
      locks = update (update k.locks p (mine k)) lk unlocked;
      procs = update k.procs p (record (k.procs p) { chan = chan; state = sleeping });
    }

pub mark_stall-nested :
    (p : ℕ) (k : Kernel)
    → IsNested k.cpu
    → k.locks tickslock ≡ unlocked
    → mark_stall p k
      ≡ ok tt (record k {
        procs = update k.procs p (record (k.procs p) { last_stall_start = k.ticks });
      })
unfolding mark_stall
mark_stall-nested p k n free = rw (acquire-free tickslock k n free) (
    release-held tickslock
      (record k { procs = update k.procs p (record (k.procs p) { last_stall_start = k.ticks }) }) n
      free)

-- With no page free, a process whose own lock, `kmem.lock` and `tickslock` are free, and that holds
-- no lock, gives up the CPU inside `kalloc`: it sleeps on `&kmem` with the current tick noted as
-- the start of its stall, and of all locks only its own changes, which the scheduler gives back.
pub kalloc-stalls :
    (p : ℕ) (k : Kernel)
    → k.cpu.noff ≡ 0
    → k.cpu.proc ≡ some p
    → p < nproc
    → k.freelist ≡ []
    → k.locks kmem_lock ≡ unlocked
    → k.locks tickslock ≡ unlocked
    → k.locks p ≡ unlocked
    → kalloc k
      ≡ ok (asleep (cpu_push_off (settle k.cpu)).intena) (record k {
        cpu = cpu_push_off (settle k.cpu);
        locks = update k.locks p (mine k);
        procs =
            update k.procs p (record (k.procs p) {
              last_stall_start = k.ticks;
              chan = kmem_chan;
              state = sleeping;
            });
      })
unfolding kalloc kalloc_choose kalloc_sleep
kalloc-stalls p k zero_off run lt none_free kmem tick own =
    rw (myproc-any k (λ h. absurd (h zero_off))) (
      rw (acquire-entered kmem_lock settled kmem) (
        ap (λ o. kalloc_choose o inside) stalling
        ∙ rw (mark_stall-nested p inside nested tick') (
            ap (λ x. and_then x (λ i k'. ok (asleep i) k'))
              (sleep-enters p kmem_chan kmem_lock marked refl (ap (λ n. n + 1) zero_off)
                (update_self k.locks kmem_lock (mine k))
                (update_ne k.locks {i = kmem_lock} (mine k) (omega arith) ∙ own))
            ∙ ap (λ l. ok (asleep inside.cpu.intena) (record slept { locks = l }))
                (update_handover k.locks kmem_lock p (mine k) unlocked (omega arith) kmem)
            ∙ ap (λ f. ok (asleep inside.cpu.intena) (record slept { procs = f }))
                (update_again k.procs p (record (k.procs p) { last_stall_start = k.ticks })
                  (λ q. record q { chan = kmem_chan; state = sleeping })))))
  where
    settled : Kernel
    settled = record k { cpu = settle k.cpu }

    inside : Kernel
    inside = entered kmem_lock settled

    nested : IsNested inside.cpu
    nested = IsNested-push_off settled.cpu

    tick' : inside.locks tickslock ≡ unlocked
    tick' = update_ne k.locks {i = kmem_lock} (mine k) (omega arith) ∙ tick

    stalling : stalls k.freelist k.cpu.proc ≡ some p
    stalling = ap (λ l. stalls l k.cpu.proc) none_free ∙ stalls-nil k.cpu.proc ∙ run

    marked : Kernel
    marked = record inside {
      procs = update k.procs p (record (k.procs p) { last_stall_start = k.ticks });
    }

    slept : Kernel
    slept = record inside {
      locks = update k.locks p (mine k);
      procs =
          update marked.procs p (record (marked.procs p) { chan = kmem_chan; state = sleeping });
    }
