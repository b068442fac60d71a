-- ===== src/Sleeplock/Holding.antt =====
-- kernel/sleeplock.c: a process that takes a sleep lock, asks for it and releases it.
use kus_operating_system_pro.Lock.Laws.{settle-settle}
use kus_operating_system_pro.Shared.{==_refl}
use kus_operating_system_pro.Machine.{Cpu}
use mathlib.Core.Path.{ap₂}
use kus_operating_system_pro.Machine.{pure, ◌>>=◌}
use kus_operating_system_pro.Lock.{myproc}
use kus_operating_system_pro.Shared.{
  Bool, Option, ap, if◌then◌else◌, arith, false, refl, some, true, update_ne, ℕ, ◌==◌, ◌∙◌, ◌≡◌,
  ◌≤◌,
}
use kus_operating_system_pro.Sleeplock.{
  sleep_on, Sleeplock, acquiresleep, acquiresleep_held, got, has_pid, holdingsleep, is_holder,
  own_lock, releasesleep,
}
use kus_operating_system_pro.Machine.{Kernel, ok, nproc}
use kus_operating_system_pro.Lock.{unlocked}
use kus_operating_system_pro.Lock.Laws.{
  IsMasked, IsNested-push_off, acquire-entered, entered, myproc-nested, release-entered, settle,
}
use kus_operating_system_pro.Sched.Wakeup.{FreeRange, wakeup-free, woken_range}

-- Process `p` runs with no lock held that these functions take; `lk` is no process lock.
pub record CanLock (l : Sleeplock) (p : ℕ) (k : Kernel) : Type 0 where
  pub masked : IsMasked k.cpu
  pub spinlock : k.locks l.lk ≡ unlocked
  pub global : nproc ≤ l.lk
  pub table : FreeRange 0 nproc k
  pub running : k.cpu.proc ≡ some p

abbrev pub settled : Kernel → Kernel
settled k = record k { cpu = settle k.cpu }

abbrev pub owned : Sleeplock → ℕ → Kernel → Sleeplock
owned l p k = record l { locked = true; pid = (k.procs p).pid }

-- `acquiresleep` of a free lock returns with the lock held under the process's number, and keeps
-- every spinlock and process as they were.
pub acquiresleep-free :
    (l : Sleeplock) (p : ℕ) (k : Kernel)
    → CanLock l p k
    → l.locked ≡ false
    → acquiresleep l k ≡ ok (got (owned l p k)) (settled k)
unfolding acquiresleep acquiresleep_held own_lock
acquiresleep-free l p k c free = rw (acquire-entered l.lk k c.spinlock) (
    rw (myproc-nested (entered l.lk k) (IsNested-push_off k.cpu)) (
      ap₂ (λ (b : Bool) (q : Option ℕ). (if b then sleep_on l q else own_lock l q) (entered l.lk k))
        free c.running
      ∙ rw (release-entered l.lk k c.masked c.spinlock) refl))

is_holder-held :
    (l : Sleeplock) (p : ℕ) (k : Kernel)
    → CanLock l p k
    → l.locked ≡ true
    → is_holder l (entered l.lk k) ≡ ok (l.pid == (k.procs p).pid) (entered l.lk k)
unfolding is_holder has_pid
is_holder-held l p k c taken =
    ap (λ (b : Bool). (if b then myproc >>= has_pid l.pid else pure false) (entered l.lk k)) taken
    ∙ rw (myproc-nested (entered l.lk k) (IsNested-push_off k.cpu))
        (ap (λ q. has_pid l.pid q (entered l.lk k)) c.running)

-- `holdingsleep` of a lock that is held says whether its number is that of the running process.
pub holdingsleep-held :
    (l : Sleeplock) (p : ℕ) (k : Kernel)
    → CanLock l p k
    → l.locked ≡ true
    → holdingsleep l k ≡ ok (l.pid == (k.procs p).pid) (settled k)
unfolding holdingsleep
holdingsleep-held l p k c taken =
    rw (acquire-entered l.lk k c.spinlock)
      (rw (is_holder-held l p k c taken) (rw (release-entered l.lk k c.masked c.spinlock) refl))

-- `releasesleep` frees the lock and makes the other processes that sleep on it runnable.
pub releasesleep-woken :
    (l : Sleeplock) (p : ℕ) (k : Kernel)
    → CanLock l p k
    → releasesleep l k
      ≡ ok
          (record l { locked = false; pid = 0 })
          (record (settled k) { procs = woken_range l.chan k.cpu.proc 0 nproc k.procs })
unfolding releasesleep
releasesleep-woken l p k c = rw (acquire-entered l.lk k c.spinlock) (
    rw
      (wakeup-free l.chan (entered l.lk k) (IsNested-push_off k.cpu)
        (λ j lo hi other. update_ne k.locks _ (omega (arith, c.global)) ∙ c.table j lo hi other))
      (rw
        (release-entered l.lk (record k { procs = woken_range l.chan k.cpu.proc 0 nproc k.procs })
          c.masked c.spinlock)
        refl))

CanLock-settled :
    (l : Sleeplock) (p : ℕ) (k : Kernel) → CanLock l p k → CanLock (owned l p k) p (settled k)
CanLock-settled l p k c = record {
  masked = c.masked;
  spinlock = c.spinlock;
  global = c.global;
  table = c.table;
  running = c.running;
}

-- A running process that takes a free sleep lock with `acquiresleep` has it at once; `holdingsleep`
-- then confirms it; and its `releasesleep` leaves the lock free and without a number, and makes the
-- other processes that sleep on it runnable. Every spinlock and process is otherwise as before.
pub releasesleep-acquiresleep :
    (l : Sleeplock) (p : ℕ) (k : Kernel)
    → CanLock l p k
    → l.locked ≡ false
    → (acquiresleep l k ≡ ok (got (owned l p k)) (settled k))
      × (holdingsleep (owned l p k) (settled k) ≡ ok true (settled k))
      × (releasesleep (owned l p k) (settled k)
          ≡ ok
              (record l { locked = false; pid = 0 })
              (record (settled k) { procs = woken_range l.chan k.cpu.proc 0 nproc k.procs }))
releasesleep-acquiresleep l p k c free =
    let c' = CanLock-settled l p k c in
    let again : settled (settled k) ≡ settled k =
      ap (λ (cpu : Cpu). record k { cpu = cpu }) (settle-settle k.cpu) in
    (
      acquiresleep-free l p k c free,
      holdingsleep-held (owned l p k) p (settled k) c' refl
          ∙ ap₂ (λ (b : Bool) (j : Kernel). ok b j) (==_refl (k.procs p).pid) again,
      releasesleep-woken (owned l p k) p (settled k) c'
          ∙ ap
              (λ (j : Kernel).
                ok (record l { locked = false; pid = 0 })
                  (record j { procs = woken_range l.chan k.cpu.proc 0 nproc k.procs }))
              again,
    )
