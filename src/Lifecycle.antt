-- ===== src/Lifecycle.antt =====
-- kernel/proc.c: process ids, freeing a process, giving its children away, and waiting for a child.
-- A wait that gives up the CPU is cut at `swtch`, as in Sched.antt.
mod Tests
pub mod Reap
pub mod Orphans
use kus_operating_system_pro.Kalloc.{kfree}
use kus_operating_system_pro.Lock.{acquire, is_index, release}
use kus_operating_system_pro.Sched.{killed, set_proc, sleep, sleep_return, wakeup}
use kus_operating_system_pro.Shared.{
  Bool, List, [], false, if◌then◌else◌, none, not, some, suc, true, update, zero, ℕ, ◌%◌, ◌&&◌, ◌+◌,
  ◌==◌, ◌^◌, ◌∷◌,
}
use kus_operating_system_pro.Machine.{
  K, Proc, Procstate, and_then, no_chan, nproc, ok, pid_lock, proc_chan, pure, unused, wait_lock,
  zombie, ◌>>=◌, ◌>>◌,
}

-- `nextpid` is an `int`, kept as its bit pattern.
unfoldable pub allocpid : K ℕ
allocpid = do
  acquire pid_lock
  pid ← λ k. ok k.nextpid (record k { nextpid = (k.nextpid + 1) % 2 ^ 32 })
  release pid_lock
  pure pid

-- The pages of the user page table, in the order in which `proc_freepagetable` frees them.
unfoldable pub free_pages : List ℕ → K (Unit {0})
free_pages [] = pure tt
free_pages (pa ∷ pas) = do kfree pa; free_pages pas

-- `name[0] = 0`.
abbrev pub terminate : List ℕ → List ℕ
terminate [] = []
terminate (c ∷ cs) = 0 ∷ cs

abbrev pub blank : Proc → Proc
blank p = record p {
  user_pages = [];
  sz = 0;
  pid = 0;
  parent = none;
  name = terminate p.name;
  chan = no_chan;
  killed = false;
  xstate = 0;
  state = unused;
}

unfoldable pub free_trapframe : ℕ → K (Unit {0})
free_trapframe i k = if (k.procs i).trapframe == 0 then ok tt k else kfree (k.procs i).trapframe k

unfoldable pub freeproc : ℕ → K (Unit {0})
freeproc i = do
  free_trapframe i
  set_proc i (λ p. record p { trapframe = 0 })
  λ k. free_pages (k.procs i).user_pages k
  set_proc i blank

-- One round of the loop of `reparent`; `wakeup(initproc)` wakes on the address of the process.
unfoldable pub reparent_one : ℕ → ℕ → K (Unit {0})
reparent_one p i k =
    if is_index (k.procs i).parent p
    then wakeup (proc_chan k.initproc)
        (record k { procs = update k.procs i (record (k.procs i) { parent = some k.initproc }) })
    else ok tt k

unfoldable pub reparent_from : ℕ → ℕ → ℕ → K (Unit {0})
reparent_from p zero i = pure tt
reparent_from p (suc n) i = do reparent_one p i; reparent_from p n (i + 1)

unfoldable pub reparent : ℕ → K (Unit {0})
reparent p = reparent_from p nproc 0

abbrev pub is_zombie : Procstate → Bool
is_zombie zombie = true
is_zombie _ = false

-- How a call of `kwait` ends, or that it sleeps.
pub data Waited : Type 0 where
  reaped : ℕ → Waited
  failed : Waited
  waiting : Bool → Waited

-- What a scan of the table comes to: the end of the call, or `havekids`.
pub data Scan : Type 0 where
  ended : Waited → Scan
  scanned : Bool → Scan

-- The copy of the exit status to the user's address, of kernel/vm.c, which is not modelled:
-- whether it succeeds, by the address and the status.
module _ (copyout : ℕ → ℕ → Bool) where
  -- The branch of the scan on a zombie child, whose lock is held.
  unfoldable pub reap : ℕ → ℕ → K Waited
  reap addr i k =
      if not (addr == 0) && not (copyout addr (k.procs i).xstate)
      then (do release i; release wait_lock; pure failed) k
      else (do freeproc i; release i; release wait_lock; pure (reaped (k.procs i).pid)) k

  -- The scan at a child, from the `acquire` of its lock on; `rest` is the rest of the scan.
  unfoldable pub scan_child : ℕ → ℕ → K Scan → K Scan
  scan_child addr i rest = do
    acquire i
    λ k.
        if is_zombie (k.procs i).state
        then and_then (reap addr i k) (λ w k'. ok (ended w) k')
        else and_then (release i k) (λ _. rest)

  -- `n` rounds of the scan for process `me`, from process `i` on.
  unfoldable pub scan_from : ℕ → ℕ → ℕ → ℕ → Bool → K Scan
  scan_from addr me zero i havekids k = ok (scanned havekids) k
  scan_from addr me (suc n) i havekids k =
      (if is_index (k.procs i).parent me
          then scan_child addr i (scan_from addr me n (i + 1) true)
          else scan_from addr me n (i + 1) havekids)
        k

  unfoldable pub give_up : K Waited
  give_up = do release wait_lock; pure failed

  unfoldable pub wait_sleep : ℕ → K Waited
  wait_sleep me = do intena ← sleep me (proc_chan me) wait_lock; pure (waiting intena)

  unfoldable pub after_scan : ℕ → Scan → K Waited
  after_scan me (ended w) = pure w
  after_scan me (scanned false) = give_up
  after_scan me (scanned true) = do dead ← killed me; if dead then give_up else wait_sleep me

  -- One pass of the outer loop.
  unfoldable pub kwait_pass : ℕ → ℕ → K Waited
  kwait_pass addr me = do r ← scan_from addr me nproc 0 false; after_scan me r

  -- `kwait` of process `me`, to its return or its first `sleep`, and from the return of a `sleep` on.
  unfoldable pub kwait : ℕ → ℕ → K Waited
  kwait addr me = do acquire wait_lock; kwait_pass addr me

  unfoldable pub kwait_resume : ℕ → ℕ → Bool → K Waited
  kwait_resume addr me intena = do sleep_return me wait_lock intena; kwait_pass addr me
