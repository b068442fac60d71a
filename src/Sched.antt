-- ===== src/Sched.antt =====
-- kernel/proc.c: sleeping, waking, yielding and killing. Code that gives up the CPU is cut at
-- `swtch`: what stands before it and what stands behind it are functions of their own.
pub mod Wakeup
use kus_operating_system_pro.Shared.{
  ℕ, zero, suc, ◌+◌, Bool, true, false, ◌&&◌, not, Option, none, some, ◌==◌, if◌then◌else◌, update,
}
use kus_operating_system_pro.Machine.{
  Cpu, Proc, Procstate, unused, used, sleeping, runnable, running, zombie, Kernel, Message, Run, ok,
  panic, K, pure, stop, and_then, ◌>>=◌, ◌>>◌, nproc, no_chan,
}
use kus_operating_system_pro.Lock.{is_index, holding, acquire, release, myproc}

-- `s == SLEEPING` and the like.
abbrev pub is_sleeping : Procstate → Bool
is_sleeping sleeping = true
is_sleeping _ = false

abbrev pub is_runnable : Procstate → Bool
is_runnable runnable = true
is_runnable _ = false

abbrev pub is_running : Procstate → Bool
is_running running = true
is_running _ = false

abbrev pub unless : Bool → K (Unit {0}) → K (Unit {0})
unless true m = pure tt
unless false m = m

abbrev pub set_proc : ℕ → (Proc → Proc) → K (Unit {0})
set_proc i f k = ok tt (record k { procs = update k.procs i (f (k.procs i)) })

-- The body of the loop of `wakeup` behind the lock.
unfoldable pub wake : ℕ → Proc → Proc
wake chan p = if is_sleeping p.state && (p.chan == chan) then record p { state = runnable } else p

unfoldable pub wakeup_one : ℕ → ℕ → K (Unit {0})
wakeup_one chan i = do
  me ← myproc
  unless (is_index me i) (do acquire i; set_proc i (wake chan); release i)

-- `n` rounds of the loop of `wakeup`, from process `i` on.
unfoldable pub wakeup_from : ℕ → ℕ → ℕ → K (Unit {0})
wakeup_from chan zero i = pure tt
wakeup_from chan (suc n) i = do wakeup_one chan i; wakeup_from chan n (i + 1)

unfoldable pub wakeup : ℕ → K (Unit {0})
wakeup chan = wakeup_from chan nproc 0

-- `sched` up to its `swtch`, for process `p`: the four checks, and the `intena` that it saves.
unfoldable pub sched : ℕ → K Bool
sched p k =
    if not (holding p k)
    then panic Message.sched_lock
    else if not (k.cpu.noff == 1)
    then panic Message.sched_locks
    else if is_running (k.procs p).state
    then panic Message.sched_running
    else if k.cpu.intr
    then panic Message.sched_interruptible
    else ok k.cpu.intena k

-- The rest of `sched`, on the CPU that the process runs on next.
unfoldable pub sched_return : Bool → K (Unit {0})
sched_return intena k = ok tt (record k { cpu = record k.cpu { intena = intena } })

-- `sleep` up to the `swtch`.
unfoldable pub sleep : ℕ → ℕ → ℕ → K Bool
sleep p chan lk = do
  acquire p
  release lk
  set_proc p (λ q. record q { chan = chan; state = sleeping })
  sched p

-- The rest of `sleep`.
unfoldable pub sleep_return : ℕ → ℕ → Bool → K (Unit {0})
sleep_return p lk intena = do
  sched_return intena
  set_proc p (λ q. record q { chan = no_chan })
  release p
  acquire lk

-- `yield` up to the `swtch`, and the rest.
unfoldable pub yield : ℕ → K Bool
yield p = do acquire p; set_proc p (λ q. record q { state = runnable }); sched p

unfoldable pub yield_return : ℕ → Bool → K (Unit {0})
yield_return p intena = do sched_return intena; release p

-- One round of the loop of `scheduler`, up to the `swtch` (`true`) or past it (`false`).
unfoldable pub scheduler_pick : ℕ → K Bool
scheduler_pick i = do
  acquire i
  λ k.
      if is_runnable (k.procs i).state
      then ok true (record k {
        procs = update k.procs i (record (k.procs i) { state = running });
        cpu = record k.cpu { proc = some i };
      })
      else and_then (release i k) (λ _ k'. ok false k')

-- What `scheduler` does when the process has switched back to it.
unfoldable pub scheduler_return : ℕ → K (Unit {0})
scheduler_return i = do λ k. ok tt (record k { cpu = record k.cpu { proc = none } }); release i

-- `n` rounds of the loop of `kkill`, from process `i` on; `true` for the result 0.
unfoldable pub kkill_from : ℕ → ℕ → ℕ → K Bool
kkill_from pid zero i = pure false
kkill_from pid (suc n) i = do
  acquire i
  λ k.
      let rest = kkill_from pid n (i + 1) in
      if (k.procs i).pid == pid
      then (do
        set_proc i (λ q. record q {
          killed = true;
          state = if is_sleeping q.state then runnable else q.state;
        })
        release i
        pure true)
          k
      else and_then (release i k) (λ _. rest)

unfoldable pub kkill : ℕ → K Bool
kkill pid = kkill_from pid nproc 0

unfoldable pub setkilled : ℕ → K (Unit {0})
setkilled p = do acquire p; set_proc p (λ q. record q { killed = true }); release p

unfoldable pub killed : ℕ → K Bool
killed p = do acquire p; b ← λ k. ok (k.procs p).killed k; release p; pure b
