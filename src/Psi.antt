-- ===== src/Psi.antt =====
-- The memory-pressure statistics of kernel/proc.c, and the clock interrupt of kernel/trap.c that
-- drives them.
mod Tests
pub mod Flags
pub mod Average
pub mod Tick
use kus_operating_system_pro.Lock.{acquire, release}
use kus_operating_system_pro.Sched.{is_runnable, is_running, is_sleeping, wakeup}
use kus_operating_system_pro.Machine.{
  K, Proc, Procstate, kmem_chan, nproc, ok, psi_lock, pure, ticks_chan, tickslock, unused, zombie,
  ◌>>=◌, ◌>>◌,
}
use kus_operating_system_pro.Shared.{
  not, Bool, false, if◌then◌else◌, ltb, suc, true, zero, ℕ, ◌%◌, ◌&&◌, ◌*◌, ◌+◌, ◌/◌, ◌==◌, ◌^◌,
  ◌||◌,
}

-- The local counters of `update_psi`.
pub record Counts : Type 0 where
  pub total_active : ℕ
  pub stalled : ℕ
  pub runnable_or_running : ℕ

abbrev pub no_counts : Counts
no_counts = record { total_active = 0; stalled = 0; runnable_or_running = 0 }

-- `p->state != UNUSED && p->state != ZOMBIE`.
abbrev pub is_active : Procstate → Bool
is_active unused = false
is_active zombie = false
is_active _ = true

-- `p->state == SLEEPING && p->chan == &kmem`.
abbrev pub is_stalled : Proc → Bool
is_stalled p = is_sleeping p.state && (p.chan == kmem_chan)

-- `p->state == RUNNABLE || p->state == RUNNING`.
abbrev pub is_ready : Proc → Bool
is_ready p = is_runnable p.state || is_running p.state

-- The body of the loop behind the lock.
unfoldable pub count_proc : Proc → Counts → Counts
count_proc p c =
    let c' = record c { total_active = c.total_active + 1 } in
    if not (is_active p.state)
    then c
    else if is_stalled p
    then record c' { stalled = c.stalled + 1 }
    else if is_ready p
    then record c' { runnable_or_running = c.runnable_or_running + 1 }
    else c'

-- `n` rounds of the loop of `update_psi`, from process `i` on.
unfoldable pub count_from : ℕ → ℕ → Counts → K Counts
count_from zero i c = pure c
count_from (suc n) i c = do
  acquire i
  c' ← λ k. ok (count_proc (k.procs i) c) k
  release i
  count_from n (i + 1) c'

-- `some`, `full`.
abbrev pub some_flag : Counts → ℕ
some_flag c = if ltb 0 c.stalled then 1 else 0

abbrev pub full_flag : Counts → ℕ
full_flag c = if ltb 0 c.stalled && (c.runnable_or_running == 0) then 1 else 0

-- `(t * 1024 + 99 * tau) / 100` on `uint64`.
unfoldable pub average : ℕ → ℕ → ℕ
average t tau = (t * 1024 + 99 * tau) % 2 ^ 64 / 100

unfoldable pub update_psi : K (Unit {0})
update_psi = do
  c ← count_from nproc 0 no_counts
  acquire psi_lock
  λ k. ok tt (record k {
    some_avg10 = average (some_flag c) k.some_avg10;
    full_avg10 = average (full_flag c) k.full_avg10;
  })
  release psi_lock

-- `struct psi_data`.
pub record PsiData : Type 0 where
  pub some_avg10 : ℕ
  pub full_avg10 : ℕ

unfoldable pub get_psi_stats : K PsiData
get_psi_stats = do
  acquire psi_lock
  pd ← λ k. ok (record { some_avg10 = k.some_avg10; full_avg10 = k.full_avg10 }) k
  release psi_lock
  pure pd

-- `clockintr` without the write to the timer's compare register. `ticks` is a `uint`.
unfoldable pub clockintr : K (Unit {0})
clockintr k =
    if k.cpu.id == 0
    then (do
      acquire tickslock
      λ k'. ok tt (record k' { ticks = (k'.ticks + 1) % 2 ^ 32 })
      wakeup ticks_chan
      release tickslock
      update_psi)
        k
    else ok tt k
