-- ===== src/Psi/Tick.antt =====
-- kernel/proc.c, `update_psi`, and kernel/trap.c, `clockintr`: their effect on the whole state.
use kus_operating_system_pro.Sched.Wakeup.{FreeRange, wakeup-free, woken_range}
use kus_operating_system_pro.Psi.Average.{average-le, average_mono, ceiling}
use kus_operating_system_pro.Lock.Laws.{
  IsNested-push_off, entered, mine, IsMasked, acquire-entered, release-entered, settle,
  settle-settle,
}
use kus_operating_system_pro.Psi.Flags.{AllFree, census, count_from-tally}
use kus_operating_system_pro.Machine.{ticks_chan, tickslock, Kernel, Proc, nproc, ok, psi_lock}
use kus_operating_system_pro.Shared.{
  ==_iff, update_ne, ◌∙◌, ◌%◌, ◌+◌, ◌^◌, ◌≢◌, ap, arith, ℕ, ◌≡◌, ◌≤◌,
}
use kus_operating_system_pro.Lock.{unlocked}
use kus_operating_system_pro.Psi.{
  clockintr, Counts, average, full_flag, no_counts, some_flag, update_psi,
}

-- No lock that a clock tick takes is held.
pub record CanTick (k : Kernel) : Type 0 where
  pub masked : IsMasked k.cpu
  pub table : AllFree 0 nproc k
  pub psi : k.locks psi_lock ≡ unlocked

-- The statistics after a tick that sees the table `f`.
abbrev pub ticked : (ℕ → Proc) → Kernel → Kernel
ticked f k = record k {
  cpu = settle k.cpu;
  some_avg10 = average (some_flag (census f)) k.some_avg10;
  full_avg10 = average (full_flag (census f)) k.full_avg10;
}

-- With no lock that it takes held, `update_psi` returns, updates the two averages by the flags of
-- the process table, and leaves every process, lock and counter as it was.
pub update_psi-census : (k : Kernel) → CanTick k → update_psi k ≡ ok tt (ticked k.procs k)
unfolding update_psi
update_psi-census k c = rw (count_from-tally 63 0 no_counts k c.masked c.table) (
    rw (acquire-entered psi_lock settled c.psi) (
      rw
        (release-entered psi_lock (record (ticked k.procs k) { cpu = settle k.cpu }) c.masked c.psi)
        (ap (λ x. ok tt (record (ticked k.procs k) { cpu = x })) (settle-settle k.cpu))))
  where
    settled : Kernel
    settled = record k { cpu = settle k.cpu }

-- The two averages are in range, and `full` never exceeds `some`.
pub record IsPressure (k : Kernel) : Type 0 where
  pub some_small : k.some_avg10 ≤ ceiling
  pub full_below : k.full_avg10 ≤ k.some_avg10

flags-le : (c : Counts) → (full_flag c ≤ some_flag c) × (some_flag c ≤ 1)
flags-le c = ground arith

-- From averages in range, with no lock that it takes held, `update_psi` returns with averages in
-- range: `some` at most 925 and `full` at most `some`.
pub update_psi-IsPressure :
    (k : Kernel)
    → CanTick k
    → IsPressure k
    → (k' : Kernel) × (update_psi k ≡ ok tt k') × IsPressure k'
update_psi-IsPressure k c v = (
  ticked k.procs k,
  update_psi-census k c,
  record {
    some_small = average-le (some_flag n) k.some_avg10 bounds.1 v.some_small;
    full_below =
        average_mono (full_flag n) (some_flag n) k.full_avg10 k.some_avg10 bounds.0 bounds.1
          v.full_below v.some_small;
  },
)
  where
    n : Counts
    n = census k.procs

    bounds : (full_flag n ≤ some_flag n) × (some_flag n ≤ 1)
    bounds = flags-le n

-- A clock interrupt on CPU 0, with `tickslock` and the locks of the table free, returns: `ticks` is
-- one more modulo 2^32, every process other than the running one that slept on `&ticks` is runnable,
-- and the averages have been updated by the table after these wake-ups.
pub clockintr-ticks :
    (k : Kernel)
    → k.cpu.id ≡ 0
    → CanTick k
    → k.locks tickslock ≡ unlocked
    → let woken = woken_range ticks_chan k.cpu.proc 0 nproc k.procs in
      clockintr k
      ≡ ok tt (ticked woken (record k { ticks = (k.ticks + 1) % 2 ^ 32; procs = woken }))
unfolding clockintr
clockintr-ticks k first c free = rw ((==_iff k.cpu.id 0).1 first) (
    rw (acquire-entered tickslock k free) (
      rw (wakeup-free ticks_chan (entered tickslock counted) (IsNested-push_off k.cpu) table) (
        rw (release-entered tickslock woken c.masked free) (
          update_psi-census (record woken { cpu = settle k.cpu }) tick
          ∙ ap (λ x. ok tt (record (ticked woken.procs woken) { cpu = x }))
              (settle-settle k.cpu)))))
  where
    counted : Kernel
    counted = record k { ticks = (k.ticks + 1) % 2 ^ 32 }

    woken : Kernel
    woken = record counted { procs = woken_range ticks_chan k.cpu.proc 0 nproc k.procs }

    table : FreeRange 0 nproc (entered tickslock counted)
    table j lo hi other = update_ne k.locks {i = tickslock} (mine k) (omega arith) ∙ c.table j lo hi

    tick : CanTick (record woken { cpu = settle k.cpu })
    tick = record { masked = c.masked; table = c.table; psi = c.psi }

-- A clock interrupt on another CPU leaves the state as it is.
pub clockintr-other : (k : Kernel) → k.cpu.id ≢ 0 → clockintr k ≡ ok tt k
unfolding clockintr
clockintr-other k h = ground arith
