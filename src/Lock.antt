-- ===== src/Lock.antt =====
-- kernel/spinlock.c: interrupt nesting and spinlocks, as code of the CPU in `Kernel.cpu`.
mod Tests
pub mod Nesting
pub mod Laws
pub mod Exclusion
use kus_operating_system_pro.Shared.{
  ℕ, ◌+◌, ◌-◌, Bool, true, false, ◌&&◌, Option, none, some, ltb, ◌==◌, if◌then◌else◌, update,
}
use kus_operating_system_pro.Machine.{
  Cpu, Spinlock, Kernel, Message, Run, ok, panic, spins, K, pure, stop, ◌>>=◌, ◌>>◌,
}

-- `initlock`: the state of a lock that nobody holds.
abbrev pub unlocked : Spinlock
unlocked = record { locked = false; cpu = none }

abbrev pub is_index : Option ℕ → ℕ → Bool
is_index none i = false
is_index (some j) i = j == i

-- The `mycpu()` part of `push_off`.
abbrev pub cpu_push_off : Cpu → Cpu
cpu_push_off c = record c {
  intr = false;
  intena = if c.noff == 0 then c.intr else c.intena;
  noff = c.noff + 1;
}

-- The `mycpu()` part of `pop_off` behind its two checks.
abbrev pub cpu_pop_off : Cpu → Cpu
cpu_pop_off c = record c {
  noff = c.noff - 1;
  intr = if (c.noff - 1 == 0) && c.intena then true else c.intr;
}

unfoldable pub push_off : K (Unit {0})
push_off k = ok tt (record k { cpu = cpu_push_off k.cpu })

unfoldable pub pop_off : K (Unit {0})
pop_off k =
    if k.cpu.intr
    then panic Message.pop_off_interruptible
    else if ltb k.cpu.noff 1
    then panic Message.pop_off
    else ok tt (record k { cpu = cpu_pop_off k.cpu })

unfoldable pub holding : ℕ → Kernel → Bool
holding l k = (k.locks l).locked && is_index (k.locks l).cpu k.cpu.id

-- The loop on the atomic swap ends at once on a free lock, and not before another CPU's
-- `release` on a held one.
unfoldable pub take_lock : ℕ → K (Unit {0})
take_lock l k =
    if (k.locks l).locked
    then spins l
    else ok tt
        (record k { locks = update k.locks l (record { locked = true; cpu = some k.cpu.id }) })

unfoldable pub acquire : ℕ → K (Unit {0})
acquire l = do push_off; λ k. if holding l k then panic Message.acquire else take_lock l k

unfoldable pub release : ℕ → K (Unit {0})
release l k =
    if holding l k
    then pop_off (record k { locks = update k.locks l unlocked })
    else panic Message.release

-- `myproc`, the index of the running process if there is one.
unfoldable pub myproc : K (Option ℕ)
myproc = do push_off; p ← λ k. ok k.cpu.proc k; pop_off; pure p
