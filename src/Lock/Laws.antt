-- ===== src/Lock/Laws.antt =====
-- What a caller that already runs with interrupts off may use: taking a free lock, giving it back,
-- and looking up the running process.
use kus_operating_system_pro.Shared.{
  ◌≢◌, if◌then◌else◌, ◌==◌, ℕ, ◌+◌, ◌≤◌, ◌≡◌, refl, true, false, some, arith, update, update_back,
  ==_refl,
}
use kus_operating_system_pro.Machine.{Spinlock, Cpu, Kernel, Message, ok, panic}
use kus_operating_system_pro.Lock.{
  unlocked, cpu_push_off, cpu_pop_off, push_off, pop_off, holding, take_lock, acquire, release,
  myproc,
}

-- Interrupts are off because some `push_off` is outstanding.
pub record IsNested (c : Cpu) : Type 0 where
  pub off : c.intr ≡ false
  pub depth : 1 ≤ c.noff

-- A lock that the CPU holds.
abbrev pub mine : Kernel → Spinlock
mine k = record { locked = true; cpu = some k.cpu.id }

abbrev pub deeper : Cpu → Cpu
deeper c = record c { noff = c.noff + 1 }

-- The state of this CPU just after it took lock `l`.
abbrev pub held : ℕ → Kernel → Kernel
held l k = record k {
  cpu = deeper k.cpu;
  locks = update k.locks l (record { locked = true; cpu = some k.cpu.id });
}

pub cpu_push_off-nested : {c : Cpu} → IsNested c → cpu_push_off c ≡ deeper c
cpu_push_off-nested n = ground arith

pub cpu_pop_off-deeper : {c : Cpu} → IsNested c → cpu_pop_off (deeper c) ≡ c
cpu_pop_off-deeper n = ground arith

pub IsNested-deeper : {c : Cpu} → IsNested c → IsNested (deeper c)
IsNested-deeper n = ground arith

pub acquire-free :
    (l : ℕ) (k : Kernel) → IsNested k.cpu → k.locks l ≡ unlocked → acquire l k ≡ ok tt (held l k)
unfolding acquire push_off holding take_lock
acquire-free l k n h = rw (cpu_push_off-nested n) (rw h refl)

pub acquire-held :
    (l : ℕ) (k : Kernel)
    → k.locks l ≡ record { locked = true; cpu = some k.cpu.id }
    → acquire l k ≡ panic Message.acquire
unfolding acquire push_off holding
acquire-held l k h = rw h (rw (==_refl k.cpu.id) refl)

pub pop_off-deeper :
    (k : Kernel) → IsNested k.cpu → pop_off (record k { cpu = deeper k.cpu }) ≡ ok tt k
unfolding pop_off
pop_off-deeper k n = ground (arith, cpu_pop_off-deeper n)

-- `release` undoes `acquire`, whatever was done to the rest of the state in between.
pub release-held :
    (l : ℕ) (k : Kernel) → IsNested k.cpu → k.locks l ≡ unlocked → release l (held l k) ≡ ok tt k
unfolding release holding
release-held l k n h =
    rw (==_refl l)
      (rw (==_refl k.cpu.id) (rw (update_back k.locks l _ unlocked h) (pop_off-deeper k n)))

pub myproc-nested : (k : Kernel) → IsNested k.cpu → myproc k ≡ ok k.cpu.proc k
unfolding myproc push_off
myproc-nested k n = rw (cpu_push_off-nested n) (rw (pop_off-deeper k n) refl)

-- Interrupts are off wherever a `push_off` is outstanding.
abbrev pub IsMasked : Cpu → Type 0
IsMasked c = c.noff ≢ 0 → c.intr ≡ false

-- What a `push_off` with its `pop_off` leaves behind: where none was outstanding, the saved
-- interrupt state.
abbrev pub settle : Cpu → Cpu
settle c = record c { intena = if c.noff == 0 then c.intr else c.intena }

-- The state of this CPU just after it took lock `l`, from any state.
abbrev pub entered : ℕ → Kernel → Kernel
entered l k = record k {
  cpu = cpu_push_off k.cpu;
  locks = update k.locks l (record { locked = true; cpu = some k.cpu.id });
}

pub IsNested-push_off : (c : Cpu) → IsNested (cpu_push_off c)
IsNested-push_off c = ground arith

pub IsNested-IsMasked : {c : Cpu} → IsNested c → IsMasked c
IsNested-IsMasked n h = n.off

pub settle-nested : {c : Cpu} → IsNested c → settle c ≡ c
settle-nested n = ground arith

pub acquire-entered :
    (l : ℕ) (k : Kernel) → k.locks l ≡ unlocked → acquire l k ≡ ok tt (entered l k)
unfolding acquire push_off holding take_lock
acquire-entered l k h = rw h refl

pub pop_off-settle :
    (k : Kernel)
    → IsMasked k.cpu
    → pop_off (record k { cpu = cpu_push_off k.cpu }) ≡ ok tt (record k { cpu = settle k.cpu })
unfolding pop_off
pop_off-settle k m = ground arith

pub release-entered :
    (l : ℕ) (k : Kernel)
    → IsMasked k.cpu
    → k.locks l ≡ unlocked
    → release l (entered l k) ≡ ok tt (record k { cpu = settle k.cpu })
unfolding release holding
release-entered l k m h =
    rw (==_refl l)
      (rw (==_refl k.cpu.id) (rw (update_back k.locks l (mine k) unlocked h) (pop_off-settle k m)))

pub myproc-any :
    (k : Kernel) → IsMasked k.cpu → myproc k ≡ ok k.cpu.proc (record k { cpu = settle k.cpu })
unfolding myproc push_off
myproc-any k m = rw (pop_off-settle k m) refl

pub settle-settle : (c : Cpu) → settle (settle c) ≡ settle c
settle-settle c = ground arith
