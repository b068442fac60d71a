-- ===== src/Machine.antt =====
-- The kernel's shared state as the C files declare it (kernel/proc.h, kernel/spinlock.h,
-- kernel/kalloc.c, kernel/proc.c, kernel/trap.c), seen from the CPU that runs the modelled code,
-- and the monad in which that code is written.
use kus_operating_system_pro.Shared.{ℕ, ◌+◌, ◌*◌, ◌≡◌, refl, Bool, Option, List}

-- `struct cpu`, without the saved context, and with `id` the hart's number (`cpuid`) and `intr` the
-- SIE bit of its `sstatus`.
pub record Cpu : Type 0 where
  pub id : ℕ
  pub intr : Bool
  pub proc : Option ℕ
  pub noff : ℕ
  pub intena : Bool

-- `struct spinlock`, without its name: `cpu` is the id of the CPU that `lk->cpu` points to.
pub record Spinlock : Type 0 where
  pub locked : Bool
  pub cpu : Option ℕ

-- `enum procstate`.
pub data Procstate : Type 0 where
  unused used sleeping runnable running zombie : Procstate

-- `struct proc`: a pointer to a process is its index in `proc[]`, a pointer to a page its address
-- (0 for the null pointer). `user_pages` are the pages that `proc_freepagetable` hands to `kfree`,
-- in its order. The lock stands in `Kernel.locks`.
pub record Proc : Type 0 where
  pub state : Procstate
  pub chan : ℕ
  pub killed : Bool
  pub xstate : ℕ
  pub pid : ℕ
  pub parent : Option ℕ
  pub sz : ℕ
  pub user_pages : List ℕ
  pub trapframe : ℕ
  pub name : List ℕ
  pub mem_stall_ticks : ℕ
  pub last_stall_start : ℕ

-- What one CPU sees of the kernel: itself, every spinlock, `proc[]`, `kmem.freelist`, the physical
-- memory byte by byte, and the global counters.
pub record Kernel : Type 0 where
  pub cpu : Cpu
  pub locks : ℕ → Spinlock
  pub procs : ℕ → Proc
  pub initproc : ℕ
  pub nextpid : ℕ
  pub kernel_end : ℕ
  pub freelist : List ℕ
  pub mem : ℕ → ℕ
  pub ticks : ℕ
  pub some_avg10 : ℕ
  pub full_avg10 : ℕ

abbrev pub nproc : ℕ
nproc = 64

abbrev pub pgsize : ℕ
pgsize = 4096

abbrev pub phystop : ℕ
phystop = 0x80000000 + 128 * 1024 * 1024

-- The locks by number: `proc[i].lock` is `i`, the global ones follow the table.
abbrev pub kmem_lock : ℕ
kmem_lock = 64

abbrev pub tickslock : ℕ
tickslock = 65

abbrev pub pid_lock : ℕ
pid_lock = 66

abbrev pub wait_lock : ℕ
wait_lock = 67

abbrev pub psi_lock : ℕ
psi_lock = 68

-- The wait channels: only their equality is ever observed, so distinct addresses are distinct
-- numbers. `&proc[i]` is the channel of a parent in `kwait`.
abbrev pub no_chan : ℕ
no_chan = 0

abbrev pub kmem_chan : ℕ
kmem_chan = 1

abbrev pub ticks_chan : ℕ
ticks_chan = 2

abbrev pub proc_chan : ℕ → ℕ
proc_chan i = 3 + i

-- The calls of `panic`, named for their message.
pub data Message : Type 0 where
  acquire release pop_off_interruptible pop_off : Message
  sched_lock sched_locks sched_running sched_interruptible : Message
  kfree : Message
  no_process : Message

-- What running a piece of kernel code comes to: a result with the new state, a panic, or a
-- spinlock that another CPU holds and that this code spins on.
pub data Run (A : Type 0) : Type 0 where
  ok : A → Kernel → Run A
  panic : Message → Run A
  spins : ℕ → Run A

abbrev pub K : Type 0 → Type 0
K A = Kernel → Run A

abbrev pub pure : {A : Type 0} → A → K A
pure = ok

abbrev pub stop : {A : Type 0} → Message → K A
stop e k = panic e

module _ {A B : Type 0} where
  abbrev pub and_then : Run A → (A → K B) → Run B
  and_then (ok a k) f = f a k
  and_then (panic e) f = panic e
  and_then (spins l) f = spins l

  infixl 5 ◌>>=◌ ◌>>◌
  abbrev pub ◌>>=◌ : K A → (A → K B) → K B
  ◌>>=◌ m f k = and_then (m k) f

  abbrev pub ◌>>◌ : K A → K B → K B
  ◌>>◌ m n k = and_then (m k) (λ _. n)

pub and_then_assoc :
    {A B C : Type 0} (r : Run A) (f : A → K B) (g : B → K C)
    → and_then (and_then r f) g ≡ and_then r (λ a k. and_then (f a k) g)
and_then_assoc (ok a k) f g = refl
and_then_assoc (panic e) f g = refl
and_then_assoc (spins l) f g = refl
