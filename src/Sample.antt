-- ===== src/Sample.antt =====
-- Concrete kernel states on which the tests run.
use kus_operating_system_pro.Shared.{
  ◌<◌, ℕ, ◌≡◌, refl, [], ◌∷◌, none, some, true, false, ◌==◌, if◌then◌else◌, Option,
}
use kus_operating_system_pro.Machine.{
  Cpu, Kernel, Proc, Procstate, unused, sleeping, running, zombie, kmem_chan, ticks_chan, nproc,
}
use kus_operating_system_pro.Lock.{unlocked}

abbrev process : Procstate → ℕ → Option ℕ → Proc
process s c up = record {
  state = s;
  chan = c;
  killed = false;
  xstate = 9;
  pid = 20;
  parent = up;
  sz = 4096;
  user_pages = 0x80100000 ∷ [];
  trapframe = 0x80101000;
  name = 115 ∷ 104 ∷ [];
  mem_stall_ticks = 2;
  last_stall_start = 0;
}

-- Process 3 runs, 5 stalls on memory, 6 sleeps in `sys_pause`, and 8 is an exited child of 3.
abbrev table : ℕ → Proc
table i =
    if i == 3
    then process running 0 (some 0)
    else if i == 5
    then process sleeping kmem_chan (some 3)
    else if i == 6
    then process sleeping ticks_chan (some 0)
    else if i == 8
    then process zombie 0 (some 3)
    else process unused 0 none

abbrev pub core : Cpu
core = record { id = 0; intr = true; proc = some 3; noff = 0; intena = false }

-- No lock is held, and three pages are free.
abbrev pub calm : Kernel
calm = record {
  cpu = core;
  locks = λ l. unlocked;
  procs = table;
  initproc = 0;
  nextpid = 21;
  kernel_end = 0x80021000;
  freelist = 0x80200000 ∷ 0x80201000 ∷ 0x80202000 ∷ [];
  mem = λ a. 0;
  ticks = 41;
  some_avg10 = 500;
  full_avg10 = 100;
}

-- The same with interrupts off, as inside some `push_off`.
abbrev pub masked : Kernel
masked = record calm { cpu = record core { intr = false; noff = 1 } }

-- The same with no page free.
abbrev pub exhausted : Kernel
exhausted = record calm { freelist = [] }

pub unheld : (i : ℕ) → i < nproc → calm.locks i ≡ unlocked
unheld i h = refl
