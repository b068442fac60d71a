-- ===== src/Kalloc/Free.antt =====
-- kernel/kalloc.c, `kfree` and `freerange`: what they do to the free list, the memory and the
-- processes that stall, and when `kfree` panics.
use kus_operating_system_pro.Shared.{
  suc, zero, ◌*◌, ◌+◌, List, ◌%◌, ◌-◌, ◌/◌, ℕ, ◌≤◌, ◌<◌, ◌≡◌, refl, ◌∙◌, true, false, some, ◌∷◌,
  arith, update_ne,
}
use kus_operating_system_pro.Machine.{
  Run, Kernel, Message, ok, panic, nproc, pgsize, kmem_lock, kmem_chan,
}
use kus_operating_system_pro.Lock.{unlocked, is_index}
use kus_operating_system_pro.Lock.Laws.{
  IsMasked, IsNested-push_off, settle, entered, acquire-entered, release-entered,
}
use kus_operating_system_pro.Sched.Wakeup.{FreeRange, woken_range, wakeup-free, wakeup-panics}
use kus_operating_system_pro.Machine.{phystop}
use kus_operating_system_pro.Kalloc.{
  first_of, store_word, freerange_from, freerange, pg_round_up, fill, is_page, kfree,
}

-- The state in which `kfree` of any page of the allocator returns: no lock that it takes is held.
pub record CanFree (k : Kernel) : Type 0 where
  pub masked : IsMasked k.cpu
  pub kmem : k.locks kmem_lock ≡ unlocked
  pub table : FreeRange 0 nproc k

-- The state after `kfree pa`: the page is first in the free list and filled with 1 behind a first word
-- that links the page that was first; every other process that slept on `&kmem` is runnable.
abbrev pub freed : ℕ → Kernel → Kernel
freed pa k = record k {
  cpu = settle k.cpu;
  freelist = pa ∷ k.freelist;
  mem = store_word pa (first_of k.freelist) (fill pa 1 pgsize k.mem);
  procs = woken_range kmem_chan k.cpu.proc 0 nproc k.procs;
}

FreeRange-entered :
    (n : ℕ) (k : Kernel) → n ≤ nproc → FreeRange 0 n k → FreeRange 0 n (entered kmem_lock k)
FreeRange-entered n k small free j lo hi other =
    update_ne k.locks _ (omega arith) ∙ free j lo hi other

-- `kfree` of an address that the allocator manages, with no lock that it takes held, returns: the
-- page is the first of the free list, its first eight bytes are the address of the page that was first
-- (0 for none) and the others are 1, every process other than the caller that stalled on `&kmem` is
-- runnable, and locks, interrupts, counters and the rest are as before.
pub kfree-page :
    (pa : ℕ) (k : Kernel)
    → CanFree k
    → is_page k.kernel_end pa ≡ true
    → kfree pa k ≡ ok tt (freed pa k)
unfolding kfree
kfree-page pa k c page = rw page (
    rw (acquire-entered kmem_lock filled c.kmem) (
      rw (wakeup-free kmem_chan (entered kmem_lock pushed) (IsNested-push_off k.cpu) table)
        (release-entered kmem_lock (record (freed pa k) { cpu = k.cpu }) c.masked c.kmem)))
  where
    filled : Kernel
    filled = record k { mem = fill pa 1 pgsize k.mem }

    pushed : Kernel
    pushed = record filled {
      freelist = pa ∷ k.freelist;
      mem = store_word pa (first_of k.freelist) filled.mem;
    }

    table : FreeRange 0 nproc (entered kmem_lock pushed)
    table = FreeRange-entered nproc pushed (omega arith) c.table

-- `kfree` of such a page while this CPU holds the lock of a process `j` of the table other than the
-- running one panics in `acquire`: its `wakeup` takes every process lock.
pub kfree-panics :
    (pa j : ℕ) (k : Kernel)
    → is_page k.kernel_end pa ≡ true
    → k.locks kmem_lock ≡ unlocked
    → j < nproc
    → FreeRange 0 j k
    → is_index k.cpu.proc j ≡ false
    → k.locks j ≡ record { locked = true; cpu = some k.cpu.id }
    → kfree pa k ≡ panic Message.acquire
unfolding kfree
kfree-panics pa j k page kmem lt free other mine = rw page (
    rw (acquire-entered kmem_lock filled kmem) (
      rw
        (wakeup-panics kmem_chan j (entered kmem_lock pushed) lt (IsNested-push_off k.cpu)
          (FreeRange-entered j pushed (omega arith) free) other
          (update_ne k.locks _ (omega arith) ∙ mine))
        refl))
  where
    filled : Kernel
    filled = record k { mem = fill pa 1 pgsize k.mem }

    pushed : Kernel
    pushed = record filled {
      freelist = pa ∷ k.freelist;
      mem = store_word pa (first_of k.freelist) filled.mem;
    }

-- `kfree` of an address that is not page-aligned, lies below the kernel's end or at or above
-- `PHYSTOP` panics before it touches anything.
pub kfree-rejects :
    (pa : ℕ) (k : Kernel) → is_page k.kernel_end pa ≡ false → kfree pa k ≡ panic Message.kfree
unfolding kfree
kfree-rejects pa k bad = rw bad refl

CanFree-freed : (pa : ℕ) (k : Kernel) → CanFree k → CanFree (freed pa k)
CanFree-freed pa k c = record { masked = c.masked; kmem = c.kmem; table = c.table }

-- The pages from `p` on, the last of `n` first, before `acc`.
unfoldable pub pages_from : ℕ → ℕ → List ℕ → List ℕ
pages_from zero p acc = acc
pages_from (suc n) p acc = pages_from n (p + pgsize) (p ∷ acc)

is_page-true :
    (kernel_end pa : ℕ)
    → pa % pgsize ≡ 0
    → kernel_end ≤ pa
    → pa < phystop
    → is_page kernel_end pa ≡ true
unfolding is_page
is_page-true kernel_end pa a b c = ground arith

-- What a loop of `kfree`s has done: only the free list counts.
record Filled (k : Kernel) (pages : List ℕ) (r : Run (Unit {0})) : Type 0 where
  after : Kernel
  returns : r ≡ ok tt after
  pages_listed : after.freelist ≡ pages
  locks_kept : after.locks ≡ k.locks

Filled-freed :
    (p : ℕ) (k : Kernel) (pages : List ℕ) (r : Run (Unit {0}))
    → Filled (freed p k) pages r
    → Filled k pages r
Filled-freed p k pages r f = record {
  after = f.after;
  returns = f.returns;
  pages_listed = f.pages_listed;
  locks_kept = f.locks_kept;
}

freerange_from-Filled :
    (n p : ℕ) (k : Kernel)
    → CanFree k
    → p % pgsize ≡ 0
    → k.kernel_end ≤ p
    → p + n * pgsize ≤ phystop
    → Filled k (pages_from n p k.freelist) (freerange_from n p k)
unfolding freerange_from pages_from
freerange_from-Filled zero p k c a b e = record {
  after = k;
  returns = refl;
  pages_listed = refl;
  locks_kept = refl;
}
freerange_from-Filled (suc n) p k c a b e =
    rw (kfree-page p k c (is_page-true k.kernel_end p a b (omega arith))) (
      Filled-freed p k _ _ (
        freerange_from-Filled n (p + pgsize) (freed p k) (CanFree-freed p k c) (omega arith)
          (omega arith) (omega arith)))

-- `freerange` over a region that starts at or above the kernel's end and stops at or below
-- `PHYSTOP`, with no lock that `kfree` takes held, returns with every lock as before, and has put
-- exactly the whole pages of the region on the free list, the last one first.
pub freerange-pages :
    (pa_start pa_end : ℕ) (k : Kernel)
    → CanFree k
    → k.kernel_end ≤ pa_start
    → pa_start ≤ pa_end
    → pa_end ≤ phystop
    → (k' : Kernel) × (freerange pa_start pa_end k ≡ ok tt k')
      × (k'.freelist
          ≡ pages_from ((pa_end - pg_round_up pa_start) / pgsize) (pg_round_up pa_start) k.freelist)
      × (k'.locks ≡ k.locks)
unfolding freerange
freerange-pages pa_start pa_end k c lo le hi = (f.after, f.returns, f.pages_listed, f.locks_kept)
  where
    f :
        Filled k
          (pages_from ((pa_end - pg_round_up pa_start) / pgsize) (pg_round_up pa_start) k.freelist)
          (freerange_from ((pa_end - pg_round_up pa_start) / pgsize) (pg_round_up pa_start) k)
    f =
        freerange_from-Filled ((pa_end - pg_round_up pa_start) / pgsize) (pg_round_up pa_start) k c
          (omega arith) (omega arith) (omega arith)
