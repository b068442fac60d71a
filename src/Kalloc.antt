-- ===== src/Kalloc.antt =====
-- kernel/kalloc.c: the physical page allocator, with the accounting of memory stalls. The free list
-- is the list of the page addresses that `kmem.freelist` links.
mod Tests
pub mod Free
pub mod Alloc
pub mod Held
use kus_operating_system_pro.Shared.{
  ℕ, zero, suc, ◌+◌, ◌-◌, ◌/◌, ◌*◌, ◌%◌, ◌^◌, Bool, true, false, ◌&&◌, Option, List, [], ◌∷◌, none,
  some, ltb, leb, ◌==◌, if◌then◌else◌,
}
use kus_operating_system_pro.Machine.{
  Message, ok, panic, K, pure, and_then, ◌>>=◌, ◌>>◌, pgsize, phystop, kmem_lock, tickslock,
  kmem_chan,
}
use kus_operating_system_pro.Lock.{acquire, release, myproc}
use kus_operating_system_pro.Sched.{wakeup, sleep, sleep_return, set_proc}

-- `memset` on the physical memory.
abbrev pub fill : ℕ → ℕ → ℕ → (ℕ → ℕ) → ℕ → ℕ
fill pa c n mem a = if leb pa a && ltb a (pa + n) then c else mem a

abbrev pub memset : ℕ → ℕ → ℕ → K (Unit {0})
memset pa c n k = ok tt (record k { mem = fill pa c n k.mem })

-- The three tests at the head of `kfree`.
unfoldable pub is_page : ℕ → ℕ → Bool
is_page kernel_end pa = (pa % pgsize == 0) && leb kernel_end pa && ltb pa phystop

-- The head of a free list, 0 for the null pointer.
abbrev pub first_of : List ℕ → ℕ
first_of [] = 0
first_of (r ∷ rest) = r

-- A store of the 64-bit word `v` at `pa`, the low byte first.
abbrev pub store_word : ℕ → ℕ → (ℕ → ℕ) → ℕ → ℕ
store_word pa v mem a = if leb pa a && ltb a (pa + 8) then v / 256 ^ (a - pa) % 256 else mem a

-- `r->next = kmem.freelist; kmem.freelist = r`.
abbrev pub push_page : ℕ → K (Unit {0})
push_page pa k =
    ok tt (record k { freelist = pa ∷ k.freelist; mem = store_word pa (first_of k.freelist) k.mem })

unfoldable pub kfree : ℕ → K (Unit {0})
kfree pa k =
    if is_page k.kernel_end pa
    then (do
      memset pa 1 pgsize
      acquire kmem_lock
      push_page pa
      wakeup kmem_chan
      release kmem_lock)
        k
    else panic Message.kfree

-- The rounds of `freerange` from `p` on: `p + PGSIZE <= pa_end` holds for
-- `(pa_end - p) / PGSIZE` rounds.
unfoldable pub freerange_from : ℕ → ℕ → K (Unit {0})
freerange_from zero p = pure tt
freerange_from (suc n) p = do kfree p; freerange_from n (p + pgsize)

abbrev pub pg_round_up : ℕ → ℕ
pg_round_up a = (a + pgsize - 1) / pgsize * pgsize

unfoldable pub freerange : ℕ → ℕ → K (Unit {0})
freerange pa_start pa_end = let p = pg_round_up pa_start in freerange_from ((pa_end - p) / pgsize) p

-- How far a call of `kalloc` has come: it has returned a page or, for `none`, the null pointer, or
-- it has given up the CPU in its `sleep`, with the `intena` that `sched` keeps.
pub data Progress : Type 0 where
  returned : Option ℕ → Progress
  asleep : Bool → Progress

-- From `if(r)` to the end.
unfoldable pub kalloc_finish : K Progress
kalloc_finish k = elim k.freelist [
  | [] ↦ and_then (release kmem_lock k) (λ _ k'. ok (returned none) k')
  | r ∷ rest ↦
      (do
        λ k'. ok tt (record k' { freelist = rest })
        release kmem_lock
        memset r 5 pgsize
        pure (returned (some r)))
        k
]

-- The `sleep` in the loop, for process `p`.
unfoldable pub kalloc_sleep : ℕ → K Progress
kalloc_sleep p = do intena ← sleep p kmem_chan kmem_lock; pure (asleep intena)

unfoldable pub mark_stall : ℕ → K (Unit {0})
mark_stall p = do
  acquire tickslock
  λ k. set_proc p (λ q. record q { last_stall_start = k.ticks }) k
  release tickslock

-- `p->mem_stall_ticks += (ticks - p->last_stall_start)`: `ticks` is a `uint`, which the subtraction
-- widens to the `uint64` of the fields.
unfoldable pub add_stall : ℕ → K (Unit {0})
add_stall p = do
  acquire tickslock
  λ k.
      set_proc p
        (λ q. record q {
          mem_stall_ticks =
              (q.mem_stall_ticks + (k.ticks + 2 ^ 64 - q.last_stall_start) % 2 ^ 64) % 2 ^ 64;
        })
        k
  release tickslock

-- The test `!r && p`: the process that is to stall.
unfoldable pub stalls : List ℕ → Option ℕ → Option ℕ
stalls [] me = me
stalls (r ∷ rest) me = none

-- `kalloc` behind that test.
unfoldable pub kalloc_choose : Option ℕ → K Progress
kalloc_choose none = kalloc_finish
kalloc_choose (some p) = do mark_stall p; kalloc_sleep p

-- `kalloc` up to its return or its first `sleep`.
unfoldable pub kalloc : K Progress
kalloc = do me ← myproc; acquire kmem_lock; λ k. kalloc_choose (stalls k.freelist me) k

abbrev pub is_empty : List ℕ → Bool
is_empty [] = true
is_empty (r ∷ rest) = false

-- `kalloc` from the return of a `sleep` to its own return or the next `sleep`.
unfoldable pub kalloc_resume : ℕ → Bool → K Progress
kalloc_resume p intena = do
  sleep_return p kmem_lock intena
  λ k.
      if (k.procs p).killed
      then and_then (release kmem_lock k) (λ _ k'. ok (returned none) k')
      else if is_empty k.freelist
      then kalloc_sleep p k
      else and_then (add_stall p k) (λ _. kalloc_finish)
