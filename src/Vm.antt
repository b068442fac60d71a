-- ===== src/Vm.antt =====
-- kernel/vm.c: page tables, and the copies between the kernel and user memory. A page of memory is seen
-- as the words of a page table or as bytes; no page is both at a time, so that the two are kept apart
-- here, but a fill of a page reaches both. `kalloc` and `kfree` are those of Kalloc.antt for code that
-- holds neither `kmem.lock` nor `tickslock`, which are free again when they return; the processes that
-- `kfree` wakes are not part of this state. A process that finds no page free goes to sleep in `kalloc`
-- (or, with a lock of its own held, panics in `sched`): its run ends there in this model.
pub mod Tree
pub mod Leaf
pub mod Quiet
pub mod Grow
pub mod Walk
pub mod Map
pub mod Pages
pub mod Unmap
pub mod Region
pub mod User
pub mod Chunk
pub mod Copyin
pub mod Copyout
pub mod Copies
pub mod Copyinstr
pub mod Fresh
pub mod Fault
pub mod Space
pub mod Lot
pub mod Alloc
mod Tests
use kus_operating_system_pro.Shared.{
  false, true, Bool, List, Option, [], if◌then◌else◌, leb, ltb, none, not, some, suc, update, zero,
  ℕ, ◌%◌, ◌&&◌, ◌*◌, ◌+◌, ◌-◌, ◌/◌, ◌==◌, ◌^◌, ◌∷◌,
}
use kus_operating_system_pro.Machine.{pgsize}
use kus_operating_system_pro.Kalloc.{first_of, is_page}

-- Where the code runs: `end`, whether `myproc()` is a process, and whether this CPU holds the lock of a
-- process that is not the running one.
pub record Place : Type 0 where
  pub kernel_end : ℕ
  pub has_proc : Bool
  pub lock_held : Bool

-- `woken` counts the calls of `wakeup(&kmem)`.
pub record Vm : Type 0 where
  pub words : ℕ → ℕ
  pub bytes : ℕ → ℕ
  pub freelist : List ℕ
  pub woken : ℕ
  pub place : Place

-- The calls of `panic`, named for their message, and a read at the null pointer, which traps.
pub data Trouble : Type 0 where
  bad_walk va_unaligned size_unaligned no_size remap : Trouble
  unmap_unaligned bad_kfree wakeup_locked no_entry null_read : Trouble

-- A result, a panic, or a process that `kalloc` puts to sleep in the state given. The run ends there:
-- what the process finds when it is woken, and the panic of `sched` on a CPU that holds another lock
-- than the allocator's, are the module Kalloc's.
pub data Vr (A : Type 0) : Type 0 where
  fine : A → Vm → Vr A
  stops : Trouble → Vr A
  stalls : Vm → Vr A

abbrev pub V : Type 0 → Type 0
V A = Vm → Vr A

module _ {A B : Type 0} where
  abbrev pub then_do : Vr A → (A → V B) → Vr B
  then_do (fine a s) f = f a s
  then_do (stops e) f = stops e
  then_do (stalls s) f = stalls s

  infixl 5 ◌>>=◌ ◌>>◌
  abbrev pub ◌>>=◌ : V A → (A → V B) → V B
  ◌>>=◌ m f s = then_do (m s) f

  abbrev pub ◌>>◌ : V A → V B → V B
  ◌>>◌ m n s = then_do (m s) (λ _. n)

abbrev pub yields : {A : Type 0} → A → V A
yields a s = fine a s

abbrev pub maxva : ℕ
maxva = 2 ^ 38

abbrev pub pte_r : ℕ
pte_r = 2

abbrev pub pte_w : ℕ
pte_w = 4

abbrev pub pte_u : ℕ
pte_u = 16

-- The flags of an entry.
abbrev pub is_valid : ℕ → Bool
is_valid e = e % 2 == 1

abbrev pub is_writable : ℕ → Bool
is_writable e = e / 4 % 2 == 1

abbrev pub is_user : ℕ → Bool
is_user e = e / 16 % 2 == 1

abbrev pub pa2pte : ℕ → ℕ
pa2pte pa = pa / 4096 * 1024

abbrev pub pte2pa : ℕ → ℕ
pte2pa e = e / 1024 * 4096 % 2 ^ 64

-- `perm | PTE_V`. Flags below 1024 lie in the ten bits that `PA2PTE` leaves 0, so that `|` adds them
-- to it.
abbrev pub with_v : ℕ → ℕ
with_v perm = perm + (1 - perm % 2)

abbrev pub px : ℕ → ℕ → ℕ
px level va = va / 2 ^ (12 + 9 * level) % 512

abbrev pub pgrounddown : ℕ → ℕ
pgrounddown a = a / pgsize * pgsize

abbrev pub pgroundup : ℕ → ℕ
pgroundup a = (a + (pgsize - 1)) % 2 ^ 64 / pgsize * pgsize

-- `memset` of a page.
abbrev pub in_page : ℕ → ℕ → Bool
in_page page a = leb page a && ltb a (page + pgsize)

unfoldable pub fill_page : ℕ → ℕ → Vm → Vm
fill_page page c s = record s {
  words = λ a. if in_page page a then c * 0x0101010101010101 else s.words a;
  bytes = λ a. if in_page page a then c else s.bytes a;
}

-- What comes of a call that finds no free page: without a process it has the result `a`, and a process
-- sleeps.
abbrev pub sleep_or : {A : Type 0} → Bool → A → V A
sleep_or true a s = stalls s
sleep_or false a s = fine a s

abbrev pub no_memory : {A : Type 0} → A → V A
no_memory a s = sleep_or s.place.has_proc a s

unfoldable pub take_page : List ℕ → V (Option ℕ)
take_page [] s = no_memory none s
take_page (r ∷ rest) s = fine (some r) (fill_page r 5 (record s { freelist = rest }))

unfoldable pub kalloc : V (Option ℕ)
kalloc s = take_page s.freelist s

-- `wakeup` takes the locks of all processes but the running one.
abbrev pub can_free : Place → ℕ → Bool
can_free p pa = is_page p.kernel_end pa && not p.lock_held

-- The page filled with junk, and `r->next` in its first eight bytes.
unfoldable pub link_page : ℕ → ℕ → Vm → Vm
link_page page next s = record s {
  words =
      λ a. if in_page page a then (if a == page then next else 0x0101010101010101) else s.words a;
  bytes = λ a.
      if in_page page a
      then (if ltb a (page + 8) then next / 256 ^ (a - page) % 256 else 1)
      else s.bytes a;
}

abbrev pub pushed : ℕ → Vm → Vm
pushed pa s = record (link_page pa (first_of s.freelist) s) {
  freelist = pa ∷ s.freelist;
  woken = s.woken + 1;
}

unfoldable pub kfree : ℕ → V (Unit {0})
kfree pa s =
    if can_free s.place pa
    then fine tt (pushed pa s)
    else if is_page s.place.kernel_end pa
    then stops wakeup_locked
    else stops bad_kfree

abbrev pub set_word : ℕ → ℕ → Vm → Vm
set_word a v s = record s { words = update s.words a v }

-- The address of entry `i` of a page table.
abbrev pub entry_at : ℕ → ℕ → ℕ
entry_at table i = table + 8 * i

-- `walk` at an entry that is not valid; `rest` goes on in the new table.
unfoldable pub walk_grow : ℕ → (ℕ → V (Option ℕ)) → Option ℕ → V (Option ℕ)
walk_grow pte rest none s = fine none s
walk_grow pte rest (some page) s = rest page (set_word pte (pa2pte page + 1) (fill_page page 0 s))

-- The loop of `walk` from level `level` of `table` down; `none` for the null pointer.
unfoldable pub walk_from : ℕ → ℕ → ℕ → Bool → V (Option ℕ)
walk_from zero table va alloc s = fine (some (entry_at table (px 0 va))) s
walk_from (suc level) table va alloc s =
    let pte = entry_at table (px (suc level) va) in
    if is_valid (s.words pte)
    then walk_from level (pte2pa (s.words pte)) va alloc s
    else if not alloc
    then fine none s
    else then_do (kalloc s) (walk_grow pte (λ page. walk_from level page va alloc))

unfoldable pub walk : ℕ → ℕ → Bool → V (Option ℕ)
walk table va alloc s = if ltb va maxva then walk_from 2 table va alloc s else stops bad_walk

-- The address 0 for a page that the user cannot reach.
unfoldable pub user_page : Option ℕ → V ℕ
user_page none s = fine 0 s
user_page (some pte) s =
    let e = s.words pte in if is_valid e && is_user e then fine (pte2pa e) s else fine 0 s

unfoldable pub walkaddr : ℕ → ℕ → V ℕ
walkaddr table va s = if ltb va maxva then then_do (walk table va false s) user_page else fine 0 s

unfoldable pub is_entry_valid : Option ℕ → V Bool
is_entry_valid none s = fine false s
is_entry_valid (some pte) s = fine (is_valid (s.words pte)) s

unfoldable pub ismapped : ℕ → ℕ → V Bool
ismapped table va = walk table va false >>= is_entry_valid

-- One mapping: whether there was room for its table.
unfoldable pub map_entry : ℕ → ℕ → Option ℕ → V Bool
map_entry pa perm none s = fine false s
map_entry pa perm (some pte) s =
    if is_valid (s.words pte)
    then stops remap
    else fine true (set_word pte (pa2pte pa + with_v perm) s)

unfoldable pub go_if : V Bool → Bool → V Bool
go_if rest true = rest
go_if rest false = yields false

-- `n` rounds of the loop of `mappages`; `true` for the result 0.
unfoldable pub mappages_from : ℕ → ℕ → ℕ → ℕ → ℕ → V Bool
mappages_from table perm zero va pa = yields true
mappages_from table perm (suc n) va pa =
    (walk table va true >>= map_entry pa perm)
    >>= go_if (mappages_from table perm n ((va + pgsize) % 2 ^ 64) ((pa + pgsize) % 2 ^ 64))

-- The loop ends at `va + size - PGSIZE`, after one round for each page.
unfoldable pub mappages : ℕ → ℕ → ℕ → ℕ → ℕ → V Bool
mappages table va size pa perm s =
    if not (va % pgsize == 0)
    then stops va_unaligned
    else if not (size % pgsize == 0)
    then stops size_unaligned
    else if size == 0
    then stops no_size
    else mappages_from table perm (size / pgsize) va pa s

-- A new table, or none.
unfoldable pub zeroed : Option ℕ → V (Option ℕ)
zeroed none s = fine none s
zeroed (some page) s = fine (some page) (fill_page page 0 s)

unfoldable pub uvmcreate : V (Option ℕ)
uvmcreate = kalloc >>= zeroed

unfoldable pub free_leaf : Bool → ℕ → V (Unit {0})
free_leaf do_free e s = if do_free then kfree (pte2pa e) s else fine tt s

unfoldable pub unmap_entry : Bool → Option ℕ → V (Unit {0})
unmap_entry do_free none s = fine tt s
unmap_entry do_free (some pte) s =
    if is_valid (s.words pte)
    then then_do (free_leaf do_free (s.words pte) s) (λ _ s'. fine tt (set_word pte 0 s'))
    else fine tt s

-- `n` rounds of the loop of `uvmunmap`.
unfoldable pub uvmunmap_from : ℕ → Bool → ℕ → ℕ → V (Unit {0})
uvmunmap_from table do_free zero a = yields tt
uvmunmap_from table do_free (suc n) a =
    (walk table a false >>= unmap_entry do_free) >> uvmunmap_from table do_free n (a + pgsize)

-- How many rounds `for(a = va; a < va + npages*PGSIZE; a += PGSIZE)` has, in 64 bits.
abbrev pub rounds : ℕ → ℕ → ℕ
rounds va npages = ((va + npages * pgsize) % 2 ^ 64 - va + (pgsize - 1)) / pgsize

unfoldable pub uvmunmap : ℕ → ℕ → ℕ → Bool → V (Unit {0})
uvmunmap table va npages do_free s =
    if va % pgsize == 0
    then uvmunmap_from table do_free (rounds va npages) va s
    else stops unmap_unaligned

unfoldable pub uvmdealloc : ℕ → ℕ → ℕ → V ℕ
uvmdealloc table oldsz newsz s =
    if leb oldsz newsz
    then fine oldsz s
    else if ltb (pgroundup newsz) (pgroundup oldsz)
    then then_do
        (uvmunmap table (pgroundup newsz) ((pgroundup oldsz - pgroundup newsz) / pgsize) true s)
        (λ _. yields newsz)
    else fine newsz s
