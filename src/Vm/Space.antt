-- ===== src/Vm/Space.antt =====
-- kernel/vm.c, `uvmalloc`: the memory of a process grows, page by page.
use kus_operating_system_pro.Shared.{
  ◌%◌, ◌*◌, Bool, Option, false, if◌then◌else◌, ltb, none, some, suc, true, zero, ℕ, ◌+◌, ◌-◌, ◌/◌,
}
use kus_operating_system_pro.Machine.{pgsize}
use kus_operating_system_pro.Vm.{
  V, fine, kalloc, kfree, mappages, pgroundup, then_do, uvmdealloc, yields, zeroed, ◌>>=◌, ◌>>◌,
}

-- What has been allocated so far is given back; `oldsz` is a multiple of the page size by then.
unfoldable pub undo_growth : ℕ → ℕ → ℕ → V ℕ
undo_growth pagetable a oldsz = uvmdealloc pagetable a oldsz >> yields 0

unfoldable pub grow_mapped : ℕ → ℕ → ℕ → ℕ → V ℕ → Bool → V ℕ
grow_mapped pagetable a oldsz mem rest true = rest
grow_mapped pagetable a oldsz mem rest false = kfree mem >> undo_growth pagetable a oldsz

-- `PTE_R|PTE_U|xperm`.
abbrev pub with_r : ℕ → ℕ
with_r perm = perm + (1 - perm / 2 % 2) * 2

abbrev pub with_u : ℕ → ℕ
with_u perm = perm + (1 - perm / 16 % 2) * 16

abbrev pub user_perm : ℕ → ℕ
user_perm xperm = with_u (with_r xperm)

-- One round of the loop of `uvmalloc`.
unfoldable pub grow_page : ℕ → ℕ → ℕ → ℕ → V ℕ → Option ℕ → V ℕ
grow_page pagetable xperm a oldsz rest none = undo_growth pagetable a oldsz
grow_page pagetable xperm a oldsz rest (some mem) =
    mappages pagetable a pgsize mem (user_perm xperm) >>= grow_mapped pagetable a oldsz mem rest

-- `n` rounds of that loop.
unfoldable pub uvmalloc_from : ℕ → ℕ → ℕ → ℕ → ℕ → ℕ → V ℕ
uvmalloc_from pagetable xperm oldsz newsz zero a s = fine newsz s
uvmalloc_from pagetable xperm oldsz newsz (suc n) a s =
    then_do (then_do (kalloc s) zeroed)
      (grow_page pagetable xperm a oldsz (uvmalloc_from pagetable xperm oldsz newsz n (a + pgsize)))

-- The loop goes from `PGROUNDUP(oldsz)` on in steps of a page while it is below `newsz`.
unfoldable pub uvmalloc : ℕ → ℕ → ℕ → ℕ → V ℕ
uvmalloc pagetable oldsz newsz xperm s =
    if ltb newsz oldsz
    then fine oldsz s
    else uvmalloc_from pagetable xperm (pgroundup oldsz) newsz
        ((newsz - pgroundup oldsz + (pgsize - 1)) / pgsize) (pgroundup oldsz) s
