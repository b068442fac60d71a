-- ===== src/Vm/User.antt =====
-- kernel/vm.c: the memory of a process grows and is copied, and the kernel's copies to and from it. Its
-- `p->sz` and `p->pagetable` are arguments of the functions that ask `myproc` for them. A copy moves
-- bytes; no copy reaches a page table.
use kus_operating_system_pro.Machine.{pgsize}
use kus_operating_system_pro.Vm.{
  V, Vm, Vr, fine, is_writable, ismapped, kalloc, kfree, mappages, maxva, no_entry, null_read,
  pgrounddown, pte_r, pte_u, pte_w, set_word, stops, then_do, walk, walkaddr, yields, zeroed, ◌>>=◌,
  ◌>>◌,
}
use kus_operating_system_pro.Shared.{
  Bool, Option, false, if◌then◌else◌, leb, ltb, none, some, suc, true, update, zero, ℕ, ◌%◌, ◌&&◌,
  ◌*◌, ◌+◌, ◌-◌, ◌/◌, ◌==◌, ◌^◌,
}

-- `memmove`, where the source is read before any byte is written.
abbrev pub move_bytes : ℕ → ℕ → ℕ → Vm → Vm
move_bytes dst src n s = record s {
  bytes = λ a. if leb dst a && ltb a (dst + n) then s.bytes (src + (a - dst)) else s.bytes a;
}

abbrev pub set_byte : ℕ → ℕ → Vm → Vm
set_byte a v s = record s { bytes = update s.bytes a v }

unfoldable pub kept : ℕ → Bool → V ℕ
kept mem true = yields mem
kept mem false = kfree mem >> yields 0

unfoldable pub map_lazy : ℕ → ℕ → Option ℕ → V ℕ
map_lazy p_table va none = yields 0
map_lazy p_table va (some mem) = mappages p_table va pgsize mem (pte_w + pte_u + pte_r) >>= kept mem

-- A page that is mapped is refused.
unfoldable pub lazy_page : ℕ → ℕ → Bool → V ℕ
lazy_page p_table va true s = fine 0 s
lazy_page p_table va false s = then_do (then_do (kalloc s) zeroed) (map_lazy p_table va)

unfoldable pub vmfault : ℕ → ℕ → ℕ → ℕ → V ℕ
vmfault sz p_table pagetable va s =
    if ltb va sz
    then then_do (ismapped pagetable (pgrounddown va) s) (lazy_page p_table (pgrounddown va))
    else fine 0 s

unfoldable pub or_fault : ℕ → ℕ → ℕ → ℕ → ℕ → V ℕ
or_fault sz p_table pagetable va pa = if pa == 0 then vmfault sz p_table pagetable va else yields pa

-- The bytes of one round: to the end of the page, at most `len`.
abbrev pub chunk : ℕ → ℕ → ℕ
chunk va len = let n = pgsize - (va - pgrounddown va) in if ltb len n then len else n

unfoldable pub store : ℕ → ℕ → ℕ → V Bool → Option ℕ → V Bool
store dst src n rest none s = stops null_read
store dst src n rest (some pte) s =
    if is_writable (s.words pte) then rest (move_bytes dst src n s) else fine false s

unfoldable pub put : ℕ → ℕ → ℕ → ℕ → ℕ → V Bool → ℕ → V Bool
put pagetable va0 offset src n rest pa0 s =
    if pa0 == 0
    then fine false s
    else then_do (walk pagetable va0 false s) (store (pa0 + offset) src n rest)

-- The loop of `copyout`, at most `fuel` rounds.
unfoldable pub copyout_from : ℕ → ℕ → ℕ → ℕ → ℕ → ℕ → ℕ → V Bool
copyout_from sz p_table pagetable zero dstva src len s = fine true s
copyout_from sz p_table pagetable (suc fuel) dstva src len s =
    let va0 = pgrounddown dstva in
    let n = chunk dstva len in
    if len == 0
    then fine true s
    else if ltb va0 maxva
    then ((walkaddr pagetable va0 >>= or_fault sz p_table pagetable va0)
          >>= put pagetable va0 (dstva - va0) src n (
              copyout_from sz p_table pagetable fuel ((va0 + pgsize) % 2 ^ 64) (src + n) (len - n)))
        s
    else fine false s

-- Every round copies a byte at least.
unfoldable pub copyout : ℕ → ℕ → ℕ → ℕ → ℕ → ℕ → V Bool
copyout sz p_table pagetable dstva src len = copyout_from sz p_table pagetable len dstva src len

unfoldable pub fetch : ℕ → ℕ → ℕ → V Bool → ℕ → V Bool
fetch dst offset n rest pa0 s =
    if pa0 == 0 then fine false s else rest (move_bytes dst (pa0 + offset) n s)

-- The loop of `copyin`, at most `fuel` rounds.
unfoldable pub copyin_from : ℕ → ℕ → ℕ → ℕ → ℕ → ℕ → ℕ → V Bool
copyin_from sz p_table pagetable zero dst srcva len s = fine true s
copyin_from sz p_table pagetable (suc fuel) dst srcva len s =
    let va0 = pgrounddown srcva in
    let n = chunk srcva len in
    if len == 0
    then fine true s
    else ((walkaddr pagetable va0 >>= or_fault sz p_table pagetable va0)
          >>= fetch dst (srcva - va0) n
              (copyin_from sz p_table pagetable fuel (dst + n) ((va0 + pgsize) % 2 ^ 64) (len - n)))
        s

unfoldable pub copyin : ℕ → ℕ → ℕ → ℕ → ℕ → ℕ → V Bool
copyin sz p_table pagetable dst srcva len = copyin_from sz p_table pagetable len dst srcva len

-- The inner loop of `copyinstr`: whether the string has ended within the `n` bytes at `p`.
unfoldable pub string_from : ℕ → ℕ → ℕ → Vm → Bool × Vm
string_from zero p dst s = (false, s)
string_from (suc n) p dst s =
    if s.bytes p == 0
    then (true, set_byte dst 0 s)
    else string_from n (p + 1) (dst + 1) (set_byte dst (s.bytes p) s)

unfoldable pub string_ends : V Bool → Bool × Vm → Vr Bool
string_ends rest (true, s) = fine true s
string_ends rest (false, s) = rest s

unfoldable pub fetch_string : ℕ → ℕ → ℕ → V Bool → ℕ → V Bool
fetch_string dst offset n rest pa0 s =
    if pa0 == 0 then fine false s else string_ends rest (string_from n (pa0 + offset) dst s)

-- The outer loop of `copyinstr`, at most `fuel` rounds.
unfoldable pub copyinstr_from : ℕ → ℕ → ℕ → ℕ → ℕ → V Bool
copyinstr_from pagetable zero dst srcva max s = fine false s
copyinstr_from pagetable (suc fuel) dst srcva max s =
    let va0 = pgrounddown srcva in
    let n = chunk srcva max in
    if max == 0
    then fine false s
    else then_do (walkaddr pagetable va0 s) (
        fetch_string dst (srcva - va0) n
          (copyinstr_from pagetable fuel (dst + n) ((va0 + pgsize) % 2 ^ 64) (max - n)))

unfoldable pub copyinstr : ℕ → ℕ → ℕ → ℕ → V Bool
copyinstr pagetable dst srcva max = copyinstr_from pagetable max dst srcva max

-- `*pte &= ~PTE_U`.
unfoldable pub clear_user : Option ℕ → V (Unit {0})
clear_user none s = stops no_entry
clear_user (some pte) s = let e = s.words pte in fine tt (set_word pte (e - e / 16 % 2 * 16) s)

unfoldable pub uvmclear : ℕ → ℕ → V (Unit {0})
uvmclear pagetable va = walk pagetable va false >>= clear_user
