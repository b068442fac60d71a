-- ===== src/Vm/Chunk.antt =====
-- kernel/vm.c: the rounds of the copies, each in one page.
use kus_operating_system_pro.Machine.{pgsize}
use kus_operating_system_pro.Vm.Tree.{IsTree, leaf}
use kus_operating_system_pro.Vm.User.{chunk, or_fault, vmfault}
use kus_operating_system_pro.Vm.Map.{user_pa, walkaddr-leaf}
use kus_operating_system_pro.Shared.{
  arith, false, if◌then◌else◌, ltb, refl, true, ℕ, ◌%◌, ◌*◌, ◌+◌, ◌-◌, ◌/◌, ◌<◌, ◌==◌, ◌^◌, ◌≡◌,
  ◌≢◌, ◌≤◌,
}
use kus_operating_system_pro.Vm.{Vm, fine, maxva, pgrounddown, walkaddr, yields, ◌>>=◌}
use native.Mathlib.Decide.{dec_lt}

-- The memory behind a user address.
abbrev pub user_at : Vm → ℕ → ℕ → ℕ
user_at s root va = user_pa (leaf s.words root (va / 4096)) + va % 4096

pub record IsChunk (va len n : ℕ) : Type 0 where
  pub some_byte : 1 ≤ n
  pub most : n ≤ len
  pub same_page : va % 4096 + n ≤ 4096
  pub to_end : n < len → va + n ≡ va / 4096 * 4096 + 4096

pub chunk-IsChunk : (va len : ℕ) → 0 < len → IsChunk va len (chunk va len)
chunk-IsChunk va len some_len = record {
  some_byte = ground arith;
  most = ground arith;
  same_page = ground arith;
  to_end = λ h. ground (arith, h);
}

pub user_at-page :
    (s : Vm) (root va i n : ℕ)
    → i < n
    → va % 4096 + n ≤ 4096
    → user_at s root (va + i) ≡ user_at s root va + i
user_at-page s root va i n il nl =
    let p : (va + i) / 4096 ≡ va / 4096 = omega arith in
    let q : (va + i) % 4096 ≡ va % 4096 + i = omega arith in rw (p, q) (omega arith)

-- Where the next round starts.
abbrev pub next_va : ℕ → ℕ
next_va va = (pgrounddown va + pgsize) % 2 ^ 64

module _ (va len n : ℕ) (c : IsChunk va len n) (within : va + len ≤ maxva) where
  pub next_va-within : next_va va + (len - n) ≤ maxva
  next_va-within =
      let a = c.most in
      let d = c.some_byte in
      elim (dec_lt n len) [ yes more ↦ let e = c.to_end more in omega arith | no all ↦ omega arith ]

  pub next_va-after : (i : ℕ) → i < len - n → next_va va + i ≡ va + (n + i)
  next_va-after i il = let e = c.to_end (omega arith) in omega arith

pub page_found :
    (root sz p_table va : ℕ) (s : Vm)
    → IsTree root s
    → va < maxva
    → user_pa (leaf s.words root (va / 4096)) ≢ 0
    → (walkaddr root (pgrounddown va) >>= or_fault sz p_table root (pgrounddown va)) s
      ≡ fine (user_pa (leaf s.words root (va / 4096))) s
unfolding or_fault
page_found root sz p_table va s k lt some_page =
    let in_space : ltb (pgrounddown va) maxva ≡ true = ground arith in
    let page : pgrounddown va / 4096 ≡ va / 4096 = omega arith in
    rw (walkaddr-leaf root (pgrounddown va) s k, in_space, page)
      (found (user_pa (leaf s.words root (va / 4096))) some_page)
  where
    found :
        (pa : ℕ)
        → pa ≢ 0
        → (if pa == 0 then vmfault sz p_table root (pgrounddown va) else yields pa) s ≡ fine pa s
    found pa h = let c : (pa == 0) ≡ false = ground (arith, h) in rw c refl
