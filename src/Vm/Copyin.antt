-- ===== src/Vm/Copyin.antt =====
-- kernel/vm.c, `copyin`: the bytes that the kernel reads from user memory.
use kus_operating_system_pro.Vm.Chunk.{
  IsChunk, chunk-IsChunk, next_va, page_found, user_at, user_at-page, next_va-within, next_va-after,
}
use kus_operating_system_pro.Vm.Leaf.{IsTree-same}
use native.Mathlib.Decide.{dec_lt}
use kus_operating_system_pro.Vm.Tree.{IsTree, leaf}
use kus_operating_system_pro.Vm.Map.{user_pa}
use kus_operating_system_pro.Vm.User.{copyin, copyin_from, fetch, move_bytes, chunk}
use kus_operating_system_pro.Vm.{V, then_do, fine, maxva, pgrounddown, Vm}
use kus_operating_system_pro.Shared.{
  Bool, Bool-cases, ap, false, fun_ext, inl, inr, refl, suc, sym, true, zero, ◌==◌, ◌∙◌, ◌≢◌, arith,
  if◌then◌else◌, leb, ltb, ℕ, ◌%◌, ◌&&◌, ◌+◌, ◌-◌, ◌/◌, ◌<◌, ◌≡◌, ◌≤◌,
}

-- The `len` bytes at `dst` become those behind `srcva`.
abbrev pub reads : ℕ → ℕ → ℕ → ℕ → Vm → Vm
reads root dst srcva len s = record s {
  bytes = λ a.
      if leb dst a && ltb a (dst + len)
      then s.bytes (user_at s root (srcva + (a - dst)))
      else s.bytes a;
}

-- The user's bytes are mapped, and `dst` is no memory of theirs.
pub record IsReadable (root dst srcva len : ℕ) (s : Vm) : Type 0 where
  pub within : srcva + len ≤ maxva
  pub mapped_to : (i : ℕ) → i < len → user_pa (leaf s.words root ((srcva + i) / 4096)) ≢ 0
  pub apart_from : (i j : ℕ) → i < len → j < len → user_at s root (srcva + i) ≢ dst + j

-- After one round.
module _ (root dst srcva len n : ℕ) (s : Vm) (c : IsChunk srcva len n)
    (h : IsReadable root dst srcva len s) where
  abbrev pub moved : Vm
  moved = move_bytes dst (user_at s root srcva) n s

  pub IsReadable-later : IsReadable root (dst + n) (next_va srcva) (len - n) moved
  IsReadable-later = record {
    within = next_va-within srcva len n c h.within;
    mapped_to = λ i il zero_pa. h.mapped_to (n + i) (omega arith) (
        ap (λ x. user_pa (leaf s.words root (x / 4096)))
          (sym (next_va-after srcva len n c h.within i il))
        ∙ zero_pa);
    apart_from = λ i j il jl same.
        let e = ap (user_at s root) (next_va-after srcva len n c h.within i il) in
        h.apart_from (n + i) (n + j) (omega arith) (omega arith) (sym e ∙ same ∙ omega arith);
  }

  pub away :
      (i : ℕ)
      → i < len
      → (leb dst (user_at s root (srcva + i)) && ltb (user_at s root (srcva + i)) (dst + n)) ≡ false
  away i il = by_test (user_at s root (srcva + i)) (h.apart_from i)
    where
      by_test :
          (u : ℕ)
          → ((j : ℕ) → i < len → j < len → u ≢ dst + j)
          → (leb dst u && ltb u (dst + n)) ≡ false
      by_test u apart = elim (Bool-cases (leb dst u && ltb u (dst + n))) [
        | inr out ↦ out
        | inl inside ↦
            let m = c.most in
            absurd (apart (u - dst) il (ground (arith, inside, m)) (ground (arith, inside)))
      ]

  pub reads-later :
      reads root (dst + n) (next_va srcva) (len - n) moved ≡ reads root dst srcva len s
  reads-later = ap (λ b. record s { bytes = b }) (fun_ext (λ a. by_place a))
    where
      by_place :
          (a : ℕ)
          → (reads root (dst + n) (next_va srcva) (len - n) moved).bytes a
            ≡ (reads root dst srcva len s).bytes a
      by_place a = elim (Bool-cases (leb (dst + n) a && ltb a (dst + n + (len - n)))) [
        | inl later ↦
            let m = c.most in
            let i : a - (dst + n) < len - n = ground (arith, later) in
            let e : next_va srcva + (a - (dst + n)) ≡ srcva + (a - dst) =
              next_va-after srcva len n c h.within (a - (dst + n)) i ∙ ground (arith, later) in
            let all : (leb dst a && ltb a (dst + len)) ≡ true = ground (arith, later, m) in
            let out : (leb dst (user_at s root (srcva + (a - dst)))
                  && ltb (user_at s root (srcva + (a - dst))) (dst + n))
                ≡ false =
              away (a - dst) (ground (arith, later, m)) in
            rw (later, all, e, out) refl
        | inr other ↦ elim (Bool-cases (leb dst a && ltb a (dst + n))) [
          | inl now ↦
              let m = c.most in
              let all : (leb dst a && ltb a (dst + len)) ≡ true = ground (arith, now, m) in
              let e = user_at-page s root srcva (a - dst) n (ground (arith, now)) c.same_page in
              rw (other, now, all, e) refl
          | inr out ↦
              let m = c.most in
              let none_left : (leb dst a && ltb a (dst + len)) ≡ false =
                ground (arith, other, out, m) in
              rw (other, out, none_left) refl
        ]
      ]

reads-none : (root dst srcva len : ℕ) (s : Vm) → len ≡ 0 → s ≡ reads root dst srcva len s
reads-none root dst srcva len s e =
    ap (λ b. record s { bytes = b })
      (fun_ext (λ a.
        let c : (leb dst a && ltb a (dst + len)) ≡ false = ground (arith, e) in sym (rw c refl)))

fetch-found :
    (dst offset n pa : ℕ) (rest : V Bool) (s : Vm)
    → pa ≢ 0
    → fetch dst offset n rest pa s ≡ rest (move_bytes dst (pa + offset) n s)
unfolding fetch
fetch-found dst offset n pa rest s h = let c : (pa == 0) ≡ false = ground (arith, h) in rw c refl

copyin_from-reads :
    (root sz p_table fuel dst srcva len : ℕ) (s : Vm)
    → IsTree root s
    → len ≤ fuel
    → IsReadable root dst srcva len s
    → copyin_from sz p_table root fuel dst srcva len s ≡ fine true (reads root dst srcva len s)
unfolding copyin_from
copyin_from-reads root sz p_table zero dst srcva len s k fl h =
    ap (fine true) (reads-none root dst srcva len s (omega arith))
copyin_from-reads root sz p_table (suc fuel) dst srcva len s k fl h = elim (dec_lt 0 len) [
  | no nothing ↦
      let z : (len == 0) ≡ true = ground arith in
      rw z (ap (fine true) (reads-none root dst srcva len s (omega arith)))
  | yes some_len ↦
      let c = chunk-IsChunk srcva len some_len in
      let z : (len == 0) ≡ false = ground arith in
      let w = h.within in
      let n = chunk srcva len in
      let va : ℕ = next_va srcva in
      let s' : Vm = moved root dst srcva len n s c h in
      let rest : V Bool = copyin_from sz p_table root fuel (dst + n) va (len - n) in
      let at = h.mapped_to 0 some_len in
      let here : user_pa (leaf s.words root (srcva / 4096)) ≢ 0 =
        λ e. at (ap (λ y. user_pa (leaf s.words root (y / 4096))) (omega arith) ∙ e) in
      let off : srcva - pgrounddown srcva ≡ srcva % 4096 = omega arith in
      let some_byte = c.some_byte in
      rw z (
        ap (λ r. then_do r (fetch dst (srcva - pgrounddown srcva) n rest))
          (page_found root sz p_table srcva s k (omega arith) here)
        ∙ fetch-found dst (srcva - pgrounddown srcva) n (user_pa (leaf s.words root (srcva / 4096)))
            rest s here
        ∙ ap (λ x. rest (move_bytes dst (user_pa (leaf s.words root (srcva / 4096)) + x) n s)) off
        ∙ copyin_from-reads root sz p_table fuel (dst + n) va (len - n) s'
            (IsTree-same root s s' k refl (λ m q ml ql. refl)) (omega arith)
            (IsReadable-later root dst srcva len n s c h)
        ∙ ap (fine true) (reads-later root dst srcva len n s c h))
]

-- `copyin` of `len` bytes that the user has mapped under `MAXVA`, none of whose memory lies at `dst`,
-- succeeds on a tree: the bytes at `dst` become those behind the user's addresses, across pages, and
-- nothing else changes.
pub copyin-reads :
    (root sz p_table dst srcva len : ℕ) (s : Vm)
    → IsTree root s
    → IsReadable root dst srcva len s
    → copyin sz p_table root dst srcva len s ≡ fine true (reads root dst srcva len s)
unfolding copyin
copyin-reads root sz p_table dst srcva len s k h =
    copyin_from-reads root sz p_table len dst srcva len s k (omega arith) h
