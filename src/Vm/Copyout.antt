-- ===== src/Vm/Copyout.antt =====
-- kernel/vm.c, `copyout`: the bytes that the kernel writes to user memory.
use mathlib.Core.Bool.{false≢true}
use kus_operating_system_pro.Vm.Walk.{starved, entry, missing, walk-Walked}
use kus_operating_system_pro.Vm.Leaf.{IsTree-same}
use kus_operating_system_pro.Vm.Chunk.{
  chunk-IsChunk, page_found, IsChunk, user_at, next_va, user_at-page, next_va-within, next_va-after,
}
use kus_operating_system_pro.Vm.Map.{leaf-none, leaf-some, user_pa}
use kus_operating_system_pro.Vm.Tree.{IsTree, table, leaf}
use kus_operating_system_pro.Shared.{
  Bool, false, some, suc, zero, ◌%◌, ◌==◌, if◌then◌else◌, Bool-cases, ap, arith, inl, inr, leb, ltb,
  refl, sym, true, ℕ, ◌&&◌, ◌+◌, ◌-◌, ◌/◌, ◌<◌, ◌∙◌, ◌≡◌, ◌≢◌, ◌≤◌,
}
use kus_operating_system_pro.Vm.{
  V, Vr, entry_at, fine, pgrounddown, then_do, walk, Vm, is_writable, maxva,
}
use kus_operating_system_pro.Vm.User.{chunk, copyout, copyout_from, put, store, move_bytes}
use native.Mathlib.Decide.{dec_lt}

-- The user's bytes are mapped, writable and each in memory of its own, none of which is at `src`.
pub record IsWritable (root dstva src len : ℕ) (s : Vm) : Type 0 where
  pub within : dstva + len ≤ maxva
  pub mapped_to : (i : ℕ) → i < len → user_pa (leaf s.words root ((dstva + i) / 4096)) ≢ 0
  pub open_to_user : (i : ℕ) → i < len → is_writable (leaf s.words root ((dstva + i) / 4096)) ≡ true
  pub alone :
      (i j : ℕ)
      → i < len
      → j < len
      → user_at s root (dstva + i) ≡ user_at s root (dstva + j)
      → i ≡ j
  pub apart_from : (i j : ℕ) → i < len → j < len → user_at s root (dstva + i) ≢ src + j

-- The `len` bytes behind `dstva` are those that were at `src`; nothing else has changed.
pub record Writes (root dstva src len : ℕ) (s s' : Vm) : Type 0 where
  pub same_rest : s' ≡ record s { bytes = s'.bytes }
  pub written : (i : ℕ) → i < len → s'.bytes (user_at s root (dstva + i)) ≡ s.bytes (src + i)
  pub others :
      (a : ℕ) → ((i : ℕ) → i < len → user_at s root (dstva + i) ≢ a) → s'.bytes a ≡ s.bytes a

Writes-none : (root dstva src len : ℕ) (s : Vm) → len ≡ 0 → Writes root dstva src len s s
Writes-none root dstva src len s e = record {
  same_rest = refl;
  written = λ i il. absurd (omega arith);
  others = λ a h. refl;
}

-- After one round.
module _ (root dstva src len n : ℕ) (s : Vm) (c : IsChunk dstva len n)
    (h : IsWritable root dstva src len s) where
  abbrev stored : Vm
  stored = move_bytes (user_at s root dstva) src n s

  at_page : (i : ℕ) → i < n → user_at s root (dstva + i) ≡ user_at s root dstva + i
  at_page i il = user_at-page s root dstva i n il c.same_page

  IsWritable-later : IsWritable root (next_va dstva) (src + n) (len - n) stored
  IsWritable-later = record {
    within = next_va-within dstva len n c h.within;
    mapped_to = λ i il zero_pa. h.mapped_to (n + i) (omega arith) (
        ap (λ x. user_pa (leaf s.words root (x / 4096)))
          (sym (next_va-after dstva len n c h.within i il))
        ∙ zero_pa);
    open_to_user = λ i il.
        ap (λ x. is_writable (leaf s.words root (x / 4096)))
          (next_va-after dstva len n c h.within i il)
        ∙ h.open_to_user (n + i) (omega arith);
    alone = λ i j il jl same.
        let e = h.alone (n + i) (n + j) (omega arith) (omega arith) (
          sym (ap (user_at s root) (next_va-after dstva len n c h.within i il))
          ∙ same
          ∙ ap (user_at s root) (next_va-after dstva len n c h.within j jl)) in
        omega arith;
    apart_from = λ i j il jl same. h.apart_from (n + i) (n + j) (omega arith) (omega arith) (
        sym (ap (user_at s root) (next_va-after dstva len n c h.within i il)) ∙ same ∙ omega arith);
  }

  -- A byte outside the memory of the round.
  stored_other :
      (a : ℕ) → ((i : ℕ) → i < n → user_at s root (dstva + i) ≢ a) → stored.bytes a ≡ s.bytes a
  stored_other a other =
      elim (Bool-cases (leb (user_at s root dstva) a && ltb a (user_at s root dstva + n))) [
        | inr out ↦ rw out refl
        | inl inside ↦ absurd (
            other (a - user_at s root dstva) (ground (arith, inside)) (
              at_page (a - user_at s root dstva) (ground (arith, inside)) ∙ ground (arith, inside)))
      ]

  stored_here : (i : ℕ) → i < n → stored.bytes (user_at s root dstva + i) ≡ s.bytes (src + i)
  stored_here i il = by_address (user_at s root dstva)
    where
      by_address :
          (u : ℕ)
          → (if leb u (u + i) && ltb (u + i) (u + n)
              then s.bytes (src + (u + i - u))
              else s.bytes (u + i))
            ≡ s.bytes (src + i)
      by_address u =
          let inside : (leb u (u + i) && ltb (u + i) (u + n)) ≡ true = ground arith in
          let back : u + i - u ≡ i = omega arith in rw (inside, back) refl

  Writes-later :
      (s' : Vm)
      → Writes root (next_va dstva) (src + n) (len - n) stored s'
      → Writes root dstva src len s s'
  Writes-later s' w = record {
    same_rest = w.same_rest;
    written = λ i il. elim (dec_lt i n) [
      | yes now ↦
          let away : (j : ℕ)
              → j < len - n
              → user_at s root (next_va dstva + j) ≢ user_at s root (dstva + i) =
            λ j jl same.
              let e =
                h.alone (n + j) i (omega arith) il
                  (sym (ap (user_at s root) (next_va-after dstva len n c h.within j jl)) ∙ same) in
              absurd (omega arith) in
          w.others (user_at s root (dstva + i)) away
          ∙ ap stored.bytes (at_page i now)
          ∙ stored_here i now
      | no later ↦
          let e : next_va dstva + (i - n) ≡ dstva + i =
            next_va-after dstva len n c h.within (i - n) (omega arith) ∙ omega arith in
          ap (λ x. s'.bytes (user_at s root x)) (sym e)
          ∙ w.written (i - n) (omega arith)
          ∙ ap stored.bytes (omega arith)
          ∙ stored_other (src + i) (λ j jl. h.apart_from j i (let m = c.most in omega arith) il)
    ];
    others = λ a other.
        w.others a (λ j jl same.
          other (n + j) (omega arith)
            (sym (ap (user_at s root) (next_va-after dstva len n c h.within j jl)) ∙ same))
        ∙ stored_other a (λ j jl. other j (let m = c.most in omega arith));
  }

store-writable :
    (dst src n pte : ℕ) (rest : V Bool) (s : Vm)
    → is_writable (s.words pte) ≡ true
    → store dst src n rest (some pte) s ≡ rest (move_bytes dst src n s)
unfolding store
store-writable dst src n pte rest s w = rw w refl

store-found :
    (root va offset src n : ℕ) (rest : V Bool) (s : Vm)
    → IsTree root s
    → va < maxva
    → user_pa (leaf s.words root (va / 4096)) ≢ 0
    → is_writable (leaf s.words root (va / 4096)) ≡ true
    → put root (pgrounddown va) offset src n rest (user_pa (leaf s.words root (va / 4096))) s
      ≡ rest (move_bytes (user_pa (leaf s.words root (va / 4096)) + offset) src n s)
unfolding put
store-found root va offset src n rest s k lt some_page writable =
    by_page (user_pa (leaf s.words root (va / 4096))) some_page
  where
    page : pgrounddown va / 4096 ≡ va / 4096
    page = omega arith

    by_entry :
        (pa : ℕ)
        → then_do (walk root (pgrounddown va) false s) (store (pa + offset) src n rest)
          ≡ rest (move_bytes (pa + offset) src n s)
    by_entry pa = elim (walk-Walked root (pgrounddown va) false s k (omega arith)) [
      | missing s' e f hole same why ↦
          let g = leaf-none s.words root (pgrounddown va / 4096) (
            ap (λ (x : Vm). table x.words root 2 (pgrounddown va / 4096 / 512)) (sym (same refl))
            ∙ hole) in
          absurd (some_page (ap (λ x. user_pa (leaf s.words root x)) (sym page) ∙ ap user_pa g))
      | starved s' e f hole a why ↦ absurd (false≢true a)
      | entry t s' e f at same ↦
          let g = leaf-some s.words root (pgrounddown va / 4096) t (
            ap (λ (x : Vm). table x.words root 2 (pgrounddown va / 4096 / 512)) (sym (same refl))
            ∙ at) in
          let w =
            sym (ap is_writable g) ∙ ap (λ x. is_writable (leaf s.words root x)) page ∙ writable in
          rw e (
            ap (store (pa + offset) src n rest (some (entry_at t (pgrounddown va / 4096 % 512))))
              (same refl)
            ∙ store-writable (pa + offset) src n (entry_at t (pgrounddown va / 4096 % 512)) rest s
                w)
    ]

    by_page :
        (pa : ℕ)
        → pa ≢ 0
        → (if pa == 0
            then fine false s
            else then_do (walk root (pgrounddown va) false s) (store (pa + offset) src n rest))
          ≡ rest (move_bytes (pa + offset) src n s)
    by_page pa h = let c : (pa == 0) ≡ false = ground (arith, h) in rw c (by_entry pa)

-- What `copyout` comes to.
pub data Wrote (root dstva src len : ℕ) (s : Vm) : Vr Bool → Type 0 where
  wrote :
      {r : Vr Bool} (s' : Vm)
      → r ≡ fine true s'
      → Writes root dstva src len s s'
      → Wrote root dstva src len s r

copyout_from-Wrote :
    (root sz p_table fuel dstva src len : ℕ) (s : Vm)
    → IsTree root s
    → len ≤ fuel
    → IsWritable root dstva src len s
    → Wrote root dstva src len s (copyout_from sz p_table root fuel dstva src len s)
unfolding copyout_from
copyout_from-Wrote root sz p_table zero dstva src len s k fl h =
    wrote s refl (Writes-none root dstva src len s (omega arith))
copyout_from-Wrote root sz p_table (suc fuel) dstva src len s k fl h = elim (dec_lt 0 len) [
  | no nothing ↦
      let z : (len == 0) ≡ true = ground arith in
      rw z (wrote s refl (Writes-none root dstva src len s (omega arith)))
  | yes some_len ↦
      let c = chunk-IsChunk dstva len some_len in
      let z : (len == 0) ≡ false = ground arith in
      let w = h.within in
      let v : ltb (pgrounddown dstva) maxva ≡ true = ground arith in
      let n = chunk dstva len in
      let s₁ : Vm = stored root dstva src len n s c h in
      let rest : V Bool = copyout_from sz p_table root fuel (next_va dstva) (src + n) (len - n) in
      let first : (dstva + 0) / 4096 ≡ dstva / 4096 = omega arith in
      let here : user_pa (leaf s.words root (dstva / 4096)) ≢ 0 =
        λ e. h.mapped_to 0 some_len (ap (λ y. user_pa (leaf s.words root y)) first ∙ e) in
      let open' =
        ap (λ y. is_writable (leaf s.words root y)) (sym first) ∙ h.open_to_user 0 some_len in
      let off : dstva - pgrounddown dstva ≡ dstva % 4096 = omega arith in
      let some_byte = c.some_byte in
      elim (copyout_from-Wrote root sz p_table fuel (next_va dstva) (src + n) (len - n) s₁
        (IsTree-same root s s₁ k refl (λ m q ml ql. refl)) (omega arith)
        (IsWritable-later root dstva src len n s c h)) [
          | wrote s' e w' ↦
              wrote s'
                (rw (z, v)
                  (ap
                      (λ r.
                        then_do r
                          (put root (pgrounddown dstva) (dstva - pgrounddown dstva) src n rest))
                      (page_found root sz p_table dstva s k (omega arith) here)
                    ∙ store-found root dstva (dstva - pgrounddown dstva) src n rest s k
                        (omega arith) here open'
                    ∙ ap
                        (λ x.
                          rest
                            (move_bytes (user_pa (leaf s.words root (dstva / 4096)) + x) src n s))
                        off
                    ∙ e))
                (Writes-later root dstva src len n s c h s' w')
        ]
]

-- `copyout` of `len` bytes to mapped and writable user addresses under `MAXVA`, whose memory is distinct
-- and apart from `src`, succeeds on a tree: each byte lands behind its address, across pages, and
-- nothing else changes.
pub copyout-Wrote :
    (root sz p_table dstva src len : ℕ) (s : Vm)
    → IsTree root s
    → IsWritable root dstva src len s
    → Wrote root dstva src len s (copyout sz p_table root dstva src len s)
unfolding copyout
copyout-Wrote root sz p_table dstva src len s k h =
    copyout_from-Wrote root sz p_table len dstva src len s k (omega arith) h
