-- ===== src/Vm/Alloc.antt =====
-- kernel/vm.c, `uvmalloc`: all of the new pages, or none.
use mathlib.Core.Bool.{true≢false}
use kus_operating_system_pro.Vm.Map.{with_entry, Remapped-trans}
use kus_operating_system_pro.Vm.Fresh.{fresh-IsTree, fresh_free, leaf_fresh}
use kus_operating_system_pro.Vm.Fault.{
  only, Remapped-freed, one_page, still_zero, IsStock, Remapped-fresh, Spare-again, no_pages,
  page_end, start,
}
use kus_operating_system_pro.Machine.{pgsize}
use kus_operating_system_pro.Vm.Pages.{
  Remapped-with, all_mapped, mappages-Filled, ran_out, Unmapped,
}
use kus_operating_system_pro.Vm.{
  link_page, sleep_or, stalls, pa2pte, with_v, fill_page, kfree, mappages, take_page, ◌>>=◌, V,
  kalloc, then_do, zeroed, Vm, Vr, fine, in_page, is_valid, maxva, pgroundup, pte2pa, uvmdealloc,
}
use kus_operating_system_pro.Vm.Unmap.{freed, cleared}
use kus_operating_system_pro.Vm.Lot.{Lot-Remapped, Lot-later, Lot-none, Lot}
use kus_operating_system_pro.Vm.Region.{in_run, removes, uvmunmap-Removes}
use kus_operating_system_pro.Vm.Tree.{IsTree, leaf, width}
use kus_operating_system_pro.Vm.Space.{
  user_perm, grow_mapped, uvmalloc, grow_page, uvmalloc_from, undo_growth,
}
use kus_operating_system_pro.Shared.{
  Bool, none, [], sym, ◌∷◌, List, suc, zero, Bool-cases, ap, arith, false, inl, inr, is_in, leb,
  ltb, refl, true, ℕ, ◌%◌, ◌*◌, ◌+◌, ◌-◌, ◌/◌, ◌<◌, ◌∙◌, ◌≡◌, ◌≤◌,
}
use mathlib.Core.Path.{subst}
use native.Mathlib.Decide.{dec_lt}

-- One page is free at most.
abbrev pub IsScarce : Vm → Type 0
IsScarce s = (b c : ℕ) → is_in b s.freelist ≡ true → is_in c s.freelist ≡ true → b ≡ c

-- What the growth by the `n` pages from number `first` on comes to: they are the process's, or memory
-- has run out after `m` of them: then a process sleeps, and code outside of one undoes the growth.
pub data Grew (root first n perm newsz : ℕ) (s₀ : Vm) : Vr ℕ → Type 0 where
  grew :
      {r : Vr ℕ} (s' : Vm)
      → r ≡ fine newsz s'
      → Lot root first n perm s₀ s'
      → Grew root first n perm newsz s₀ r
  gave_up :
      {r : Vr ℕ} (m : ℕ) (s₁ s' : Vm)
      → m < n
      → Lot root first m perm s₀ s₁
      → IsScarce s₁
      → s₁.place.has_proc ≡ false
      → r ≡ fine 0 s'
      → IsTree root s'
      → ((v : ℕ) → v < width 3 → in_run first n v ≡ true → is_valid (leaf s'.words root v) ≡ false)
      → ((v : ℕ)
          → v < width 3
          → in_run first n v ≡ false
          → leaf s'.words root v ≡ leaf s₀.words root v)
      → ((a : ℕ)
          → ((b : ℕ) → is_in b s₀.freelist ≡ true → in_page b a ≡ false)
          → s'.bytes a ≡ s₀.bytes a)
      → Grew root first n perm newsz s₀ r
  sleeps :
      {r : Vr ℕ} (m : ℕ) (s' : Vm)
      → m < n
      → r ≡ stalls s'
      → Lot root first m perm s₀ s'
      → s'.freelist ≡ []
      → s'.place.has_proc ≡ true
      → Grew root first n perm newsz s₀ r

cleared-invalid : (e : ℕ) → is_valid (cleared e) ≡ false
cleared-invalid e = elim (Bool-cases (is_valid e)) [ inl c ↦ rw c refl | inr c ↦ rw c c ]

inside_or_above :
    (first m n v : ℕ) → in_run first n v ≡ true → in_run first m v ≡ false → first + m ≤ v
inside_or_above first m n v h out = ground (arith, h, out)

in_larger : (first m n v : ℕ) → m ≤ n → in_run first n v ≡ false → in_run first m v ≡ false
in_larger first m n v l out = ground (arith, l, out)

-- The lot of `m` pages is given back.
undo_growth-Grew :
    (root oldsz m n perm newsz : ℕ) (s₀ s : Vm)
    → oldsz % 4096 ≡ 0
    → oldsz + n * 4096 ≤ maxva
    → m < n
    → Unmapped root s₀ (oldsz / 4096) n
    → Lot root (oldsz / 4096) m perm s₀ s
    → IsScarce s
    → s.place.has_proc ≡ false
    → Grew root (oldsz / 4096) n perm newsz s₀ (undo_growth root (oldsz + m * 4096) oldsz s)
unfolding undo_growth uvmdealloc
undo_growth-Grew root oldsz m n perm newsz s₀ s al nl mn holes lot scarce none_runs =
    elim (dec_lt 0 m) [
      | no nothing ↦
          let z : m ≡ 0 = omega arith in
          let c : leb (oldsz + m * 4096) oldsz ≡ true = ground (arith, z) in
          rw c (
            gave_up m s s mn lot scarce none_runs refl lot.tree
              (λ v vl h. untouched v vl h (ground (arith, z)))
              (λ v vl out. lot.others v vl (in_larger (oldsz / 4096) m n v (omega arith) out))
              lot.contents)
      | yes some_page ↦
          let c : leb (oldsz + m * 4096) oldsz ≡ false = ground arith in
          let p : pgroundup oldsz ≡ oldsz = omega arith in
          let q : pgroundup (oldsz + m * 4096) ≡ oldsz + m * 4096 = omega arith in
          let d : ltb oldsz (oldsz + m * 4096) ≡ true = ground arith in
          let e : (oldsz + m * 4096 - oldsz) / 4096 ≡ m = omega arith in
          rw (c, p, q, d, e)
            (elim (uvmunmap-Removes root oldsz m true s lot.tree al (omega arith)
              (λ x. lot.owner)) [
                | removes s' g r ↦
                    gave_up m s s' mn lot scarce none_runs (rw g refl) r.tree
                      (λ v vl h. elim (Bool-cases (in_run (oldsz / 4096) m v)) [
                        | inl i ↦
                            ap is_valid (r.leaves v vl ∙ rw i refl)
                            ∙ cleared-invalid (leaf s.words root v)
                        | inr o ↦ ap is_valid (r.leaves v vl ∙ rw o refl) ∙ untouched v vl h o
                      ])
                      (λ v vl out.
                        let o = in_larger (oldsz / 4096) m n v (omega arith) out in
                        r.leaves v vl ∙ rw o (lot.others v vl o))
                      (λ a h.
                        r.contents a
                          (λ x v b l valid. h (pte2pa (leaf s.words root v)) (lot.from_free v b l))
                        ∙ lot.contents a h)
              ])
    ]
  where
    untouched :
        (v : ℕ)
        → v < width 3
        → in_run (oldsz / 4096) n v ≡ true
        → in_run (oldsz / 4096) m v ≡ false
        → is_valid (leaf s.words root v) ≡ false
    untouched v vl h out =
        ap is_valid (lot.others v vl out) ∙ holes v (ground (arith, h)) (ground (arith, h))

-- How many pages the growth from `oldsz` to `newsz` takes.
abbrev pub pages_between : ℕ → ℕ → ℕ
pages_between oldsz newsz = (newsz - pgroundup oldsz + (pgsize - 1)) / pgsize

-- One page more, where the first `m` are there and `b` is free.
one_more_page :
    (root xperm oldsz newsz m t : ℕ) (s₀ s : Vm)
    → oldsz % 4096 ≡ 0
    → oldsz + t * 4096 ≤ maxva
    → suc m ≤ t
    → user_perm xperm < 1024
    → Unmapped root s₀ (oldsz / 4096) t
    → Lot root (oldsz / 4096) m (user_perm xperm) s₀ s
    → (b : ℕ) (rest : List ℕ) (free : s.freelist ≡ b ∷ rest) (rest_of : V ℕ)
    → ((s' : Vm)
        → Lot root (oldsz / 4096) (suc m) (user_perm xperm) s₀ s'
        → Grew root (oldsz / 4096) t (user_perm xperm) newsz s₀ (rest_of s'))
    → Grew root (oldsz / 4096) t (user_perm xperm) newsz s₀ (
        (mappages root (oldsz + m * 4096) 4096 b (user_perm xperm)
            >>= grow_mapped root (oldsz + m * 4096) oldsz b rest_of)
          (fill_page b 0 (fill_page b 5 (record s { freelist = rest }))))
unfolding grow_mapped kfree link_page
one_more_page root xperm oldsz newsz m t s₀ s al tl mt xl holes lot b rest free rest_of go_on =
    let k = lot.tree in
    let va : ℕ = oldsz + m * 4096 in
    let perm : ℕ = user_perm xperm in
    let index : (oldsz + m * 4096) / 4096 ≡ oldsz / 4096 + m = omega arith in
    let b_free = fresh_free root s k b rest free in
    let none_there : in_run (oldsz / 4096) m (oldsz / 4096 + m) ≡ false = ground arith in
    elim (mappages-Filled root va 4096 b perm (start root va s k lot.stock b rest free)
      (fresh-IsTree root s k b rest free) (omega arith) refl (omega arith) (omega arith)
      (page_end s.place b (lot.stock b b_free)) xl
      (λ vpn x y.
        let e : vpn ≡ oldsz / 4096 + m = omega arith in
        ap is_valid (leaf_fresh root s k b rest free vpn (unfold width in omega arith))
        ∙ ap (λ z. is_valid (leaf s.words root z)) e
        ∙ ap is_valid (lot.others (oldsz / 4096 + m) (unfold width in omega arith) none_there)
        ∙ holes (oldsz / 4096 + m) (omega arith) (omega arith))) [
          | all_mapped s' e f ↦
              let g =
                Remapped-with root s s' _
                  (with_entry (oldsz / 4096 + m) (pa2pte b + with_v perm) (leaf s.words root))
                  (Remapped-trans root s _ s' _ _ (Remapped-fresh root va s k lot.stock b rest free)
                    f)
                  (λ vpn vl.
                    one_page (va / 4096) b perm
                      (leaf (start root va s k lot.stock b rest free).words root)
                      (leaf s.words root) vpn (leaf_fresh root s k b rest free vpn vl)
                    ∙ ap (λ x. with_entry x (pa2pte b + with_v perm) (leaf s.words root) vpn)
                        index) in
              subst (Grew root (oldsz / 4096) t perm newsz s₀) (sym (rw e refl)) (
                go_on s' (
                  Lot-later root (oldsz / 4096) m perm b s₀ s s' lot (unfold width in omega arith)
                    xl b_free (Spare-again root va s k lot.stock b rest free s' _ f)
                    (still_zero root va s k lot.stock b rest free s' _ f) g))
          | ran_out j s' jl e f none_left ↦
              let spare = Spare-again root va s k lot.stock b rest free s' _ f in
              let g =
                Remapped-with root s s' _ (leaf s.words root)
                  (Remapped-trans root s _ s' _ _ (Remapped-fresh root va s k lot.stock b rest free)
                    f)
                  (λ vpn vl.
                    no_pages j (va / 4096) b perm
                      (leaf (start root va s k lot.stock b rest free).words root) vpn (omega arith)
                    ∙ leaf_fresh root s k b rest free vpn vl) in
              elim (Bool-cases s'.place.has_proc) [
                | inl c ↦
                    sleeps m s' mt
                      (ap (λ r. then_do r (grow_mapped root va oldsz b rest_of))
                        (e ∙ ap (λ x. sleep_or x false s') c))
                      (Lot-Remapped root (oldsz / 4096) m perm s₀ s s' (unfold width in omega arith)
                        lot g)
                      none_left c
                | inr c ↦
                    subst (Grew root (oldsz / 4096) t perm newsz s₀)
                      (sym (
                        ap (λ r. then_do r (grow_mapped root va oldsz b rest_of))
                          (e ∙ ap (λ x. sleep_or x false s') c)
                        ∙ rw spare.page refl))
                      (undo_growth-Grew root oldsz m t perm newsz s₀ (freed root s' g.tree b spare)
                        al tl mt holes
                        (Lot-Remapped root (oldsz / 4096) m perm s₀ s (freed root s' g.tree b spare)
                          (unfold width in omega arith) lot
                          (Remapped-freed root va s k lot.stock b rest free s' (leaf s.words root) g
                            spare))
                        (λ x d y z.
                          only b x s'.freelist none_left y ∙ sym (only b d s'.freelist none_left z))
                        c)
              ]
        ]

round-Grew :
    (root xperm oldsz newsz m t : ℕ) (s₀ s : Vm)
    → oldsz % 4096 ≡ 0
    → oldsz + t * 4096 ≤ maxva
    → suc m ≤ t
    → user_perm xperm < 1024
    → Unmapped root s₀ (oldsz / 4096) t
    → Lot root (oldsz / 4096) m (user_perm xperm) s₀ s
    → (rest_of : V ℕ)
    → ((s' : Vm)
        → Lot root (oldsz / 4096) (suc m) (user_perm xperm) s₀ s'
        → Grew root (oldsz / 4096) t (user_perm xperm) newsz s₀ (rest_of s'))
    → Grew root (oldsz / 4096) t (user_perm xperm) newsz s₀ (
        then_do (then_do (kalloc s) zeroed) (grow_page root xperm (oldsz + m * 4096) oldsz rest_of))
unfolding kalloc take_page zeroed grow_page is_in
round-Grew root xperm oldsz newsz m t s₀ s al tl mt xl holes lot rest_of go_on =
    by_free s.freelist refl
  where
    by_place :
        (c : Bool)
        → s.place.has_proc ≡ c
        → s.freelist ≡ []
        → Grew root (oldsz / 4096) t (user_perm xperm) newsz s₀ (
            then_do
              (then_do (sleep_or c none s) zeroed)
              (grow_page root xperm (oldsz + m * 4096) oldsz rest_of))
    by_place true c e = sleeps m s mt refl lot e c
    by_place false c e =
        undo_growth-Grew root oldsz m t (user_perm xperm) newsz s₀ s al tl mt holes lot
          (λ b d x y. absurd (true≢false (sym x ∙ ap (is_in b) e))) c

    by_free :
        (l : List ℕ)
        → s.freelist ≡ l
        → Grew root (oldsz / 4096) t (user_perm xperm) newsz s₀ (
            then_do
              (then_do (kalloc s) zeroed)
              (grow_page root xperm (oldsz + m * 4096) oldsz rest_of))
    by_free [] e =
        subst (Grew root (oldsz / 4096) t (user_perm xperm) newsz s₀)
          (sym (
            ap
              (λ f.
                then_do (then_do (take_page f s) zeroed)
                  (grow_page root xperm (oldsz + m * 4096) oldsz rest_of))
              e))
          (by_place s.place.has_proc refl e)
    by_free (b ∷ rest) e =
        subst (Grew root (oldsz / 4096) t (user_perm xperm) newsz s₀)
          (sym (
            ap
              (λ f.
                then_do (then_do (take_page f s) zeroed)
                  (grow_page root xperm (oldsz + m * 4096) oldsz rest_of))
              e))
          (one_more_page root xperm oldsz newsz m t s₀ s al tl mt xl holes lot b rest e rest_of
            go_on)

-- The rounds that are left once the first `m` pages are there.
uvmalloc_from-Grew :
    (root xperm oldsz newsz n m t : ℕ) (s₀ s : Vm)
    → oldsz % 4096 ≡ 0
    → oldsz + t * 4096 ≤ maxva
    → m + n ≡ t
    → user_perm xperm < 1024
    → Unmapped root s₀ (oldsz / 4096) t
    → Lot root (oldsz / 4096) m (user_perm xperm) s₀ s
    → Grew root
        (oldsz / 4096)
        t
        (user_perm xperm)
        newsz
        s₀
        (uvmalloc_from root xperm oldsz newsz n (oldsz + m * 4096) s)
unfolding uvmalloc_from
uvmalloc_from-Grew root xperm oldsz newsz zero m t s₀ s al tl mt xl holes lot =
    let e : m ≡ t = omega arith in
    grew s refl (subst (λ x. Lot root (oldsz / 4096) x (user_perm xperm) s₀ s) e lot)
uvmalloc_from-Grew root xperm oldsz newsz (suc n) m t s₀ s al tl mt xl holes lot =
    let next : oldsz + suc m * 4096 ≡ oldsz + m * 4096 + 4096 = omega arith in
    round-Grew root xperm oldsz newsz m t s₀ s al tl (omega arith) xl holes lot
      (uvmalloc_from root xperm oldsz newsz n (oldsz + m * 4096 + pgsize))
      (λ s' lot'.
        subst
          (λ x.
            Grew root (oldsz / 4096) t (user_perm xperm) newsz s₀
              (uvmalloc_from root xperm oldsz newsz n x s'))
          next
          (uvmalloc_from-Grew root xperm oldsz newsz n (suc m) t s₀ s' al tl (omega arith) xl holes
            lot'))

-- `uvmalloc` up to `newsz` under `MAXVA`, on a tree whose free pages `kfree` takes and which has none of
-- the new pages mapped, never panics. Either it returns `newsz`, and every new page is mapped with the
-- permissions to a cleared page that was free and that nothing else has. Or memory has run out before
-- the last of them: a process goes to sleep with the pages so far, and where no process runs 0 is
-- returned and none of them is mapped. No other mapping and no byte in use changes.
pub uvmalloc-Grew :
    (root oldsz newsz xperm : ℕ) (s : Vm)
    → IsTree root s
    → IsStock s
    → oldsz ≤ newsz
    → newsz ≤ maxva
    → user_perm xperm < 1024
    → Unmapped root s (pgroundup oldsz / 4096) (pages_between oldsz newsz)
    → Grew root
        (pgroundup oldsz / 4096)
        (pages_between oldsz newsz)
        (user_perm xperm)
        newsz
        s
        (uvmalloc root oldsz newsz xperm s)
unfolding uvmalloc
uvmalloc-Grew root oldsz newsz xperm s k stock le nl xl holes =
    let c : ltb newsz oldsz ≡ false = ground arith in
    let z : pgroundup oldsz + 0 * 4096 ≡ pgroundup oldsz = omega arith in
    rw c (
      subst
        (λ x.
          Grew root (pgroundup oldsz / 4096) (pages_between oldsz newsz) (user_perm xperm) newsz s
            (uvmalloc_from root xperm (pgroundup oldsz) newsz (pages_between oldsz newsz) x s))
        z
        (uvmalloc_from-Grew root xperm (pgroundup oldsz) newsz (pages_between oldsz newsz) 0
          (pages_between oldsz newsz) s s (omega arith) (omega arith) (omega arith) xl holes
          (Lot-none root (pgroundup oldsz / 4096) (user_perm xperm) s k stock)))
