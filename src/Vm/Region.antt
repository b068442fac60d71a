-- ===== src/Vm/Region.antt =====
-- kernel/vm.c, `uvmunmap`: the pages of a region are unmapped in order, and freed for the last owner.
use kus_operating_system_pro.Vm.Tree.{IsTree, leaf, width}
use kus_operating_system_pro.Machine.{pgsize}
use kus_operating_system_pro.Vm.{
  can_free, maxva, rounds, uvmunmap, uvmunmap_from, Vm, Vr, fine, in_page, is_valid, pte2pa,
}
use kus_operating_system_pro.Vm.Unmap.{cuts, unmap_one, Cut, Spare, cleared, given_back}
use kus_operating_system_pro.Shared.{
  Bool-cases, inl, inr, ◌%◌, ◌*◌, ◌/◌, ◌≢◌, Bool, List, ap, arith, false, if◌then◌else◌, is_in, leb,
  ltb, refl, suc, sym, true, zero, ℕ, ◌&&◌, ◌+◌, ◌<◌, ◌==◌, ◌∙◌, ◌≡◌, ◌≤◌,
}
use mathlib.Core.Path.{subst}
use native.Mathlib.Decide.{ℕ_discrete}

abbrev pub in_run : ℕ → ℕ → ℕ → Bool
in_run first n vpn = leb first vpn && ltb vpn (first + n)

-- The free list once the `n` pages from number `first` on are freed.
unfoldable pub pages_freed : Bool → ℕ → ℕ → (ℕ → ℕ) → List ℕ → List ℕ
pages_freed do_free zero first g free = free
pages_freed do_free (suc n) first g free =
    pages_freed do_free n (suc first) g (given_back do_free (g first) free)

-- The region is the only owner of its pages: none is free or a table, and none is mapped twice in it.
pub record IsOwner (root : ℕ) (s : Vm) (first n : ℕ) : Type 0 where
  pub spare :
      (v : ℕ)
      → first ≤ v
      → v < first + n
      → is_valid (leaf s.words root v) ≡ true
      → Spare root s (pte2pa (leaf s.words root v))
  pub alone :
      (v w : ℕ)
      → first ≤ v
      → v < first + n
      → first ≤ w
      → w < first + n
      → is_valid (leaf s.words root v) ≡ true
      → is_valid (leaf s.words root w) ≡ true
      → pte2pa (leaf s.words root v) ≡ pte2pa (leaf s.words root w)
      → v ≡ w

-- The region has been unmapped: nothing else of the map has changed, and no byte but of pages freed.
pub record Removed (root first n : ℕ) (do_free : Bool) (s s' : Vm) : Type 0 where
  pub tree : IsTree root s'
  pub leaves :
      (v : ℕ)
      → v < width 3
      → leaf s'.words root v
        ≡ (if in_run first n v then cleared (leaf s.words root v) else leaf s.words root v)
  pub free : s'.freelist ≡ pages_freed do_free n first (leaf s.words root) s.freelist
  pub contents :
      (a : ℕ)
      → (do_free ≡ true
          → (v : ℕ) → first ≤ v
          → v < first + n
          → is_valid (leaf s.words root v) ≡ true
          → in_page (pte2pa (leaf s.words root v)) a ≡ false)
      → s'.bytes a ≡ s.bytes a
  pub same_end : s'.place ≡ s.place

pub data Removes (root first n : ℕ) (do_free : Bool) (s : Vm) : Vr (Unit {0}) → Type 0 where
  removes :
      {r : Vr (Unit {0})} (s' : Vm)
      → r ≡ fine tt s'
      → Removed root first n do_free s s'
      → Removes root first n do_free s r

pages_freed-same :
    (do_free : Bool) (n first : ℕ) (g h : ℕ → ℕ) (free : List ℕ)
    → ((v : ℕ) → first ≤ v → v < first + n → g v ≡ h v)
    → pages_freed do_free n first g free ≡ pages_freed do_free n first h free
unfolding pages_freed
pages_freed-same do_free zero first g h free same = refl
pages_freed-same do_free (suc n) first g h free same =
    ap (λ e. pages_freed do_free n (suc first) g (given_back do_free e free))
      (same first (omega arith) (omega arith))
    ∙ pages_freed-same do_free n (suc first) g h (given_back do_free (h first) free)
        (λ v a b. same v (omega arith) (omega arith))

-- A page other than the one given back is no more free than before.
used_later :
    (pa e : ℕ) (do_free : Bool) (free : List ℕ)
    → is_in pa free ≡ false
    → (is_valid e ≡ true → pa ≢ pte2pa e)
    → is_in pa (given_back do_free e free) ≡ false
unfolding is_in
used_later pa e do_free free in_use other = elim (Bool-cases (do_free && is_valid e)) [
  | inr c ↦ rw c in_use
  | inl c ↦
      let v : is_valid e ≡ true = ground (arith, c) in
      let o = other v in rw c (ground (arith, o, in_use))
]

module _ (root first n : ℕ) (do_free : Bool) (s s' : Vm) (c : Cut root first do_free s s')
    (small : first + suc n ≤ width 3) where
  leaf_later : (v : ℕ) → first < v → v < first + suc n → leaf s'.words root v ≡ leaf s.words root v
  leaf_later v a b =
      let other : (v == first) ≡ false = ground arith in c.leaves v (omega arith) ∙ rw other refl

  IsOwner-later : do_free ≡ true → IsOwner root s first (suc n) → IsOwner root s' (suc first) n
  IsOwner-later d o = record {
    spare = λ v a b valid.
        let same = leaf_later v (omega arith) (omega arith) in
        let valid' = sym (ap is_valid same) ∙ valid in
        let sp = o.spare v (omega arith) (omega arith) valid' in
        subst (Spare root s') (ap pte2pa (sym same)) record {
          page = ap (λ k. can_free k (pte2pa (leaf s.words root v))) c.same_end ∙ sp.page;
          in_use =
              ap (is_in (pte2pa (leaf s.words root v))) c.free
              ∙ used_later (pte2pa (leaf s.words root v)) (leaf s.words root first) do_free
                  s.freelist sp.in_use
                  (λ w same.
                    let z =
                      o.alone v first (omega arith) (omega arith) (omega arith) (omega arith) valid'
                        w same in
                    absurd (omega arith));
          no_table = λ m q t ml ql e. sp.no_table m q t ml ql (sym (c.tables m q ml ql) ∙ e);
        };
    alone = λ v w a b a' b' valid valid' same.
        let g = leaf_later v (omega arith) (omega arith) in
        let h = leaf_later w (omega arith) (omega arith) in
        o.alone v w (omega arith) (omega arith) (omega arith) (omega arith)
          (sym (ap is_valid g) ∙ valid) (sym (ap is_valid h) ∙ valid')
          (sym (ap pte2pa g) ∙ same ∙ ap pte2pa h);
  }

  Removed-after :
      (s'' : Vm)
      → Removed root (suc first) n do_free s' s''
      → Removed root first (suc n) do_free s s''
  unfolding pages_freed
  Removed-after s'' r = record {
    tree = r.tree;
    leaves = λ v vl. r.leaves v vl ∙ by_place v (c.leaves v vl);
    free =
        r.free
        ∙ pages_freed-same do_free n (suc first) (leaf s'.words root) (leaf s.words root)
            s'.freelist (λ v a b. leaf_later v (omega arith) (omega arith))
        ∙ ap (pages_freed do_free n (suc first) (leaf s.words root)) c.free;
    contents = λ a h.
        r.contents a (λ d v x y valid.
          let g = leaf_later v (omega arith) (omega arith) in
          ap (λ e. in_page (pte2pa e) a) g
          ∙ h d v (omega arith) (omega arith) (sym (ap is_valid g) ∙ valid))
        ∙ c.contents a (λ d valid. h d first (omega arith) (omega arith) valid);
    same_end = r.same_end ∙ c.same_end;
  }
    where
      by_place :
          (v : ℕ)
          → leaf s'.words root v
            ≡ (if v == first then cleared (leaf s.words root v) else leaf s.words root v)
          → (if in_run (suc first) n v
              then cleared (leaf s'.words root v)
              else leaf s'.words root v)
            ≡ (if in_run first (suc n) v
                then cleared (leaf s.words root v)
                else leaf s.words root v)
      by_place v e = elim (ℕ_discrete v first) [
        | yes same ↦
            let a : in_run (suc first) n v ≡ false = ground arith in
            let b : in_run first (suc n) v ≡ true = ground arith in
            let d : (v == first) ≡ true = ground arith in rw (a, b) (e ∙ rw d refl)
        | no other ↦
            let d : (v == first) ≡ false = ground arith in
            let g : leaf s'.words root v ≡ leaf s.words root v = e ∙ rw d refl in
            let a : in_run (suc first) n v ≡ in_run first (suc n) v = ground arith in rw (a, g) refl
      ]

uvmunmap_from-Removes :
    (root n va : ℕ) (do_free : Bool) (s : Vm)
    → IsTree root s
    → va % 4096 ≡ 0
    → va + n * 4096 ≤ maxva
    → (do_free ≡ true → IsOwner root s (va / 4096) n)
    → Removes root (va / 4096) n do_free s (uvmunmap_from root do_free n va s)
unfolding uvmunmap_from
uvmunmap_from-Removes root zero va do_free s k al vl o = removes s refl record {
  tree = k;
  leaves = λ v l. let c : in_run (va / 4096) 0 v ≡ false = ground arith in rw c refl;
  free = unfold pages_freed in refl;
  contents = λ a h. refl;
  same_end = refl;
}
uvmunmap_from-Removes root (suc n) va do_free s k al vl o =
    elim (unmap_one root va do_free s k (omega arith)
      (λ d valid. (o d).spare (va / 4096) (omega arith) (omega arith) valid)) [
        | cuts s' e c ↦
            let small : va / 4096 + suc n ≤ width 3 = unfold width in omega arith in
            let next : (va + 4096) / 4096 ≡ suc (va / 4096) = omega arith in
            elim (uvmunmap_from-Removes root n (va + 4096) do_free s' c.tree (omega arith)
              (omega arith)
              (λ d.
                subst (λ x. IsOwner root s' x n) (sym next)
                  (IsOwner-later root (va / 4096) n do_free s s' c small d (o d)))) [
                    | removes s'' g r ↦ removes s'' (rw e g) (
                        Removed-after root (va / 4096) n do_free s s' c small s''
                          (subst (λ x. Removed root x n do_free s' s'') next r))
                  ]
      ]

pub uvmunmap-Removes :
    (root va n : ℕ) (do_free : Bool) (s : Vm)
    → IsTree root s
    → va % 4096 ≡ 0
    → va + n * 4096 ≤ maxva
    → (do_free ≡ true → IsOwner root s (va / 4096) n)
    → Removes root (va / 4096) n do_free s (uvmunmap root va n do_free s)
unfolding uvmunmap
uvmunmap-Removes root va n do_free s k al vl o =
    let c : (va % pgsize == 0) ≡ true = ground arith in
    let r : rounds va n ≡ n = omega arith in
    rw (c, r) (uvmunmap_from-Removes root n va do_free s k al vl o)
