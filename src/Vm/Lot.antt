-- ===== src/Vm/Lot.antt =====
-- kernel/vm.c, `uvmalloc`: the pages that it has allocated so far.
use kus_operating_system_pro.Vm.Map.{Remapped, with_entry}
use kus_operating_system_pro.Vm.Grow.{pte2pa-pa2pte}
use kus_operating_system_pro.Vm.Unmap.{Spare}
use kus_operating_system_pro.Vm.Fault.{IsStock, pages_apart}
use kus_operating_system_pro.Vm.Tree.{IsTree, leaf, width}
use kus_operating_system_pro.Vm.Region.{IsOwner, in_run}
use kus_operating_system_pro.Shared.{
  Bool-cases, ap, arith, false, inl, inr, is_in, refl, suc, sym, true, ℕ, ◌%◌, ◌+◌, ◌<◌, ◌==◌, ◌∙◌,
  ◌≡◌, ◌≢◌, ◌≤◌,
}
use kus_operating_system_pro.Vm.{Place, can_free, Vm, in_page, is_valid, pa2pte, pte2pa, with_v}
use kus_operating_system_pro.Kalloc.{is_page}
use mathlib.Core.Path.{subst}
use mathlib.Core.Bool.{true≢false}
use native.Mathlib.Decide.{ℕ_discrete}

-- From the state `s₀` on, `m` pages from number `first` on were allocated with `perm`: they are cleared,
-- nobody else has them, and nothing else has changed but what new tables take.
pub record Lot (root first m perm : ℕ) (s₀ s : Vm) : Type 0 where
  pub tree : IsTree root s
  pub owner : IsOwner root s first m
  pub mapped_so : (v : ℕ) → first ≤ v → v < first + m → leaf s.words root v % 1024 ≡ with_v perm
  pub clean :
      (v a : ℕ)
      → first ≤ v
      → v < first + m
      → in_page (pte2pa (leaf s.words root v)) a ≡ true
      → s.bytes a ≡ 0
  pub from_free :
      (v : ℕ) → first ≤ v → v < first + m → is_in (pte2pa (leaf s.words root v)) s₀.freelist ≡ true
  pub others :
      (v : ℕ) → v < width 3 → in_run first m v ≡ false → leaf s.words root v ≡ leaf s₀.words root v
  pub stock : IsStock s
  pub taken : (b : ℕ) → is_in b s.freelist ≡ true → is_in b s₀.freelist ≡ true
  pub contents :
      (a : ℕ)
      → ((b : ℕ) → is_in b s₀.freelist ≡ true → in_page b a ≡ false)
      → s.bytes a ≡ s₀.bytes a

Spare-Remapped :
    (root pa : ℕ) (s s' : Vm) (g : ℕ → ℕ)
    → Spare root s pa
    → Remapped root s s' g
    → Spare root s' pa
Spare-Remapped root pa s s' g sp f = record {
  page = ap (λ x. can_free x pa) f.same_end ∙ sp.page;
  in_use = elim (Bool-cases (is_in pa s'.freelist)) [
    | inr c ↦ c
    | inl c ↦ absurd (true≢false (sym (f.taken pa c) ∙ sp.in_use))
  ];
  no_table = λ n q t nl ql e same. elim (f.origin n q t nl ql e) [
    | inl old ↦ sp.no_table n q t nl ql old same
    | inr new ↦ true≢false (sym new ∙ ap (λ x. is_in x s.freelist) same ∙ sp.in_use)
  ];
}

page_aligned : (e : Place) (b : ℕ) → can_free e b ≡ true → b % 4096 ≡ 0
unfolding is_page
page_aligned e b p = ground (arith, p)

outside : (first m v : ℕ) → in_run first (suc m) v ≡ false → v ≢ first + m
outside first m v out e = ground (arith, out, e)

outside_lot : (first m v : ℕ) → in_run first (suc m) v ≡ false → in_run first m v ≡ false
outside_lot first m v out = ground (arith, out)

pub Lot-none :
    (root first perm : ℕ) (s : Vm) → IsTree root s → IsStock s → Lot root first 0 perm s s
Lot-none root first perm s k stock = record {
  tree = k;
  owner = record { spare = λ v a l. absurd (omega arith); alone = λ v w a l. absurd (omega arith) };
  mapped_so = λ v a l. absurd (omega arith);
  clean = λ v x a l. absurd (omega arith);
  from_free = λ v a l. absurd (omega arith);
  others = λ v vl out. refl;
  stock = stock;
  taken = λ b h. h;
  contents = λ a h. refl;
}

-- The page of `b`, free before, is mapped behind the lot.
module _ (root first m perm b : ℕ) (s₀ s s' : Vm) (lot : Lot root first m perm s₀ s)
    (small : first + suc m ≤ width 3) (perm_l : perm < 1024) (b_free : is_in b s.freelist ≡ true)
    (spare : Spare root s' b) (zero_page : (a : ℕ) → in_page b a ≡ true → s'.bytes a ≡ 0)
    (f : Remapped root s s'
      (with_entry (first + m) (pa2pte b + with_v perm) (leaf s.words root))) where
  leaf_before : (v : ℕ) → v < width 3 → v ≢ first + m → leaf s'.words root v ≡ leaf s.words root v
  leaf_before v vl other =
      let c : (v == first + m) ≡ false = ground (arith, other) in f.leaves v vl ∙ rw c refl

  leaf_new : leaf s'.words root (first + m) ≡ pa2pte b + with_v perm
  leaf_new =
      let c : (first + m == first + m) ≡ true = ground arith in
      f.leaves (first + m) (omega arith) ∙ rw c refl

  pa_new : pte2pa (leaf s'.words root (first + m)) ≡ b
  pa_new =
      let (al, bl) = lot.tree.free_pages b b_free in
      ap pte2pa leaf_new ∙ pte2pa-pa2pte b (with_v perm) al bl (omega arith)

  valid_before :
      (v : ℕ)
      → v < width 3
      → v ≢ first + m
      → is_valid (leaf s'.words root v) ≡ true
      → is_valid (leaf s.words root v) ≡ true
  valid_before v vl other h = sym (ap is_valid (leaf_before v vl other)) ∙ h

  new-ne_old :
      (v : ℕ)
      → first ≤ v
      → v < first + m
      → is_valid (leaf s.words root v) ≡ true
      → pte2pa (leaf s.words root v) ≢ b
  new-ne_old v a l valid same =
      true≢false (
        sym b_free ∙ ap (λ x. is_in x s.freelist) (sym same) ∙ (lot.owner.spare v a l valid).in_use)

  valid_in_lot : (v : ℕ) → first ≤ v → v < first + m → is_valid (leaf s.words root v) ≡ true
  valid_in_lot v a l = let e = lot.mapped_so v a l in ground (arith, e)

  IsOwner-grown : IsOwner root s' first (suc m)
  IsOwner-grown = record {
    spare = λ v a l valid. elim (ℕ_discrete v (first + m)) [
      | yes same ↦
          subst (Spare root s') (sym (ap (λ x. pte2pa (leaf s'.words root x)) same ∙ pa_new)) spare
      | no other ↦ subst (Spare root s') (ap pte2pa (sym (leaf_before v (omega arith) other))) (
          Spare-Remapped root (pte2pa (leaf s.words root v)) s s' _
            (lot.owner.spare v a (omega arith) (valid_before v (omega arith) other valid)) f)
    ];
    alone = λ v w a l a' l' valid valid' same. elim (ℕ_discrete v (first + m)) [
      | yes v_new ↦ elim (ℕ_discrete w (first + m)) [
        | yes w_new ↦ v_new ∙ sym w_new
        | no w_old ↦ absurd (
            new-ne_old w a' (omega arith) (valid_before w (omega arith) w_old valid') (
              sym (ap pte2pa (leaf_before w (omega arith) w_old))
              ∙ sym same
              ∙ ap (λ x. pte2pa (leaf s'.words root x)) v_new
              ∙ pa_new))
      ]
      | no v_old ↦ elim (ℕ_discrete w (first + m)) [
        | yes w_new ↦ absurd (
            new-ne_old v a (omega arith) (valid_before v (omega arith) v_old valid) (
              sym (ap pte2pa (leaf_before v (omega arith) v_old))
              ∙ same
              ∙ ap (λ x. pte2pa (leaf s'.words root x)) w_new
              ∙ pa_new))
        | no w_old ↦
            lot.owner.alone v w a (omega arith) a' (omega arith)
              (valid_before v (omega arith) v_old valid) (valid_before w (omega arith) w_old valid')
              (sym (ap pte2pa (leaf_before v (omega arith) v_old))
                ∙ same
                ∙ ap pte2pa (leaf_before w (omega arith) w_old))
      ]
    ];
  }

  pub Lot-later : Lot root first (suc m) perm s₀ s'
  Lot-later = record {
    tree = f.tree;
    owner = IsOwner-grown;
    mapped_so = λ v a l. elim (ℕ_discrete v (first + m)) [
      | yes same ↦
          ap (λ x. leaf s'.words root x % 1024) same ∙ ap (λ x. x % 1024) leaf_new ∙ omega arith
      | no other ↦
          ap (λ x. x % 1024) (leaf_before v (omega arith) other) ∙ lot.mapped_so v a (omega arith)
    ];
    clean = λ v x a l inside. elim (ℕ_discrete v (first + m)) [
      | yes same ↦ zero_page x (
          ap (λ p. in_page p x) (sym (ap (λ y. pte2pa (leaf s'.words root y)) same ∙ pa_new))
          ∙ inside)
      | no other ↦
          let valid = valid_in_lot v a (omega arith) in
          let sp = lot.owner.spare v a (omega arith) valid in
          let inside' =
            ap (λ p. in_page (pte2pa p) x) (sym (leaf_before v (omega arith) other)) ∙ inside in
          f.contents x (λ c c_free.
            pages_apart c (pte2pa (leaf s.words root v)) x ((lot.tree.free_pages c c_free).0)
              (page_aligned s.place (pte2pa (leaf s.words root v)) sp.page)
              (λ same. true≢false (sym c_free ∙ ap (λ y. is_in y s.freelist) same ∙ sp.in_use))
              inside')
          ∙ lot.clean v x a (omega arith) inside'
    ];
    from_free = λ v a l. elim (ℕ_discrete v (first + m)) [
      | yes same ↦
          ap (λ x. is_in x s₀.freelist) (ap (λ y. pte2pa (leaf s'.words root y)) same ∙ pa_new)
          ∙ lot.taken b b_free
      | no other ↦
          ap (λ x. is_in (pte2pa x) s₀.freelist) (leaf_before v (omega arith) other)
          ∙ lot.from_free v a (omega arith)
    ];
    others = λ v vl out.
        leaf_before v vl (outside first m v out) ∙ lot.others v vl (outside_lot first m v out);
    stock = λ c h. ap (λ x. can_free x c) f.same_end ∙ lot.stock c (f.taken c h);
    taken = λ c h. lot.taken c (f.taken c h);
    contents = λ a h. f.contents a (λ c i. h c (lot.taken c i)) ∙ lot.contents a h;
  }

-- The leaves are as before.
pub Lot-Remapped :
    (root first m perm : ℕ) (s₀ s s' : Vm)
    → first + m ≤ width 3
    → Lot root first m perm s₀ s
    → Remapped root s s' (leaf s.words root)
    → Lot root first m perm s₀ s'
Lot-Remapped root first m perm s₀ s s' small lot f = record {
  tree = f.tree;
  owner = record {
    spare = λ v a l valid. subst (Spare root s') (ap pte2pa (sym (same v l))) (
        Spare-Remapped root (pte2pa (leaf s.words root v)) s s' _
          (lot.owner.spare v a l (sym (ap is_valid (same v l)) ∙ valid)) f);
    alone = λ v w a l a' l' valid valid' e.
        lot.owner.alone v w a l a' l' (sym (ap is_valid (same v l)) ∙ valid)
          (sym (ap is_valid (same w l')) ∙ valid')
          (sym (ap pte2pa (same v l)) ∙ e ∙ ap pte2pa (same w l'));
  };
  mapped_so = λ v a l. ap (λ x. x % 1024) (same v l) ∙ lot.mapped_so v a l;
  clean = λ v x a l inside.
      let e = lot.mapped_so v a l in
      let valid : is_valid (leaf s.words root v) ≡ true = ground (arith, e) in
      let sp = lot.owner.spare v a l valid in
      let inside' = ap (λ p. in_page (pte2pa p) x) (sym (same v l)) ∙ inside in
      f.contents x (λ c c_free.
        pages_apart c (pte2pa (leaf s.words root v)) x ((lot.tree.free_pages c c_free).0)
          (page_aligned s.place (pte2pa (leaf s.words root v)) sp.page)
          (λ g. true≢false (sym c_free ∙ ap (λ y. is_in y s.freelist) g ∙ sp.in_use)) inside')
      ∙ lot.clean v x a l inside';
  from_free = λ v a l. ap (λ x. is_in (pte2pa x) s₀.freelist) (same v l) ∙ lot.from_free v a l;
  others = λ v vl out. f.leaves v vl ∙ lot.others v vl out;
  stock = λ c h. ap (λ x. can_free x c) f.same_end ∙ lot.stock c (f.taken c h);
  taken = λ c h. lot.taken c (f.taken c h);
  contents = λ a h. f.contents a (λ c i. h c (lot.taken c i)) ∙ lot.contents a h;
}
  where
    same : (v : ℕ) → v < first + m → leaf s'.words root v ≡ leaf s.words root v
    same v l = f.leaves v (omega arith)
