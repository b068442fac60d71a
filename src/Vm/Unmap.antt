-- ===== src/Vm/Unmap.antt =====
-- kernel/vm.c, `uvmunmap`: mappings are removed, and their pages freed.
use mathlib.Core.Bool.{false≢true}
use kus_operating_system_pro.Vm.Quiet.{leaf_kept, table_kept}
use kus_operating_system_pro.Vm.Map.{leaf-none, leaf-some, page_number}
use kus_operating_system_pro.Vm.Walk.{starved, entry, missing, walk-Walked}
use kus_operating_system_pro.Kalloc.{is_page}
use kus_operating_system_pro.Vm.{
  can_free, pushed, Vr, fine, free_leaf, in_page, kfree, maxva, set_word, unmap_entry, walk, ◌>>=◌,
  Vm, entry_at, link_page, is_valid, pte2pa,
}
use kus_operating_system_pro.Vm.Tree.{IsTree, leaf, table, width, width_step}
use kus_operating_system_pro.Vm.Leaf.{after-IsTree, leaf_after, table_after}
use kus_operating_system_pro.Shared.{
  Bool-cases, inl, inr, ◌*◌, ◌+◌, ◌==◌, Bool, List, ap, arith, false, if◌then◌else◌, is_in, refl,
  some, sym, true, ℕ, ◌%◌, ◌&&◌, ◌/◌, ◌<◌, ◌^◌, ◌∙◌, ◌∷◌, ◌≡◌, ◌≢◌, ◌≤◌,
}
use mathlib.Core.Path.{subst}
use native.Mathlib.Decide.{ℕ_discrete}

-- A page of memory that `kfree` takes, and that is neither free nor a table.
pub record Spare (root : ℕ) (s : Vm) (pa : ℕ) : Type 0 where
  pub page : can_free s.place pa ≡ true
  pub in_use : is_in pa s.freelist ≡ false
  pub no_table : (n q t : ℕ) → n ≤ 2 → q < width n → table s.words root n q ≡ some t → t ≢ pa

abbrev pub cleared : ℕ → ℕ
cleared e = if is_valid e then 0 else e

abbrev pub given_back : Bool → ℕ → List ℕ → List ℕ
given_back do_free e free = if do_free && is_valid e then pte2pa e ∷ free else free

-- The page of `pa` is freed.
module _ (root : ℕ) (s : Vm) (k : IsTree root s) (pa : ℕ) (spare : Spare root s pa) where
  abbrev pub freed : Vm
  freed = pushed pa s

  page_bounds : (pa % 4096 ≡ 0) × (pa < 2 ^ 64)
  unfolding is_page
  page_bounds = let p = spare.page in (ground (arith, p), ground (arith, p))

  freed_entry :
      (n q u j : ℕ)
      → n ≤ 2
      → q < width n
      → j < 512
      → table s.words root n q ≡ some u
      → freed.words (entry_at u j) ≡ s.words (entry_at u j)
  unfolding link_page
  freed_entry n q u j nl ql jl e =
      let a = k.aligned n q u nl ql e in
      let b = page_bounds.0 in
      let other = spare.no_table n q u nl ql e in ground (arith, a, b, other)

  pub table_freed :
      (n q : ℕ) → n ≤ 2 → q < width n → table freed.words root n q ≡ table s.words root n q
  table_freed = table_kept root s freed freed_entry

  pub freed-IsTree : IsTree root freed
  unfolding is_in link_page
  freed-IsTree = record {
    distinct = λ m n p q t ml nl pl ql e g.
        k.distinct m n p q t ml nl pl ql (sym (table_freed m p ml pl) ∙ e)
          (sym (table_freed n q nl ql) ∙ g);
    aligned = λ n p t nl pl e. k.aligned n p t nl pl (sym (table_freed n p nl pl) ∙ e);
    apart = λ n p t nl pl e.
        let at = sym (table_freed n p nl pl) ∙ e in
        let other = spare.no_table n p t nl pl at in
        let in_use = k.apart n p t nl pl at in ground (arith, other, in_use);
    free_pages = λ b h. elim (ℕ_discrete b pa) [
      | yes same ↦ subst (λ x. (x % 4096 ≡ 0) × (x < 2 ^ 64)) (sym same) page_bounds
      | no other ↦ k.free_pages b (ground (arith, h, other))
    ];
    once = (spare.in_use, k.once);
  }

  pub leaf_freed : (vpn : ℕ) → vpn < width 3 → leaf freed.words root vpn ≡ leaf s.words root vpn
  leaf_freed = leaf_kept root s freed freed_entry

-- Page `vpn` has been unmapped.
pub record Cut (root vpn : ℕ) (do_free : Bool) (s s' : Vm) : Type 0 where
  pub tree : IsTree root s'
  pub leaves :
      (v : ℕ)
      → v < width 3
      → leaf s'.words root v
        ≡ (if v == vpn then cleared (leaf s.words root v) else leaf s.words root v)
  pub free : s'.freelist ≡ given_back do_free (leaf s.words root vpn) s.freelist
  pub tables : (n q : ℕ) → n ≤ 2 → q < width n → table s'.words root n q ≡ table s.words root n q
  pub contents :
      (a : ℕ)
      → (do_free ≡ true
          → is_valid (leaf s.words root vpn) ≡ true
          → in_page (pte2pa (leaf s.words root vpn)) a ≡ false)
      → s'.bytes a ≡ s.bytes a
  pub same_end : s'.place ≡ s.place

no_valid : (a b : Bool) → b ≡ false → (a && b) ≡ false
no_valid a b h = rw h (ground arith)

Cut-none :
    (root vpn : ℕ) (do_free : Bool) (s : Vm)
    → IsTree root s
    → is_valid (leaf s.words root vpn) ≡ false
    → Cut root vpn do_free s s
Cut-none root vpn do_free s k hole = record {
  tree = k;
  leaves = λ v vl. elim (ℕ_discrete v vpn) [
    | yes same ↦
        let c : is_valid (leaf s.words root v) ≡ false =
          ap (λ x. is_valid (leaf s.words root x)) same ∙ hole in
        rw c (ground arith)
    | no other ↦ ground arith
  ];
  free =
      ap (λ c. if c then pte2pa (leaf s.words root vpn) ∷ s.freelist else s.freelist)
        (sym (no_valid do_free (is_valid (leaf s.words root vpn)) hole));
  tables = λ n q nl ql. refl;
  contents = λ a h. refl;
  same_end = refl;
}

-- The entry of page `vpn`, entry `i` of the table `t` under `p`, is cleared after `s` became `s₁`.
cut :
    (root vpn t : ℕ) (do_free : Bool) (s s₁ : Vm)
    → IsTree root s₁
    → vpn < width 3
    → is_valid (leaf s.words root vpn) ≡ true
    → table s₁.words root 2 (vpn / 512) ≡ some t
    → ((v : ℕ) → v < width 3 → leaf s₁.words root v ≡ leaf s.words root v)
    → s₁.freelist ≡ given_back do_free (leaf s.words root vpn) s.freelist
    → ((n q : ℕ) → n ≤ 2 → q < width n → table s₁.words root n q ≡ table s.words root n q)
    → ((a : ℕ)
        → (do_free ≡ true
            → is_valid (leaf s.words root vpn) ≡ true
            → in_page (pte2pa (leaf s.words root vpn)) a ≡ false)
        → s₁.bytes a ≡ s.bytes a)
    → s₁.place ≡ s.place
    → Cut root vpn do_free s (set_word (entry_at t (vpn % 512)) 0 s₁)
cut root vpn t do_free s s₁ k vl valid at leaves free tables contents same_end =
    let near = width_step 2 vpn vl in
    let whole : vpn / 512 * 512 + vpn % 512 ≡ vpn = omega arith in
    record {
      tree = after-IsTree root s₁ k (vpn / 512) t (vpn % 512) 0 near (omega arith) at;
      leaves = λ v l.
          leaf_after root s₁ k (vpn / 512) t (vpn % 512) 0 near (omega arith) at v l
          ∙ rw whole (now_cleared v l);
      free = free;
      tables = λ n q nl ql.
          table_after root s₁ k (vpn / 512) t (vpn % 512) 0 near (omega arith) at n q nl ql
          ∙ tables n q nl ql;
      contents = contents;
      same_end = same_end;
    }
  where
    now_cleared :
        (v : ℕ)
        → v < width 3
        → (if v == vpn then 0 else leaf s₁.words root v)
          ≡ (if v == vpn then cleared (leaf s.words root v) else leaf s.words root v)
    now_cleared v l = elim (ℕ_discrete v vpn) [
      | yes same ↦
          let c : is_valid (leaf s.words root v) ≡ true =
            ap (λ x. is_valid (leaf s.words root x)) same ∙ valid in
          rw c (ground (arith, same))
      | no other ↦ let e = leaves v l in ground (arith, other, e)
    ]

-- What the unmapping of one page comes to.
pub data Cuts (root vpn : ℕ) (do_free : Bool) (s : Vm) : Vr (Unit {0}) → Type 0 where
  cuts :
      {r : Vr (Unit {0})} (s' : Vm)
      → r ≡ fine tt s'
      → Cut root vpn do_free s s'
      → Cuts root vpn do_free s r

unmap_valid :
    (root vpn t : ℕ) (do_free : Bool) (s : Vm)
    → IsTree root s
    → vpn < width 3
    → is_valid (leaf s.words root vpn) ≡ true
    → table s.words root 2 (vpn / 512) ≡ some t
    → (do_free ≡ true → Spare root s (pte2pa (leaf s.words root vpn)))
    → Cuts root vpn do_free s (unmap_entry do_free (some (entry_at t (vpn % 512))) s)
unfolding unmap_entry free_leaf kfree link_page
unmap_valid root vpn t false s k vl valid at spare =
    let here = leaf-some s.words root vpn t at in
    let v : is_valid (s.words (entry_at t (vpn % 512))) ≡ true = sym (ap is_valid here) ∙ valid in
    cuts (set_word (entry_at t (vpn % 512)) 0 s) (rw v refl) (
      cut root vpn t false s s k vl valid at (λ v l. refl) refl (λ n q nl ql. refl) (λ a h. refl)
        refl)
unmap_valid root vpn t true s k vl valid at spare =
    let here = leaf-some s.words root vpn t at in
    let v : is_valid (s.words (entry_at t (vpn % 512))) ≡ true = sym (ap is_valid here) ∙ valid in
    let pa = pte2pa (leaf s.words root vpn) in
    let sp = spare refl in
    let s₁ = freed root s k pa sp in
    let page : can_free s.place (pte2pa (s.words (entry_at t (vpn % 512)))) ≡ true =
      ap (λ e. can_free s.place (pte2pa e)) (sym here) ∙ sp.page in
    cuts (set_word (entry_at t (vpn % 512)) 0 s₁) (rw (v, page, sym here) refl) (
      cut root vpn t true s s₁ (freed-IsTree root s k pa sp) vl valid
        (table_freed root s k pa sp 2 (vpn / 512) (omega arith) (width_step 2 vpn vl) ∙ at)
        (leaf_freed root s k pa sp) (rw valid refl) (table_freed root s k pa sp)
        (λ a h. let out = h refl valid in unfold link_page in rw out refl)
        (unfold link_page in refl))

pub unmap_one :
    (root va : ℕ) (do_free : Bool) (s : Vm)
    → IsTree root s
    → va < maxva
    → (do_free ≡ true
        → is_valid (leaf s.words root (va / 4096)) ≡ true
        → Spare root s (pte2pa (leaf s.words root (va / 4096))))
    → Cuts root (va / 4096) do_free s ((walk root va false >>= unmap_entry do_free) s)
unfolding unmap_entry
unmap_one root va do_free s k lt spare = elim (walk-Walked root va false s k lt) [
  | missing s' e f hole same why ↦
      let at = ap (λ (x : Vm). table x.words root 2 (va / 4096 / 512)) (sym (same refl)) ∙ hole in
      let g = leaf-none s.words root (va / 4096) at in
      cuts s (rw e (ap (fine tt) (same refl)))
        (Cut-none root (va / 4096) do_free s k (ap is_valid g))
  | starved s' e f hole a why ↦ absurd (false≢true a)
  | entry t s' e f h same ↦
      let at = ap (λ (x : Vm). table x.words root 2 (va / 4096 / 512)) (sym (same refl)) ∙ h in
      let g = leaf-some s.words root (va / 4096) t at in
      elim (Bool-cases (is_valid (leaf s.words root (va / 4096)))) [
        | inl v ↦
            subst (Cuts root (va / 4096) do_free s)
              (ap (unmap_entry do_free (some (entry_at t (va / 4096 % 512)))) (sym (same refl))
                ∙ rw e refl)
              (unmap_valid root (va / 4096) t do_free s k (page_number va lt) v at (λ d. spare d v))
        | inr v ↦
            cuts s
              (rw e (
                ap (unmap_entry do_free (some (entry_at t (va / 4096 % 512)))) (same refl)
                ∙ rw (sym (ap is_valid g) ∙ v) refl))
              (Cut-none root (va / 4096) do_free s k v)
      ]
]
