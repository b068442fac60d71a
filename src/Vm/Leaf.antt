-- ===== src/Vm/Leaf.antt =====
-- kernel/vm.c: an entry of the lowest tables is set; the tree stays as it is.
use kus_operating_system_pro.Vm.{Vm, entry_at, set_word}
use kus_operating_system_pro.Shared.{
  Bool, Bool-cases, false, inl, inr, none-some, true, Option, ap, arith, if◌then◌else◌, is_in, none,
  refl, some, suc, sym, zero, ℕ, ◌%◌, ◌&&◌, ◌*◌, ◌+◌, ◌/◌, ◌<◌, ◌==◌, ◌∙◌, ◌≡◌, ◌≤◌,
}
use kus_operating_system_pro.Vm.Tree.{
  Once, IsTree, entry-injective, entry_of, leaf, table, below, width, width_step,
}
use native.Mathlib.Decide.{ℕ_discrete}
use mathlib.Core.Path.{subst, ap₂}

-- Words that keep the entries of the upper tables keep the tree.
pub table-same :
    (w w' : ℕ → ℕ) (root : ℕ)
    → ((n q t j : ℕ)
        → n < 2
        → q < width n
        → j < 512
        → table w root n q ≡ some t
        → w' (entry_at t j) ≡ w (entry_at t j))
    → (n q : ℕ) → n ≤ 2
    → q < width n
    → table w' root n q ≡ table w root n q
unfolding table
table-same w w' root same zero q nl ql = refl
table-same w w' root same (suc n) q nl ql =
    ap (λ o. below w' o (q % 512))
      (table-same w w' root same n (q / 512) (omega arith) (width_step n q ql))
    ∙ below-same (table w root n (q / 512)) refl
  where
    below-same :
        (o : Option ℕ) → table w root n (q / 512) ≡ o → below w' o (q % 512) ≡ below w o (q % 512)
    below-same none e = refl
    below-same (some t) e =
        rw (same n (q / 512) t (q % 512) (omega arith) (width_step n q ql) (omega arith) e) refl

-- The same tables and free pages make the same tree.
pub IsTree-same :
    (root : ℕ) (s s' : Vm)
    → IsTree root s
    → s'.freelist ≡ s.freelist
    → ((n q : ℕ) → n ≤ 2 → q < width n → table s'.words root n q ≡ table s.words root n q)
    → IsTree root s'
IsTree-same root s s' k free same = record {
  distinct = λ m n p q t ml nl pl ql e g.
      k.distinct m n p q t ml nl pl ql (sym (same m p ml pl) ∙ e) (sym (same n q nl ql) ∙ g);
  aligned = λ n p t nl pl e. k.aligned n p t nl pl (sym (same n p nl pl) ∙ e);
  apart = λ n p t nl pl e. ap (is_in t) free ∙ k.apart n p t nl pl (sym (same n p nl pl) ∙ e);
  free_pages = λ b h. k.free_pages b (sym (ap (is_in b) free) ∙ h);
  once = subst Once (sym free) k.once;
}

-- Entry `i` of a lowest table is set to `v`.
module _ (root : ℕ) (s : Vm) (k : IsTree root s) (p t i v : ℕ) (pl : p < width 2) (il : i < 512)
    (at : table s.words root 2 p ≡ some t) where
  abbrev after : Vm
  after = set_word (entry_at t i) v s

  entry_after :
      (n q u j : ℕ)
      → n ≤ 2
      → q < width n
      → j < 512
      → table s.words root n q ≡ some u
      → after.words (entry_at u j)
        ≡ (if (n == 2) && (q == p) && (j == i) then v else s.words (entry_at u j))
  entry_after n q u j nl ql jl e = elim (ℕ_discrete (entry_at u j) (entry_at t i)) [
    | yes same ↦
        let (x, y, z) =
          entry-injective root s k n 2 q p u t j i nl (omega arith) ql pl jl il e at same in
        let here : (entry_at u j == entry_at t i) ≡ true = ground (arith, same) in
        let chosen : ((n == 2) && (q == p) && (j == i)) ≡ true = ground (arith, x, y, z) in
        rw (here, chosen) refl
    | no apart ↦
        let here : (entry_at u j == entry_at t i) ≡ false = ground (arith, apart) in
        elim (Bool-cases ((n == 2) && (q == p) && (j == i))) [
          | inr other ↦ rw (here, other) refl
          | inl chosen ↦
              let x : n ≡ 2 = ground (arith, chosen) in
              let y : q ≡ p = ground (arith, chosen) in
              let z : j ≡ i = ground (arith, chosen) in
              let one : some u ≡ some t = sym e ∙ ap₂ (table s.words root) x y ∙ at in
              let page : u ≡ t = cc in absurd (apart (ap₂ (λ (a b : ℕ). entry_at a b) page z))
        ]
  ]

  pub table_after :
      (n q : ℕ) → n ≤ 2 → q < width n → table after.words root n q ≡ table s.words root n q
  table_after =
      table-same s.words after.words root
        (λ n q u j nl ql jl e. entry_after n q u j (omega arith) ql jl e ∙ ground arith)

  pub after-IsTree : IsTree root after
  after-IsTree = IsTree-same root s after k refl table_after

  pub leaf_after :
      (vpn : ℕ)
      → vpn < width 3
      → leaf after.words root vpn ≡ (if vpn == p * 512 + i then v else leaf s.words root vpn)
  unfolding leaf
  leaf_after vpn vl =
      ap (λ o. entry_of after.words o (vpn % 512)) (table_after 2 (vpn / 512) (omega arith) near)
      ∙ by_table (table s.words root 2 (vpn / 512)) refl
    where
      near : vpn / 512 < width 2
      near = width_step 2 vpn vl

      by_table :
          (o : Option ℕ)
          → table s.words root 2 (vpn / 512) ≡ o
          → entry_of after.words o (vpn % 512)
            ≡ (if vpn == p * 512 + i then v else entry_of s.words o (vpn % 512))
      by_table none e = elim (ℕ_discrete vpn (p * 512 + i)) [
        | yes same ↦
            let q : vpn / 512 ≡ p = omega arith in
            absurd (none-some (sym e ∙ ap (table s.words root 2) q ∙ at))
        | no other ↦ let c : (vpn == p * 512 + i) ≡ false = ground arith in rw c refl
      ]
      by_table (some u) e =
          entry_after 2 (vpn / 512) u (vpn % 512) (omega arith) near (omega arith) e
          ∙ ap (λ (c : Bool). if c then v else s.words (entry_at u (vpn % 512))) (ground arith)
