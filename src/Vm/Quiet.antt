-- ===== src/Vm/Quiet.antt =====
-- kernel/vm.c: a step that writes to no table.
use kus_operating_system_pro.Vm.{Vm, entry_at}
use kus_operating_system_pro.Vm.Tree.{entry_of, leaf, table, width, width_step}
use kus_operating_system_pro.Vm.Leaf.{table-same}
use kus_operating_system_pro.Shared.{
  Option, ap, arith, none, refl, some, ℕ, ◌%◌, ◌/◌, ◌<◌, ◌∙◌, ◌≡◌, ◌≤◌,
}

module _ (root : ℕ) (s s' : Vm)
    (same : (n q t j : ℕ)
      → n ≤ 2
      → q < width n
      → j < 512
      → table s.words root n q ≡ some t
      → s'.words (entry_at t j) ≡ s.words (entry_at t j)) where
  pub table_kept :
      (n q : ℕ) → n ≤ 2 → q < width n → table s'.words root n q ≡ table s.words root n q
  table_kept =
      table-same s.words s'.words root (λ n q t j nl ql jl e. same n q t j (omega arith) ql jl e)

  pub leaf_kept : (vpn : ℕ) → vpn < width 3 → leaf s'.words root vpn ≡ leaf s.words root vpn
  unfolding leaf
  leaf_kept vpn vl =
      ap (λ o. entry_of s'.words o (vpn % 512))
        (table_kept 2 (vpn / 512) (omega arith) (width_step 2 vpn vl))
      ∙ by_table (table s.words root 2 (vpn / 512)) refl
    where
      by_table :
          (o : Option ℕ)
          → table s.words root 2 (vpn / 512) ≡ o
          → entry_of s'.words o (vpn % 512) ≡ entry_of s.words o (vpn % 512)
      by_table none e = refl
      by_table (some u) e =
          same 2 (vpn / 512) u (vpn % 512) (omega arith) (width_step 2 vpn vl) (omega arith) e
