-- ===== src/Vm/Fresh.antt =====
-- kernel/vm.c: a page is taken for the user and cleared.
use kus_operating_system_pro.Vm.Quiet.{leaf_kept, table_kept}
use kus_operating_system_pro.Vm.{Vm, entry_at, fill_page, in_page}
use kus_operating_system_pro.Vm.Tree.{IsTree, Once, entry-not_free, leaf, table, width}
use kus_operating_system_pro.Shared.{
  Bool-cases, List, ap, arith, false, inl, inr, is_in, refl, some, sym, true, ℕ, ◌<◌, ◌∙◌, ◌∷◌, ◌≡◌,
  ◌≢◌, ◌≤◌,
}
use mathlib.Core.Path.{subst}
use mathlib.Core.Bool.{true≢false}

-- `b` is the first free page; it is taken and cleared.
module _ (root : ℕ) (s : Vm) (k : IsTree root s) (b : ℕ) (rest : List ℕ)
    (free : s.freelist ≡ b ∷ rest) where
  abbrev pub fresh : Vm
  fresh = fill_page b 0 (fill_page b 5 (record s { freelist = rest }))

  pub fresh_free : is_in b s.freelist ≡ true
  unfolding is_in
  fresh_free = rw free (ground arith)

  rest_free : (x : ℕ) → is_in x s.freelist ≡ false → is_in x rest ≡ false
  unfolding is_in
  rest_free x h = let g = sym (ap (is_in x) free) ∙ h in ground (arith, g)

  pub still_free : (x : ℕ) → is_in x rest ≡ true → is_in x s.freelist ≡ true
  still_free x h = elim (Bool-cases (is_in x s.freelist)) [
    | inl c ↦ c
    | inr c ↦ absurd (true≢false (sym h ∙ rest_free x c))
  ]

  fresh_entry :
      (n q u j : ℕ)
      → n ≤ 2
      → q < width n
      → j < 512
      → table s.words root n q ≡ some u
      → fresh.words (entry_at u j) ≡ s.words (entry_at u j)
  unfolding fill_page
  fresh_entry n q u j nl ql jl e =
      let out = entry-not_free root s k n q u j b nl ql jl e fresh_free in rw out refl

  pub table_fresh :
      (n q : ℕ) → n ≤ 2 → q < width n → table fresh.words root n q ≡ table s.words root n q
  table_fresh = table_kept root s fresh fresh_entry

  pub leaf_fresh : (vpn : ℕ) → vpn < width 3 → leaf fresh.words root vpn ≡ leaf s.words root vpn
  leaf_fresh = leaf_kept root s fresh fresh_entry

  free-Once : Once (b ∷ rest)
  free-Once = subst Once free k.once

  pub fresh-IsTree : IsTree root fresh
  unfolding fill_page
  fresh-IsTree = record {
    distinct = λ m n p q t ml nl pl ql e g.
        k.distinct m n p q t ml nl pl ql (sym (table_fresh m p ml pl) ∙ e)
          (sym (table_fresh n q nl ql) ∙ g);
    aligned = λ n p t nl pl e. k.aligned n p t nl pl (sym (table_fresh n p nl pl) ∙ e);
    apart = λ n p t nl pl e. rest_free t (k.apart n p t nl pl (sym (table_fresh n p nl pl) ∙ e));
    free_pages = λ x h. k.free_pages x (still_free x h);
    once = free-Once.1;
  }

  -- The page is no table, and no table is made of it.
  pub fresh_no_table :
      (n q t : ℕ) → n ≤ 2 → q < width n → table fresh.words root n q ≡ some t → t ≢ b
  fresh_no_table n q t nl ql e same = true≢false (
      sym fresh_free
      ∙ ap (λ x. is_in x s.freelist) (sym same)
      ∙ k.apart n q t nl ql (sym (table_fresh n q nl ql) ∙ e))

  pub fresh_taken : is_in b rest ≡ false
  fresh_taken = free-Once.0

  -- The bytes of the page, and those of pages that were in use.
  pub fresh_zero : (a : ℕ) → in_page b a ≡ true → fresh.bytes a ≡ 0
  unfolding fill_page
  fresh_zero a h = rw h refl

  pub fresh_other : (a : ℕ) → in_page b a ≡ false → fresh.bytes a ≡ s.bytes a
  unfolding fill_page
  fresh_other a h = rw h refl
