-- ===== src/Vm/Fault.antt =====
-- kernel/vm.c, `vmfault`: a page of the process that was not there yet.
use kus_operating_system_pro.Vm.{
  Place, can_free, link_page, stalls, Vm, Vr, fill_page, fine, in_page, pa2pte, pte_r, pte_u, pte_w,
  with_v,
}
use kus_operating_system_pro.Vm.Pages.{with_pages}
use kus_operating_system_pro.Vm.Map.{Remapped, with_entry}
use kus_operating_system_pro.Vm.Tree.{IsTree, leaf}
use kus_operating_system_pro.Vm.Fresh.{
  fresh, fresh-IsTree, fresh_free, fresh_no_table, fresh_other, fresh_taken, fresh_zero, leaf_fresh,
  still_free, table_fresh,
}
use kus_operating_system_pro.Vm.Unmap.{Spare, freed, freed-IsTree, leaf_freed, table_freed}
use kus_operating_system_pro.Shared.{
  Bool, Bool-cases, leb, ltb, ◌&&◌, ◌^◌, ◌<◌, List, [], ap, arith, false, inl, inr, is_in, refl,
  sym, true, ℕ, ◌%◌, ◌+◌, ◌∙◌, ◌∷◌, ◌≡◌, ◌≢◌,
}
use kus_operating_system_pro.Kalloc.{is_page}
use mathlib.Core.Bool.{true≢false}
use native.Mathlib.Decide.{ℕ_discrete}

-- What `vmfault` comes to: the page is mapped to a cleared page that was free, or there is no page left, where
-- code outside of a process gives up and a process goes to sleep.
pub data Faulted (root vpn : ℕ) (s : Vm) : Vr ℕ → Type 0 where
  brought_in :
      {r : Vr ℕ} (pa : ℕ) (s' : Vm)
      → r ≡ fine pa s'
      → is_in pa s.freelist ≡ true
      → Remapped root s s'
          (with_entry vpn (pa2pte pa + with_v (pte_w + pte_u + pte_r)) (leaf s.words root))
      → ((a : ℕ) → in_page pa a ≡ true → s'.bytes a ≡ 0)
      → Faulted root vpn s r
  refused :
      {r : Vr ℕ} (s' : Vm)
      → r ≡ fine 0 s'
      → Remapped root s s' (leaf s.words root)
      → ((b c : ℕ) → is_in b s'.freelist ≡ true → is_in c s'.freelist ≡ true → b ≡ c)
      → s'.place.has_proc ≡ false
      → Faulted root vpn s r
  sleeps :
      {r : Vr ℕ} (s' : Vm)
      → r ≡ stalls s'
      → Remapped root s s' (leaf s.words root)
      → s'.freelist ≡ []
      → s'.place.has_proc ≡ true
      → Faulted root vpn s r

-- Free pages are such as `kfree` takes.
abbrev pub IsStock : Vm → Type 0
IsStock s = (b : ℕ) → is_in b s.freelist ≡ true → can_free s.place b ≡ true

-- Pages do not overlap.
pub pages_apart :
    (b c a : ℕ) → b % 4096 ≡ 0 → c % 4096 ≡ 0 → b ≢ c → in_page c a ≡ true → in_page b a ≡ false
pages_apart b c a bl cl other inside = ground (arith, bl, cl, other, inside)

pub one_page :
    (first pa perm : ℕ) (g h : ℕ → ℕ) (vpn : ℕ)
    → g vpn ≡ h vpn
    → with_pages 1 first pa perm g vpn ≡ with_entry first (pa2pte pa + with_v perm) h vpn
one_page first pa perm g h vpn e = elim (ℕ_discrete vpn first) [
  | yes same ↦ ground arith
  | no other ↦ ground (arith, e)
]

pub no_pages :
    (m first pa perm : ℕ) (g : ℕ → ℕ) (vpn : ℕ) → m ≡ 0 → with_pages m first pa perm g vpn ≡ g vpn
no_pages m first pa perm g vpn e =
    let c : (leb first vpn && ltb vpn (first + m)) ≡ false = ground (arith, e) in rw c refl

pub page_end : (e : Place) (b : ℕ) → can_free e b ≡ true → b + 4096 < 2 ^ 64
unfolding is_page
page_end e b p = ground (arith, p)

pub only : (b c : ℕ) (free : List ℕ) → free ≡ [] → is_in c (b ∷ free) ≡ true → c ≡ b
unfolding is_in
only b c free e h =
    let g : is_in c (b ∷ []) ≡ true = sym (ap (λ l. is_in c (b ∷ l)) e) ∙ h in ground (arith, g)

module _ (root va : ℕ) (s : Vm) (k : IsTree root s) (stock : IsStock s) (b : ℕ) (rest : List ℕ)
    (free : s.freelist ≡ b ∷ rest) where
  abbrev pub start : Vm
  start = fresh root s k b rest free

  pub Remapped-fresh : Remapped root s start (leaf s.words root)
  unfolding fill_page
  Remapped-fresh = record {
    tree = fresh-IsTree root s k b rest free;
    leaves = leaf_fresh root s k b rest free;
    taken = still_free root s k b rest free;
    contents = λ a h. fresh_other root s k b rest free a (h b (fresh_free root s k b rest free));
    origin = λ n q t nl ql e. inl (sym (table_fresh root s k b rest free n q nl ql) ∙ e);
    same_end = refl;
  }

  -- What is left of the page once it is mapped.
  pub still_zero :
      (s' : Vm) (g : ℕ → ℕ)
      → Remapped root start s' g
      → (a : ℕ) → in_page b a ≡ true
      → s'.bytes a ≡ 0
  unfolding fill_page
  still_zero s' g f a inside =
      f.contents a (λ c in_rest.
        pages_apart c b a ((k.free_pages c (still_free root s k b rest free c in_rest)).0)
          ((k.free_pages b (fresh_free root s k b rest free)).0)
          (λ same.
            true≢false
              (sym in_rest ∙ ap (λ x. is_in x rest) same ∙ fresh_taken root s k b rest free))
          inside)
      ∙ fresh_zero root s k b rest free a inside

  -- The page may be given back.
  pub Spare-again : (s' : Vm) (g : ℕ → ℕ) → Remapped root start s' g → Spare root s' b
  unfolding fill_page is_in
  Spare-again s' g f = record {
    page = ap (λ x. can_free x b) f.same_end ∙ stock b (fresh_free root s k b rest free);
    in_use = elim (Bool-cases (is_in b s'.freelist)) [
      | inr c ↦ c
      | inl c ↦ absurd (true≢false (sym (f.taken b c) ∙ fresh_taken root s k b rest free))
    ];
    no_table = λ n q t nl ql e same. elim (f.origin n q t nl ql e) [
      | inl old ↦ fresh_no_table root s k b rest free n q t nl ql old same
      | inr new ↦
          true≢false (sym new ∙ ap (λ x. is_in x rest) same ∙ fresh_taken root s k b rest free)
    ];
  }

  pub Remapped-freed :
      (s' : Vm) (g : ℕ → ℕ) (f : Remapped root s s' g) (spare : Spare root s' b)
      → Remapped root s (freed root s' f.tree b spare) g
  unfolding link_page is_in
  Remapped-freed s' g f spare = record {
    tree = freed-IsTree root s' f.tree b spare;
    leaves = λ vpn vl. leaf_freed root s' f.tree b spare vpn vl ∙ f.leaves vpn vl;
    taken = λ c h. elim (ℕ_discrete c b) [
      | yes same ↦ ap (λ x. is_in x s.freelist) same ∙ fresh_free root s k b rest free
      | no other ↦ f.taken c (after_free c h other)
    ];
    contents = λ a h. let out = h b (fresh_free root s k b rest free) in rw out (f.contents a h);
    origin = λ n q t nl ql e.
        f.origin n q t nl ql (sym (table_freed root s' f.tree b spare n q nl ql) ∙ e);
    same_end = f.same_end;
  }
    where
      after_free : (c : ℕ) → is_in c (b ∷ s'.freelist) ≡ true → c ≢ b → is_in c s'.freelist ≡ true
      after_free c h other = ground (arith, h, other)
