-- ===== src/Vm/Walk.antt =====
-- kernel/vm.c, `walk`: the way down the tree, with and without new tables.
use kus_operating_system_pro.Vm.{
  sleep_or, no_memory, then_do, fill_page, maxva, px, walk, walk_from, V, Vm, Vr, entry_at, fine,
  in_page, is_valid, kalloc, pte2pa, take_page, walk_grow,
}
use kus_operating_system_pro.Shared.{
  ◌≤◌, ltb, ◌^◌, Bool, Bool-cases, List, Option, [], ap, arith, false, if◌then◌else◌, inl, inr,
  is_in, none, not, refl, some, suc, sym, true, ℕ, ◌%◌, ◌*◌, ◌+◌, ◌/◌, ◌<◌, ◌∙◌, ◌∷◌, ◌≡◌, ◌⊎◌,
}
use mathlib.Core.Bool.{true≢false}
use kus_operating_system_pro.Vm.Tree.{IsTree, below, leaf, table, width}
use kus_operating_system_pro.Vm.Grow.{origin_grown, grown, grown-IsTree, grown-table, leaf_grown}
use mathlib.Core.Path.{ap₂}

-- The mappings, and the bytes of all pages that were not free, are as before; pages may have been
-- taken off the free list, for tables.
pub record Same (root : ℕ) (s s' : Vm) : Type 0 where
  pub tree : IsTree root s'
  pub leaves : (vpn : ℕ) → vpn < width 3 → leaf s'.words root vpn ≡ leaf s.words root vpn
  pub taken : (b : ℕ) → is_in b s'.freelist ≡ true → is_in b s.freelist ≡ true
  pub contents :
      (a : ℕ) → ((b : ℕ) → is_in b s.freelist ≡ true → in_page b a ≡ false) → s'.bytes a ≡ s.bytes a
  pub origin :
      (n q t : ℕ)
      → n ≤ 2
      → q < width n
      → table s'.words root n q ≡ some t
      → (table s.words root n q ≡ some t) ⊎ (is_in t s.freelist ≡ true)
  pub same_end : s'.place ≡ s.place

pub Same-none : (root : ℕ) (s : Vm) → IsTree root s → Same root s s
Same-none root s k = record {
  tree = k;
  leaves = λ vpn lt. refl;
  taken = λ b h. h;
  contents = λ a h. refl;
  origin = λ n q t nl ql e. inl e;
  same_end = refl;
}

pub Same-trans : (root : ℕ) (s₁ s₂ s₃ : Vm) → Same root s₁ s₂ → Same root s₂ s₃ → Same root s₁ s₃
Same-trans root s₁ s₂ s₃ f g = record {
  tree = g.tree;
  leaves = λ vpn lt. g.leaves vpn lt ∙ f.leaves vpn lt;
  taken = λ b h. f.taken b (g.taken b h);
  contents = λ a h. g.contents a (λ b i. h b (f.taken b i)) ∙ f.contents a h;
  origin = λ n q t nl ql e. elim (g.origin n q t nl ql e) [
    | inl old ↦ f.origin n q t nl ql old
    | inr new ↦ inr (f.taken t new)
  ];
  same_end = g.same_end ∙ f.same_end;
}

grown-Same :
    (root : ℕ) (s : Vm) (k : IsTree root s) (m p t i b : ℕ) (rest : List ℕ) (ml : m < 2)
    (pl : p < width m) (il : i < 512) (at : table s.words root m p ≡ some t)
    (hole : is_valid (s.words (entry_at t i)) ≡ false) (free : s.freelist ≡ b ∷ rest)
    → Same root s (grown root s k m p t i b rest ml pl il at hole free)
unfolding fill_page is_in
grown-Same root s k m p t i b rest ml pl il at hole free = record {
  tree = grown-IsTree root s k m p t i b rest ml pl il at hole free;
  leaves = leaf_grown root s k m p t i b rest ml pl il at hole free;
  taken = λ x h. ap (is_in x) free ∙ ground (arith, h);
  contents = λ a h. let out = h b (ap (is_in b) free ∙ ground arith) in ground (arith, out);
  origin = origin_grown root s k m p t i b rest ml pl il at hole free;
  same_end = refl;
}

-- What one round of `walk` comes to, at entry `i` of a table under `p`: the rest of the walk in the
-- next table, or the null pointer.
data Stepped (root m p i : ℕ) (alloc : Bool) (rest : ℕ → V (Option ℕ)) (s : Vm)
    : Vr (Option ℕ) → Type 0 where
  down :
      {r : Vr (Option ℕ)} (t : ℕ) (s' : Vm)
      → r ≡ rest t s'
      → Same root s s'
      → table s'.words root (suc m) (p * 512 + i) ≡ some t
      → (alloc ≡ false → s' ≡ s)
      → Stepped root m p i alloc rest s r
  stuck :
      {r : Vr (Option ℕ)}
      → r ≡ fine none s
      → table s.words root (suc m) (p * 512 + i) ≡ none
      → alloc ≡ false
      → Stepped root m p i alloc rest s r
  empty_handed :
      {r : Vr (Option ℕ)}
      → r ≡ no_memory none s
      → table s.words root (suc m) (p * 512 + i) ≡ none
      → alloc ≡ true
      → s.freelist ≡ []
      → Stepped root m p i alloc rest s r

pub no_memory-then :
    {A B : Type 0} (a : A) (b : B) (s : Vm) (f : A → V B)
    → f a s ≡ fine b s
    → then_do (no_memory a s) f ≡ no_memory b s
no_memory-then {A} {B} a b s f e = by_test s.place.has_proc
  where
    by_test : (c : Bool) → then_do (sleep_or c a s) f ≡ sleep_or c b s
    by_test true = refl
    by_test false = e

-- A round of the loop.
abbrev round : ℕ → Bool → (ℕ → V (Option ℕ)) → V (Option ℕ)
round pte alloc rest s =
    if is_valid (s.words pte)
    then rest (pte2pa (s.words pte)) s
    else if not alloc
    then fine none s
    else then_do (kalloc s) (walk_grow pte rest)

table_entry :
    (w : ℕ → ℕ) (root m p t i : ℕ)
    → i < 512
    → table w root m p ≡ some t
    → table w root (suc m) (p * 512 + i) ≡ below w (some t) i
unfolding table
table_entry w root m p t i il at =
    let q : (p * 512 + i) / 512 ≡ p = omega arith in
    let r : (p * 512 + i) % 512 ≡ i = omega arith in ap₂ (below w) (ap (table w root m) q ∙ at) r

round-Stepped :
    (root : ℕ) (s : Vm) (m p t i : ℕ) (alloc : Bool) (rest : ℕ → V (Option ℕ))
    → IsTree root s
    → m < 2
    → p < width m
    → i < 512
    → table s.words root m p ≡ some t
    → Stepped root m p i alloc rest s (round (entry_at t i) alloc rest s)
unfolding walk_grow kalloc take_page
round-Stepped root s m p t i alloc rest k ml pl il at =
    let next = table_entry s.words root m p t i il at in
    elim (Bool-cases (is_valid (s.words (entry_at t i)))) [
      | inl v ↦
          down (pte2pa (s.words (entry_at t i))) s (rw v refl) (Same-none root s k)
            (next ∙ rw v refl) (λ _. refl)
      | inr v ↦ elim (Bool-cases alloc) [
        | inr no_alloc ↦ stuck (rw (v, no_alloc) refl) (next ∙ rw v refl) no_alloc
        | inl yes_alloc ↦ by_free s.freelist refl (next ∙ rw v refl) v yes_alloc
      ]
    ]
  where
    by_free :
        (f : List ℕ)
        → s.freelist ≡ f
        → table s.words root (suc m) (p * 512 + i) ≡ none
        → is_valid (s.words (entry_at t i)) ≡ false
        → alloc ≡ true
        → Stepped root m p i alloc rest s (round (entry_at t i) alloc rest s)
    by_free [] none' hole v a =
        empty_handed
          (rw (v, a)
            (ap (λ l. then_do (take_page l s) (walk_grow (entry_at t i) rest)) none'
              ∙ no_memory-then none none s (walk_grow (entry_at t i) rest) refl))
          hole a none'
    by_free (b ∷ f) some' hole v a =
        down b (grown root s k m p t i b f ml pl il at v some') (rw (v, a, some') refl)
          (grown-Same root s k m p t i b f ml pl il at v some')
          (grown-table root s k m p t i b f ml pl il at v some')
          (λ x. absurd (true≢false (sym a ∙ x)))

-- What `walk` to the page of `va` comes to: the address of its entry, or the null pointer.
pub data Walked (root va : ℕ) (alloc : Bool) (s : Vm) : Vr (Option ℕ) → Type 0 where
  entry :
      {r : Vr (Option ℕ)} (t : ℕ) (s' : Vm)
      → r ≡ fine (some (entry_at t (va / 4096 % 512))) s'
      → Same root s s'
      → table s'.words root 2 (va / 4096 / 512) ≡ some t
      → (alloc ≡ false → s' ≡ s)
      → Walked root va alloc s r
  missing :
      {r : Vr (Option ℕ)} (s' : Vm)
      → r ≡ fine none s'
      → Same root s s'
      → table s'.words root 2 (va / 4096 / 512) ≡ none
      → (alloc ≡ false → s' ≡ s)
      → alloc ≡ false
      → Walked root va alloc s r
  starved :
      {r : Vr (Option ℕ)} (s' : Vm)
      → r ≡ no_memory none s'
      → Same root s s'
      → table s'.words root 2 (va / 4096 / 512) ≡ none
      → alloc ≡ true
      → s'.freelist ≡ []
      → Walked root va alloc s r

-- The last two rounds, in the table for the upper part of the page number.
walk_from-Walked :
    (root va t : ℕ) (alloc : Bool) (s : Vm)
    → IsTree root s
    → va < maxva
    → table s.words root 1 (va / 2 ^ 30) ≡ some t
    → Walked root va alloc s (walk_from 1 t va alloc s)
unfolding walk_from width
walk_from-Walked root va t alloc s k lt at =
    let p : va / 2 ^ 30 * 512 + px 1 va ≡ va / 4096 / 512 = omega arith in
    elim (round-Stepped root s 1 (va / 2 ^ 30) t (px 1 va) alloc (λ u. walk_from 0 u va alloc) k
      (omega arith) (omega arith) (omega arith) at) [
        | down u s' e f g same ↦ entry u s' e f (sym (ap (table s'.words root 2) p) ∙ g) same
        | stuck e hole why ↦
            missing s e (Same-none root s k) (sym (ap (table s.words root 2) p) ∙ hole) (λ _. refl)
              why
        | empty_handed e hole a none' ↦
            starved s e (Same-none root s k) (sym (ap (table s.words root 2) p) ∙ hole) a none'
      ]

Walked-after :
    (root va : ℕ) (alloc : Bool) (s s' : Vm) (r r' : Vr (Option ℕ))
    → r ≡ r'
    → Same root s s'
    → (alloc ≡ false → s' ≡ s)
    → Walked root va alloc s' r'
    → Walked root va alloc s r
Walked-after root va alloc s s' r r' e f same (entry t s'' g h at same') =
    entry t s'' (e ∙ g) (Same-trans root s s' s'' f h) at (λ n. same' n ∙ same n)
Walked-after root va alloc s s' r r' e f same (missing s'' g h hole same' why) =
    missing s'' (e ∙ g) (Same-trans root s s' s'' f h) hole (λ n. same' n ∙ same n) why
Walked-after root va alloc s s' r r' e f same (starved s'' g h hole a none') =
    starved s'' (e ∙ g) (Same-trans root s s' s'' f h) hole a none'

table_hole :
    (w : ℕ → ℕ) (root m p i : ℕ)
    → i < 512
    → table w root m p ≡ none
    → table w root (suc m) (p * 512 + i) ≡ none
unfolding table
table_hole w root m p i il at =
    let q : (p * 512 + i) / 512 ≡ p = omega arith in
    ap (λ o. below w o ((p * 512 + i) % 512)) (ap (table w root m) q ∙ at)

pub walk-Walked :
    (root va : ℕ) (alloc : Bool) (s : Vm)
    → IsTree root s
    → va < maxva
    → Walked root va alloc s (walk root va alloc s)
unfolding walk walk_from width
walk-Walked root va alloc s k lt =
    let t : ltb va maxva ≡ true = ground arith in
    let top : 0 * 512 + px 2 va ≡ va / 2 ^ 30 = omega arith in
    rw t
      (elim (round-Stepped root s 0 0 root (px 2 va) alloc (λ u. walk_from 1 u va alloc) k
        (omega arith) (omega arith) (omega arith) (unfold table in refl)) [
          | down u s' e f g same ↦
              Walked-after root va alloc s s' _ (walk_from 1 u va alloc s') e f same (
                walk_from-Walked root va u alloc s' f.tree lt
                  (sym (ap (table s'.words root 1) top) ∙ g))
          | stuck e hole why ↦ missing s e (Same-none root s k) (no_lower hole) (λ _. refl) why
          | empty_handed e hole a none' ↦ starved s e (Same-none root s k) (no_lower hole) a none'
        ])
  where
    no_lower :
        table s.words root 1 (0 * 512 + px 2 va) ≡ none
        → table s.words root 2 (va / 4096 / 512) ≡ none
    no_lower hole =
        let top : 0 * 512 + px 2 va ≡ va / 2 ^ 30 = omega arith in
        let both : va / 2 ^ 30 * 512 + px 1 va ≡ va / 4096 / 512 = omega arith in
        sym (ap (table s.words root 2) both)
        ∙ table_hole s.words root 1 (va / 2 ^ 30) (px 1 va) (omega arith)
            (sym (ap (table s.words root 1) top) ∙ hole)
