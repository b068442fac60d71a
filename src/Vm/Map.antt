-- ===== src/Vm/Map.antt =====
-- kernel/vm.c, `walkaddr`, `ismapped` and `mappages`: a page table as a map from page numbers.
use kus_operating_system_pro.Vm.Walk.{no_memory-then}
use kus_operating_system_pro.Shared.{
  ◌≤◌, ◌⊎◌, Bool-cases, Bool, [], ap, arith, false, if◌then◌else◌, inl, inr, is_in, ltb, none, refl,
  some, sym, true, ℕ, ◌%◌, ◌&&◌, ◌*◌, ◌+◌, ◌/◌, ◌<◌, ◌==◌, ◌∙◌, ◌≡◌,
}
use kus_operating_system_pro.Vm.{
  no_memory, then_do, Vm, Vr, entry_at, fine, in_page, is_entry_valid, is_user, is_valid, ismapped,
  map_entry, maxva, pa2pte, pte2pa, set_word, user_page, walk, walkaddr, with_v, ◌>>=◌,
}
use mathlib.Core.Bool.{true≢false, false≢true}
use kus_operating_system_pro.Vm.Tree.{IsTree, entry_of, leaf, table, width, width_step}
use kus_operating_system_pro.Vm.Leaf.{table_after, after-IsTree, leaf_after}
use kus_operating_system_pro.Vm.Walk.{starved, Same, entry, missing, walk-Walked}
use native.Mathlib.Decide.{dec_lt}

pub leaf-some :
    (w : ℕ → ℕ) (root vpn t : ℕ)
    → table w root 2 (vpn / 512) ≡ some t
    → leaf w root vpn ≡ w (entry_at t (vpn % 512))
unfolding leaf
leaf-some w root vpn t e = ap (λ o. entry_of w o (vpn % 512)) e

pub leaf-none : (w : ℕ → ℕ) (root vpn : ℕ) → table w root 2 (vpn / 512) ≡ none → leaf w root vpn ≡ 0
unfolding leaf
leaf-none w root vpn e = ap (λ o. entry_of w o (vpn % 512)) e

pub page_number : (va : ℕ) → va < maxva → va / 4096 < width 3
unfolding width
page_number va lt = omega arith

-- The page that a user reaches by an entry, 0 for none.
abbrev pub user_pa : ℕ → ℕ
user_pa e = if is_valid e && is_user e then pte2pa e else 0

user_page-user_pa : (s : Vm) (pte : ℕ) → user_page (some pte) s ≡ fine (user_pa (s.words pte)) s
unfolding user_page
user_page-user_pa s pte = elim (Bool-cases (is_valid (s.words pte) && is_user (s.words pte))) [
  | inl c ↦ rw c refl
  | inr c ↦ rw c refl
]

-- `walkaddr` is the lookup in the map, and changes nothing.
pub walkaddr-leaf :
    (root va : ℕ) (s : Vm)
    → IsTree root s
    → walkaddr root va s
      ≡ fine (if ltb va maxva then user_pa (leaf s.words root (va / 4096)) else 0) s
unfolding walkaddr user_page
walkaddr-leaf root va s k = elim (dec_lt va maxva) [
  | no beyond ↦ let t : ltb va maxva ≡ false = ground arith in rw t refl
  | yes lt ↦
      let t : ltb va maxva ≡ true = ground arith in
      rw t (elim (walk-Walked root va false s k lt) [
        | missing s' e f hole same why ↦
            let g =
              leaf-none s.words root (va / 4096) (
                ap (λ (x : Vm). table x.words root 2 (va / 4096 / 512)) (sym (same refl)) ∙ hole) in
            rw (e, g) (ap (fine 0) (same refl))
        | starved s' e f hole a why ↦ absurd (false≢true a)
        | entry u s' e f at same ↦
            let g =
              leaf-some s.words root (va / 4096) u
                (ap (λ (x : Vm). table x.words root 2 (va / 4096 / 512)) (sym (same refl)) ∙ at) in
            rw (e, g)
              (ap (user_page (some (entry_at u (va / 4096 % 512)))) (same refl)
                ∙ user_page-user_pa s (entry_at u (va / 4096 % 512)))
      ])
]

pub ismapped-leaf :
    (root va : ℕ) (s : Vm)
    → IsTree root s
    → va < maxva
    → ismapped root va s ≡ fine (is_valid (leaf s.words root (va / 4096))) s
unfolding ismapped is_entry_valid
ismapped-leaf root va s k lt = elim (walk-Walked root va false s k lt) [
  | missing s' e f hole same why ↦
      let g =
        leaf-none s.words root (va / 4096)
          (ap (λ (x : Vm). table x.words root 2 (va / 4096 / 512)) (sym (same refl)) ∙ hole) in
      rw (e, g) (ap (fine false) (same refl))
  | starved s' e f hole a why ↦ absurd (false≢true a)
  | entry u s' e f at same ↦
      let g =
        leaf-some s.words root (va / 4096) u
          (ap (λ (x : Vm). table x.words root 2 (va / 4096 / 512)) (sym (same refl)) ∙ at) in
      rw (e, g)
        (ap (λ (x : Vm). fine (is_valid (x.words (entry_at u (va / 4096 % 512)))) x) (same refl))
]

-- The leaves have become `g`; nothing else has changed but what new tables take.
pub record Remapped (root : ℕ) (s s' : Vm) (g : ℕ → ℕ) : Type 0 where
  pub tree : IsTree root s'
  pub leaves : (vpn : ℕ) → vpn < width 3 → leaf s'.words root vpn ≡ g vpn
  pub taken : (b : ℕ) → is_in b s'.freelist ≡ true → is_in b s.freelist ≡ true
  pub contents :
      (a : ℕ) → ((b : ℕ) → is_in b s.freelist ≡ true → in_page b a ≡ false) → s'.bytes a ≡ s.bytes a
  pub origin :
      (n q t : ℕ)
      → n ≤ 2
      → q < width n
      → table s'.words root n q ≡ some t
      → (table s.words root n q ≡ some t) ⊎ (is_in t s.freelist ≡ true)
  pub same_end : s'.place ≡ s.place

pub Remapped-Same : (root : ℕ) (s s' : Vm) → Same root s s' → Remapped root s s' (leaf s.words root)
Remapped-Same root s s' f = record {
  tree = f.tree;
  leaves = f.leaves;
  taken = f.taken;
  contents = f.contents;
  origin = f.origin;
  same_end = f.same_end;
}

pub Remapped-trans :
    (root : ℕ) (s₁ s₂ s₃ : Vm) (g h : ℕ → ℕ)
    → Remapped root s₁ s₂ g
    → Remapped root s₂ s₃ h
    → Remapped root s₁ s₃ h
Remapped-trans root s₁ s₂ s₃ g h p q = record {
  tree = q.tree;
  leaves = q.leaves;
  taken = λ b i. p.taken b (q.taken b i);
  contents = λ a i. q.contents a (λ b j. i b (p.taken b j)) ∙ p.contents a i;
  origin = λ n v t nl vl e. elim (q.origin n v t nl vl e) [
    | inl old ↦ p.origin n v t nl vl old
    | inr new ↦ inr (p.taken t new)
  ];
  same_end = q.same_end ∙ p.same_end;
}

-- One more entry of the map.
abbrev pub with_entry : ℕ → ℕ → (ℕ → ℕ) → ℕ → ℕ
with_entry n v g vpn = if vpn == n then v else g vpn

-- What the mapping of one page comes to.
pub data One (root vpn v : ℕ) (s : Vm) : Vr Bool → Type 0 where
  mapped :
      {r : Vr Bool} (s' : Vm)
      → r ≡ fine true s'
      → Remapped root s s' (with_entry vpn v (leaf s.words root))
      → One root vpn v s r
  no_room :
      {r : Vr Bool} (s' : Vm)
      → r ≡ no_memory false s'
      → Remapped root s s' (leaf s.words root)
      → s'.freelist ≡ []
      → One root vpn v s r

pub map_entry-One :
    (root va pa perm : ℕ) (s : Vm)
    → IsTree root s
    → va < maxva
    → is_valid (leaf s.words root (va / 4096)) ≡ false
    → One root (va / 4096) (pa2pte pa + with_v perm) s ((walk root va true >>= map_entry pa perm) s)
unfolding map_entry
map_entry-One root va pa perm s k lt hole = elim (walk-Walked root va true s k lt) [
  | missing s' e f at same why ↦ absurd (true≢false why)
  | starved s' e f hole' a why ↦
      no_room s'
        (ap (λ r. then_do r (map_entry pa perm)) e
          ∙ no_memory-then none false s' (map_entry pa perm) refl)
        (Remapped-Same root s s' f) why
  | entry u s' e f at same ↦
      let near = width_step 2 (va / 4096) (page_number va lt) in
      let old =
        sym (leaf-some s'.words root (va / 4096) u at) ∙ f.leaves (va / 4096) (page_number va lt) in
      let invalid : is_valid (s'.words (entry_at u (va / 4096 % 512))) ≡ false =
        ap is_valid old ∙ hole in
      let v : ℕ = pa2pte pa + with_v perm in
      let whole : va / 4096 / 512 * 512 + va / 4096 % 512 ≡ va / 4096 = omega arith in
      mapped (set_word (entry_at u (va / 4096 % 512)) v s') (rw (e, invalid) refl) record {
        tree =
            after-IsTree root s' f.tree (va / 4096 / 512) u (va / 4096 % 512) v near (omega arith)
              at;
        leaves = λ vpn vl.
            leaf_after root s' f.tree (va / 4096 / 512) u (va / 4096 % 512) v near (omega arith) at
              vpn vl
            ∙ rw whole (ap (λ x. if vpn == va / 4096 then v else x) (f.leaves vpn vl));
        taken = f.taken;
        contents = f.contents;
        origin = λ n q t nl ql e'. f.origin n q t nl ql (
            sym (
              table_after root s' f.tree (va / 4096 / 512) u (va / 4096 % 512) v near (omega arith)
                at n q nl ql)
            ∙ e');
        same_end = f.same_end;
      }
]
