-- ===== src/Vm/Pages.antt =====
-- kernel/vm.c, `mappages`: the pages of a region are mapped in order.
use kus_operating_system_pro.Machine.{pgsize}
use kus_operating_system_pro.Vm.Grow.{pte2pa-pa2pte}
use mathlib.Core.Path.{subst}
use mathlib.Core.Bool.{false≢true}
use native.Mathlib.Decide.{ℕ_discrete}
use kus_operating_system_pro.Vm.Walk.{Same-none, no_memory-then}
use kus_operating_system_pro.Vm.{
  sleep_or, stalls, stops, no_memory, then_do, is_user, mappages, walkaddr, go_if, Vm, Vr, fine,
  is_valid, mappages_from, maxva, pa2pte, with_v,
}
use kus_operating_system_pro.Vm.Map.{
  page_number, walkaddr-leaf, user_pa, Remapped, Remapped-Same, Remapped-trans, map_entry-One,
  mapped, no_room, with_entry,
}
use kus_operating_system_pro.Vm.Tree.{IsTree, leaf, width}
use kus_operating_system_pro.Shared.{
  ◌≢◌, ap, sym, ◌==◌, Bool, [], arith, false, if◌then◌else◌, leb, ltb, refl, suc, true, zero, ℕ,
  ◌%◌, ◌&&◌, ◌*◌, ◌+◌, ◌-◌, ◌/◌, ◌<◌, ◌^◌, ◌∙◌, ◌≡◌, ◌≤◌,
}

-- `n` pages from number `first` on are mapped to the memory from `pa` on.
abbrev pub with_pages : ℕ → ℕ → ℕ → ℕ → (ℕ → ℕ) → ℕ → ℕ
with_pages n first pa perm g vpn =
    if leb first vpn && ltb vpn (first + n)
    then pa2pte (pa + (vpn - first) * 4096) + with_v perm
    else g vpn

-- What the mapping of `n` pages comes to: all are mapped, or memory has run out after the first `m`.
pub data Filled (root first pa perm n : ℕ) (s : Vm) : Vr Bool → Type 0 where
  all_mapped :
      {r : Vr Bool} (s' : Vm)
      → r ≡ fine true s'
      → Remapped root s s' (with_pages n first pa perm (leaf s.words root))
      → Filled root first pa perm n s r
  ran_out :
      {r : Vr Bool} (m : ℕ) (s' : Vm)
      → m < n
      → r ≡ no_memory false s'
      → Remapped root s s' (with_pages m first pa perm (leaf s.words root))
      → s'.freelist ≡ []
      → Filled root first pa perm n s r

-- The pages are not mapped.
abbrev pub Unmapped : ℕ → Vm → ℕ → ℕ → Type 0
Unmapped root s first n =
    (vpn : ℕ) → first ≤ vpn → vpn < first + n → is_valid (leaf s.words root vpn) ≡ false

pub Remapped-with :
    (root : ℕ) (s s' : Vm) (g h : ℕ → ℕ)
    → Remapped root s s' g
    → ((vpn : ℕ) → vpn < width 3 → g vpn ≡ h vpn)
    → Remapped root s s' h
Remapped-with root s s' g h p e = record {
  tree = p.tree;
  leaves = λ vpn l. p.leaves vpn l ∙ e vpn l;
  taken = p.taken;
  contents = p.contents;
  origin = p.origin;
  same_end = p.same_end;
}

-- One page, and then `m` more.
one_more :
    (first pa perm m : ℕ) (g h : ℕ → ℕ) (vpn : ℕ)
    → h vpn ≡ with_entry first (pa2pte pa + with_v perm) g vpn
    → with_pages m (suc first) (pa + 4096) perm h vpn ≡ with_pages (suc m) first pa perm g vpn
one_more first pa perm m g h vpn e = elim (ℕ_discrete vpn first) [
  | yes same ↦ ground arith
  | no other ↦ ground arith
]

Filled-after :
    (root first pa perm n : ℕ) (s s' : Vm) (r r' : Vr Bool)
    → r ≡ r'
    → Remapped root s s' (with_entry first (pa2pte pa + with_v perm) (leaf s.words root))
    → Filled root (suc first) (pa + 4096) perm n s' r'
    → Filled root first pa perm (suc n) s r
Filled-after root first pa perm n s s' r r' e f (all_mapped s'' g h) = all_mapped s'' (e ∙ g) (
    Remapped-with root s s'' _ _ (Remapped-trans root s s' s'' _ _ f h) (λ vpn vl.
      one_more first pa perm n (leaf s.words root) (leaf s'.words root) vpn (f.leaves vpn vl)))
Filled-after root first pa perm n s s' r r' e f (ran_out m s'' ml g h none_left) =
    ran_out (suc m) s'' (omega arith) (e ∙ g)
      (Remapped-with root s s'' _ _ (Remapped-trans root s s' s'' _ _ f h) (λ vpn vl.
        one_more first pa perm m (leaf s.words root) (leaf s'.words root) vpn (f.leaves vpn vl)))
      none_left

mappages_from-Filled :
    (root perm n va pa : ℕ) (s : Vm)
    → IsTree root s
    → va % 4096 ≡ 0
    → va + n * 4096 ≤ maxva
    → pa + n * 4096 < 2 ^ 64
    → Unmapped root s (va / 4096) n
    → Filled root (va / 4096) pa perm n s (mappages_from root perm n va pa s)
unfolding mappages_from go_if
mappages_from-Filled root perm zero va pa s k al vl pl holes = all_mapped s refl (
    Remapped-with root s s _ _ (Remapped-Same root s s (Same-none root s k))
      (λ vpn l. ground arith))
mappages_from-Filled root perm (suc n) va pa s k al vl pl holes =
    elim (map_entry-One root va pa perm s k (omega arith)
      (holes (va / 4096) (omega arith) (omega arith))) [
        | no_room s' e f why ↦
            ran_out 0 s' (omega arith)
              (ap
                  (λ r. then_do r (
                    go_if (
                      mappages_from root perm n ((va + pgsize) % 2 ^ 64) ((pa + pgsize) % 2 ^ 64))))
                  e
                ∙ no_memory-then false false s'
                    (go_if
                      (mappages_from root perm n ((va + pgsize) % 2 ^ 64) ((pa + pgsize) % 2 ^ 64)))
                    refl)
              (Remapped-with root s s' _ _ f (λ vpn l. ground arith)) why
        | mapped s' e f ↦
            let next : (va + 4096) / 4096 ≡ suc (va / 4096) = omega arith in
            let v : (va + 4096) % 2 ^ 64 ≡ va + 4096 = omega arith in
            let w : (pa + 4096) % 2 ^ 64 ≡ pa + 4096 = omega arith in
            let holes' : Unmapped root s' (suc (va / 4096)) n = λ vpn a b.
              let c : (vpn == va / 4096) ≡ false = ground arith in
              ap is_valid (f.leaves vpn (unfold width in omega arith) ∙ rw c refl)
              ∙ holes vpn (omega arith) (omega arith) in
            Filled-after root (va / 4096) pa perm n s s' _ _ (rw (e, v, w) refl) f (
              subst
                (λ x.
                  Filled root x (pa + 4096) perm n s'
                    (mappages_from root perm n (va + 4096) (pa + 4096) s'))
                next
                (mappages_from-Filled root perm n (va + 4096) (pa + 4096) s' f.tree (omega arith)
                  (omega arith) (omega arith)
                  (subst (λ x. Unmapped root s' x n) (sym next) holes')))
      ]

pub mappages-Filled :
    (root va size pa perm : ℕ) (s : Vm)
    → IsTree root s
    → va % 4096 ≡ 0
    → size % 4096 ≡ 0
    → 0 < size
    → va + size ≤ maxva
    → pa + size < 2 ^ 64
    → perm < 1024
    → Unmapped root s (va / 4096) (size / 4096)
    → Filled root (va / 4096) pa perm (size / 4096) s (mappages root va size pa perm s)
unfolding mappages
mappages-Filled root va size pa perm s k al sl some_size vl pl perm_l holes =
    let c : (va % pgsize == 0) ≡ true = ground arith in
    let d : (size % pgsize == 0) ≡ true = ground arith in
    let z : (size == 0) ≡ false = ground arith in
    let n : size / 4096 * 4096 ≡ size = omega arith in
    rw (c, d, z)
      (mappages_from-Filled root perm (size / 4096) va pa s k al (omega arith) (omega arith) holes)

-- A mapping read back.
user_pa-pa2pte :
    (pa perm : ℕ)
    → pa % 4096 ≡ 0
    → pa < 2 ^ 64
    → perm < 1024
    → is_user perm ≡ true
    → user_pa (pa2pte pa + with_v perm) ≡ pa
user_pa-pa2pte pa perm al l pl u =
    let valid : is_valid (pa2pte pa + with_v perm) ≡ true = ground arith in
    let user : is_user (pa2pte pa + with_v perm) ≡ true = ground arith in
    rw (valid, user) (pte2pa-pa2pte pa (with_v perm) al l (omega arith))

says : Vr Bool → Bool
says (fine b s) = b
says (stops e) = false
says (stalls s) = false

no_memory-ne_true : (s s' : Vm) → no_memory false s ≢ fine true s'
unfolding says
no_memory-ne_true s s' e = false≢true (sym (by_test s.place.has_proc) ∙ ap says e)
  where
    by_test : (c : Bool) → says (sleep_or c false s) ≡ false
    by_test true = refl
    by_test false = refl

pub mappages-Remapped :
    (root va size pa perm : ℕ) (s s' : Vm)
    → IsTree root s
    → va % 4096 ≡ 0
    → size % 4096 ≡ 0
    → 0 < size
    → va + size ≤ maxva
    → pa + size < 2 ^ 64
    → perm < 1024
    → Unmapped root s (va / 4096) (size / 4096)
    → mappages root va size pa perm s ≡ fine true s'
    → Remapped root s s' (with_pages (size / 4096) (va / 4096) pa perm (leaf s.words root))
mappages-Remapped root va size pa perm s s' k al sl some_size vl pl perm_l holes e =
    elim (mappages-Filled root va size pa perm s k al sl some_size vl pl perm_l holes) [
      | ran_out m s'' ml g h none_left ↦ absurd (no_memory-ne_true s'' s' (sym g ∙ e))
      | all_mapped s'' g h ↦
          let x : fine true s'' ≡ fine true s' = sym g ∙ e in
          let same : s'' ≡ s' = cc in
          subst
            (λ y.
              Remapped root s y (with_pages (size / 4096) (va / 4096) pa perm (leaf s.words root)))
            same h
    ]

-- Once `mappages` has mapped a region for the user on a tree, `walkaddr` of any address in it gives the
-- page of memory that the address's page was mapped to, and changes nothing.
pub walkaddr-mappages :
    (root va size pa perm a : ℕ) (s s' : Vm)
    → IsTree root s
    → va % 4096 ≡ 0
    → size % 4096 ≡ 0
    → 0 < size
    → va + size ≤ maxva
    → pa % 4096 ≡ 0
    → pa + size < 2 ^ 64
    → perm < 1024
    → is_user perm ≡ true
    → Unmapped root s (va / 4096) (size / 4096)
    → mappages root va size pa perm s ≡ fine true s'
    → va ≤ a
    → a < va + size
    → walkaddr root a s' ≡ fine (pa + (a / 4096 * 4096 - va)) s'
walkaddr-mappages root va size pa perm a s s' k al sl some_size vl ap' pl perm_l u holes e al' au =
    let f = mappages-Remapped root va size pa perm s s' k al sl some_size vl pl perm_l holes e in
    let c : ltb a maxva ≡ true = ground arith in
    let inside : (leb (va / 4096) (a / 4096) && ltb (a / 4096) (va / 4096 + size / 4096)) ≡ true =
      ground arith in
    let where_to : pa + (a / 4096 - va / 4096) * 4096 ≡ pa + (a / 4096 * 4096 - va) = omega arith in
    let at : leaf s'.words root (a / 4096)
        ≡ pa2pte (pa + (a / 4096 - va / 4096) * 4096) + with_v perm =
      f.leaves (a / 4096) (page_number a (omega arith)) ∙ rw inside refl in
    walkaddr-leaf root a s' f.tree
    ∙ rw c (
        ap (λ v. fine v s')
          (ap user_pa at
            ∙ user_pa-pa2pte (pa + (a / 4096 - va / 4096) * 4096) perm (omega arith) (omega arith)
                perm_l u
            ∙ where_to))
