-- ===== src/Vm/Grow.antt =====
-- kernel/vm.c: `walk` hangs a new table into the tree.
use kus_operating_system_pro.Vm.{
  Vm, entry_at, fill_page, in_page, is_valid, pa2pte, pte2pa, set_word,
}
use kus_operating_system_pro.Shared.{
  Option, none-some, ◌≢◌, ◌⊎◌, Bool, Bool-cases, List, ap, arith, false, if◌then◌else◌, inl, inr,
  is_in, none, refl, some, suc, sym, true, zero, ℕ, ◌%◌, ◌&&◌, ◌*◌, ◌+◌, ◌/◌, ◌<◌, ◌==◌, ◌^◌, ◌∙◌,
  ◌∷◌, ◌≡◌, ◌≤◌,
}
use kus_operating_system_pro.Vm.Tree.{
  IsTree, Once, entry-injective, entry-not_free, entry_of, leaf, table, below, width, width_step,
  width_next,
}
use native.Mathlib.Decide.{ℕ_discrete}
use mathlib.Core.Path.{subst, ap₂}
use mathlib.Core.Bool.{true≢false}

pub pte2pa-pa2pte : (b f : ℕ) → b % 4096 ≡ 0 → b < 2 ^ 64 → f < 1024 → pte2pa (pa2pte b + f) ≡ b
pte2pa-pa2pte b f a l h = omega arith

-- Entry `i` of table `t`, `m` levels under the root, is not valid, and `b` is the first free page.
module _ (root : ℕ) (s : Vm) (k : IsTree root s) (m p t i b : ℕ) (rest : List ℕ) (ml : m < 2)
    (pl : p < width m) (il : i < 512) (at : table s.words root m p ≡ some t)
    (hole : is_valid (s.words (entry_at t i)) ≡ false) (free : s.freelist ≡ b ∷ rest) where
  abbrev pub grown : Vm
  grown =
      set_word (entry_at t i) (pa2pte b + 1)
        (fill_page b 0 (fill_page b 5 (record s { freelist = rest })))

  b_free : is_in b s.freelist ≡ true
  unfolding is_in
  b_free = rw free (ground arith)

  rest_free : (x : ℕ) → is_in x s.freelist ≡ false → is_in x rest ≡ false
  unfolding is_in
  rest_free x h = let g = sym (ap (is_in x) free) ∙ h in ground (arith, g)

  grown_word :
      (a : ℕ)
      → grown.words a
        ≡ (if a == entry_at t i then pa2pte b + 1 else if in_page b a then 0 else s.words a)
  unfolding fill_page
  grown_word a = ground arith

  -- The entries of the tables that there were.
  grown_entry :
      (n q u j : ℕ)
      → n ≤ 2
      → q < width n
      → j < 512
      → table s.words root n q ≡ some u
      → grown.words (entry_at u j)
        ≡ (if (n == m) && (q == p) && (j == i) then pa2pte b + 1 else s.words (entry_at u j))
  grown_entry n q u j nl ql jl e =
      let out = entry-not_free root s k n q u j b nl ql jl e b_free in
      grown_word (entry_at u j)
      ∙ rw out (elim (ℕ_discrete (entry_at u j) (entry_at t i)) [
        | yes same ↦
            let (x, y, z) =
              entry-injective root s k n m q p u t j i nl (omega arith) ql pl jl il e at same in
            let here : (entry_at u j == entry_at t i) ≡ true = ground (arith, same) in
            let chosen : ((n == m) && (q == p) && (j == i)) ≡ true = ground (arith, x, y, z) in
            rw (here, chosen) refl
        | no apart ↦
            let here : (entry_at u j == entry_at t i) ≡ false = ground (arith, apart) in
            elim (Bool-cases ((n == m) && (q == p) && (j == i))) [
              | inr other ↦ rw (here, other) refl
              | inl chosen ↦
                  let x : n ≡ m = ground (arith, chosen) in
                  let y : q ≡ p = ground (arith, chosen) in
                  let z : j ≡ i = ground (arith, chosen) in
                  let one : some u ≡ some t = sym e ∙ ap₂ (table s.words root) x y ∙ at in
                  let page : u ≡ t = cc in absurd (apart (ap₂ (λ (a c : ℕ). entry_at a c) page z))
            ]
      ])

  -- The entries of the new table.
  fresh_entry : (j : ℕ) → j < 512 → grown.words (entry_at b j) ≡ 0
  fresh_entry j jl =
      let out = entry-not_free root s k m p t i b (omega arith) pl il at b_free in
      let other : (entry_at b j == entry_at t i) ≡ false = ground (arith, out) in
      let inside : in_page b (entry_at b j) ≡ true = ground arith in
      grown_word (entry_at b j) ∙ rw (other, inside) refl

  -- Before, there was no table in that place.
  was_none : table s.words root (suc m) (p * 512 + i) ≡ none
  unfolding table
  was_none =
      let q : (p * 512 + i) / 512 ≡ p = omega arith in
      let r : (p * 512 + i) % 512 ≡ i = omega arith in
      ap₂ (below s.words) (ap (table s.words root m) q ∙ at) r ∙ rw hole refl

  abbrev is_new : ℕ → ℕ → Bool
  is_new n q = (n == suc m) && (q == p * 512 + i)

  table_grown :
      (n q : ℕ)
      → n ≤ 2
      → q < width n
      → table grown.words root n q ≡ (if is_new n q then some b else table s.words root n q)
  unfolding table
  table_grown zero q nl ql = let c : is_new 0 q ≡ false = ground arith in rw c refl
  table_grown (suc n) q nl ql =
      ap (λ o. below grown.words o (q % 512))
        (table_grown n (q / 512) (omega arith) (width_step n q ql))
      ∙ elim (Bool-cases (is_new n (q / 512))) [
        | inl new ↦
            let x : n ≡ suc m = ground (arith, new) in
            let y : q / 512 ≡ p * 512 + i = ground (arith, new) in
            let c : is_new (suc n) q ≡ false = ground (arith, x) in
            rw (new, c, fresh_entry (q % 512) (omega arith))
              (sym (ap (λ o. below s.words o (q % 512)) (ap₂ (table s.words root) x y ∙ was_none)))
        | inr old ↦ rw old (by_table (table s.words root n (q / 512)) refl)
      ]
    where
      by_table :
          (o : Option ℕ)
          → table s.words root n (q / 512) ≡ o
          → below grown.words o (q % 512)
            ≡ (if is_new (suc n) q then some b else below s.words o (q % 512))
      by_table none e = elim (Bool-cases (is_new (suc n) q)) [
        | inr c ↦ rw c refl
        | inl c ↦
            let x : n ≡ m = ground (arith, c) in
            let y : q / 512 ≡ p = ground (arith, c) in
            absurd (none-some (sym e ∙ ap₂ (table s.words root) x y ∙ at))
      ]
      by_table (some u) e =
          let g =
            grown_entry n (q / 512) u (q % 512) (omega arith) (width_step n q ql) (omega arith) e in
          elim (Bool-cases (is_new (suc n) q)) [
            | inr c ↦
                let d : ((n == m) && (q / 512 == p) && (q % 512 == i)) ≡ false =
                  ground (arith, c) in
                rw (c, g, d) refl
            | inl c ↦
                let d : ((n == m) && (q / 512 == p) && (q % 512 == i)) ≡ true = ground (arith, c) in
                let (a, l) = k.free_pages b b_free in
                let valid : is_valid (pa2pte b + 1) ≡ true = ground arith in
                rw (c, g, d, valid) (ap some (pte2pa-pa2pte b 1 a l (omega arith)))
          ]

  -- Tables of the new tree.
  by_age :
      (n q u : ℕ)
      → n ≤ 2
      → q < width n
      → table grown.words root n q ≡ some u
      → ((n ≡ suc m) × (q ≡ p * 512 + i) × (u ≡ b)) ⊎ (table s.words root n q ≡ some u)
  by_age n q u nl ql e = elim (Bool-cases (is_new n q)) [
    | inl c ↦
        let g : some b ≡ some u = sym (table_grown n q nl ql ∙ rw c refl) ∙ e in
        inl (ground (arith, c), ground (arith, c), cc)
    | inr c ↦ inr (sym (table_grown n q nl ql ∙ rw c refl) ∙ e)
  ]

  old-ne_new : (n q u : ℕ) → n ≤ 2 → q < width n → table s.words root n q ≡ some u → u ≢ b
  old-ne_new n q u nl ql e same =
      true≢false (sym b_free ∙ ap (λ x. is_in x s.freelist) (sym same) ∙ k.apart n q u nl ql e)

  pub origin_grown :
      (n q u : ℕ)
      → n ≤ 2
      → q < width n
      → table grown.words root n q ≡ some u
      → (table s.words root n q ≡ some u) ⊎ (is_in u s.freelist ≡ true)
  origin_grown n q u nl ql e = elim (by_age n q u nl ql e) [
    | inl (a, c, same) ↦ inr (ap (λ x. is_in x s.freelist) same ∙ b_free)
    | inr old ↦ inl old
  ]

  pub grown-IsTree : IsTree root grown
  unfolding fill_page
  grown-IsTree = record {
    distinct = λ x y q r u xl yl ql rl e g. elim (by_age x q u xl ql e) [
      | inl (a, c, d) ↦ elim (by_age y r u yl rl g) [
        | inl (a', c', d') ↦ (a ∙ sym a', c ∙ sym c')
        | inr g' ↦ absurd (old-ne_new y r u yl rl g' d)
      ]
      | inr e' ↦ elim (by_age y r u yl rl g) [
        | inl (a', c', d') ↦ absurd (old-ne_new x q u xl ql e' d')
        | inr g' ↦ k.distinct x y q r u xl yl ql rl e' g'
      ]
    ];
    aligned = λ n q u nl ql e. elim (by_age n q u nl ql e) [
      | inl (a, c, d) ↦ ap (λ x. x % 4096) d ∙ (k.free_pages b b_free).0
      | inr e' ↦ k.aligned n q u nl ql e'
    ];
    apart = λ n q u nl ql e. elim (by_age n q u nl ql e) [
      | inl (a, c, d) ↦ ap (λ x. is_in x rest) d ∙ (free-Once.0)
      | inr e' ↦ rest_free u (k.apart n q u nl ql e')
    ];
    free_pages = λ x h. k.free_pages x (in_free x h);
    once = free-Once.1;
  }
    where
      free-Once : Once (b ∷ rest)
      free-Once = subst Once free k.once

      in_free : (x : ℕ) → is_in x rest ≡ true → is_in x s.freelist ≡ true
      in_free x h = elim (Bool-cases (is_in x s.freelist)) [
        | inl c ↦ c
        | inr c ↦ absurd (true≢false (sym h ∙ rest_free x c))
      ]

  pub grown-table : table grown.words root (suc m) (p * 512 + i) ≡ some b
  grown-table =
      let c : is_new (suc m) (p * 512 + i) ≡ true = ground arith in
      table_grown (suc m) (p * 512 + i) (omega arith) (width_next m p i pl il) ∙ rw c refl

  -- No page number is mapped differently.
  pub leaf_grown : (vpn : ℕ) → vpn < width 3 → leaf grown.words root vpn ≡ leaf s.words root vpn
  unfolding leaf
  leaf_grown vpn vl =
      ap (λ o. entry_of grown.words o (vpn % 512)) (table_grown 2 (vpn / 512) (omega arith) near)
      ∙ elim (Bool-cases (is_new 2 (vpn / 512))) [
        | inl new ↦
            let x : 2 ≡ suc m = ground (arith, new) in
            let y : vpn / 512 ≡ p * 512 + i = ground (arith, new) in
            rw (new, fresh_entry (vpn % 512) (omega arith))
              (sym (
                ap (λ o. entry_of s.words o (vpn % 512)) (ap₂ (table s.words root) x y ∙ was_none)))
        | inr old ↦ rw old (by_table (table s.words root 2 (vpn / 512)) refl)
      ]
    where
      near : vpn / 512 < width 2
      near = width_step 2 vpn vl

      by_table :
          (o : Option ℕ)
          → table s.words root 2 (vpn / 512) ≡ o
          → entry_of grown.words o (vpn % 512) ≡ entry_of s.words o (vpn % 512)
      by_table none e = refl
      by_table (some u) e =
          grown_entry 2 (vpn / 512) u (vpn % 512) (omega arith) near (omega arith) e
          ∙ (let d : ((2 == m) && (vpn / 512 == p) && (vpn % 512 == i)) ≡ false = ground arith in
              rw d refl)
