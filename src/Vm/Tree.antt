-- ===== src/Vm/Tree.antt =====
-- kernel/vm.c: a page table as a tree of three levels of tables, and as a map from page numbers.
use kus_operating_system_pro.Vm.{Vm, entry_at, in_page, is_valid, pte2pa}
use kus_operating_system_pro.Shared.{
  List, Option, [], ap, arith, false, if◌then◌else◌, is_in, none, some, suc, sym, true, zero, ℕ,
  ◌%◌, ◌*◌, ◌+◌, ◌/◌, ◌<◌, ◌^◌, ◌∙◌, ◌∷◌, ◌≡◌, ◌≤◌,
}
use mathlib.Core.Bool.{true≢false}
use native.Mathlib.Decide.{ℕ_discrete}

-- The table that entry `i` of a table leads to.
abbrev pub below : (ℕ → ℕ) → Option ℕ → ℕ → Option ℕ
below w none i = none
below w (some t) i = if is_valid (w (entry_at t i)) then some (pte2pa (w (entry_at t i))) else none

-- The table `n` levels under the root on the way to the pages whose numbers start with `p`.
unfoldable pub table : (ℕ → ℕ) → ℕ → ℕ → ℕ → Option ℕ
table w root zero p = some root
table w root (suc n) p = below w (table w root n (p / 512)) (p % 512)

abbrev pub entry_of : (ℕ → ℕ) → Option ℕ → ℕ → ℕ
entry_of w none i = 0
entry_of w (some t) i = w (entry_at t i)

-- The entry for page number `vpn`, 0 where its table is missing.
unfoldable pub leaf : (ℕ → ℕ) → ℕ → ℕ → ℕ
leaf w root vpn = entry_of w (table w root 2 (vpn / 512)) (vpn % 512)

-- How many prefixes a level has.
unfoldable pub width : ℕ → ℕ
width zero = 1
width (suc n) = 512 * width n

-- No page twice.
abbrev pub Once : List ℕ → Type 0
Once [] = Unit {0}
Once (b ∷ bs) = (is_in b bs ≡ false) × Once bs

-- The tables of a tree are different pages, none of them free; the free pages are different ones.
pub record IsTree (root : ℕ) (s : Vm) : Type 0 where
  pub distinct :
      (m n p q t : ℕ)
      → m ≤ 2
      → n ≤ 2
      → p < width m
      → q < width n
      → table s.words root m p ≡ some t
      → table s.words root n q ≡ some t
      → (m ≡ n) × (p ≡ q)
  pub aligned : (n p t : ℕ) → n ≤ 2 → p < width n → table s.words root n p ≡ some t → t % 4096 ≡ 0
  pub apart :
      (n p t : ℕ)
      → n ≤ 2
      → p < width n
      → table s.words root n p ≡ some t
      → is_in t s.freelist ≡ false
  pub free_pages : (b : ℕ) → is_in b s.freelist ≡ true → (b % 4096 ≡ 0) × (b < 2 ^ 64)
  pub once : Once s.freelist

pub width_step : (n p : ℕ) → p < width (suc n) → p / 512 < width n
unfolding width
width_step n p lt = omega arith

pub width_next : (n p i : ℕ) → p < width n → i < 512 → p * 512 + i < width (suc n)
unfolding width
width_next n p i lt il = omega arith

module _ (root : ℕ) (s : Vm) (k : IsTree root s) where
  -- Entries of tables are different words.
  pub entry-injective :
      (m n p q t u i j : ℕ)
      → m ≤ 2
      → n ≤ 2
      → p < width m
      → q < width n
      → i < 512
      → j < 512
      → table s.words root m p ≡ some t
      → table s.words root n q ≡ some u
      → entry_at t i ≡ entry_at u j
      → (m ≡ n) × (p ≡ q) × (i ≡ j)
  entry-injective m n p q t u i j ml nl pl ql il jl e g same =
      let a = k.aligned m p t ml pl e in
      let b = k.aligned n q u nl ql g in
      let page : u ≡ t = omega arith in
      let index : i ≡ j = omega arith in
      let (x, y) = k.distinct m n p q t ml nl pl ql e (g ∙ ap some page) in (x, y, index)

  -- The entries of a table lie in no page that is free.
  pub entry-not_free :
      (n q u j b : ℕ)
      → n ≤ 2
      → q < width n
      → j < 512
      → table s.words root n q ≡ some u
      → is_in b s.freelist ≡ true
      → in_page b (entry_at u j) ≡ false
  entry-not_free n q u j b nl ql jl e free =
      let a = k.aligned n q u nl ql e in
      let c = (k.free_pages b free).0 in
      elim (ℕ_discrete u b) [
        | yes same ↦ absurd (
            true≢false (sym free ∙ ap (λ x. is_in x s.freelist) (sym same) ∙ k.apart n q u nl ql e))
        | no other ↦ ground arith
      ]
