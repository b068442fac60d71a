-- ===== src/Vm/Copyinstr.antt =====
-- kernel/vm.c, `copyinstr`: the string that the kernel reads from user memory.
use kus_operating_system_pro.Vm.Leaf.{IsTree-same}
use kus_operating_system_pro.Vm.Map.{user_pa, walkaddr-leaf}
use kus_operating_system_pro.Vm.Copyin.{
  IsReadable-later, away, moved, reads-later, IsReadable, reads,
}
use kus_operating_system_pro.Vm.Chunk.{IsChunk, next_va-after, chunk-IsChunk, next_va, user_at}
use kus_operating_system_pro.Vm.Tree.{IsTree, leaf}
use kus_operating_system_pro.Vm.{V, fine, maxva, pgrounddown, then_do, walkaddr, Vm}
use kus_operating_system_pro.Vm.User.{
  copyinstr, chunk, copyinstr_from, fetch_string, string_ends, move_bytes, set_byte, string_from,
}
use kus_operating_system_pro.Shared.{
  Bool, ◌%◌, ◌/◌, ◌∙◌, ◌≤◌, Bool-cases, ap, arith, false, inl, inr, leb, ltb, refl, suc, sym, true,
  zero, ℕ, ◌&&◌, ◌+◌, ◌-◌, ◌<◌, ◌==◌, ◌≡◌, ◌≢◌,
}
use mathlib.Core.Path.{fun_ext, subst}
use kus_operating_system_pro.Vm.Chunk.{user_at-page}
use native.Mathlib.Decide.{ℕ_discrete, dec_lt}

-- The bytes at `p` and those at `dst` are different ones.
abbrev Disjoint : ℕ → ℕ → ℕ → Type 0
Disjoint p dst n = (i j : ℕ) → i < n → j < n → p + i ≢ dst + j

Disjoint-rest : (p dst n : ℕ) → Disjoint p dst (suc n) → Disjoint (p + 1) (dst + 1) n
Disjoint-rest p dst n d i j il jl e = d (i + 1) (j + 1) (omega arith) (omega arith) (omega arith)

move_one :
    (p dst n : ℕ) (s : Vm)
    → Disjoint p dst (suc n)
    → move_bytes (dst + 1) (p + 1) n (set_byte dst (s.bytes p) s) ≡ move_bytes dst p (suc n) s
move_one p dst n s d = ap (λ b. record s { bytes = b }) (fun_ext by_place)
  where
    by_place :
        (a : ℕ)
        → (move_bytes (dst + 1) (p + 1) n (set_byte dst (s.bytes p) s)).bytes a
          ≡ (move_bytes dst p (suc n) s).bytes a
    by_place a = elim (ℕ_discrete a dst) [
      | yes same ↦
          let c : (leb (dst + 1) a && ltb a (dst + 1 + n)) ≡ false = ground arith in
          let e : (leb dst a && ltb a (dst + suc n)) ≡ true = ground arith in
          let f : (a == dst) ≡ true = ground arith in
          let g : p + (a - dst) ≡ p = omega arith in rw (c, e, f, g) refl
      | no other ↦ elim (Bool-cases (leb (dst + 1) a && ltb a (dst + 1 + n))) [
        | inr c ↦
            let e : (leb dst a && ltb a (dst + suc n)) ≡ false = ground (arith, c) in
            let f : (a == dst) ≡ false = ground arith in rw (c, e, f) refl
        | inl c ↦
            let e : (leb dst a && ltb a (dst + suc n)) ≡ true = ground (arith, c) in
            let g : p + 1 + (a - (dst + 1)) ≡ p + (a - dst) = ground (arith, c) in
            let i : a - dst < suc n = ground (arith, c) in
            let f : (p + (a - dst) == dst) ≡ false =
              let o = d (a - dst) 0 i (omega arith) in ground (arith, o) in
            rw (c, e, g, f) refl
      ]
    ]

non_zero : (v : ℕ) → v ≢ 0 → (v == 0) ≡ false
non_zero v h = ground (arith, h)

move_none : (p dst : ℕ) (s : Vm) → move_bytes dst p 0 s ≡ s
move_none p dst s =
    ap (λ b. record s { bytes = b })
      (fun_ext (λ a. let c : (leb dst a && ltb a (dst + 0)) ≡ false = ground arith in rw c refl))

later_byte :
    (p dst n i v : ℕ) (s : Vm)
    → Disjoint p dst (suc n)
    → i < n
    → (set_byte dst v s).bytes (p + 1 + i) ≡ s.bytes (p + suc i)
later_byte p dst n i v s d il =
    let o = d (suc i) 0 (omega arith) (omega arith) in
    let c : (p + 1 + i == dst) ≡ false = ground (arith, o) in
    let e : p + 1 + i ≡ p + suc i = omega arith in rw (c, e) refl

string_from-none :
    (n p dst : ℕ) (s : Vm)
    → Disjoint p dst n
    → ((i : ℕ) → i < n → s.bytes (p + i) ≢ 0)
    → string_from n p dst s ≡ (false, move_bytes dst p n s)
unfolding string_from
string_from-none zero p dst s d chars = ap (λ x. (false, x)) (sym (move_none p dst s))
string_from-none (suc n) p dst s d chars =
    let z : (s.bytes p == 0) ≡ false =
      non_zero (s.bytes p) (λ e. chars 0 (omega arith) (ap s.bytes (omega arith) ∙ e)) in
    rw z (
      string_from-none n (p + 1) (dst + 1) (set_byte dst (s.bytes p) s) (Disjoint-rest p dst n d)
        (λ i il e. chars (suc i) (omega arith) (sym (later_byte p dst n i (s.bytes p) s d il) ∙ e))
      ∙ ap (λ x. (false, x)) (move_one p dst n s d))

string_from-ends :
    (n m p dst : ℕ) (s : Vm)
    → m < n
    → Disjoint p dst (suc m)
    → ((i : ℕ) → i < m → s.bytes (p + i) ≢ 0)
    → s.bytes (p + m) ≡ 0
    → string_from n p dst s ≡ (true, move_bytes dst p (suc m) s)
unfolding string_from
string_from-ends zero m p dst s ml d chars end = absurd (omega arith)
string_from-ends (suc n) zero p dst s ml d chars end =
    let z : s.bytes p ≡ 0 = ap s.bytes (omega arith) ∙ end in
    let c : (s.bytes p == 0) ≡ true = ground (arith, z) in
    rw c (
      ap (λ x. (true, x))
        (ap (λ v. set_byte dst v s) (sym z)
          ∙ sym (move_none (p + 1) (dst + 1) (set_byte dst (s.bytes p) s))
          ∙ move_one p dst 0 s d))
string_from-ends (suc n) (suc m) p dst s ml d chars end =
    let z : (s.bytes p == 0) ≡ false =
      non_zero (s.bytes p) (λ e. chars 0 (omega arith) (ap s.bytes (omega arith) ∙ e)) in
    rw z (
      string_from-ends n m (p + 1) (dst + 1) (set_byte dst (s.bytes p) s) (omega arith)
        (Disjoint-rest p dst (suc m) d)
        (λ i il e.
          chars (suc i) (omega arith)
            (sym (later_byte p dst (suc m) i (s.bytes p) s d (omega arith)) ∙ e))
        (later_byte p dst (suc m) m (s.bytes p) s d (omega arith) ∙ end)
      ∙ ap (λ x. (true, x)) (move_one p dst (suc m) s d))

-- A copy within one page.
reads-page :
    (root dst srcva len : ℕ) (s : Vm)
    → srcva % 4096 + len ≤ 4096
    → move_bytes dst (user_at s root srcva) len s ≡ reads root dst srcva len s
reads-page root dst srcva len s l = ap (λ b. record s { bytes = b }) (fun_ext (λ a. by_place a))
  where
    by_place :
        (a : ℕ)
        → (move_bytes dst (user_at s root srcva) len s).bytes a
          ≡ (reads root dst srcva len s).bytes a
    by_place a = elim (Bool-cases (leb dst a && ltb a (dst + len))) [
      | inr c ↦ rw c refl
      | inl c ↦ rw (c, user_at-page s root srcva (a - dst) len (ground (arith, c)) l) refl
    ]

-- A string of `m` characters stands behind `srcva`.
pub record IsString (root srcva m : ℕ) (s : Vm) : Type 0 where
  pub chars : (i : ℕ) → i < m → s.bytes (user_at s root (srcva + i)) ≢ 0
  pub end : s.bytes (user_at s root (srcva + m)) ≡ 0

walk_found :
    (root va : ℕ) (s : Vm)
    → IsTree root s
    → va < maxva
    → walkaddr root (pgrounddown va) s ≡ fine (user_pa (leaf s.words root (va / 4096))) s
walk_found root va s k lt =
    let in_space : ltb (pgrounddown va) maxva ≡ true = ground arith in
    let page : pgrounddown va / 4096 ≡ va / 4096 = omega arith in
    walkaddr-leaf root (pgrounddown va) s k ∙ rw (in_space, page) refl

fetch_string-found :
    (dst offset n pa : ℕ) (rest : V Bool) (s : Vm)
    → pa ≢ 0
    → fetch_string dst offset n rest pa s ≡ string_ends rest (string_from n (pa + offset) dst s)
unfolding fetch_string
fetch_string-found dst offset n pa rest s h = rw (non_zero pa h) refl

-- The part of the string in the first `n` bytes, which lie in one page.
module _ (root dst srcva m n : ℕ) (s : Vm) (l : srcva % 4096 + n ≤ 4096)
    (h : IsReadable root dst srcva (suc m) s) (g : IsString root srcva m s) where
  chars_here : (i : ℕ) → i < n → i < m → s.bytes (user_at s root srcva + i) ≢ 0
  chars_here i il im e = g.chars i im (ap s.bytes (user_at-page s root srcva i n il l) ∙ e)

  end_here : m < n → s.bytes (user_at s root srcva + m) ≡ 0
  end_here ml = ap s.bytes (sym (user_at-page s root srcva m n ml l)) ∙ g.end

  Disjoint-here : (k : ℕ) → k ≤ n → k ≤ suc m → Disjoint (user_at s root srcva) dst k
  Disjoint-here k kn km i j il jl e =
      h.apart_from i j (omega arith) (omega arith)
        (user_at-page s root srcva i n (omega arith) l ∙ e)

IsString-later :
    (root dst srcva m n : ℕ) (s : Vm) (c : IsChunk srcva (suc m) n)
    (h : IsReadable root dst srcva (suc m) s)
    → IsString root srcva m s
    → n ≤ m
    → IsString root (next_va srcva) (m - n) (moved root dst srcva (suc m) n s c h)
IsString-later root dst srcva m n s c h g nm = record {
  chars = λ i il e. g.chars (n + i) (omega arith) (sym (unmoved i (omega arith)) ∙ e);
  end =
      unmoved (m - n) (omega arith)
      ∙ ap (λ x. s.bytes (user_at s root (srcva + x))) (omega arith)
      ∙ g.end;
}
  where
    unmoved :
        (i : ℕ)
        → i ≤ m - n
        → (moved root dst srcva (suc m) n s c h).bytes (user_at s root (next_va srcva + i))
          ≡ s.bytes (user_at s root (srcva + (n + i)))
    unmoved i il =
        rw (next_va-after srcva (suc m) n c h.within i (omega arith))
          (rw (away root dst srcva (suc m) n s c h (n + i) (omega arith)) refl)

copyinstr_from-reads :
    (root fuel dst srcva max m : ℕ) (s : Vm)
    → IsTree root s
    → m < max
    → max ≤ fuel
    → IsReadable root dst srcva (suc m) s
    → IsString root srcva m s
    → copyinstr_from root fuel dst srcva max s ≡ fine true (reads root dst srcva (suc m) s)
unfolding copyinstr_from string_ends
copyinstr_from-reads root zero dst srcva max m s k ml fl h g = absurd (omega arith)
copyinstr_from-reads root (suc fuel) dst srcva max m s k ml fl h g =
    let c = chunk-IsChunk srcva max (omega arith) in
    let z : (max == 0) ≡ false = ground arith in
    let w = h.within in
    let n = chunk srcva max in
    let off : user_pa (leaf s.words root (srcva / 4096)) + (srcva - pgrounddown srcva)
        ≡ user_at s root srcva =
      omega arith in
    let rest : V Bool = copyinstr_from root fuel (dst + n) (next_va srcva) (max - n) in
    rw z (
      ap (λ r. then_do r (fetch_string dst (srcva - pgrounddown srcva) n rest))
        (walk_found root srcva s k (omega arith))
      ∙ fetch_string-found dst (srcva - pgrounddown srcva) n
          (user_pa (leaf s.words root (srcva / 4096))) rest s
          (λ e.
            h.mapped_to 0 (omega arith) (ap (λ y. user_pa (leaf s.words root y)) (omega arith) ∙ e))
      ∙ ap (λ x. string_ends rest (string_from n x dst s)) off
      ∙ elim (dec_lt m n) [
        | yes here ↦
            ap (string_ends rest) (
              string_from-ends n m (user_at s root srcva) dst s here
                (Disjoint-here root dst srcva m n s c.same_page h g (suc m) (omega arith)
                  (omega arith))
                (λ i il. chars_here root dst srcva m n s c.same_page h g i (omega arith) il)
                (end_here root dst srcva m n s c.same_page h g here))
            ∙ ap (fine true)
                (reads-page root dst srcva (suc m) s (let p = c.same_page in omega arith))
        | no later ↦
            let c' : IsChunk srcva (suc m) n = record {
              some_byte = c.some_byte;
              most = omega arith;
              same_page = c.same_page;
              to_end = λ x. c.to_end (omega arith);
            } in
            let some_byte = c.some_byte in
            let left : suc m - n ≡ suc (m - n) = omega arith in
            let s' : Vm = moved root dst srcva (suc m) n s c' h in
            ap (string_ends rest) (
              string_from-none n (user_at s root srcva) dst s
                (Disjoint-here root dst srcva m n s c.same_page h g n (omega arith) (omega arith))
                (λ i il. chars_here root dst srcva m n s c.same_page h g i il (omega arith)))
            ∙ copyinstr_from-reads root fuel (dst + n) (next_va srcva) (max - n) (m - n) s'
                (IsTree-same root s s' k refl (λ x q ml ql. refl)) (omega arith) (omega arith)
                (subst (λ x. IsReadable root (dst + n) (next_va srcva) x s') left
                  (IsReadable-later root dst srcva (suc m) n s c' h))
                (IsString-later root dst srcva m n s c' h g (omega arith))
            ∙ ap (λ x. fine true (reads root (dst + n) (next_va srcva) x s')) (sym left)
            ∙ ap (fine true) (reads-later root dst srcva (suc m) n s c' h)
      ])

-- `copyinstr` of a string of `m` characters, fewer than `max`, that the user has mapped under `MAXVA`
-- with none of its memory at `dst`, succeeds on a tree: its characters and the 0 behind them are copied
-- to `dst`, across pages, and nothing else changes.
pub copyinstr-reads :
    (root dst srcva max m : ℕ) (s : Vm)
    → IsTree root s
    → m < max
    → IsReadable root dst srcva (suc m) s
    → IsString root srcva m s
    → copyinstr root dst srcva max s ≡ fine true (reads root dst srcva (suc m) s)
unfolding copyinstr
copyinstr-reads root dst srcva max m s k ml h g =
    copyinstr_from-reads root max dst srcva max m s k ml (omega arith) h g
