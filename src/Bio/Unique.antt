-- ===== src/Bio/Unique.antt =====
-- kernel/bio.c: at most one buffer caches a block, and `bget` hands back that buffer.
use kus_operating_system_pro.Bio.{drop_reference, brelse, unlink, Bcache, Buf, caches}
use native.Mathlib.Decide.{ℕ_discrete}
use mathlib.Core.Path.{subst}
use kus_operating_system_pro.Shared.{
  update_ne, ◌-◌, update_self, ◌++◌, ◌<◌, ◌∙◌, ◌⊎◌, ◌%◌, ◌+◌, ◌^◌, Bool-cases, inl, inr, sym, arith,
  ap, ◌==◌, update, refl,
}
use kus_operating_system_pro.Bio.{with_buf}
use kus_operating_system_pro.Shared.{List, [], false, is_in, true, ℕ, ◌∷◌, ◌≡◌, ◌≢◌}
use mathlib.Core.Bool.{false≢true}

-- No two buffers of the list cache the same block of a device. Device 0 is that of the buffers that
-- have not been used yet.
abbrev pub IsUnique : Bcache → Type 0
IsUnique c =
    (a b : ℕ)
    → is_in a c.order ≡ true
    → is_in b c.order ≡ true
    → (c.bufs a).dev ≢ 0
    → (c.bufs a).dev ≡ (c.bufs b).dev
    → (c.bufs a).blockno ≡ (c.bufs b).blockno
    → a ≡ b

kept_name :
    (b : ℕ) (v : Buf) (c : Bcache) (x : ℕ)
    → v.dev ≡ (c.bufs b).dev
    → v.blockno ≡ (c.bufs b).blockno
    → (((with_buf b v c).bufs x).dev ≡ (c.bufs x).dev)
      × (((with_buf b v c).bufs x).blockno ≡ (c.bufs x).blockno)
kept_name b v c x d n = elim (ℕ_discrete x b) [
  | yes here ↦ (
    ground (arith, ap (λ y. (c.bufs y).dev) here),
    ground (arith, ap (λ y. (c.bufs y).blockno) here),
  )
  | no apart ↦ (ground arith, ground arith)
]

-- A change that keeps what the buffer caches keeps uniqueness.
with_buf-IsUnique :
    (b : ℕ) (v : Buf) (c : Bcache)
    → v.dev ≡ (c.bufs b).dev
    → v.blockno ≡ (c.bufs b).blockno
    → IsUnique c
    → IsUnique (with_buf b v c)
with_buf-IsUnique b v c d n u x y ix iy real same_dev same_no =
    let (dx, nx) = kept_name b v c x d n in
    let (dy, ny) = kept_name b v c y d n in
    u x y ix iy (λ z. real (dx ∙ z)) (sym dx ∙ same_dev ∙ dy) (sym nx ∙ same_no ∙ ny)

-- `c'` differs from `c` in buffer `b` alone, which caches the block: it did before and has one reference
-- more, or no buffer did, it had no references, and it has one now, its data not read yet.
pub record Gave (dev blockno b : ℕ) (c c' : Bcache) : Type 0 where
  pub unique : IsUnique c'
  pub right : caches dev blockno (c'.bufs b) ≡ true
  pub listed : is_in b c.order ≡ true
  pub taken :
      (c'.bufs b ≡ record (c.bufs b) { refcnt = ((c.bufs b).refcnt + 1) % 2 ^ 32 })
      ⊎ (((c.bufs b).refcnt ≡ 0)
          × ((x : ℕ) → is_in x c.order ≡ true → caches dev blockno (c.bufs x) ≡ false)
          × ((c'.bufs b).refcnt ≡ 1)
          × ((c'.bufs b).valid ≡ false))
  pub order_kept : c'.order ≡ c.order
  pub others_kept : (x : ℕ) → update c'.bufs b (c.bufs b) x ≡ c.bufs x

unlink-is_in :
    (b x : ℕ) (xs : List ℕ) → is_in x (b ∷ unlink b xs) ≡ true → (x ≡ b) ⊎ (is_in x xs ≡ true)
unfolding unlink is_in
unlink-is_in b x [] h = ground arith
unlink-is_in b x (y ∷ ys) h = ground (arith, unlink-is_in b x ys)

-- `unlink` takes out the first occurrence of a buffer and keeps the rest in order.
unlink_parts :
    (b : ℕ) (xs : List ℕ)
    → is_in b xs ≡ true
    → (before : List ℕ) × (after : List ℕ) × (xs ≡ before ++ b ∷ after)
      × (is_in b before ≡ false)
      × (unlink b xs ≡ before ++ after)
unfolding unlink is_in
unlink_parts b [] i = absurd (false≢true i)
unlink_parts b (x ∷ xs) i = elim (ℕ_discrete x b) [
  | yes same ↦
      let c : (x == b) ≡ true = ground arith in ([], xs, ap (λ y. y ∷ xs) same, refl, rw c refl)
  | no other ↦
      let c : (x == b) ≡ false = ground arith in
      let d : (b == x) ≡ false = ground arith in
      let (before, after, e, out, g) = unlink_parts b xs (ground (arith, i, d)) in
      (x ∷ before, after, ap (λ l. x ∷ l) e, ground (arith, d, out), rw c (ap (λ l. x ∷ l) g))
]

-- What becomes of the list: the last reference puts the buffer first, all others in their order.
pub data Reordered (b : ℕ) (c c' : Bcache) : Type 0 where
  last_one :
      (before after : List ℕ)
      → (c.bufs b).refcnt ≡ 1
      → c.order ≡ before ++ b ∷ after
      → is_in b before ≡ false
      → c'.order ≡ b ∷ (before ++ after)
      → Reordered b c c'
  more_left : (c.bufs b).refcnt ≢ 1 → c'.order ≡ c.order → Reordered b c c'

-- `brelse` of a buffer of the list keeps every block cached once at most. It takes one reference from
-- the buffer and changes nothing else of any buffer. If that was the last reference, the buffer comes
-- first in the list, as the most recently used one, before all others in their old order; otherwise the
-- list stays as it is.
pub brelse-IsUnique :
    (b : ℕ) (c : Bcache)
    → IsUnique c
    → is_in b c.order ≡ true
    → 0 < (c.bufs b).refcnt
    → (c.bufs b).refcnt < 2 ^ 32
    → IsUnique (brelse b c)
      × Reordered b c (brelse b c)
      × ((brelse b c).bufs b ≡ record (c.bufs b) { refcnt = (c.bufs b).refcnt - 1 })
      × ((x : ℕ) → x ≢ b → (brelse b c).bufs x ≡ c.bufs x)
unfolding brelse
brelse-IsUnique b c u i some_left small = elim (Bool-cases ((c.bufs b).refcnt == 1)) [
  | inl once ↦
      let (before, after, e, out, g) = unlink_parts b c.order i in
      rw (last ∙ once) (
        λ x y ix iy. dropped x y (member x ix) (member y iy),
        last_one before after (ground (arith, once)) e out (ap (λ l. b ∷ l) g),
        one_less,
        λ x other. update_ne c.bufs _ other,
      )
  | inr more ↦ rw (last ∙ more) (
    dropped,
    more_left (ground (arith, more)) refl,
    one_less,
    λ x other. update_ne c.bufs _ other,
  )
]
  where
    last : (((drop_reference b c).bufs b).refcnt == 0) ≡ ((c.bufs b).refcnt == 1)
    last = ground arith

    one_less : (drop_reference b c).bufs b ≡ record (c.bufs b) { refcnt = (c.bufs b).refcnt - 1 }
    one_less =
        let e : ((c.bufs b).refcnt + 2 ^ 32 - 1) % 2 ^ 32 ≡ (c.bufs b).refcnt - 1 = omega arith in
        update_self c.bufs b _ ∙ ap (λ n. record (c.bufs b) { refcnt = n }) e

    dropped : IsUnique (drop_reference b c)
    dropped = with_buf-IsUnique b _ c refl refl u

    member : (x : ℕ) → is_in x (b ∷ unlink b c.order) ≡ true → is_in x c.order ≡ true
    member x h = elim (unlink-is_in b x c.order h) [
      | inl e ↦ subst (λ y. is_in y c.order ≡ true) (sym e) i
      | inr m ↦ m
    ]
