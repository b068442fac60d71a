-- ===== src/Fs/Free.antt =====
-- kernel/fs.c, `bfree`: freeing a block, and freeing what was allocated.
use kus_operating_system_pro.Fs.Bits.{bits-small}
use kus_operating_system_pro.Fs.Blocks.{is_used, is_used-unset, put_byte-at, put_map}
use kus_operating_system_pro.Fs.Alloc.{
  IsMapped, Marked, balloc-Allocation, first_free, full, marked, marked-Marked,
}
use kus_operating_system_pro.Fs.{Disk, Superblock, balloc, bblock, bfree, bpb, unset_bit}
use kus_operating_system_pro.Shared.{
  Bool, ◌||◌, Bool-cases, ap, arith, false, inl, inr, ltb, none, not, refl, some, sym, true, ℕ, ◌%◌,
  ◌&&◌, ◌/◌, ◌<◌, ◌==◌, ◌∙◌, ◌≡◌, ◌≢◌, ◌≤◌,
}
use mathlib.Core.Bool.{false≢true}
use native.Mathlib.Decide.{dec_lt}

-- `d'` is `d` with the block `b` free.
pub record Freed (sb : Superblock) (d : Disk) (b : ℕ) (d' : Disk) : Type 0 where
  pub bytes : (y a : ℕ) → d' y a < 256
  pub used : (x : ℕ) → is_used sb d' x ≡ (not (x == b) && is_used sb d x)
  pub others : (y a : ℕ) → y ≢ bblock b sb → d' y a ≡ d y a

-- `bfree` of a block in use frees it, in the free map only, and leaves every other block's state as it
-- was; of a free block it panics.
pub bfree-Freed :
    (sb : Superblock) (d : Disk) (b : ℕ)
    → ((y a : ℕ) → d y a < 256)
    → is_used sb d b ≡ true
    → (d' : Disk) × (bfree sb b d ≡ some d') × Freed sb d b d'
unfolding bfree
bfree-Freed sb d b small used' = (
  put_map sb b (unset_bit (b % bpb) (d (bblock b sb) (b % bpb / 8))) d,
  ground (arith, used'),
  record {
    bytes = λ y a. ground (
      arith,
      put_byte-at (bblock b sb) (b % bpb / 8) (unset_bit (b % bpb) (d (bblock b sb) (b % bpb / 8)))
          d y a,
      small y a,
      bits-small (b % bpb) (d (bblock b sb) (b % bpb / 8)) (small (bblock b sb) (b % bpb / 8)),
    );
    used = λ x. is_used-unset sb b d x (small (bblock b sb) (b % bpb / 8));
    others = λ y a far. ground arith;
  },
)

pub bfree-panics :
    (sb : Superblock) (d : Disk) (b : ℕ) → is_used sb d b ≡ false → bfree sb b d ≡ none
unfolding bfree
bfree-panics sb d b free = ground (arith, free)

back : (x b : ℕ) (u : ℕ → Bool) → u b ≡ false → (not (x == b) && ((x == b) || u x)) ≡ u x
back x b u h = ground (arith, ap u)

-- While some block of the device is free, `balloc` gives out a block that was free, the first one, in
-- use and zeroed afterwards, with every other block's state and every block but this one and that of
-- its bit as before; and `bfree` of it then succeeds and brings the set of blocks in use back.
pub bfree-balloc :
    (sb : Superblock) (d : Disk) (y : ℕ)
    → IsMapped sb d
    → y < sb.size
    → is_used sb d y ≡ false
    → (b : ℕ) × (d' : Disk) × (d'' : Disk) × (balloc sb d ≡ (b, d'))
      × (b ≤ y)
      × (is_used sb d b ≡ false)
      × Marked sb d b d'
      × (bfree sb b d' ≡ some d'')
      × ((x : ℕ) → (ltb x sb.size && is_used sb d'' x) ≡ (ltb x sb.size && is_used sb d x))
bfree-balloc sb d y m lt free = elim (balloc-Allocation sb d) [
  | full e u ↦ absurd (false≢true (sym free ∙ u y lt))
  | first_free b e in_size was_free least ↦
      let k = marked-Marked sb d b m was_free in
      let (d'', ok', f) =
        bfree-Freed sb (marked sb b d) b k.mapped.bytes (k.used b in_size ∙ ground arith) in
      (
        b,
        marked sb b d,
        d'',
        e,
        elim (dec_lt y b) [
          | yes early ↦ absurd (false≢true (sym free ∙ least y early))
          | no late ↦ omega arith
        ],
        was_free,
        k,
        ok',
        λ x. elim (Bool-cases (ltb x sb.size)) [
          | inl inside ↦ rw inside (
              f.used x
              ∙ ap (λ c. not (x == b) && c) (k.used x (ground arith))
              ∙ back x b (is_used sb d) was_free)
          | inr outside ↦ rw outside refl
        ],
      )
]
