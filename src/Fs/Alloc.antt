-- ===== src/Fs/Alloc.antt =====
-- kernel/fs.c, `balloc` and `bfree`: the allocator of disk blocks as a set of blocks in use.
use kus_operating_system_pro.Fs.Bits.{bits-small}
use kus_operating_system_pro.Fs.Blocks.{is_used-set, put_byte-at, is_used, put_map}
use mathlib.Core.Bool.{false≢true}
use native.Mathlib.Decide.{dec_lt}
use kus_operating_system_pro.Shared.{
  none-some, update_ne, update_self, ◌==◌, ◌||◌, ◌≢◌, Option-cases, ap, not, refl, sym, ◌*◌, ◌-◌,
  ◌∙◌, Bool-cases, arith, false, inl, inr, some, suc, true, zero, ℕ, ◌%◌, ◌+◌, ◌/◌, ◌<◌, ◌≡◌, ◌≤◌,
}
use kus_operating_system_pro.Fs.{
  balloc, balloc_at, balloc_from, put_byte, Disk, Superblock, bblock, bit_clear, bpb, bzero,
  free_bit, set_bit,
}
use Prim.Native.Nat.{min}
use native.Mathlib.Decide.{ℕ_discrete}
use mathlib.Core.Path.{subst}

-- The disk holds bytes, and the blocks of the free map are themselves in use.
pub record IsMapped (sb : Superblock) (d : Disk) : Type 0 where
  pub bytes : (b a : ℕ) → d b a < 256
  pub own : (x : ℕ) → x < sb.size → is_used sb d (bblock x sb) ≡ true
  pub fits : (x : ℕ) → x < sb.size → bblock x sb < sb.size

-- The disk after block `b` has been marked in use and zeroed.
abbrev pub marked : Superblock → ℕ → Disk → Disk
marked sb b d = bzero b (put_map sb b (set_bit (b % bpb) (d (bblock b sb) (b % bpb / 8))) d)

-- What `balloc` has done to the disk `d`: it gave out the first block of the device that was free, or
-- there was none.
pub data Allocation (sb : Superblock) (d : Disk) : ℕ × Disk → Type 0 where
  full :
      {r : ℕ × Disk}
      → r ≡ (0, d)
      → ((x : ℕ) → x < sb.size → is_used sb d x ≡ true)
      → Allocation sb d r
  first_free :
      {r : ℕ × Disk} (b : ℕ)
      → r ≡ (b, marked sb b d)
      → b < sb.size
      → is_used sb d b ≡ false
      → ((x : ℕ) → x < b → is_used sb d x ≡ true)
      → Allocation sb d r

free_bit-some :
    (n bi : ℕ) (block : ℕ → ℕ) (r : ℕ)
    → free_bit n bi block ≡ some r
    → (bi ≤ r) × (r < bi + n) × (bit_clear r (block (r / 8)) ≡ true)
unfolding free_bit
free_bit-some zero bi block r h = absurd cc
free_bit-some (suc n) bi block r h = elim (Bool-cases (bit_clear bi (block (bi / 8)))) [
  | inl clear ↦
      let e : bi ≡ r = ground (arith, h) in
      (omega arith, omega arith, subst (λ y. bit_clear y (block (y / 8)) ≡ true) e clear)
  | inr set ↦
      let (a, b, c) = free_bit-some n (bi + 1) block r (ground (arith, h)) in
      (omega arith, omega arith, c)
]

-- Every bit before the one that is found, or every bit of the range, is set.
free_bit-before :
    (n bi : ℕ) (block : ℕ → ℕ) (x : ℕ)
    → bi ≤ x
    → x < bi + n
    → ((r : ℕ) → free_bit n bi block ≡ some r → x < r)
    → bit_clear x (block (x / 8)) ≡ false
unfolding free_bit
free_bit-before zero bi block x lo hi h = absurd (omega arith)
free_bit-before (suc n) bi block x lo hi h = elim (Bool-cases (bit_clear bi (block (bi / 8)))) [
  | inl clear ↦ absurd (omega (arith, h bi (rw clear refl)))
  | inr set ↦ elim (ℕ_discrete bi x) [
    | yes here ↦ subst (λ y. bit_clear y (block (y / 8)) ≡ false) here set
    | no apart ↦
        free_bit-before n (bi + 1) block x (omega arith) (omega arith) (λ r e. h r (rw set e))
  ]
]

-- Bit `bi` of a block of the free map stands for block `b + bi`.
bblock-bit :
    (sb : Superblock) (b bi : ℕ) → b % bpb ≡ 0 → bi < bpb → bblock (b + bi) sb ≡ bblock b sb
bblock-bit sb b bi aligned small = omega arith

is_used-bit :
    (sb : Superblock) (d : Disk) (b bi : ℕ)
    → b % bpb ≡ 0
    → bi < bpb
    → is_used sb d (b + bi) ≡ not (bit_clear bi (d (bblock b sb) (bi / 8)))
is_used-bit sb d b bi aligned small =
    ap (λ m. not (bit_clear ((b + bi) % bpb) (d m ((b + bi) % bpb / 8))))
      (bblock-bit sb b bi aligned small)
    ∙ ap (λ t. not (bit_clear t (d (bblock b sb) (t / 8)))) place
  where
    place : (b + bi) % bpb ≡ bi
    place = omega arith

balloc_at-marked :
    (sb : Superblock) (d : Disk) (b bi : ℕ)
    → b % bpb ≡ 0
    → bi < bpb
    → balloc_at (bblock b sb) b bi d ≡ (b + bi, marked sb (b + bi) d)
unfolding balloc_at
balloc_at-marked sb d b bi aligned small = sym (
    ap (λ m. (b + bi, bzero (b + bi) (put_byte m (t / 8) (set_bit t (d m (t / 8))) d)))
      (bblock-bit sb b bi aligned small)
    ∙ ap
        (λ u. (
          b + bi,
          bzero (b + bi) (put_byte (bblock b sb) (u / 8) (set_bit u (d (bblock b sb) (u / 8))) d),
        ))
        place)
  where
    t : ℕ
    t = (b + bi) % bpb

    place : (b + bi) % bpb ≡ bi
    place = omega arith

-- Nothing of the range that one round looks at is free.
round_full :
    (sb : Superblock) (d : Disk) (b : ℕ)
    → b % bpb ≡ 0
    → ((x : ℕ) → x < b → x < sb.size → is_used sb d x ≡ true)
    → (k : ℕ) → k ≤ bpb
    → ((r : ℕ) → free_bit (min bpb (sb.size - b)) 0 (d (bblock b sb)) ≡ some r → k ≤ r)
    → (x : ℕ) → x < b + k
    → x < sb.size
    → is_used sb d x ≡ true
round_full sb d b aligned before k le h x lt in_size = elim (dec_lt x b) [
  | yes early ↦ before x early in_size
  | no late ↦
      let e : x ≡ b + (x - b) = omega arith in
      ap (is_used sb d) e
      ∙ is_used-bit sb d b (x - b) aligned (omega arith)
      ∙ ap not (
          free_bit-before (min bpb (sb.size - b)) 0 (d (bblock b sb)) (x - b) (omega arith)
            (omega arith) (λ r found. omega (arith, h r found)))
]

same_place : (bi r : ℕ) → some bi ≡ some r → bi ≤ r
same_place bi r h = let e : bi ≡ r = cc in omega arith

balloc_from-Allocation :
    (sb : Superblock) (n b : ℕ) (d : Disk)
    → b % bpb ≡ 0
    → sb.size ≤ b + n * bpb
    → ((x : ℕ) → x < b → x < sb.size → is_used sb d x ≡ true)
    → Allocation sb d (balloc_from sb n b d)
unfolding balloc_from
balloc_from-Allocation sb zero b d aligned covers before =
    full refl (λ x lt. before x (omega arith) lt)
balloc_from-Allocation sb (suc n) b d aligned covers before =
    elim (Option-cases (free_bit (min bpb (sb.size - b)) 0 (d (bblock b sb)))) [
      | inr (bi, e) ↦
          let (lo, hi, clear) = free_bit-some (min bpb (sb.size - b)) 0 (d (bblock b sb)) bi e in
          rw (e, balloc_from)
            (first_free (b + bi) (balloc_at-marked sb d b bi aligned (omega arith)) (omega arith)
              (is_used-bit sb d b bi aligned (omega arith) ∙ ap not clear)
              (λ x lt.
                round_full sb d b aligned before bi (omega arith)
                  (λ r found. same_place bi r (sym e ∙ found)) x lt (omega arith)))
      | inl e ↦
          rw (e, balloc_from)
            (balloc_from-Allocation sb n (b + bpb) d (omega arith) (omega arith) (λ x lt in_size.
              round_full sb d b aligned before bpb (omega arith)
                (λ r found. absurd (none-some (sym e ∙ found))) x lt in_size))
    ]

-- `balloc` on a disk gives out the first block of the device that is free, marked in use and zeroed,
-- or, if all are in use, gives 0 and leaves the disk as it was.
pub balloc-Allocation : (sb : Superblock) (d : Disk) → Allocation sb d (balloc sb d)
unfolding balloc
balloc-Allocation sb d =
    balloc_from-Allocation sb ((sb.size + bpb - 1) / bpb) 0 d refl (omega arith)
      (λ x lt. absurd (omega arith))

-- `d'` is `d` with the free block `b` in use and zeroed.
pub record Marked (sb : Superblock) (d : Disk) (b : ℕ) (d' : Disk) : Type 0 where
  pub mapped : IsMapped sb d'
  pub used : (x : ℕ) → x < sb.size → is_used sb d' x ≡ ((x == b) || is_used sb d x)
  pub zeroed : (a : ℕ) → d' b a ≡ 0
  pub others : (y a : ℕ) → y ≢ b → y ≢ bblock b sb → d' y a ≡ d y a

module _ (sb : Superblock) (d : Disk) (b : ℕ) (m : IsMapped sb d)
    (free : is_used sb d b ≡ false) where
  pub not_map : (x : ℕ) → x < sb.size → bblock x sb ≢ b
  not_map x lt e = false≢true (sym free ∙ ap (is_used sb d) (sym e) ∙ m.own x lt)

  abbrev set_map : Disk
  set_map = put_map sb b (set_bit (b % bpb) (d (bblock b sb) (b % bpb / 8))) d

  marked_used : (x : ℕ) → x < sb.size → is_used sb (marked sb b d) x ≡ ((x == b) || is_used sb d x)
  unfolding bzero
  marked_used x lt =
      ap (λ (f : ℕ → ℕ). not (bit_clear (x % bpb) (f (x % bpb / 8))))
        (update_ne set_map (λ a. 0) (not_map x lt))
      ∙ is_used-set sb b d x (m.bytes (bblock b sb) (b % bpb / 8))

  marked_bytes : (y a : ℕ) → marked sb b d y a < 256
  unfolding bzero
  marked_bytes y a = ground (
    arith,
    put_byte-at (bblock b sb) (b % bpb / 8) (set_bit (b % bpb) (d (bblock b sb) (b % bpb / 8))) d y
        a,
    m.bytes y a,
    bits-small (b % bpb) (d (bblock b sb) (b % bpb / 8)) (m.bytes (bblock b sb) (b % bpb / 8)),
  )

  pub marked-Marked : Marked sb d b (marked sb b d)
  unfolding bzero
  marked-Marked = record {
    mapped = record {
      bytes = marked_bytes;
      own = λ x lt. marked_used (bblock x sb) (m.fits x lt) ∙ ground (arith, m.own x lt);
      fits = m.fits;
    };
    used = marked_used;
    zeroed = λ a. ap (λ (f : ℕ → ℕ). f a) (update_self set_map b (λ a. 0));
    others = λ y a ne far. ground arith;
  }
