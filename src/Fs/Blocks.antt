-- ===== src/Fs/Blocks.antt =====
-- kernel/fs.c: the free map as the set of the blocks in use, and what a change of one bit does to it.
use kus_operating_system_pro.Fs.Bits.{bit_clear-set_bit, bit_clear-unset_bit}
use kus_operating_system_pro.Fs.{
  Disk, Superblock, bblock, bit_clear, bpb, put_byte, set_bit, unset_bit,
}
use kus_operating_system_pro.Shared.{
  Bool, ap, arith, false, if◌then◌else◌, not, refl, true, ℕ, ◌%◌, ◌&&◌, ◌/◌, ◌<◌, ◌==◌, ◌||◌, ◌∙◌,
  ◌≡◌,
}
use native.Mathlib.Decide.{ℕ_discrete}

-- The bitmap says that the block is in use.
abbrev pub is_used : Superblock → Disk → ℕ → Bool
is_used sb d b = not (bit_clear (b % bpb) (d (bblock b sb) (b % bpb / 8)))

-- The disk with another byte for block `b` in the bitmap.
abbrev pub put_map : Superblock → ℕ → ℕ → Disk → Disk
put_map sb b v d = put_byte (bblock b sb) (b % bpb / 8) v d

pub put_byte-at :
    (b a v : ℕ) (d : Disk) (b' a' : ℕ)
    → put_byte b a v d b' a' ≡ (if (b' == b) && (a' == a) then v else d b' a')
put_byte-at b a v d b' a' = ground (arith, ap (λ y. d y a'))

is_used-put_map :
    (sb : Superblock) (b v : ℕ) (d : Disk) (x : ℕ)
    → is_used sb (put_map sb b v d) x
      ≡ (if x / 8 == b / 8 then not (bit_clear (x % bpb) v) else is_used sb d x)
is_used-put_map sb b v d x =
    ap (λ y. not (bit_clear (x % bpb) y))
      (put_byte-at (bblock b sb) (b % bpb / 8) v d (bblock x sb) (x % bpb / 8))
    ∙ elim (ℕ_discrete (x / 8) (b / 8)) [
      | yes near ↦
          let e : (bblock x sb == bblock b sb) ≡ true = ground arith in
          let f : (x % bpb / 8 == b % bpb / 8) ≡ true = ground arith in
          let g : (x / 8 == b / 8) ≡ true = ground arith in rw (e, f, g) refl
      | no far ↦
          let e : ((bblock x sb == bblock b sb) && (x % bpb / 8 == b % bpb / 8)) ≡ false =
            ground arith in
          let g : (x / 8 == b / 8) ≡ false = ground arith in rw (e, g) refl
    ]

map_byte :
    (sb : Superblock) (b : ℕ) (d : Disk) (x : ℕ)
    → x / 8 ≡ b / 8
    → d (bblock x sb) (x % bpb / 8) ≡ d (bblock b sb) (b % bpb / 8)
map_byte sb b d x near = ap (λ y. d y (x % bpb / 8)) blocks ∙ ap (d (bblock b sb)) bytes
  where
    blocks : bblock x sb ≡ bblock b sb
    blocks = omega arith

    bytes : x % bpb / 8 ≡ b % bpb / 8
    bytes = omega arith

pub is_used-set :
    (sb : Superblock) (b : ℕ) (d : Disk) (x : ℕ)
    → d (bblock b sb) (b % bpb / 8) < 256
    → is_used sb (put_map sb b (set_bit (b % bpb) (d (bblock b sb) (b % bpb / 8))) d) x
      ≡ ((x == b) || is_used sb d x)
is_used-set sb b d x small = is_used-put_map sb b _ d x ∙ elim (ℕ_discrete (x / 8) (b / 8)) [
  | yes near ↦
      let g : (x / 8 == b / 8) ≡ true = ground arith in
      let h : (x % bpb % 8 == b % bpb % 8) ≡ (x == b) = ground arith in
      rw g (
        ap not (bit_clear-set_bit (b % bpb) (x % bpb) _ small)
        ∙ ground (arith, h, map_byte sb b d x near))
  | no far ↦
      let g : (x / 8 == b / 8) ≡ false = ground arith in
      let h : (x == b) ≡ false = ground arith in rw (g, h) refl
]

pub is_used-unset :
    (sb : Superblock) (b : ℕ) (d : Disk) (x : ℕ)
    → d (bblock b sb) (b % bpb / 8) < 256
    → is_used sb (put_map sb b (unset_bit (b % bpb) (d (bblock b sb) (b % bpb / 8))) d) x
      ≡ (not (x == b) && is_used sb d x)
is_used-unset sb b d x small = is_used-put_map sb b _ d x ∙ elim (ℕ_discrete (x / 8) (b / 8)) [
  | yes near ↦
      let g : (x / 8 == b / 8) ≡ true = ground arith in
      let h : (x % bpb % 8 == b % bpb % 8) ≡ (x == b) = ground arith in
      rw g (
        ap not (bit_clear-unset_bit (b % bpb) (x % bpb) _ small)
        ∙ ground (arith, h, map_byte sb b d x near))
  | no far ↦
      let g : (x / 8 == b / 8) ≡ false = ground arith in
      let h : (x == b) ≡ false = ground arith in rw (g, h) refl
]
