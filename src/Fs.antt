-- ===== src/Fs.antt =====
-- kernel/fs.c and kernel/fs.h: the file system, on the logical contents of the disk's blocks, which are
-- those that `bread` hands out and `log_write` records. The device is the one that the system runs with.
pub mod Bits
pub mod Blocks
pub mod Alloc
pub mod Free
mod Tests
use kus_operating_system_pro.Shared.{
  Bool, Option, if◌then◌else◌, map, none, some, suc, update, zero, ℕ, ◌%◌, ◌*◌, ◌+◌, ◌-◌, ◌/◌, ◌==◌,
  ◌^◌,
}
use Prim.Native.Nat.{bit_and, bit_or, min}

-- `struct superblock` without the fields that only the image builder and the log read.
pub record Superblock : Type 0 where
  pub size : ℕ
  pub ninodes : ℕ
  pub inodestart : ℕ
  pub bmapstart : ℕ

abbrev pub bsize : ℕ
bsize = 1024

-- Bitmap bits per block.
abbrev pub bpb : ℕ
bpb = bsize * 8

-- The bytes of every block.
abbrev pub Disk : Type 0
Disk = ℕ → ℕ → ℕ

abbrev pub bblock : ℕ → Superblock → ℕ
bblock b sb = b / bpb + sb.bmapstart

-- `1 << (bi % 8)`, and the test, the setting and the clearing of that bit in a byte.
abbrev pub mask : ℕ → ℕ
mask bi = 2 ^ (bi % 8)

unfoldable pub bit_clear : ℕ → ℕ → Bool
bit_clear bi byte = bit_and byte (mask bi) == 0

unfoldable pub set_bit : ℕ → ℕ → ℕ
set_bit bi byte = bit_or byte (mask bi)

unfoldable pub unset_bit : ℕ → ℕ → ℕ
unset_bit bi byte = bit_and byte (255 - mask bi)

-- `bzero`.
unfoldable pub bzero : ℕ → Disk → Disk
bzero bno d = update d bno (λ a. 0)

abbrev pub put_byte : ℕ → ℕ → ℕ → Disk → Disk
put_byte b a v d = update d b (update (d b) a v)

-- The inner loop of `balloc` on the bitmap block `data`: the first clear bit of `n` from `bi` on.
unfoldable pub free_bit : ℕ → ℕ → (ℕ → ℕ) → Option ℕ
free_bit zero bi block = none
free_bit (suc n) bi block =
    let rest = free_bit n (bi + 1) block in if bit_clear bi (block (bi / 8)) then some bi else rest

unfoldable pub balloc_at : ℕ → ℕ → ℕ → Disk → ℕ × Disk
balloc_at map b bi d =
    (b + bi, bzero (b + bi) (put_byte map (bi / 8) (set_bit bi (d map (bi / 8))) d))

-- `n` rounds of the outer loop, from block `b` on: the block, 0 for none, and the disk.
unfoldable pub balloc_from : Superblock → ℕ → ℕ → Disk → ℕ × Disk
balloc_from sb zero b d = (0, d)
balloc_from sb (suc n) b d =
    let rest = balloc_from sb n (b + bpb) d in
    elim (free_bit (min bpb (sb.size - b)) 0 (d (bblock b sb))) [
      | some bi ↦ balloc_at (bblock b sb) b bi d
      | none ↦ rest
    ]

-- `b < sb.size` holds for `(sb.size + BPB - 1) / BPB` rounds.
unfoldable pub balloc : Superblock → Disk → ℕ × Disk
balloc sb d = balloc_from sb ((sb.size + bpb - 1) / bpb) 0 d

-- `none` for the panic "freeing free block".
unfoldable pub bfree : Superblock → ℕ → Disk → Option Disk
bfree sb b d =
    let byte = d (bblock b sb) (b % bpb / 8) in
    if bit_clear (b % bpb) byte
    then none
    else some (put_byte (bblock b sb) (b % bpb / 8) (unset_bit (b % bpb) byte) d)
