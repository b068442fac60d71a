-- ===== src/Inode/Tests.antt =====
-- Runs of the theorems on the content of files.
use kus_operating_system_pro.Inode.Layout.{IsSized, iload-iupdate}
use kus_operating_system_pro.Inode.Emptying.{Truncated, itrunc-Truncated}
use Prim.Native.Nat.{min}
use kus_operating_system_pro.Inode.{iload, iupdate, Copies, Inode, readi}
use kus_operating_system_pro.Shared.{
  arith, if◌then◌else◌, ltb, refl, sym, true, ℕ, ◌&&◌, ◌+◌, ◌-◌, ◌==◌, ◌∙◌, ◌≡◌, ◌≢◌,
}
use kus_operating_system_pro.Fs.{bblock, bit_clear, Disk, Superblock}
use kus_operating_system_pro.Fs.Alloc.{IsMapped}
use kus_operating_system_pro.Fs.Blocks.{is_used}
use kus_operating_system_pro.Inode.Blocks.{Held, IsFile, block_of}
use kus_operating_system_pro.Inode.Bmap.{Mapped, bmap-Mapping}
use kus_operating_system_pro.Inode.Content.{Read, readi-Read}
use mathlib.Core.Path.{subst}

abbrev small : Superblock
small = record { size = 16; ninodes = 8; inodestart = 1; bmapstart = 2 }

-- Blocks 0 to 3 are in use, and block 3 holds some bytes.
abbrev sample : Disk
sample b a =
    if b == 2 then (if a == 0 then 15 else 0) else if (b == 3) && ltb a 5 then 65 + a else 0

-- The root directory's place for a file of five bytes in block 3.
abbrev five : Inode
five = record {
  dev = 1;
  inum = 2;
  ref = 1;
  locked = true;
  valid = true;
  type' = 2;
  major = 0;
  minor = 0;
  nlink = 1;
  size = 5;
  addrs = λ i. if i == 0 then 3 else 0;
}

sample-IsMapped : IsMapped small sample
unfolding bit_clear
sample-IsMapped = record {
  bytes = λ b a. ground arith;
  own = λ x lt.
      let e : bblock x small ≡ 2 = omega arith in
      subst (λ y. is_used small sample y ≡ true) (sym e) refl;
  fits = λ x lt. omega arith;
}

five-block_of : (n : ℕ) → block_of five sample n ≡ (if n == 0 then 3 else 0)
unfolding block_of
five-block_of n = ground arith

three-Held : Held small sample 3
unfolding bit_clear
three-Held = record { in_size = omega arith; in_use = refl; no_map = λ x lt. omega arith }

five-part : (n : ℕ) → block_of five sample n ≢ 0 → (n ≡ 0) × (block_of five sample n ≡ 3)
five-part n h = let e = five-block_of n in (ground (arith, e), ground (arith, e))

five-IsFile : IsFile small five sample
unfolding bit_clear
five-IsFile = record {
  mapped = sample-IsMapped;
  words = omega arith;
  zero_used = refl;
  indirect = λ h. absurd (h refl);
  parts = λ n lt h. subst (Held small sample) (sym ((five-part n h).1)) three-Held;
  apart = λ n lt h. absurd (h refl);
  distinct = λ m n ml nl h e. (five-part m h).0 ∙ sym ((five-part n (λ z. h (e ∙ z))).0);
}

bmap-Mapping_example : Mapped small five sample 12
bmap-Mapping_example = bmap-Mapping small five sample 12 five-IsFile (omega arith)

abbrev copies : Copies
copies tot m = true

readi-Read_example :
    Read small copies five sample (min 9 (5 - 2)) 0 2 (readi small copies 2 9 five sample)
readi-Read_example = readi-Read small copies 2 9 five sample five-IsFile (omega arith) (omega arith)

itrunc-Truncated_example : Truncated small five sample
itrunc-Truncated_example = itrunc-Truncated small five sample five-IsFile (λ x lt. omega arith)

five-IsSized : IsSized five
five-IsSized = record {
  type_word = omega arith;
  major_word = omega arith;
  minor_word = omega arith;
  nlink_word = omega arith;
  size_word = omega arith;
  addrs_word = λ i. ground arith;
}

-- Another entry of the table loads the fields of `five`, and its address 0 is block 3.
abbrev entry : Inode
entry = record five { type' = 0; size = 99; addrs = λ i. 7 }

iload-iupdate_example :
    let loaded = iload small entry (iupdate small five sample) in
    (loaded.type' ≡ 2)
    × (loaded.major ≡ 0)
    × (loaded.minor ≡ 0)
    × (loaded.nlink ≡ 1)
    × (loaded.size ≡ 5)
    × (loaded.addrs 0 ≡ 3)
iload-iupdate_example = iload-iupdate small five entry sample 0 five-IsSized refl (omega arith)
