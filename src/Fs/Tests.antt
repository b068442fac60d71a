-- ===== src/Fs/Tests.antt =====
-- Runs of the theorems on the allocator of disk blocks.
use kus_operating_system_pro.Shared.{
  arith, false, if◌then◌else◌, ltb, refl, some, sym, true, ℕ, ◌&&◌, ◌==◌, ◌≡◌, ◌≤◌,
}
use kus_operating_system_pro.Fs.{bblock, bfree, bit_clear, balloc, Disk, Superblock}
use kus_operating_system_pro.Fs.Alloc.{Marked, IsMapped}
use kus_operating_system_pro.Fs.Free.{bfree-balloc}
use kus_operating_system_pro.Fs.Blocks.{is_used}
use mathlib.Core.Path.{subst}

abbrev small : Superblock
small = record { size = 16; ninodes = 8; inodestart = 1; bmapstart = 2 }

-- Blocks 0 to 3 are in use.
abbrev sample : Disk
sample b a = if (b == 2) && (a == 0) then 15 else 0

sample-IsMapped : IsMapped small sample
unfolding bit_clear
sample-IsMapped = record {
  bytes = λ b a. ground arith;
  own = λ x lt.
      let e : bblock x small ≡ 2 = omega arith in
      subst (λ y. is_used small sample y ≡ true) (sym e) refl;
  fits = λ x lt. omega arith;
}

bfree-balloc_example :
    (b : ℕ) × (d' : Disk) × (d'' : Disk) × (balloc small sample ≡ (b, d'))
    × (b ≤ 9)
    × (is_used small sample b ≡ false)
    × Marked small sample b d'
    × (bfree small b d' ≡ some d'')
    × ((x : ℕ) → (ltb x 16 && is_used small d'' x) ≡ (ltb x 16 && is_used small sample x))
bfree-balloc_example =
    bfree-balloc small sample 9 sample-IsMapped (omega arith) (unfold bit_clear in refl)
