-- ===== src/Itable/Tests.antt =====
-- Runs of the theorems on the table of inodes.
use kus_operating_system_pro.Inode.{Inode}
use kus_operating_system_pro.Shared.{arith, false, if◌then◌else◌, true, ℕ, ◌<◌, ◌==◌, ◌≡◌, ◌≢◌, ◌⊎◌}
use kus_operating_system_pro.Itable.{Files, done, holds, iget, ninode, no_inodes, panics}
use kus_operating_system_pro.Itable.Unique.{Referenced, IsUnique, iget-IsUnique}

-- Every entry is free but 0, which stands for inode 7.
abbrev entry : ℕ → Inode
entry i = record {
  dev = 1;
  inum = 7;
  ref = if i == 0 then 2 else 0;
  locked = false;
  valid = true;
  type' = 2;
  major = 0;
  minor = 0;
  nlink = 1;
  size = 0;
  addrs = λ j. 0;
}

abbrev some_files : Files
some_files = record { itable = entry; disk = λ b a. 0 }

entry-IsUnique : IsUnique entry
entry-IsUnique a b al bl ra rb d n = ground arith

iget-IsUnique_example :
    ((iget 1 9 some_files ≡ panics no_inodes)
      × ((j : ℕ) → j < ninode → ((entry j).ref ≢ 0) × (holds 1 9 (entry j) ≡ false)))
    ⊎ ((i : ℕ) × (s' : Files) × (iget 1 9 some_files ≡ done i s')
        × (i < ninode)
        × (holds 1 9 (s'.itable i) ≡ true)
        × IsUnique s'.itable
        × ((j : ℕ) → j < ninode → holds 1 9 (entry j) ≡ true → j ≡ i)
        × Referenced 1 9 (entry i) (s'.itable i)
        × ((j : ℕ) → j ≢ i → s'.itable j ≡ entry j)
        × (s'.disk ≡ some_files.disk))
iget-IsUnique_example = iget-IsUnique 1 9 some_files entry-IsUnique
