-- ===== src/Itable.antt =====
-- kernel/fs.c: the table of inodes in memory, its references, and the operations that lock, load and
-- free an inode. A pointer to an inode is its index in the table. `begin_op` and `end_op` of the log
-- (Log.antt) bracket these operations and are left out.
pub mod Unique
mod Tests
use kus_operating_system_pro.Fs.{Disk, Superblock}
use kus_operating_system_pro.Inode.{Inode, dinode_bytes, get16, iblock, iload, ipb, itrunc, iupdate}
use kus_operating_system_pro.Shared.{
  Bool, Option, false, if◌then◌else◌, ltb, none, not, some, suc, true, update, zero, ℕ, ◌%◌, ◌&&◌,
  ◌*◌, ◌+◌, ◌-◌, ◌==◌, ◌||◌,
}

-- The table, and the disk as the running transaction sees it.
pub record Files : Type 0 where
  pub itable : ℕ → Inode
  pub disk : Disk

abbrev pub ninode : ℕ
ninode = 50

-- The calls of `panic`, named for their message.
pub data Complaint : Type 0 where
  no_inodes bad_ilock no_type bad_iunlock : Complaint
  out_of_range freeing_free : Complaint
  not_dir dirlookup_read dirlink_read : Complaint

-- What file system code comes to: a result, a panic, or a sleep on the lock of an inode.
pub data Fsr (A : Type 0) : Type 0 where
  done : A → Files → Fsr A
  panics : Complaint → Fsr A
  waits : ℕ → Fsr A

abbrev pub F : Type 0 → Type 0
F A = Files → Fsr A

abbrev pub give : {A : Type 0} → A → F A
give a s = done a s

module _ {A B : Type 0} where
  abbrev pub go_on : Fsr A → (A → F B) → Fsr B
  go_on (done a s) f = f a s
  go_on (panics e) f = panics e
  go_on (waits i) f = waits i

  infixl 5 ◌>>=◌ ◌>>◌
  abbrev pub ◌>>=◌ : F A → (A → F B) → F B
  ◌>>=◌ m f s = go_on (m s) f

  abbrev pub ◌>>◌ : F A → F B → F B
  ◌>>◌ m n s = go_on (m s) (λ _. n)

abbrev pub set_inode : ℕ → Inode → Files → Files
set_inode i ip s = record s { itable = update s.itable i ip }

-- What the loop of `iget` finds: the inode, or the first entry that is free.
pub data Slot : Type 0 where
  hit : ℕ → Slot
  vacant : Option ℕ → Slot

abbrev pub holds : ℕ → ℕ → Inode → Bool
holds dev inum ip = ltb 0 ip.ref && (ip.dev == dev) && (ip.inum == inum)

-- `if(empty == 0 && ip->ref == 0) empty = ip`.
abbrev pub remember : Option ℕ → ℕ → Inode → Option ℕ
remember (some e) i ip = some e
remember none i ip = if ip.ref == 0 then some i else none

unfoldable pub find_inode : ℕ → ℕ → ℕ → ℕ → Option ℕ → (ℕ → Inode) → Slot
find_inode dev inum zero i empty t = vacant empty
find_inode dev inum (suc n) i empty t =
    let rest = find_inode dev inum n (i + 1) (remember empty i (t i)) t in
    if holds dev inum (t i) then hit i else rest

unfoldable pub take_inode : ℕ → ℕ → Slot → F ℕ
take_inode dev inum (hit i) s =
    done i (set_inode i (record (s.itable i) { ref = (s.itable i).ref + 1 }) s)
take_inode dev inum (vacant (some i)) s =
    done i (set_inode i (record (s.itable i) { dev = dev; inum = inum; ref = 1; valid = false }) s)
take_inode dev inum (vacant none) s = panics no_inodes

unfoldable pub iget : ℕ → ℕ → F ℕ
iget dev inum s = take_inode dev inum (find_inode dev inum ninode 0 none s.itable) s

unfoldable pub idup : ℕ → F ℕ
idup i s = done i (set_inode i (record (s.itable i) { ref = (s.itable i).ref + 1 }) s)

module _ (sb : Superblock) where
  -- `ilock` behind `acquiresleep`.
  unfoldable pub load_locked : ℕ → F (Unit {0})
  load_locked i s =
      let ip = record (s.itable i) { locked = true } in
      let loaded = iload sb ip s.disk in
      if ip.valid
      then done tt (set_inode i ip s)
      else if loaded.type' == 0
      then panics no_type
      else done tt (set_inode i loaded s)

  unfoldable pub ilock : ℕ → F (Unit {0})
  ilock i s =
      if ltb (s.itable i).ref 1
      then panics bad_ilock
      else if (s.itable i).locked
      then waits i
      else load_locked i s

  -- The caller is taken for the holder of the lock if the lock is held.
  unfoldable pub iunlock : ℕ → F (Unit {0})
  iunlock i s =
      if not (s.itable i).locked || ltb (s.itable i).ref 1
      then panics bad_iunlock
      else done tt (set_inode i (record (s.itable i) { locked = false }) s)

  -- `ip->type = 0; iupdate(ip); ip->valid = 0` on what `itrunc` gives.
  unfoldable pub erase_inode : ℕ → Option (Inode × Disk) → F (Unit {0})
  erase_inode i none s = panics freeing_free
  erase_inode i (some (ip, d)) s = done tt (record s {
    itable = update s.itable i (record ip { type' = 0; valid = false });
    disk = iupdate sb (record ip { type' = 0 }) d;
  })

  abbrev pub is_orphan : Inode → Bool
  is_orphan ip = (ip.ref == 1) && ip.valid && (ip.nlink == 0)

  unfoldable pub drop_inode : ℕ → F (Unit {0})
  drop_inode i s = done tt (set_inode i (record (s.itable i) { ref = (s.itable i).ref - 1 }) s)

  -- The reference count is at least 1 whenever a reference is dropped.
  unfoldable pub iput : ℕ → F (Unit {0})
  iput i s =
      if is_orphan (s.itable i)
      then (if (s.itable i).locked
          then waits i
          else go_on (erase_inode i (itrunc sb (s.itable i) s.disk) s) (λ _. drop_inode i))
      else drop_inode i s

  unfoldable pub iunlockput : ℕ → F (Unit {0})
  iunlockput i = do iunlock i; iput i

  abbrev pub dinode_at : ℕ → ℕ
  dinode_at inum = inum % ipb * dinode_bytes

  -- The type and the link count of inode `inum` on disk.
  abbrev pub disk_type : ℕ → Disk → ℕ
  disk_type inum d = get16 (dinode_at inum) (d (iblock inum sb))

  abbrev pub disk_nlink : ℕ → Disk → ℕ
  disk_nlink inum d = get16 (dinode_at inum + 6) (d (iblock inum sb))

  -- `memset(dip, 0, sizeof(*dip)); dip->type = type`.
  abbrev pub new_dinode : ℕ → ℕ → Inode → Inode
  new_dinode inum type' ip = record ip {
    inum = inum;
    type' = type';
    major = 0;
    minor = 0;
    nlink = 0;
    size = 0;
    addrs = λ i. 0;
  }

  -- `n` rounds of the loop of `ialloc`, from `inum` on; `none` for the null pointer.
  unfoldable pub ialloc_from : ℕ → ℕ → ℕ → ℕ → F (Option ℕ)
  ialloc_from dev type' zero inum s = done none s
  ialloc_from dev type' (suc n) inum s =
      let rest = ialloc_from dev type' n (inum + 1) s in
      if disk_type inum s.disk == 0
      then go_on
          (iget dev inum
            (record s { disk = iupdate sb (new_dinode inum type' (s.itable 0)) s.disk }))
          (λ i. give (some i))
      else rest

  unfoldable pub ialloc : ℕ → ℕ → F (Option ℕ)
  ialloc dev type' = ialloc_from dev type' (sb.ninodes - 1) 1

  unfoldable pub reclaim : ℕ → ℕ → F (Unit {0})
  reclaim dev inum = do i ← iget dev inum; ilock i; iunlock i; iput i

  unfoldable pub ireclaim_from : ℕ → ℕ → ℕ → F (Unit {0})
  ireclaim_from dev zero inum s = done tt s
  ireclaim_from dev (suc n) inum s =
      if not (disk_type inum s.disk == 0) && (disk_nlink inum s.disk == 0)
      then go_on (reclaim dev inum s) (λ _. ireclaim_from dev n (inum + 1))
      else ireclaim_from dev n (inum + 1) s

  unfoldable pub ireclaim : ℕ → F (Unit {0})
  ireclaim dev = ireclaim_from dev (sb.ninodes - 1) 1
