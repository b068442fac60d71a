-- ===== src/Inode.antt =====
-- kernel/fs.c: an inode's copy on disk, and its content in blocks. An inode is a value here, which
-- its functions hand back changed; the table of inodes is Itable.antt.
use kus_operating_system_pro.Fs.{Disk, Superblock, balloc, bfree, bsize}
use kus_operating_system_pro.Shared.{
  Bool, List, Option, [], drop, if◌then◌else◌, length, ltb, none, not, some, suc, take, true,
  update, zero, ℕ, ◌%◌, ◌*◌, ◌++◌, ◌+◌, ◌-◌, ◌/◌, ◌==◌, ◌^◌, ◌||◌, ◌∷◌,
}
pub mod Layout
pub mod Blocks
pub mod Map
pub mod Bmap
pub mod Content
pub mod Release
pub mod Truncate
pub mod Itrunc
pub mod Emptying
mod Tests
use Prim.Native.Nat.{min}

abbrev pub ndirect : ℕ
ndirect = 12

abbrev pub nindirect : ℕ
nindirect = bsize / 4

abbrev pub maxfile : ℕ
maxfile = ndirect + nindirect

-- `struct inode`; `locked` is the sleep lock. The types and counts are 16-bit, the others 32-bit.
pub record Inode : Type 0 where
  pub dev : ℕ
  pub inum : ℕ
  pub ref : ℕ
  pub locked : Bool
  pub valid : Bool
  pub type' : ℕ
  pub major : ℕ
  pub minor : ℕ
  pub nlink : ℕ
  pub size : ℕ
  pub addrs : ℕ → ℕ

-- Little-endian fields in the bytes of a block.
unfoldable pub get16 : ℕ → (ℕ → ℕ) → ℕ
get16 a f = f a + 256 * f (a + 1)

unfoldable pub get32 : ℕ → (ℕ → ℕ) → ℕ
get32 a f = f a + 256 * f (a + 1) + 65536 * f (a + 2) + 16777216 * f (a + 3)

unfoldable pub put16 : ℕ → ℕ → (ℕ → ℕ) → ℕ → ℕ
put16 a v f = update (update f a (v % 256)) (a + 1) (v / 256 % 256)

unfoldable pub put32 : ℕ → ℕ → (ℕ → ℕ) → ℕ → ℕ
put32 a v f =
    update
      (update (update (update f a (v % 256)) (a + 1) (v / 256 % 256)) (a + 2) (v / 65536 % 256))
      (a + 3) (v / 16777216 % 256)

-- `struct dinode` takes 64 bytes: four shorts, the size, and 13 block addresses.
abbrev pub dinode_bytes : ℕ
dinode_bytes = 64

abbrev pub ipb : ℕ
ipb = bsize / dinode_bytes

abbrev pub iblock : ℕ → Superblock → ℕ
iblock i sb = i / ipb + sb.inodestart

-- `n` rounds of the copy of `addrs`, from `i` on, to the address `a`.
unfoldable pub put_addrs : ℕ → ℕ → ℕ → (ℕ → ℕ) → (ℕ → ℕ) → ℕ → ℕ
put_addrs zero i a addrs f = f
put_addrs (suc n) i a addrs f = put_addrs n (i + 1) (a + 4) addrs (put32 a (addrs i) f)

unfoldable pub put_dinode : ℕ → Inode → (ℕ → ℕ) → ℕ → ℕ
put_dinode a ip f = put_addrs (ndirect + 1) 0 (a + 12) ip.addrs (
    put32 (a + 8) ip.size (
      put16 (a + 6) ip.nlink
        (put16 (a + 4) ip.minor (put16 (a + 2) ip.major (put16 a ip.type' f)))))

-- The fields of an inode as the disk has them.
unfoldable pub get_dinode : ℕ → (ℕ → ℕ) → Inode → Inode
get_dinode a f ip = record ip {
  type' = get16 a f;
  major = get16 (a + 2) f;
  minor = get16 (a + 4) f;
  nlink = get16 (a + 6) f;
  size = get32 (a + 8) f;
  addrs = λ i. if ltb i (ndirect + 1) then get32 (a + 12 + 4 * i) f else 0;
}

unfoldable pub iupdate : Superblock → Inode → Disk → Disk
iupdate sb ip d =
    update d (iblock ip.inum sb)
      (put_dinode (ip.inum % ipb * dinode_bytes) ip (d (iblock ip.inum sb)))

-- What `ilock` reads from the disk.
unfoldable pub iload : Superblock → Inode → Disk → Inode
iload sb ip d = record (get_dinode (ip.inum % ipb * dinode_bytes) (d (iblock ip.inum sb)) ip) {
  valid = true;
}

-- `addr = ip->addrs[n]`, allocated if there is none.
unfoldable pub bmap_slot : Superblock → Inode → ℕ → Disk → ℕ × (Inode × Disk)
bmap_slot sb ip n d =
    if not (ip.addrs n == 0)
    then (ip.addrs n, (ip, d))
    else let (addr, d') = balloc sb d in
      if addr == 0
      then (0, (ip, d'))
      else (addr, (record ip { addrs = update ip.addrs n addr }, d'))

-- `a[j]` in the indirect block, allocated if there is none.
unfoldable pub bmap_word : Superblock → ℕ → ℕ → Disk → ℕ × Disk
bmap_word sb block j d =
    if not (get32 (4 * j) (d block) == 0)
    then (get32 (4 * j) (d block), d)
    else let (addr, d') = balloc sb d in
      if addr == 0 then (0, d') else (addr, update d' block (put32 (4 * j) addr (d' block)))

-- `none` for the panic "bmap: out of range"; the address 0 for a full disk.
unfoldable pub bmap : Superblock → Inode → ℕ → Disk → Option (ℕ × (Inode × Disk))
bmap sb ip bn d =
    if ltb bn ndirect
    then some (bmap_slot sb ip bn d)
    else if ltb (bn - ndirect) nindirect
    then (let (block, (ip', d')) = bmap_slot sb ip ndirect d in
        if block == 0
        then some (0, (ip', d'))
        else let (addr, d'') = bmap_word sb block (bn - ndirect) d' in some (addr, (ip', d'')))
    else none

-- `bfree` of an address that is not 0; `none` for its panic.
unfoldable pub free_addr : Superblock → ℕ → Disk → Option Disk
free_addr sb addr d = if addr == 0 then some d else bfree sb addr d

-- `n` rounds of the loop over the direct blocks, from `i` on.
unfoldable pub trunc_direct : Superblock → ℕ → ℕ → Inode → Disk → Option (Inode × Disk)
trunc_direct sb zero i ip d = some (ip, d)
trunc_direct sb (suc n) i ip d = elim (free_addr sb (ip.addrs i) d) [
  | none ↦ none
  | some d' ↦ trunc_direct sb n (i + 1) (record ip { addrs = update ip.addrs i 0 }) d'
]

-- `n` rounds of the loop over the words of the indirect block, from `j` on. The buffer keeps the
-- words while the free map changes.
unfoldable pub trunc_words : Superblock → (ℕ → ℕ) → ℕ → ℕ → Disk → Option Disk
trunc_words sb block zero j d = some d
trunc_words sb block (suc n) j d = elim (free_addr sb (get32 (4 * j) block) d) [
  | none ↦ none
  | some d' ↦ trunc_words sb block n (j + 1) d'
]

unfoldable pub trunc_indirect : Superblock → Inode → Disk → Option (Inode × Disk)
trunc_indirect sb ip d =
    if ip.addrs ndirect == 0
    then some (ip, d)
    else elim (trunc_words sb (d (ip.addrs ndirect)) nindirect 0 d) [
      | none ↦ none
      | some d' ↦ elim (bfree sb (ip.addrs ndirect) d') [
        | none ↦ none
        | some d'' ↦ some (record ip { addrs = update ip.addrs ndirect 0 }, d'')
      ]
    ]

unfoldable pub finish_trunc : Superblock → Inode → Disk → Inode × Disk
finish_trunc sb ip d = (record ip { size = 0 }, iupdate sb (record ip { size = 0 }) d)

-- `none` for a panic of `bfree`.
unfoldable pub itrunc : Superblock → Inode → Disk → Option (Inode × Disk)
itrunc sb ip d = elim (trunc_direct sb ndirect 0 ip d) [
  | none ↦ none
  | some (ip', d') ↦ elim (trunc_indirect sb ip' d') [
    | none ↦ none
    | some (ip'', d'') ↦ some (finish_trunc sb ip'' d'')
  ]
]

-- `m` bytes of a block from `a` on.
unfoldable pub slice : ℕ → ℕ → (ℕ → ℕ) → List ℕ
slice a zero f = []
slice a (suc m) f = f a ∷ slice (a + 1) m f

-- Bytes put into a block from `a` on.
unfoldable pub splice : ℕ → List ℕ → (ℕ → ℕ) → ℕ → ℕ
splice a [] f = f
splice a (x ∷ xs) f = splice (a + 1) xs (update f a x)

-- The result of `readi` and `writei`: a count, or -1.
pub data Count : Type 0 where
  count : ℕ → Count
  minus_one : Count

-- Whether a copy to `dst` succeeds, by its offset and length: `either_copyout`, of kernel/proc.c,
-- which user memory decides.
abbrev pub Copies : Type 0
Copies = ℕ → ℕ → Bool

abbrev pub chunk : ℕ → ℕ → ℕ
chunk rest off = min rest (bsize - off % bsize)

-- What a loop has done: its result, the bytes that it copied out, and the inode and disk.
abbrev pub Moved : Type 0
Moved = Count × List ℕ × (Inode × Disk)

unfoldable pub prepend : List ℕ → Option Moved → Option Moved
prepend xs none = none
prepend xs (some (c, ys, s)) = some (c, xs ++ ys, s)

-- The loop of `readi` with `rest` bytes left after `tot`. Every round moves a byte at least, so that
-- fuel `n` is enough; `none` for the panic of `bmap`. The bytes are those of the copies that succeed:
-- what a failing one has left in user memory is not among them. A hole is filled as inside a
-- transaction: outside one, `log_write` panics (the module Log).
unfoldable pub readi_from : Superblock → Copies → ℕ → ℕ → ℕ → ℕ → Inode → Disk → Option Moved
readi_from sb copies zero rest tot off ip d = some (count tot, [], (ip, d))
readi_from sb copies (suc fuel) rest tot off ip d =
    if rest == 0 then some (count tot, [], (ip, d)) else elim (bmap sb ip (off / bsize) d) [
      | none ↦ none
      | some (addr, (ip', d')) ↦
          let m = chunk rest off in
          let more = readi_from sb copies fuel (rest - m) (tot + m) (off + m) ip' d' in
          if addr == 0
          then some (count tot, [], (ip', d'))
          else if not (copies tot m)
          then some (minus_one, [], (ip', d'))
          else prepend (slice (off % bsize) m (d' addr)) more
    ]

-- `readi`; `off` and `n` are `uint`s.
unfoldable pub readi : Superblock → Copies → ℕ → ℕ → Inode → Disk → Option Moved
readi sb copies off n ip d =
    if ltb ip.size off || ltb ((off + n) % 2 ^ 32) off
    then some (count 0, [], (ip, d))
    else let n' = if ltb ip.size (off + n) then ip.size - off else n in
      readi_from sb copies n' n' 0 off ip d

-- How many bytes of a copy arrive, by its offset and length: `either_copyin`, which gives -1 when
-- user memory ends it before all of them have.
abbrev pub Arrivals : Type 0
Arrivals = ℕ → ℕ → ℕ

-- The loop of `writei`: `src` holds the bytes that are left; the count and the offset that it reaches.
-- The bytes of a copy that fails stay in the buffer, which is not logged. A block that `log_write`
-- does not take, with no room in the log or outside a transaction, ends the run in a panic that is
-- the module Log's and not shown here.
unfoldable pub writei_from :
    Superblock → Arrivals → ℕ → List ℕ → ℕ → ℕ → Inode → Disk → Option (ℕ × ℕ × (Inode × Disk))
writei_from sb arrivals zero src tot off ip d = some (tot, off, (ip, d))
writei_from sb arrivals (suc fuel) src tot off ip d =
    if length src == 0 then some (tot, off, (ip, d)) else elim (bmap sb ip (off / bsize) d) [
      | none ↦ none
      | some (addr, (ip', d')) ↦
          let m = chunk (length src) off in
          let arrived = min m (arrivals tot m) in
          let written = update d' addr (splice (off % bsize) (take arrived src) (d' addr)) in
          let more = writei_from sb arrivals fuel (drop m src) (tot + m) (off + m) ip' written in
          if addr == 0
          then some (tot, off, (ip', d'))
          else if ltb arrived m
          then some (tot, off, (ip', written))
          else more
    ]

unfoldable pub finish_write : Superblock → ℕ → ℕ → Inode → Disk → Count × (Inode × Disk)
finish_write sb tot off ip d =
    let ip' = if ltb ip.size off then record ip { size = off } else ip in
    (count tot, (ip', iupdate sb ip' d))

unfoldable pub writei :
    Superblock → Arrivals → List ℕ → ℕ → Inode → Disk → Option (Count × (Inode × Disk))
writei sb arrivals src off ip d =
    if ltb ip.size off || ltb ((off + length src) % 2 ^ 32) off
    then some (minus_one, (ip, d))
    else if ltb (maxfile * bsize) ((off + length src) % 2 ^ 32)
    then some (minus_one, (ip, d))
    else elim (writei_from sb arrivals (length src) src 0 off ip d) [
      | none ↦ none
      | some (tot, off', (ip', d')) ↦ some (finish_write sb tot off' ip' d')
    ]
