-- ===== src/Dir.antt =====
-- kernel/fs.c: directories and path names. A name is its bytes by position, a path the list of its
-- characters before the terminator.
pub mod Paths
pub mod Walk
mod Tests
use kus_operating_system_pro.Itable.{
  F, Files, dirlink_read, dirlookup_read, done, give, go_on, idup, iget, ilock, iput, iunlock,
  iunlockput, not_dir, out_of_range, panics, ◌>>=◌, ◌>>◌,
}
use kus_operating_system_pro.Fs.{Disk, Superblock}
use kus_operating_system_pro.Inode.{writei, Copies, Count, Inode, count, minus_one, readi}
use kus_operating_system_pro.Shared.{
  length, update, ◌%◌, ◌/◌, ◌||◌, Bool, List, Option, [], false, if◌then◌else◌, ltb, none, not,
  some, suc, take, true, zero, ℕ, ◌&&◌, ◌*◌, ◌+◌, ◌-◌, ◌==◌, ◌∷◌,
}

abbrev pub dirsiz : ℕ
dirsiz = 14

abbrev pub dirent_bytes : ℕ
dirent_bytes = 16

abbrev pub t_dir : ℕ
t_dir = 1

abbrev pub at_slash : ℕ → Bool
at_slash c = c == 47

abbrev pub is_nil {ℓ} : {A : Type ℓ} → List A → Bool
is_nil [] = true
is_nil (x ∷ xs) = false

abbrev pub is_absolute : List ℕ → Bool
is_absolute [] = false
is_absolute (c ∷ cs) = at_slash c

unfoldable pub skip_slashes : List ℕ → List ℕ
skip_slashes [] = []
skip_slashes (c ∷ cs) = if at_slash c then skip_slashes cs else c ∷ cs

-- The characters before the next slash, and the rest.
unfoldable pub element_of : List ℕ → List ℕ
element_of [] = []
element_of (c ∷ cs) = if at_slash c then [] else c ∷ element_of cs

unfoldable pub behind_element : List ℕ → List ℕ
behind_element [] = []
behind_element (c ∷ cs) = if at_slash c then c ∷ cs else behind_element cs

-- `skipelem`: the name, at most `DIRSIZ` characters of it, and the rest of the path; `none` for 0.
unfoldable pub skipelem_at : List ℕ → Option (List ℕ × List ℕ)
skipelem_at [] = none
skipelem_at (c ∷ cs) =
    some (take dirsiz (element_of (c ∷ cs)), skip_slashes (behind_element (c ∷ cs)))

unfoldable pub skipelem : List ℕ → Option (List ℕ × List ℕ)
skipelem path = skipelem_at (skip_slashes path)

-- The 14 bytes of a name, with a terminator behind a shorter one.
unfoldable pub name_bytes : List ℕ → ℕ → ℕ
name_bytes [] i = 0
name_bytes (c ∷ cs) i = if i == 0 then c else name_bytes cs (i - 1)

-- `strncmp(s, t, n) == 0` from byte `i` on.
unfoldable pub namecmp : ℕ → ℕ → (ℕ → ℕ) → (ℕ → ℕ) → Bool
namecmp zero i s t = true
namecmp (suc n) i s t =
    let rest = namecmp n (i + 1) s t in if not (s i == 0) && (s i == t i) then rest else s i == t i

-- A copy into the kernel always succeeds.
abbrev pub kernel_copies : Copies
kernel_copies tot m = true

-- The bytes that `readi` has put into the entry, by position.
unfoldable pub nth_byte : List ℕ → ℕ → ℕ
nth_byte [] i = 0
nth_byte (x ∷ xs) i = if i == 0 then x else nth_byte xs (i - 1)

abbrev pub is_whole : Count → Bool
is_whole (count n) = n == dirent_bytes
is_whole minus_one = false

-- What a scan of a directory comes to: the offset and the inode number of an entry, the end of the
-- directory at an offset, or the panic on a short read.
pub data Scanned : Type 0 where
  entry_at : ℕ → ℕ → Scanned
  ended : ℕ → Scanned
  short_read : Scanned

-- The inode number of an entry, and its name.
abbrev pub entry_inum : List ℕ → ℕ
entry_inum de = nth_byte de 0 + 256 * nth_byte de 1

abbrev pub entry_name : List ℕ → ℕ → ℕ
entry_name de i = nth_byte de (i + 2)

module _ (sb : Superblock) where
  -- `n` rounds of a scan for an entry that `stops` accepts, from offset `off` on. The table keeps the
  -- inode and the disk that `readi` gives, which may have filled a hole.
  unfoldable pub scan_dir : (List ℕ → Bool) → ℕ → ℕ → Inode → Disk → Scanned × (Inode × Disk)
  scan_dir stops zero off ip d = (ended off, (ip, d))
  scan_dir stops (suc n) off ip d =
      if not (ltb off ip.size)
      then (ended off, (ip, d))
      else elim (readi sb kernel_copies off dirent_bytes ip d) [
        | none ↦ (short_read, (ip, d))
        | some (c, de, (ip', d')) ↦
            let rest = scan_dir stops n (off + dirent_bytes) ip' d' in
            if not (is_whole c)
            then (short_read, (ip', d'))
            else if stops de
            then (entry_at off (entry_inum de), (ip', d'))
            else rest
      ]

-- The bytes of `strncpy` from position `i` on: behind the terminator, zeros.
unfoldable pub padded : ℕ → ℕ → Bool → (ℕ → ℕ) → List ℕ
padded zero i behind name = []
padded (suc n) i behind name =
    let c = if behind then 0 else name i in c ∷ padded n (i + 1) (behind || (c == 0)) name

-- A directory entry; its number is a `ushort`.
unfoldable pub dirent_of : ℕ → (ℕ → ℕ) → List ℕ
dirent_of inum name = (inum % 256) ∷ (inum / 256 % 256) ∷ padded dirsiz 0 false name

-- The tests of the two loops.
abbrev pub matches : (ℕ → ℕ) → List ℕ → Bool
matches name de = not (entry_inum de == 0) && namecmp dirsiz 0 name (entry_name de)

abbrev pub is_free : List ℕ → Bool
is_free de = entry_inum de == 0

abbrev pub entries : ℕ → ℕ
entries size = (size + dirent_bytes - 1) / dirent_bytes

abbrev pub keep : ℕ → Inode × Disk → Files → Files
keep i (ip, d) s = record s { itable = update s.itable i ip; disk = d }

module _ (sb : Superblock) where
  -- The inode and the offset of the entry; `none` for 0.
  unfoldable pub lookup_end : ℕ → Scanned → F (Option (ℕ × ℕ))
  lookup_end i (entry_at off inum) s =
      go_on (iget (s.itable i).dev inum s) (λ ip. give (some (ip, off)))
  lookup_end i (ended off) s = done none s
  lookup_end i short_read s = panics dirlookup_read

  unfoldable pub dirlookup : ℕ → (ℕ → ℕ) → F (Option (ℕ × ℕ))
  dirlookup i name s =
      let ip = s.itable i in
      let (r, after) = scan_dir sb (matches name) (entries ip.size) 0 ip s.disk in
      if not (ip.type' == t_dir) then panics not_dir else lookup_end i r (keep i after s)

  -- The write of the entry, and the result: whether all of it was written.
  unfoldable pub link_at : ℕ → (ℕ → ℕ) → ℕ → ℕ → F Bool
  link_at i name inum off s =
      elim (writei sb (λ tot m. m) (dirent_of inum name) off (s.itable i) s.disk) [
        | none ↦ panics out_of_range
        | some (c, after) ↦ done (is_whole c) (keep i after s)
      ]

  unfoldable pub link_free : ℕ → (ℕ → ℕ) → ℕ → Scanned → F Bool
  link_free i name inum (entry_at off found) s = link_at i name inum off s
  link_free i name inum (ended off) s = link_at i name inum off s
  link_free i name inum short_read s = panics dirlink_read

  unfoldable pub link_absent : ℕ → (ℕ → ℕ) → ℕ → F Bool
  link_absent i name inum s =
      let ip = s.itable i in
      let (r, after) = scan_dir sb is_free (entries ip.size) 0 ip s.disk in
      link_free i name inum r (keep i after s)

  unfoldable pub link_checked : ℕ → (ℕ → ℕ) → ℕ → Option (ℕ × ℕ) → F Bool
  link_checked i name inum none = link_absent i name inum
  link_checked i name inum (some (ip, off)) = do iput sb ip; give false

  -- `true` for the result 0.
  unfoldable pub dirlink : ℕ → (ℕ → ℕ) → ℕ → F Bool
  dirlink i name inum = do found ← dirlookup i name; link_checked i name inum found

  -- The end of `namex`, when no element is left.
  unfoldable pub namex_end : Bool → ℕ → F (Option (ℕ × List ℕ))
  namex_end true ip = do iput sb ip; give none
  namex_end false ip = give (some (ip, []))

  -- What the loop does with the entry that it looked up.
  unfoldable pub namex_next :
      ℕ → Option (ℕ × ℕ) → (ℕ → F (Option (ℕ × List ℕ))) → F (Option (ℕ × List ℕ))
  namex_next ip none rest = do iunlockput sb ip; give none
  namex_next ip (some (next, off)) rest = do iunlockput sb ip; rest next

  -- One round of the loop of `namex` behind `skipelem`; `rest` is the loop on the rest of the path.
  unfoldable pub namex_round :
      Bool → ℕ → List ℕ → Bool → (ℕ → F (Option (ℕ × List ℕ))) → F (Option (ℕ × List ℕ))
  namex_round nameiparent ip name last rest = do
    ilock sb ip
    λ s.
        if not ((s.itable ip).type' == t_dir)
        then go_on (iunlockput sb ip s) (λ _. give none)
        else if nameiparent && last
        then go_on (iunlock sb ip s) (λ _. give (some (ip, name)))
        else go_on (dirlookup ip (name_bytes name) s) (λ found. namex_next ip found rest)

  -- The loop of `namex`. Every round takes a character of the path at least, so that fuel of its
  -- length is enough.
  unfoldable pub namex_from : Bool → ℕ → ℕ → List ℕ → F (Option (ℕ × List ℕ))
  namex_from nameiparent zero ip path = namex_end nameiparent ip
  namex_from nameiparent (suc fuel) ip path = elim (skipelem path) [
    | none ↦ namex_end nameiparent ip
    | some (name, rest) ↦
        namex_round nameiparent ip name (is_nil rest)
          (λ next. namex_from nameiparent fuel next rest)
  ]

  -- `namex` of a process with current directory `cwd`; the inode, and the name for the parent.
  unfoldable pub namex : ℕ → List ℕ → Bool → F (Option (ℕ × List ℕ))
  namex cwd path nameiparent = do
    ip ← λ s. if is_absolute path then iget 1 1 s else idup cwd s
    namex_from nameiparent (length path) ip path

  unfoldable pub namei : ℕ → List ℕ → F (Option (ℕ × List ℕ))
  namei cwd path = namex cwd path false

  unfoldable pub nameiparent : ℕ → List ℕ → F (Option (ℕ × List ℕ))
  nameiparent cwd path = namex cwd path true
