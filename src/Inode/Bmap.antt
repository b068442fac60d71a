-- ===== src/Inode/Bmap.antt =====
-- kernel/fs.c, `bmap`: its branches, for a file of Inode/Blocks.
use kus_operating_system_pro.Inode.Blocks.{Grown-trans}
use kus_operating_system_pro.Fs.Blocks.{is_used}
use kus_operating_system_pro.Inode.Blocks.{IsFile, block_of, fresh-ne_zero}
use kus_operating_system_pro.Fs.{Disk, Superblock}
use kus_operating_system_pro.Shared.{
  Option, ltb, some, ◌-◌, ap, arith, false, refl, sym, true, update, ℕ, ◌*◌, ◌+◌, ◌<◌, ◌==◌, ◌∙◌,
  ◌≡◌, ◌≢◌,
}
use kus_operating_system_pro.Fs.Alloc.{balloc-Allocation, first_free, full, marked}
use kus_operating_system_pro.Inode.{
  maxfile, bmap, Inode, bmap_slot, bmap_word, get32, ndirect, nindirect, put32,
}
use kus_operating_system_pro.Inode.Map.{
  Grown-indirect, Mapping-slot, block_of-direct, Mapping, block_of-word, Mapping-found,
  Mapping-full, Mapping-word,
}
use mathlib.Core.Path.{subst}
use native.Mathlib.Decide.{ℕ_discrete, dec_lt}

-- What `bmap_slot` does to slot `n`: nothing, for a slot that is set or a full device, or it puts a
-- fresh block there.
data Slotted (sb : Superblock) (ip : Inode) (n : ℕ) (d : Disk) : Type 0 where
  set : ip.addrs n ≢ 0 → bmap_slot sb ip n d ≡ (ip.addrs n, (ip, d)) → Slotted sb ip n d
  none_left :
      ((x : ℕ) → x < sb.size → is_used sb d x ≡ true)
      → bmap_slot sb ip n d ≡ (0, (ip, d))
      → Slotted sb ip n d
  given :
      (b : ℕ)
      → b < sb.size
      → is_used sb d b ≡ false
      → b ≢ 0
      → ip.addrs n ≡ 0
      → bmap_slot sb ip n d ≡ (b, (record ip { addrs = update ip.addrs n b }, marked sb b d))
      → Slotted sb ip n d

bmap_slot-Slotted :
    (sb : Superblock) (ip : Inode) (n : ℕ) (d : Disk) → IsFile sb ip d → Slotted sb ip n d
unfolding bmap_slot
bmap_slot-Slotted sb ip n d f = elim (ℕ_discrete (ip.addrs n) 0) [
  | no some' ↦ let t : (ip.addrs n == 0) ≡ false = ground arith in set some' (rw t refl)
  | yes none' ↦
      let t : (ip.addrs n == 0) ≡ true = ground arith in
      elim (balloc-Allocation sb d) [
        | full e u ↦ none_left u (rw (t, e) refl)
        | first_free b e in_size free least ↦
            let nz = fresh-ne_zero sb ip d f b in_size free in
            let z : (b == 0) ≡ false = ground arith in
            given b in_size free nz none' (rw (t, e, z) refl)
      ]
]

-- The same of a word of the indirect block.
data Worded (sb : Superblock) (block j : ℕ) (d : Disk) : Type 0 where
  set :
      get32 (4 * j) (d block) ≢ 0
      → bmap_word sb block j d ≡ (get32 (4 * j) (d block), d)
      → Worded sb block j d
  none_left :
      ((x : ℕ) → x < sb.size → is_used sb d x ≡ true)
      → bmap_word sb block j d ≡ (0, d)
      → Worded sb block j d
  given :
      (b : ℕ)
      → b < sb.size
      → is_used sb d b ≡ false
      → get32 (4 * j) (d block) ≡ 0
      → bmap_word sb block j d
        ≡ (b, update (marked sb b d) block (put32 (4 * j) b (marked sb b d block)))
      → Worded sb block j d

bmap_word-Worded :
    (sb : Superblock) (ip : Inode) (block j : ℕ) (d : Disk) → IsFile sb ip d → Worded sb block j d
unfolding bmap_word
bmap_word-Worded sb ip block j d f = elim (ℕ_discrete (get32 (4 * j) (d block)) 0) [
  | no some' ↦
      let t : (get32 (4 * j) (d block) == 0) ≡ false = ground arith in Worded.set some' (rw t refl)
  | yes none' ↦
      let t : (get32 (4 * j) (d block) == 0) ≡ true = ground arith in
      elim (balloc-Allocation sb d) [
        | full e u ↦ Worded.none_left u (rw (t, e) refl)
        | first_free b e in_size free least ↦
            let nz = fresh-ne_zero sb ip d f b in_size free in
            let z : (b == 0) ≡ false = ground arith in
            Worded.given b in_size free none' (rw (t, e, z) refl)
      ]
]

-- `bmap_word` for a file with an indirect block.
word-Mapping :
    (sb : Superblock) (ip : Inode) (d : Disk) (j : ℕ)
    → IsFile sb ip d
    → ip.addrs ndirect ≢ 0
    → j < nindirect
    → (addr : ℕ) × (d' : Disk) × (bmap_word sb (ip.addrs ndirect) j d ≡ (addr, d'))
      × Mapping sb ip d (ndirect + j) addr ip d'
word-Mapping sb ip d j f some' lt = elim (bmap_word-Worded sb ip (ip.addrs ndirect) j d f) [
  | Worded.set w e ↦ (
    _,
    d,
    e,
    subst (λ y. Mapping sb ip d (ndirect + j) y ip d) part
        (Mapping-found sb ip d f (ndirect + j) (λ z. w (sym part ∙ z))),
  )
  | Worded.none_left u e ↦ (0, d, e, Mapping-full sb ip d f (ndirect + j) u)
  | Worded.given b in_size free hole e ↦
      (b, _, e, Mapping-word sb ip d f b in_size free some' j lt (part ∙ hole))
]
  where
    part : block_of ip d (ndirect + j) ≡ get32 (4 * j) (d (ip.addrs ndirect))
    part =
        block_of-word ip d (ndirect + j) (omega arith) some'
        ∙ ap (λ y. get32 (4 * y) (d (ip.addrs ndirect))) (omega arith)

-- What `bmap` of part `n` comes to.
abbrev pub Mapped : Superblock → Inode → Disk → ℕ → Type 0
Mapped sb ip d n =
    (addr : ℕ) × (ip' : Inode) × (d' : Disk) × (bmap sb ip n d ≡ some (addr, (ip', d')))
    × Mapping sb ip d n addr ip' d'

bmap_direct :
    (sb : Superblock) (ip : Inode) (d : Disk) (n : ℕ)
    → IsFile sb ip d
    → n < ndirect
    → Mapped sb ip d n
unfolding bmap
bmap_direct sb ip d n f lt =
    let t : ltb n ndirect ≡ true = ground arith in
    let p : block_of ip d n ≡ ip.addrs n = block_of-direct ip d n lt in
    elim (bmap_slot-Slotted sb ip n d f) [
      | Slotted.set w e ↦ (
        ip.addrs n,
        ip,
        d,
        rw (t, e) refl,
        subst (λ y. Mapping sb ip d n y ip d) p (Mapping-found sb ip d f n (λ z. w (sym p ∙ z))),
      )
      | Slotted.none_left u e ↦ (0, ip, d, rw (t, e) refl, Mapping-full sb ip d f n u)
      | Slotted.given b in_size free nz hole e ↦
          (b, _, _, rw (t, e) refl, Mapping-slot sb ip d f b in_size free n lt hole)
    ]

bmap_far :
    (sb : Superblock) (ip : Inode) (d : Disk) (j : ℕ)
    → IsFile sb ip d
    → j < nindirect
    → Mapped sb ip d (ndirect + j)
unfolding bmap
bmap_far sb ip d j f lt =
    let t : ltb (ndirect + j) ndirect ≡ false = ground arith in
    let u : ltb (ndirect + j - ndirect) nindirect ≡ true = ground arith in
    elim (bmap_slot-Slotted sb ip ndirect d f) [
      | Slotted.set w e ↦
          let (addr, d', g, k) = word-Mapping sb ip d j f w lt in
          let z : (ip.addrs ndirect == 0) ≡ false = ground arith in
          (
            addr,
            ip,
            d',
            rw (t, u, e, z) (ap finish (ap (λ y. bmap_word sb (ip.addrs ndirect) y d) index ∙ g)),
            k,
          )
      | Slotted.none_left v e ↦
          (0, ip, d, rw (t, u, e) refl, Mapping-full sb ip d f (ndirect + j) v)
      | Slotted.given b in_size free nz hole e ↦
          let grown = Grown-indirect sb ip d f b in_size free hole in
          let (addr, d', g, k) =
            word-Mapping sb (record ip { addrs = update ip.addrs ndirect b }) (marked sb b d) j
              grown.file nz lt in
          let z : (b == 0) ≡ false = ground arith in
          (
            addr,
            _,
            d',
            rw (t, u, e, z)
                (ap (given_end b) (ap (λ y. bmap_word sb b y (marked sb b d)) index ∙ g)),
            record {
              grown = Grown-trans sb ip _ _ d (marked sb b d) d' grown k.grown;
              at = k.at;
              full = k.full;
            },
          )
    ]
  where
    finish : ℕ × Disk → Option (ℕ × (Inode × Disk))
    finish r = some (r.0, (ip, r.1))

    given_end : ℕ → ℕ × Disk → Option (ℕ × (Inode × Disk))
    given_end b r = some (r.0, (record ip { addrs = update ip.addrs ndirect b }, r.1))

    index : ndirect + j - ndirect ≡ j
    index = omega arith

-- `bmap` of a part within the largest size never panics: it gives the block of the part, or, only if
-- no block of the device is free, 0. The file stays well formed, its size and every part that had a
-- block keep theirs, and every byte of its content is as before.
pub bmap-Mapping :
    (sb : Superblock) (ip : Inode) (d : Disk) (n : ℕ)
    → IsFile sb ip d
    → n < maxfile
    → Mapped sb ip d n
bmap-Mapping sb ip d n f lt = elim (dec_lt n ndirect) [
  | yes direct ↦ bmap_direct sb ip d n f direct
  | no far ↦
      let e : ndirect + (n - ndirect) ≡ n = omega arith in
      subst (Mapped sb ip d) e (bmap_far sb ip d (n - ndirect) f (omega arith))
]
