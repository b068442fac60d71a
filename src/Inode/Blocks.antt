-- ===== src/Inode/Blocks.antt =====
-- kernel/fs.c: the blocks that a file consists of, and that they stay its own while it grows.
use native.Mathlib.Decide.{ℕ_discrete}
use mathlib.Core.Path.{subst}
use mathlib.Core.Bool.{false≢true}
use kus_operating_system_pro.Fs.Blocks.{is_used}
use kus_operating_system_pro.Fs.Alloc.{not_map, IsMapped}
use kus_operating_system_pro.Inode.{Inode, get32, maxfile, ndirect}
use kus_operating_system_pro.Fs.{Disk, Superblock, bblock, bsize}
use kus_operating_system_pro.Shared.{
  ap, arith, inl, inr, sym, ◌||◌, ◌∙◌, ◌⊎◌, false, if◌then◌else◌, ltb, refl, true, ℕ, ◌%◌, ◌*◌, ◌-◌,
  ◌/◌, ◌<◌, ◌==◌, ◌^◌, ◌≡◌, ◌≢◌, ◌≤◌,
}

-- The block that holds the `bn`th part of the file, 0 for a hole.
unfoldable pub block_of : Inode → Disk → ℕ → ℕ
block_of ip d bn =
    if ltb bn ndirect
    then ip.addrs bn
    else if ip.addrs ndirect == 0
    then 0
    else get32 (4 * (bn - ndirect)) (d (ip.addrs ndirect))

-- Block `y` is in use as data: it lies on the device and is no block of the free map.
pub record Held (sb : Superblock) (d : Disk) (y : ℕ) : Type 0 where
  pub in_size : y < sb.size
  pub in_use : is_used sb d y ≡ true
  pub no_map : (x : ℕ) → x < sb.size → bblock x sb ≢ y

-- The blocks of a file are its own: in use, each for one part, apart from the indirect block.
pub record IsFile (sb : Superblock) (ip : Inode) (d : Disk) : Type 0 where
  pub mapped : IsMapped sb d
  pub words : sb.size ≤ 2 ^ 32
  pub zero_used : is_used sb d 0 ≡ true
  pub indirect : ip.addrs ndirect ≢ 0 → Held sb d (ip.addrs ndirect)
  pub parts : (n : ℕ) → n < maxfile → block_of ip d n ≢ 0 → Held sb d (block_of ip d n)
  pub apart : (n : ℕ) → n < maxfile → ip.addrs ndirect ≢ 0 → block_of ip d n ≢ ip.addrs ndirect
  pub distinct :
      (m n : ℕ)
      → m < maxfile
      → n < maxfile
      → block_of ip d m ≢ 0
      → block_of ip d m ≡ block_of ip d n
      → m ≡ n

-- The byte at offset `x` of the file; a hole reads as zeros.
unfoldable pub byte_at : Inode → Disk → ℕ → ℕ
byte_at ip d x =
    if block_of ip d (x / bsize) == 0 then 0 else d (block_of ip d (x / bsize)) (x % bsize)

-- Block `y` is in use, but not by the file.
pub record Outside (sb : Superblock) (ip : Inode) (d : Disk) (y : ℕ) : Type 0 where
  pub held : Held sb d y
  pub no_part : (n : ℕ) → n < maxfile → block_of ip d n ≢ y
  pub no_indirect : ip.addrs ndirect ≢ y

-- What giving block `b` to a file that lacks part `n` has done, to part `n` or to the indirect block.
pub record Grown (sb : Superblock) (ip ip' : Inode) (d d' : Disk) : Type 0 where
  pub file : IsFile sb ip' d'
  pub same_size : ip'.size ≡ ip.size
  pub same_inum : ip'.inum ≡ ip.inum
  pub kept : (n : ℕ) → n < maxfile → block_of ip d n ≢ 0 → block_of ip' d' n ≡ block_of ip d n
  pub content : (x : ℕ) → x < maxfile * bsize → byte_at ip' d' x ≡ byte_at ip d x
  pub outside : (y : ℕ) → Outside sb ip d y → Outside sb ip' d' y × ((a : ℕ) → d' y a ≡ d y a)

pub Grown-none : (sb : Superblock) (ip : Inode) (d : Disk) → IsFile sb ip d → Grown sb ip ip d d
Grown-none sb ip d f = record {
  file = f;
  same_size = refl;
  same_inum = refl;
  kept = λ n lt h. refl;
  content = λ x lt. refl;
  outside = λ y o. (o, λ a. refl);
}

-- The file, and a free block `b` that it is given: what `balloc` did to the free map.
module _ (sb : Superblock) (ip : Inode) (d : Disk) (f : IsFile sb ip d) (b : ℕ)
    (in_size : b < sb.size) (free : is_used sb d b ≡ false) where
  pub Held-ne : (y : ℕ) → Held sb d y → y ≢ b
  Held-ne y h e = false≢true (sym free ∙ ap (is_used sb d) (sym e) ∙ h.in_use)

  pub fresh-ne_zero : b ≢ 0
  fresh-ne_zero e = false≢true (sym free ∙ ap (is_used sb d) e ∙ f.zero_used)

  -- No part of the file is block `b`.
  pub part-ne : (n : ℕ) → n < maxfile → block_of ip d n ≢ b
  part-ne n lt e = Held-ne (block_of ip d n) (f.parts n lt (λ z. fresh-ne_zero (sym e ∙ z))) e

  module _ (d' : Disk) (mapped' : IsMapped sb d')
      (use' : (x : ℕ) → x < sb.size → is_used sb d' x ≡ ((x == b) || is_used sb d x)) where
    Held-kept : (y : ℕ) → Held sb d y → Held sb d' y
    Held-kept y h = record {
      in_size = h.in_size;
      in_use = use' y h.in_size ∙ ground (arith, h.in_use);
      no_map = h.no_map;
    }

    Held_new : Held sb d' b
    Held_new = record {
      in_size = in_size;
      in_use = use' b in_size ∙ ground arith;
      no_map = not_map sb d b f.mapped free;
    }

    module _ (ip' : Inode) (n : ℕ)
        (blocks' : (m : ℕ)
          → m < maxfile
          → (block_of ip' d' m ≡ block_of ip d m)
            ⊎ ((block_of ip' d' m ≡ b) × (block_of ip d m ≡ 0) × (m ≡ n)))
        (indirect' : (ip'.addrs ndirect ≡ ip.addrs ndirect)
          ⊎ ((ip'.addrs ndirect ≡ b)
              × ((m : ℕ) → m < maxfile → block_of ip' d' m ≡ block_of ip d m))) where
      parts' : (m : ℕ) → m < maxfile → block_of ip' d' m ≢ 0 → Held sb d' (block_of ip' d' m)
      parts' m lt h = elim (blocks' m lt) [
        | inl e ↦
            subst (Held sb d') (sym e) (Held-kept (block_of ip d m) (f.parts m lt (λ z. h (e ∙ z))))
        | inr (e, z, k) ↦ subst (Held sb d') (sym e) Held_new
      ]

      Held' : ip'.addrs ndirect ≢ 0 → Held sb d' (ip'.addrs ndirect)
      Held' h = elim indirect' [
        | inl e ↦
            subst (Held sb d') (sym e) (Held-kept (ip.addrs ndirect) (f.indirect (λ z. h (e ∙ z))))
        | inr (e, k) ↦ subst (Held sb d') (sym e) Held_new
      ]

      apart' : (m : ℕ) → m < maxfile → ip'.addrs ndirect ≢ 0 → block_of ip' d' m ≢ ip'.addrs ndirect
      apart' m lt h same = elim indirect' [
        | inr (e, k) ↦ part-ne m lt (sym (k m lt) ∙ same ∙ e)
        | inl e ↦ elim (blocks' m lt) [
          | inl g ↦ f.apart m lt (λ z. h (e ∙ z)) (sym g ∙ same ∙ e)
          | inr (g, z, k) ↦
              Held-ne (ip.addrs ndirect) (f.indirect (λ z. h (e ∙ z))) (sym e ∙ sym same ∙ g)
        ]
      ]

      distinct' :
          (m k : ℕ)
          → m < maxfile
          → k < maxfile
          → block_of ip' d' m ≢ 0
          → block_of ip' d' m ≡ block_of ip' d' k
          → m ≡ k
      distinct' m k ml kl h same = elim (blocks' m ml) [
        | inl e ↦ elim (blocks' k kl) [
          | inl g ↦ f.distinct m k ml kl (λ z. h (e ∙ z)) (sym e ∙ same ∙ g)
          | inr (g, z, w) ↦ absurd (part-ne m ml (sym e ∙ same ∙ g))
        ]
        | inr (e, z, w) ↦ elim (blocks' k kl) [
          | inl g ↦ absurd (part-ne k kl (sym g ∙ sym same ∙ e))
          | inr (g, z', w') ↦ w ∙ sym w'
        ]
      ]

      grown-IsFile : IsFile sb ip' d'
      grown-IsFile = record {
        mapped = mapped';
        words = f.words;
        zero_used = use' 0 (omega arith) ∙ ground (arith, f.zero_used);
        indirect = Held';
        parts = parts';
        apart = apart';
        distinct = distinct';
      }

      module _ (same_size : ip'.size ≡ ip.size) (same_inum : ip'.inum ≡ ip.inum)
          (keep' : (y : ℕ) → Held sb d y → y ≢ ip.addrs ndirect → (a : ℕ) → d' y a ≡ d y a)
          (zeros' : (a : ℕ) → d' b a ≡ 0) where
        part_kept :
            (m : ℕ)
            → m < maxfile
            → block_of ip d m ≢ 0
            → (a : ℕ) → d' (block_of ip d m) a ≡ d (block_of ip d m) a
        part_kept m lt h =
            keep' (block_of ip d m) (f.parts m lt h) (elim (ℕ_discrete (ip.addrs ndirect) 0) [
              | yes none' ↦ λ e. h (e ∙ none')
              | no some' ↦ f.apart m lt some'
            ])

        content' : (x : ℕ) → x < maxfile * bsize → byte_at ip' d' x ≡ byte_at ip d x
        unfolding byte_at
        content' x lt = elim (blocks' (x / bsize) (omega arith)) [
          | inl e ↦ rw e (
              ground (
                arith,
                λ (h : block_of ip d (x / bsize) ≢ 0).
                    part_kept (x / bsize) (omega arith) h (x % bsize),
              ))
          | inr (e, z, w) ↦ rw (e, z) (ground (arith, zeros' (x % bsize)))
        ]

        kept' : (m : ℕ) → m < maxfile → block_of ip d m ≢ 0 → block_of ip' d' m ≡ block_of ip d m
        kept' m lt h = elim (blocks' m lt) [ inl e ↦ e | inr (e, z, w) ↦ absurd (h z) ]

        outside' : (y : ℕ) → Outside sb ip d y → Outside sb ip' d' y × ((a : ℕ) → d' y a ≡ d y a)
        outside' y o = (
          record {
            held = Held-kept y o.held;
            no_part = λ m lt e. elim (blocks' m lt) [
              | inl g ↦ o.no_part m lt (sym g ∙ e)
              | inr (g, z, w) ↦ Held-ne y o.held (sym e ∙ g)
            ];
            no_indirect = λ e. elim indirect' [
              | inl g ↦ o.no_indirect (sym g ∙ e)
              | inr (g, k) ↦ Held-ne y o.held (sym e ∙ g)
            ];
          },
          keep' y o.held (λ e. o.no_indirect (sym e)),
        )

        pub Grown-by : Grown sb ip ip' d d'
        Grown-by = record {
          file = grown-IsFile;
          same_size = same_size;
          same_inum = same_inum;
          kept = kept';
          content = content';
          outside = outside';
        }

pub Grown-trans :
    (sb : Superblock) (ip jp kp : Inode) (d e g : Disk)
    → Grown sb ip jp d e
    → Grown sb jp kp e g
    → Grown sb ip kp d g
Grown-trans sb ip jp kp d e g p q = record {
  file = q.file;
  same_size = q.same_size ∙ p.same_size;
  same_inum = q.same_inum ∙ p.same_inum;
  kept = λ n lt h. q.kept n lt (λ z. h (sym (p.kept n lt h) ∙ z)) ∙ p.kept n lt h;
  content = λ x lt. q.content x lt ∙ p.content x lt;
  outside =
      λ y o. let (o', s) = p.outside y o in let (o'', t) = q.outside y o' in (o'', λ a. t a ∙ s a);
}
