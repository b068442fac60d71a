-- ===== src/Inode/Map.antt =====
-- kernel/fs.c, `bmap`: the block of a part of a file, which it is given if it has none.
use kus_operating_system_pro.Inode.Layout.{get32-put32, get32-put32_apart, put32-small}
use kus_operating_system_pro.Inode.Blocks.{Grown-by, Grown-none}
use kus_operating_system_pro.Fs.Blocks.{is_used}
use kus_operating_system_pro.Fs.Alloc.{IsMapped, Marked, marked, marked-Marked}
use kus_operating_system_pro.Shared.{
  ◌^◌, if◌then◌else◌, not, update_ne, ◌%◌, ◌+◌, ◌/◌, ◌==◌, ap, arith, false, fun_ext, inl, inr,
  refl, sym, true, update, update_self, ℕ, ◌*◌, ◌-◌, ◌<◌, ◌∙◌, ◌≡◌, ◌≢◌, ◌≤◌, ◌⊎◌,
}
use kus_operating_system_pro.Inode.Blocks.{Grown, Held, Held-ne, IsFile, block_of, fresh-ne_zero}
use kus_operating_system_pro.Fs.{bblock, bit_clear, bpb, Disk, Superblock}
use kus_operating_system_pro.Inode.{nindirect, put32, Inode, get32, maxfile, ndirect}
use native.Mathlib.Decide.{ℕ_discrete, dec_lt}

-- What `bmap` comes to: the block of the part in a file that has grown by no more than was needed;
-- the address 0 only if no block of the device is free.
pub record Mapping (sb : Superblock) (ip : Inode) (d : Disk) (n addr : ℕ) (ip' : Inode) (d' : Disk)
    : Type 0 where
  pub grown : Grown sb ip ip' d d'
  pub at : addr ≢ 0 → block_of ip' d' n ≡ addr
  pub full : addr ≡ 0 → (x : ℕ) → x < sb.size → is_used sb d' x ≡ true

pub block_of-direct : (ip : Inode) (d : Disk) (n : ℕ) → n < ndirect → block_of ip d n ≡ ip.addrs n
unfolding block_of
block_of-direct ip d n h = ground arith

pub block_of-word :
    (ip : Inode) (d : Disk) (n : ℕ)
    → ndirect ≤ n
    → ip.addrs ndirect ≢ 0
    → block_of ip d n ≡ get32 (4 * (n - ndirect)) (d (ip.addrs ndirect))
unfolding block_of
block_of-word ip d n h k = ground arith

pub block_of-none :
    (ip : Inode) (d : Disk) (n : ℕ) → ndirect ≤ n → ip.addrs ndirect ≡ 0 → block_of ip d n ≡ 0
unfolding block_of
block_of-none ip d n h k = ground arith

block_of-same :
    (ip ip' : Inode) (d d' : Disk) (n : ℕ)
    → ndirect ≤ n
    → ip'.addrs ndirect ≡ ip.addrs ndirect
    → (ip.addrs ndirect ≢ 0 → (a : ℕ) → d' (ip.addrs ndirect) a ≡ d (ip.addrs ndirect) a)
    → block_of ip' d' n ≡ block_of ip d n
block_of-same ip ip' d d' n h e same = elim (ℕ_discrete (ip.addrs ndirect) 0) [
  | yes none' ↦ block_of-none ip' d' n h (e ∙ none') ∙ sym (block_of-none ip d n h none')
  | no some' ↦
      block_of-word ip' d' n h (λ z. some' (sym e ∙ z))
      ∙ ap (λ y. get32 (4 * (n - ndirect)) (d' y)) e
      ∙ ap (get32 (4 * (n - ndirect))) (fun_ext (same some'))
      ∙ sym (block_of-word ip d n h some')
]

module _ (sb : Superblock) (ip : Inode) (d : Disk) (f : IsFile sb ip d) where
  pub Mapping-found : (n : ℕ) → block_of ip d n ≢ 0 → Mapping sb ip d n (block_of ip d n) ip d
  Mapping-found n h = record {
    grown = Grown-none sb ip d f;
    at = λ k. refl;
    full = λ z. absurd (h z);
  }

  pub Mapping-full :
      (n : ℕ) → ((x : ℕ) → x < sb.size → is_used sb d x ≡ true) → Mapping sb ip d n 0 ip d
  Mapping-full n u = record {
    grown = Grown-none sb ip d f;
    at = λ k. absurd (k refl);
    full = λ z. u;
  }

  module _ (b : ℕ) (in_size : b < sb.size) (free : is_used sb d b ≡ false) where
    abbrev after : Disk
    after = marked sb b d

    abbrev m : Marked sb d b after
    m = marked-Marked sb d b f.mapped free

    kept_block : (y : ℕ) → Held sb d y → (a : ℕ) → after y a ≡ d y a
    kept_block y h a =
        m.others y a (Held-ne sb ip d f b in_size free y h) (λ e. h.no_map b in_size (sym e))

    abbrev with_slot : ℕ → Inode
    with_slot n = record ip { addrs = update ip.addrs n b }

    slot_blocks :
        (n : ℕ)
        → n < ndirect
        → ip.addrs n ≡ 0
        → (k : ℕ) → k < maxfile
        → (block_of (with_slot n) after k ≡ block_of ip d k)
          ⊎ ((block_of (with_slot n) after k ≡ b) × (block_of ip d k ≡ 0) × (k ≡ n))
    slot_blocks n lt none' k kl = elim (ℕ_discrete k n) [
      | yes here ↦ inr (
        block_of-direct (with_slot n) after k (omega arith) ∙ ground arith,
        block_of-direct ip d k (omega arith) ∙ ap ip.addrs here ∙ none',
        here,
      )
      | no apart ↦ elim (dec_lt k ndirect) [
        | yes direct ↦ inl (
            block_of-direct (with_slot n) after k direct
            ∙ ground arith
            ∙ sym (block_of-direct ip d k direct))
        | no far ↦ inl (
            block_of-same ip (with_slot n) d after k (omega arith) (ground arith)
              (λ h. kept_block (ip.addrs ndirect) (f.indirect h)))
      ]
    ]

    pub Mapping-slot :
        (n : ℕ) → n < ndirect → ip.addrs n ≡ 0 → Mapping sb ip d n b (with_slot n) after
    Mapping-slot n lt none' = record {
      grown =
          Grown-by sb ip d f b in_size free after m.mapped m.used (with_slot n) n
            (slot_blocks n lt none') (inl (ground arith)) refl refl (λ y h ne a. kept_block y h a)
            m.zeroed;
      at = λ h. block_of-direct (with_slot n) after n lt ∙ update_self ip.addrs n b;
      full = λ z. absurd (fresh-ne_zero sb ip d f b in_size free z);
    }

    -- A fresh indirect block holds no addresses.
    indirect_blocks :
        ip.addrs ndirect ≡ 0
        → (k : ℕ) → k < maxfile
        → block_of (with_slot ndirect) after k ≡ block_of ip d k
    indirect_blocks none' k kl = elim (dec_lt k ndirect) [
      | yes direct ↦
          block_of-direct (with_slot ndirect) after k direct
          ∙ ground arith
          ∙ sym (block_of-direct ip d k direct)
      | no far ↦
          block_of-word (with_slot ndirect) after k (omega arith)
            (λ z. fresh-ne_zero sb ip d f b in_size free z)
          ∙ ap (get32 (4 * (k - ndirect))) (fun_ext m.zeroed)
          ∙ unfold get32 in (omega arith) ∙ sym (block_of-none ip d k (omega arith) none')
    ]

    pub Grown-indirect : ip.addrs ndirect ≡ 0 → Grown sb ip (with_slot ndirect) d after
    Grown-indirect none' =
        Grown-by sb ip d f b in_size free after m.mapped m.used (with_slot ndirect) maxfile
          (λ k kl. inl (indirect_blocks none' k kl))
          (inr (update_self ip.addrs ndirect b, indirect_blocks none')) refl refl
          (λ y h ne a. kept_block y h a) m.zeroed

    -- The word of the indirect block set to the new block.
    abbrev linked : ℕ → Disk
    linked j = update after (ip.addrs ndirect) (put32 (4 * j) b (after (ip.addrs ndirect)))

    module _ (some' : ip.addrs ndirect ≢ 0) (j : ℕ) (lt : j < nindirect)
        (hole : block_of ip d (ndirect + j) ≡ 0) where
      linked-used : (x : ℕ) → x < sb.size → is_used sb (linked j) x ≡ is_used sb after x
      linked-used x xl =
          ap (λ (g : ℕ → ℕ). not (bit_clear (x % bpb) (g (x % bpb / 8))))
            (update_ne after _ (λ e. (f.indirect some').no_map x xl e))

      linked-IsMapped : IsMapped sb (linked j)
      linked-IsMapped = record {
        bytes = λ y a. ground (
          arith,
          m.mapped.bytes y a,
          put32-small (4 * j) b (after (ip.addrs ndirect)) a (m.mapped.bytes (ip.addrs ndirect) a),
        );
        own = λ x xl. linked-used (bblock x sb) (f.mapped.fits x xl) ∙ m.mapped.own x xl;
        fits = f.mapped.fits;
      }

      word_is :
          (k : ℕ)
          → k < nindirect
          → get32 (4 * k) (linked j (ip.addrs ndirect))
            ≡ (if k == j then b else get32 (4 * k) (d (ip.addrs ndirect)))
      word_is k kl =
          ap (get32 (4 * k)) (update_self after (ip.addrs ndirect) _) ∙ elim (ℕ_discrete k j) [
            | yes here ↦
                let t : (k == j) ≡ true = ground arith in
                rw t (
                  ap (λ y. get32 (4 * y) (put32 (4 * j) b (after (ip.addrs ndirect)))) here
                  ∙ get32-put32 (4 * j) b (after (ip.addrs ndirect)) small)
            | no apart ↦
                let t : (k == j) ≡ false = ground arith in
                rw t (
                  get32-put32_apart (4 * k) (4 * j) b (after (ip.addrs ndirect)) (omega arith)
                  ∙ ap (get32 (4 * k)) (fun_ext (kept_block (ip.addrs ndirect) (f.indirect some'))))
          ]
        where
          small : b < 2 ^ 32
          small = let w : sb.size ≤ 2 ^ 32 = f.words in omega arith

      linked_blocks :
          (k : ℕ)
          → k < maxfile
          → (block_of ip (linked j) k ≡ block_of ip d k)
            ⊎ ((block_of ip (linked j) k ≡ b) × (block_of ip d k ≡ 0) × (k ≡ ndirect + j))
      linked_blocks k kl = elim (dec_lt k ndirect) [
        | yes direct ↦
            inl (block_of-direct ip (linked j) k direct ∙ sym (block_of-direct ip d k direct))
        | no far ↦ elim (ℕ_discrete k (ndirect + j)) [
          | yes here ↦
              let t : (k - ndirect == j) ≡ true = ground arith in
              inr (
                block_of-word ip (linked j) k (omega arith) some'
                    ∙ word_is (k - ndirect) (omega arith)
                    ∙ rw t refl,
                ap (block_of ip d) here ∙ hole,
                here,
              )
          | no apart ↦
              let t : (k - ndirect == j) ≡ false = ground arith in
              inl (
                block_of-word ip (linked j) k (omega arith) some'
                ∙ word_is (k - ndirect) (omega arith)
                ∙ rw t (sym (block_of-word ip d k (omega arith) some')))
        ]
      ]

      pub Mapping-word : Mapping sb ip d (ndirect + j) b ip (linked j)
      Mapping-word = record {
        grown =
            Grown-by sb ip d f b in_size free (linked j) linked-IsMapped
              (λ x xl. linked-used x xl ∙ m.used x xl) ip (ndirect + j) linked_blocks (inl refl)
              refl refl
              (λ y h ne a. ap (λ (g : ℕ → ℕ). g a) (update_ne after _ ne) ∙ kept_block y h a)
              (λ a.
                ap (λ (g : ℕ → ℕ). g a)
                  (update_ne after _ (λ e.
                    Held-ne sb ip d f b in_size free (ip.addrs ndirect) (f.indirect some') (sym e)))
                ∙ m.zeroed a);
        at = λ h.
            block_of-word ip (linked j) (ndirect + j) (omega arith) some'
            ∙ word_is (ndirect + j - ndirect) (omega arith)
            ∙ ground arith;
        full = λ z. absurd (fresh-ne_zero sb ip d f b in_size free z);
      }
