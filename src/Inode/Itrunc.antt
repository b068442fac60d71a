-- ===== src/Inode/Itrunc.antt =====
-- kernel/fs.c, `itrunc` as a whole: the blocks that are freed and the blocks of the file.
use kus_operating_system_pro.Inode.{trunc_words, Inode, get32, maxfile, ndirect, nindirect}
use kus_operating_system_pro.Shared.{
  ap, refl, some, ◌-◌, ◌==◌, ◌||◌, Bool, Bool-cases, arith, false, inl, inr, sym, true, ℕ, ◌*◌, ◌+◌,
  ◌<◌, ◌∙◌, ◌≡◌, ◌≢◌, ◌⊎◌,
}
use kus_operating_system_pro.Fs.{bfree, Disk, Superblock}
use kus_operating_system_pro.Inode.Truncate.{bind, trunc_words-free_run}
use kus_operating_system_pro.Inode.Release.{
  CanFree, Released, Released-trans, free_run-Released, listed, listed-position, listed-entry,
}
use kus_operating_system_pro.Inode.Blocks.{Held, IsFile, block_of}
use kus_operating_system_pro.Inode.Map.{block_of-direct, block_of-none, block_of-word}
use kus_operating_system_pro.Fs.Blocks.{is_used}
use kus_operating_system_pro.Fs.Free.{bfree-Freed}
use native.Mathlib.Decide.{dec_lt}
use mathlib.Core.Path.{subst, fun_ext, ap₂}

-- Block `x` is one of the file's, a part or the indirect block.
abbrev pub IsOwn : Inode → Disk → ℕ → Type 0
IsOwn ip d x =
    (x ≢ 0) × (((n : ℕ) × (n < maxfile) × (block_of ip d n ≡ x)) ⊎ (ip.addrs ndirect ≡ x))

-- The free map has lost the blocks that `gone` picks, and these are the file's.
pub record Emptied (sb : Superblock) (ip : Inode) (d : Disk) (gone : ℕ → Bool) (d' : Disk)
    : Type 0 where
  pub released : Released sb gone d d'
  pub own : (x : ℕ) → gone x ≡ true → IsOwn ip d x
  pub all : (x : ℕ) → IsOwn ip d x → gone x ≡ true

module _ (sb : Superblock) (ip : Inode) (d : Disk) (f : IsFile sb ip d) where
  pub direct-CanFree : CanFree sb ip.addrs ndirect 0 d
  direct-CanFree = record {
    small = f.mapped.bytes;
    in_size = λ j lo hi nz. (held j hi nz).in_size;
    in_use = λ j lo hi nz. (held j hi nz).in_use;
    once = λ j k a hj b hk nz e.
        f.distinct j k (omega arith) (omega arith) (λ z. nz (sym (at j hj) ∙ z))
          (at j hj ∙ e ∙ sym (at k hk));
  }
    where
      at : (j : ℕ) → j < 0 + ndirect → block_of ip d j ≡ ip.addrs j
      at j hi = block_of-direct ip d j (omega arith)

      held : (j : ℕ) → j < 0 + ndirect → ip.addrs j ≢ 0 → Held sb d (ip.addrs j)
      held j hi nz =
          subst (Held sb d) (at j hi) (f.parts j (omega arith) (λ z. nz (sym (at j hi) ∙ z)))

  direct-IsOwn : (x : ℕ) → listed ip.addrs ndirect 0 x ≡ true → IsOwn ip d x
  direct-IsOwn x h =
      let (j, lo, hi, e, nz) = listed-position ip.addrs ndirect 0 x h in
      (nz, inl (j, omega arith, block_of-direct ip d j (omega arith) ∙ e))

  -- Without an indirect block.
  pub direct-Emptied :
      (d' : Disk)
      → ip.addrs ndirect ≡ 0
      → Released sb (listed ip.addrs ndirect 0) d d'
      → Emptied sb ip d (listed ip.addrs ndirect 0) d'
  direct-Emptied d' none' r = record {
    released = r;
    own = direct-IsOwn;
    all = λ x (nz, o). elim o [
      | inr e ↦ absurd (nz (sym e ∙ none'))
      | inl (n, lt, e) ↦ elim (dec_lt n ndirect) [
        | yes near ↦
            let at = block_of-direct ip d n near in
            subst (λ y. listed ip.addrs ndirect 0 y ≡ true) (sym at ∙ e)
              (listed-entry ip.addrs ndirect 0 n (omega arith) (omega arith)
                (λ z. nz (sym e ∙ at ∙ z)))
        | no far ↦ absurd (nz (sym e ∙ block_of-none ip d n (omega arith) none'))
      ]
    ];
  }

  -- With an indirect block, once the direct ones are free.
  module _ (d₁ : Disk) (r : Released sb (listed ip.addrs ndirect 0) d d₁)
      (nz : ip.addrs ndirect ≢ 0) where
    abbrev block : ℕ
    block = ip.addrs ndirect

    abbrev word : ℕ → ℕ
    word k = get32 (4 * k) (d₁ (ip.addrs ndirect))

    same_words : d₁ block ≡ d block
    same_words = fun_ext (λ a. r.others block (f.indirect nz).no_map a)

    word-block_of : (k : ℕ) → k < nindirect → block_of ip d (ndirect + k) ≡ word k
    word-block_of k lt =
        block_of-word ip d (ndirect + k) (omega arith) nz
        ∙ ap₂ (λ (m : ℕ) (g : ℕ → ℕ). get32 (4 * m) g) (omega arith) (sym same_words)

    not_direct :
        (x : ℕ)
        → ((n : ℕ) → n < ndirect → block_of ip d n ≡ x → x ≢ 0 → ⊥)
        → listed ip.addrs ndirect 0 x ≡ false
    not_direct x h = elim (Bool-cases (listed ip.addrs ndirect 0 x)) [
      | inr t ↦ t
      | inl t ↦
          let (j, lo, hi, e, nz') = listed-position ip.addrs ndirect 0 x t in
          absurd (h j (omega arith) (block_of-direct ip d j (omega arith) ∙ e) nz')
    ]

    words-CanFree : CanFree sb word nindirect 0 d₁
    words-CanFree = record {
      small = r.bytes;
      in_size = λ j lo hi nz'. (held j hi nz').in_size;
      in_use = λ j lo hi nz'.
          r.used (word j)
          ∙ rw
              (not_direct (word j) (λ n lt e z.
                let same =
                  f.distinct n (ndirect + j) (omega arith) (omega arith) (λ z'. z (sym e ∙ z'))
                    (e ∙ sym (at j hi)) in
                omega arith))
              ((held j hi nz').in_use);
      once = λ j k a hj b hk nz' e.
          let same =
            f.distinct (ndirect + j) (ndirect + k) (omega arith) (omega arith)
              (λ z. nz' (sym (at j hj) ∙ z)) (at j hj ∙ e ∙ sym (at k hk)) in
          omega arith;
    }
      where
        at : (j : ℕ) → j < 0 + nindirect → block_of ip d (ndirect + j) ≡ word j
        at j hi = word-block_of j (omega arith)

        held : (j : ℕ) → j < 0 + nindirect → word j ≢ 0 → Held sb d (word j)
        held j hi nz' =
            subst (Held sb d) (at j hi)
              (f.parts (ndirect + j) (omega arith) (λ z. nz' (sym (at j hi) ∙ z)))

    abbrev pub gone : ℕ → Bool
    gone x = listed ip.addrs ndirect 0 x || listed word nindirect 0 x || (x == block)

    -- The indirect block is still in use when the words are free.
    block-in_use :
        (d₂ : Disk) → Released sb (listed word nindirect 0) d₁ d₂ → is_used sb d₂ block ≡ true
    block-in_use d₂ q =
        q.used block
        ∙ rw not_word (
            r.used block
            ∙ rw (not_direct block (λ n lt e z. f.apart n (omega arith) nz e))
                ((f.indirect nz).in_use))
      where
        not_word : listed word nindirect 0 block ≡ false
        not_word = elim (Bool-cases (listed word nindirect 0 block)) [
          | inr t ↦ t
          | inl t ↦
              let (k, lo, hi, e, nz') = listed-position word nindirect 0 block t in
              absurd (f.apart (ndirect + k) (omega arith) nz (word-block_of k (omega arith) ∙ e))
        ]

    gone-IsOwn : (x : ℕ) → gone x ≡ true → IsOwn ip d x
    gone-IsOwn x h = elim (Bool-cases (listed ip.addrs ndirect 0 x)) [
      | inl t ↦ direct-IsOwn x t
      | inr t ↦ elim (Bool-cases (listed word nindirect 0 x)) [
        | inl u ↦
            let (k, lo, hi, e, nz') = listed-position word nindirect 0 x u in
            (nz', inl (ndirect + k, omega arith, word-block_of k (omega arith) ∙ e))
        | inr u ↦ let e : x ≡ block = ground (arith, h, t, u) in (λ z. nz (sym e ∙ z), inr (sym e))
      ]
    ]

    gone-all : (x : ℕ) → IsOwn ip d x → gone x ≡ true
    gone-all x (nz', o) = elim o [
      | inr e ↦ ground (arith, e)
      | inl (n, lt, e) ↦ elim (dec_lt n ndirect) [
        | yes near ↦
            let at = block_of-direct ip d n near in
            let t : listed ip.addrs ndirect 0 x ≡ true =
              subst (λ y. listed ip.addrs ndirect 0 y ≡ true) (sym at ∙ e)
                (listed-entry ip.addrs ndirect 0 n (omega arith) (omega arith)
                  (λ z. nz' (sym e ∙ at ∙ z))) in
            ground (arith, t)
        | no far ↦
            let m : ndirect + (n - ndirect) ≡ n = omega arith in
            let at = word-block_of (n - ndirect) (omega arith) in
            let w : word (n - ndirect) ≡ x = sym at ∙ ap (block_of ip d) m ∙ e in
            let t : listed word nindirect 0 x ≡ true =
              subst (λ y. listed word nindirect 0 y ≡ true) w
                (listed-entry word nindirect 0 (n - ndirect) (omega arith) (omega arith)
                  (λ z. nz' (sym w ∙ z))) in
            ground (arith, t)
      ]
    ]

    -- The words and the indirect block are freed.
    pub indirect-Emptied :
        (d₃ : Disk) × (bind (bfree sb block) (trunc_words sb (d₁ block) nindirect 0 d₁) ≡ some d₃)
        × Emptied sb ip d gone d₃
    indirect-Emptied =
        let (d₂, e, q) = free_run-Released sb word nindirect 0 d₁ words-CanFree in
        let (d₃, e', b) = bfree-Freed sb d₂ block q.bytes (block-in_use d₂ q) in
        let last : Released sb (λ x. x == block) d₂ d₃ = record {
          bytes = b.bytes;
          used = b.used;
          others = λ y o a. b.others y a (λ c. o block (f.indirect nz).in_size (sym c));
        } in
        (
          d₃,
          ap (bind (bfree sb block)) (trunc_words-free_run sb (d₁ block) nindirect 0 d₁ ∙ e) ∙ e',
          record {
            released =
                Released-trans sb (λ x. listed ip.addrs ndirect 0 x || listed word nindirect 0 x)
                  (λ x. x == block) gone d d₂ d₃
                  (Released-trans sb (listed ip.addrs ndirect 0) (listed word nindirect 0) _ d d₁ d₂
                    r q (λ x. refl))
                  last (λ x. refl);
            own = gone-IsOwn;
            all = gone-all;
          },
        )
