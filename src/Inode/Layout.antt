-- ===== src/Inode/Layout.antt =====
-- kernel/fs.c: the fields of an inode on disk read back as they were written.
use kus_operating_system_pro.Fs.{Disk, Superblock}
use mathlib.Core.Path.{subst}
use kus_operating_system_pro.Inode.{
  Inode, dinode_bytes, get_dinode, iblock, iload, ipb, iupdate, ndirect, put_dinode, get16, get32,
  put16, put32, put_addrs,
}
use kus_operating_system_pro.Shared.{
  if◌then◌else◌, ltb, true, ap, inl, sym, update_self, ◌%◌, arith, refl, suc, zero, ℕ, ◌*◌, ◌+◌,
  ◌<◌, ◌^◌, ◌∙◌, ◌≡◌, ◌≤◌, ◌⊎◌,
}

pub get32-put32 : (a v : ℕ) (f : ℕ → ℕ) → v < 2 ^ 32 → get32 a (put32 a v f) ≡ v
unfolding get32 put32
get32-put32 a v f h = ground arith

pub get32-put32_apart :
    (a b v : ℕ) (f : ℕ → ℕ) → (a + 4 ≤ b) ⊎ (b + 4 ≤ a) → get32 a (put32 b v f) ≡ get32 a f
unfolding get32 put32
get32-put32_apart a b v f h = ground arith

get16-put16 : (a v : ℕ) (f : ℕ → ℕ) → v < 2 ^ 16 → get16 a (put16 a v f) ≡ v
unfolding get16 put16
get16-put16 a v f h = ground arith

pub get32-small : (a : ℕ) (f : ℕ → ℕ) → ((x : ℕ) → f x < 256) → get32 a f < 2 ^ 32
unfolding get32
get32-small a f h = omega (arith, h a, h (a + 1), h (a + 2), h (a + 3))

pub put32-small : (a v : ℕ) (f : ℕ → ℕ) (x : ℕ) → f x < 256 → put32 a v f x < 256
unfolding put32
put32-small a v f x h = ground arith

pub put32-other : (a v : ℕ) (f : ℕ → ℕ) (x : ℕ) → (x < a) ⊎ (a + 4 ≤ x) → put32 a v f x ≡ f x
unfolding put32
put32-other a v f x h = ground arith

put16-other : (a v : ℕ) (f : ℕ → ℕ) (x : ℕ) → (x < a) ⊎ (a + 2 ≤ x) → put16 a v f x ≡ f x
unfolding put16
put16-other a v f x h = ground arith

get32-same :
    (a : ℕ) (f g : ℕ → ℕ) → ((x : ℕ) → a ≤ x → x < a + 4 → f x ≡ g x) → get32 a f ≡ get32 a g
unfolding get32
get32-same a f g h = omega (
  arith,
  h a (omega arith) (omega arith),
  h (a + 1) (omega arith) (omega arith),
  h (a + 2) (omega arith) (omega arith),
  h (a + 3) (omega arith) (omega arith),
)

get16-same : (a : ℕ) (f g : ℕ → ℕ) → f a ≡ g a → f (a + 1) ≡ g (a + 1) → get16 a f ≡ get16 a g
unfolding get16
get16-same a f g h h' = omega arith

-- A byte outside the fields that `put_dinode` writes.
put_addrs-other :
    (n i a : ℕ) (addrs f : ℕ → ℕ) (x : ℕ)
    → (x < a) ⊎ (a + 4 * n ≤ x)
    → put_addrs n i a addrs f x ≡ f x
unfolding put_addrs
put_addrs-other zero i a addrs f x h = refl
put_addrs-other (suc n) i a addrs f x h =
    put_addrs-other n (i + 1) (a + 4) addrs (put32 a (addrs i) f) x (omega arith)
    ∙ put32-other a (addrs i) f x (omega arith)

get32-put_addrs :
    (n i a : ℕ) (addrs f : ℕ → ℕ) (j : ℕ)
    → j < n
    → addrs (i + j) < 2 ^ 32
    → get32 (a + 4 * j) (put_addrs n i a addrs f) ≡ addrs (i + j)
unfolding put_addrs
get32-put_addrs zero i a addrs f j lt small = absurd (omega arith)
get32-put_addrs (suc n) i a addrs f zero lt small =
    ap (λ y. get32 y (put_addrs n (i + 1) (a + 4) addrs (put32 a (addrs i) f))) at_first
    ∙ get32-same a _ (put32 a (addrs i) f)
        (λ x lo hi. put_addrs-other n (i + 1) (a + 4) addrs _ x (omega arith))
    ∙ get32-put32 a (addrs i) f (subst (λ y. addrs y < 2 ^ 32) (omega arith) small)
    ∙ ap addrs (omega arith)
  where
    at_first : a + 4 * 0 ≡ a
    at_first = omega arith
get32-put_addrs (suc n) i a addrs f (suc j) lt small =
    ap (λ y. get32 y (put_addrs n (i + 1) (a + 4) addrs (put32 a (addrs i) f))) onward
    ∙ get32-put_addrs n (i + 1) (a + 4) addrs (put32 a (addrs i) f) j (omega arith)
        (subst (λ y. addrs y < 2 ^ 32) shift small)
    ∙ ap addrs (sym shift)
  where
    onward : a + 4 * suc j ≡ a + 4 + 4 * j
    onward = omega arith

    shift : i + suc j ≡ i + 1 + j
    shift = omega arith

-- The fields of an inode on disk have 16 and 32 bits.
pub record IsSized (ip : Inode) : Type 0 where
  pub type_word : ip.type' < 2 ^ 16
  pub major_word : ip.major < 2 ^ 16
  pub minor_word : ip.minor < 2 ^ 16
  pub nlink_word : ip.nlink < 2 ^ 16
  pub size_word : ip.size < 2 ^ 32
  pub addrs_word : (i : ℕ) → ip.addrs i < 2 ^ 32

module _ (a : ℕ) (ip : Inode) (f : ℕ → ℕ) where
  abbrev heads : ℕ → ℕ
  heads = put32 (a + 8) ip.size (
      put16 (a + 6) ip.nlink (put16 (a + 4) ip.minor (put16 (a + 2) ip.major (put16 a ip.type' f))))

  head_kept : (x : ℕ) → x < a + 12 → put_dinode a ip f x ≡ heads x
  unfolding put_dinode
  head_kept x h = put_addrs-other 13 0 (a + 12) ip.addrs heads x (inl h)

  abbrev words : ℕ → ℕ
  words =
      put16 (a + 6) ip.nlink (put16 (a + 4) ip.minor (put16 (a + 2) ip.major (put16 a ip.type' f)))

  word_kept : (x : ℕ) → x < a + 8 → put_dinode a ip f x ≡ words x
  word_kept x h = head_kept x (omega arith) ∙ put32-other (a + 8) ip.size words x (inl h)

  word_of : (k : ℕ) → k + 2 ≤ 8 → get16 (a + k) (put_dinode a ip f) ≡ get16 (a + k) words
  word_of k h =
      get16-same (a + k) _ words (word_kept (a + k) (omega arith))
        (word_kept (a + k + 1) (omega arith))

  addr_of :
      (i : ℕ)
      → i < ndirect + 1
      → ip.addrs i < 2 ^ 32
      → (if ltb i (ndirect + 1) then get32 (a + 12 + 4 * i) (put_dinode a ip f) else 0) ≡ ip.addrs i
  unfolding put_dinode
  addr_of i lt small =
      let inside : ltb i (ndirect + 1) ≡ true = ground arith in
      rw inside (
        get32-put_addrs 13 0 (a + 12) ip.addrs heads i lt
          (subst (λ y. ip.addrs y < 2 ^ 32) zero_more small)
        ∙ ap ip.addrs (sym zero_more))
    where
      zero_more : i ≡ 0 + i
      zero_more = omega arith

  four_words :
      (v w x y : ℕ) (g : ℕ → ℕ)
      → v < 2 ^ 16
      → w < 2 ^ 16
      → x < 2 ^ 16
      → y < 2 ^ 16
      → let h = put16 (a + 6) y (put16 (a + 4) x (put16 (a + 2) w (put16 a v g))) in
        (get16 a h ≡ v) × (get16 (a + 2) h ≡ w) × (get16 (a + 4) h ≡ x) × (get16 (a + 6) h ≡ y)
  unfolding get16 put16
  four_words v w x y g hv hw hx hy = (ground arith, ground arith, ground arith, ground arith)

-- What `ilock` loads after `iupdate` of an inode are its fields and its 13 addresses, whatever the
-- entry of the table held before.
pub iload-iupdate :
    (sb : Superblock) (ip jp : Inode) (d : Disk) (i : ℕ)
    → IsSized ip
    → jp.inum ≡ ip.inum
    → i < ndirect + 1
    → let loaded = iload sb jp (iupdate sb ip d) in
      (loaded.type' ≡ ip.type')
      × (loaded.major ≡ ip.major)
      × (loaded.minor ≡ ip.minor)
      × (loaded.nlink ≡ ip.nlink)
      × (loaded.size ≡ ip.size)
      × (loaded.addrs i ≡ ip.addrs i)
unfolding iload iupdate get_dinode
iload-iupdate sb ip jp d i s same lt = rw same (
    rw (update_self d (iblock ip.inum sb) (put_dinode a ip f)) (
      (ap (λ y. get16 y (put_dinode a ip f)) (omega arith)
          ∙ word_of a ip f 0 (omega arith)
          ∙ ap (λ y. get16 y (words a ip f)) (omega arith)
          ∙ q.0),
      word_of a ip f 2 (omega arith) ∙ q.1,
      word_of a ip f 4 (omega arith) ∙ q.2,
      word_of a ip f 6 (omega arith) ∙ q.3,
      get32-same (a + 8) _ (heads a ip f) (λ x lo hi. head_kept a ip f x (omega arith))
          ∙ get32-put32 (a + 8) ip.size (words a ip f) s.size_word,
      addr_of a ip f i lt (s.addrs_word i),
    ))
  where
    a : ℕ
    a = ip.inum % ipb * dinode_bytes

    f : ℕ → ℕ
    f = d (iblock ip.inum sb)

    q :
        (get16 a (words a ip f) ≡ ip.type')
        × (get16 (a + 2) (words a ip f) ≡ ip.major)
        × (get16 (a + 4) (words a ip f) ≡ ip.minor)
        × (get16 (a + 6) (words a ip f) ≡ ip.nlink)
    q =
        four_words a ip f ip.type' ip.major ip.minor ip.nlink f s.type_word s.major_word
          s.minor_word s.nlink_word
