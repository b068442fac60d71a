-- ===== src/Inode/Content.antt =====
-- kernel/fs.c, `readi` and `writei`: a file as a sequence of bytes.
use native.Mathlib.Decide.{ℕ_discrete, dec_lt}
use Prim.Native.Nat.{min}
use kus_operating_system_pro.Fs.Blocks.{is_used}
use kus_operating_system_pro.Inode.Bmap.{bmap-Mapping}
use kus_operating_system_pro.Fs.{Disk, Superblock, bsize}
use kus_operating_system_pro.Inode.{
  readi, chunk, prepend, Copies, Count, Inode, Moved, count, maxfile, minus_one, readi_from, slice,
}
use kus_operating_system_pro.Shared.{
  if◌then◌else◌, ltb, ◌^◌, Bool-cases, inr, true, ◌-◌, false, sym, ◌==◌, ◌∙◌, List, Option, [], ap,
  arith, inl, refl, some, suc, zero, ℕ, ◌%◌, ◌*◌, ◌++◌, ◌+◌, ◌/◌, ◌<◌, ◌∷◌, ◌≡◌, ◌≢◌, ◌≤◌, ◌⊎◌,
}
use mathlib.Core.Path.{ap₂}
use kus_operating_system_pro.Inode.Blocks.{IsFile, block_of, byte_at, Grown, Grown-none}
use mathlib.Core.Path.{subst}
use native.Mathlib.Decide.{ℕ_discrete}
use kus_operating_system_pro.Inode.Blocks.{Grown-trans}

-- `n` bytes of the file from offset `off` on.
unfoldable pub bytes_of : Inode → Disk → ℕ → ℕ → List ℕ
bytes_of ip d off zero = []
bytes_of ip d off (suc n) = byte_at ip d off ∷ bytes_of ip d (off + 1) n

pub byte_at-block :
    (ip : Inode) (d : Disk) (x : ℕ)
    → block_of ip d (x / bsize) ≢ 0
    → byte_at ip d x ≡ d (block_of ip d (x / bsize)) (x % bsize)
unfolding byte_at
byte_at-block ip d x h =
    let z : (block_of ip d (x / bsize) == 0) ≡ false = ground arith in rw z refl

-- A chunk within one block is read off the block.
slice-bytes_of :
    (ip : Inode) (d : Disk) (off m : ℕ)
    → off % bsize + m ≤ bsize
    → block_of ip d (off / bsize) ≢ 0
    → slice (off % bsize) m (d (block_of ip d (off / bsize))) ≡ bytes_of ip d off m
unfolding slice bytes_of
slice-bytes_of ip d off zero fits h = refl
slice-bytes_of ip d off (suc m) fits h =
    ap₂ ◌∷◌ (sym (byte_at-block ip d off h)) (elim (ℕ_discrete m 0) [
      | yes e ↦ rw e refl
      | no some' ↦
          let block : (off + 1) / bsize ≡ off / bsize = omega arith in
          let place : (off + 1) % bsize ≡ off % bsize + 1 = omega arith in
          let ih =
            slice-bytes_of ip d (off + 1) m (omega arith)
              (λ z. h (ap (block_of ip d) (sym block) ∙ z)) in
          ap₂ (λ (a n : ℕ). slice a m (d (block_of ip d n))) (sym place) (sym block) ∙ ih
    ])

bytes_of-same :
    (ip jp : Inode) (d e : Disk) (off n lim : ℕ)
    → off + n ≤ lim
    → ((x : ℕ) → x < lim → byte_at jp e x ≡ byte_at ip d x)
    → bytes_of jp e off n ≡ bytes_of ip d off n
unfolding bytes_of
bytes_of-same ip jp d e off zero lim fits h = refl
bytes_of-same ip jp d e off (suc n) lim fits h =
    ap₂ ◌∷◌ (h off (omega arith)) (bytes_of-same ip jp d e (off + 1) n lim (omega arith) h)

bytes_of-append :
    (ip : Inode) (d : Disk) (off m n : ℕ)
    → bytes_of ip d off m ++ bytes_of ip d (off + m) n ≡ bytes_of ip d off (m + n)
unfolding bytes_of
bytes_of-append ip d off zero n = ap₂ (λ (a k : ℕ). bytes_of ip d a k) (omega arith) (omega arith)
bytes_of-append ip d off (suc m) n =
    let here : off + suc m ≡ off + 1 + m = omega arith in
    let total : suc m + n ≡ suc (m + n) = omega arith in
    rw (here, total)
      (ap (λ (xs : List ℕ). byte_at ip d off ∷ xs) (bytes_of-append ip d (off + 1) m n))

-- Every block of the device is in use.
abbrev pub NoneFree : Superblock → Disk → Type 0
NoneFree sb d = (x : ℕ) → x < sb.size → is_used sb d x ≡ true

-- Why the loop of `readi` has ended, of `rest` bytes `len` of which it has moved after `tot` others.
abbrev Ended : Superblock → Copies → ℕ → ℕ → ℕ → Disk → Count → Type 0
Ended sb copies rest tot len d result =
    ((result ≡ count (tot + len)) × ((len ≡ rest) ⊎ NoneFree sb d))
    ⊎ ((result ≡ minus_one) × (k : ℕ) × (m : ℕ) × (copies k m ≡ false))

-- What the loop of `readi` has done.
pub record Read (sb : Superblock) (copies : Copies) (ip : Inode) (d : Disk) (rest tot off : ℕ)
    (r : Option Moved) : Type 0 where
  pub result : Count
  pub len : ℕ
  pub ip' : Inode
  pub d' : Disk
  pub returns : r ≡ some (result, bytes_of ip d off len, (ip', d'))
  pub grown : Grown sb ip ip' d d'
  pub within : len ≤ rest
  pub ended : Ended sb copies rest tot len d' result

-- The loop ends at once.
Read-end :
    (sb : Superblock) (copies : Copies) (ip ip' : Inode) (d d' : Disk) (rest tot off : ℕ)
    (r : Option Moved) (result : Count)
    → r ≡ some (result, [], (ip', d'))
    → Grown sb ip ip' d d'
    → Ended sb copies rest tot 0 d' result
    → Read sb copies ip d rest tot off r
Read-end sb copies ip ip' d d' rest tot off r result e g ended = record {
  result = result;
  len = 0;
  ip' = ip';
  d' = d';
  returns = unfold bytes_of in e;
  grown = g;
  within = omega arith;
  ended = ended;
}

-- A round that moves `m` bytes off the file, and the rounds after it.
Read-more :
    (sb : Superblock) (copies : Copies) (ip ip' : Inode) (d d' : Disk) (rest tot off m : ℕ)
    (more : Option Moved)
    → off + rest ≤ maxfile * bsize
    → m ≤ rest
    → Grown sb ip ip' d d'
    → Read sb copies ip' d' (rest - m) (tot + m) (off + m) more
    → Read sb copies ip d rest tot off (prepend (bytes_of ip' d' off m) more)
unfolding prepend
Read-more sb copies ip ip' d d' rest tot off m more fits le g ih = record {
  result = ih.result;
  len = m + ih.len;
  ip' = ih.ip';
  d' = ih.d';
  returns = rw ih.returns (
      ap (λ xs. some (ih.result, xs, (ih.ip', ih.d')))
        (bytes_of-append ip' d' off m ih.len
          ∙ bytes_of-same ip ip' d d' off (m + ih.len) (maxfile * bsize) (omega arith) g.content));
  grown = Grown-trans sb ip ip' ih.ip' d d' ih.d' g ih.grown;
  within = omega arith;
  ended = elim ih.ended [
    | inl (e, w) ↦
        inl (e ∙ ap count (omega arith), elim w [ inl k ↦ inl (omega arith) | inr u ↦ inr u ])
    | inr u ↦ inr u
  ];
}

readi_from-Read :
    (sb : Superblock) (copies : Copies) (fuel rest tot off : ℕ) (ip : Inode) (d : Disk)
    → IsFile sb ip d
    → off + rest ≤ maxfile * bsize
    → rest ≤ fuel
    → Read sb copies ip d rest tot off (readi_from sb copies fuel rest tot off ip d)
unfolding readi_from
readi_from-Read sb copies zero rest tot off ip d f fits enough =
    Read-end sb copies ip ip d d rest tot off _ (count tot) refl (Grown-none sb ip d f)
      (inl (ap count (omega arith), inl (omega arith)))
readi_from-Read sb copies (suc fuel) rest tot off ip d f fits enough = elim (ℕ_discrete rest 0) [
  | yes e ↦
      let t : (rest == 0) ≡ true = ground arith in
      Read-end sb copies ip ip d d rest tot off _ (count tot) (rw t refl) (Grown-none sb ip d f)
        (inl (ap count (omega arith), inl (sym e)))
  | no more ↦
      let t : (rest == 0) ≡ false = ground arith in
      let (addr, ip', d', e, k) = bmap-Mapping sb ip d (off / bsize) f (omega arith) in
      elim (ℕ_discrete addr 0) [
        | yes z ↦
            let u : (addr == 0) ≡ true = ground arith in
            Read-end sb copies ip ip' d d' rest tot off _ (count tot) (rw (t, e, u) refl) k.grown
              (inl (ap count (omega arith), inr (k.full z)))
        | no nz ↦
            let u : (addr == 0) ≡ false = ground arith in
            let m : ℕ = chunk rest off in
            elim (Bool-cases (copies tot m)) [
              | inr c ↦
                  Read-end sb copies ip ip' d d' rest tot off _ minus_one (rw (t, e, u, c) refl)
                    k.grown (inr (refl, tot, m, c))
              | inl c ↦
                  let more =
                    readi_from-Read sb copies fuel (rest - m) (tot + m) (off + m) ip' d'
                      k.grown.file (omega arith) (omega arith) in
                  let at = k.at nz in
                  let bytes = slice-bytes_of ip' d' off m (omega arith) (λ z. nz (sym at ∙ z)) in
                  rw (t, e, u, c)
                    (subst
                      (λ xs. Read sb copies ip d rest tot off (
                        prepend xs
                          (readi_from sb copies fuel (rest - m) (tot + m) (off + m) ip' d')))
                      (sym bytes ∙ ap (λ y. slice (off % bsize) m (d' y)) at)
                      (Read-more sb copies ip ip' d d' rest tot off m _ fits (omega arith) k.grown
                        more))
            ]
      ]
]

-- `readi` of `n` bytes from `off` on hands over the file's bytes from there, in order, up to the end
-- of the file at most; it stops before only at a hole on a full device, and then returns the count
-- reached, or at a copy that fails, and then returns -1. It never panics, and the file is well formed
-- after it with every byte as before. Holes are given blocks on the way.
pub readi-Read :
    (sb : Superblock) (copies : Copies) (off n : ℕ) (ip : Inode) (d : Disk)
    → IsFile sb ip d
    → ip.size ≤ maxfile * bsize
    → off + n < 2 ^ 32
    → Read sb copies ip d (min n (ip.size - off)) 0 off (readi sb copies off n ip d)
unfolding readi
readi-Read sb copies off n ip d f fits no_wrap = elim (dec_lt ip.size off) [
  | yes beyond ↦
      let t : ltb ip.size off ≡ true = ground arith in
      Read-end sb copies ip ip d d _ 0 off _ (count 0) (rw t refl) (Grown-none sb ip d f)
        (inl (refl, inl (omega arith)))
  | no inside ↦
      let t : ltb ip.size off ≡ false = ground arith in
      let u : ltb ((off + n) % 2 ^ 32) off ≡ false = ground arith in
      let wanted : (if ltb ip.size (off + n) then ip.size - off else n) ≡ min n (ip.size - off) =
        ground arith in
      rw (t, u, wanted)
        (readi_from-Read sb copies (min n (ip.size - off)) (min n (ip.size - off)) 0 off ip d f
          (omega arith) (omega arith))
]
