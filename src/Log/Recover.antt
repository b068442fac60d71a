-- ===== src/Log/Recover.antt =====
-- kernel/log.c: what recovery does with a valid log and with an empty one.
use kus_operating_system_pro.Shared.{
  is_in, All, Bool-cases, List, [], ap, arith, drop, false, if◌then◌else◌, inl, inr, length, refl,
  suc, take, ℕ, ◌++◌, ◌+◌, ◌<◌, ◌∙◌, ◌∷◌, ◌≡◌, ◌≤◌,
}
use kus_operating_system_pro.Log.Write.{
  bwrite-dead, IsHome, Slots, bwrite-other, bwrite_self, install_from-full, install_from-left,
  install_from-other,
}
use kus_operating_system_pro.Log.{
  Block, Dev, first_word, head_block, install_from, logblocks, read_head, recover_from_log,
  write_head,
}

-- No block of the log is listed, as none is a home block.
pub not_listed :
    (start x : ℕ) (bs : List ℕ)
    → start ≤ x
    → x ≤ start + logblocks
    → All (IsHome start) bs
    → is_in x bs ≡ false
unfolding is_in
not_listed start x [] lo hi h = refl
not_listed start x (b ∷ bs) lo hi h = ground (arith, not_listed start x bs lo hi h.1)

-- Slots are as good on another disk that agrees on the log.
pub Slots-agree :
    (start : ℕ) (cache : ℕ → Block) (tail : ℕ) (bs : List ℕ) (f g : ℕ → Block)
    → ((x : ℕ) → start < x → x ≤ start + logblocks → g x ≡ f x)
    → tail + length bs ≤ logblocks
    → Slots start cache tail bs f
    → Slots start cache tail bs g
Slots-agree start cache tail [] f g same fits s = tt
Slots-agree start cache tail (b ∷ bs) f g same fits s = (
  same (start + tail + 1) (omega arith) (omega arith) ∙ s.0,
  Slots-agree start cache (tail + 1) bs f g same (omega arith) s.1,
)

take-append : (xs ys : List ℕ) → take (length xs) (xs ++ ys) ≡ xs
take-append [] ys = refl
take-append (x ∷ xs) ys = ap (λ l. x ∷ l) (take-append xs ys)

-- The header that `write_head` writes reads back as the list that it was given.
pub read_head-head_block :
    (start : ℕ) (lh : List ℕ) (old : Block) (d : Dev)
    → d.disk start ≡ head_block lh old
    → read_head start d ≡ lh
unfolding read_head head_block
read_head-head_block start lh old d h = rw h (take-append lh (drop (suc (length lh)) old))

-- What every home block holds once a list of modified blocks is installed over a disk.
abbrev pub merged : (ℕ → Block) → List ℕ → (ℕ → Block) → ℕ → Block
merged cache lh disk x = if is_in x lh then cache x else disk x

-- Recovery with a valid log on disk installs it and clears the header.
pub recover-installs :
    (start : ℕ) (cache : ℕ → Block) (lh : List ℕ) (d : Dev) (x : ℕ)
    → read_head start d ≡ lh
    → All (IsHome start) lh
    → length lh ≤ logblocks
    → Slots start cache 0 lh d.disk
    → logblocks < d.left
    → IsHome start x
    → (recover_from_log start d).disk x ≡ merged cache lh d.disk x
unfolding recover_from_log write_head
recover-installs start cache lh d x h homes fits s enough home =
    rw h (bwrite-other start _ (install_from start 0 lh d) x (omega arith) ∙ settled)
  where
    settled : (install_from start 0 lh d).disk x ≡ merged cache lh d.disk x
    settled = elim (Bool-cases (is_in x lh)) [
      | inl listed ↦
          rw listed
            (install_from-full start cache 0 lh d x homes (omega arith) s (omega arith) listed)
      | inr other ↦ rw other (install_from-other start 0 lh d x other)
    ]

-- Recovery leaves an empty header.
recover-clears :
    (start : ℕ) (d : Dev)
    → length (read_head start d) < d.left
    → first_word ((recover_from_log start d).disk start) ≡ 0
unfolding recover_from_log write_head
recover-clears start d enough =
    unfold head_block in
    ap first_word (
      bwrite_self start _ (install_from start 0 (read_head start d) d)
        (omega (arith, install_from-left start 0 (read_head start d) d)))

pub install_from-dead :
    (start tail : ℕ) (bs : List ℕ) (d : Dev) → d.left ≡ 0 → install_from start tail bs d ≡ d
unfolding install_from
install_from-dead start tail [] d h = refl
install_from-dead start tail (b ∷ bs) d h =
    rw (bwrite-dead b (d.disk (start + tail + 1)) d h) (install_from-dead start (tail + 1) bs d h)

read_head-clean : (start : ℕ) (d : Dev) → first_word (d.disk start) ≡ 0 → read_head start d ≡ []
unfolding read_head
read_head-clean start d h = rw h refl

-- Recovery with an empty log changes no home block.
pub recover_clean :
    (start : ℕ) (d : Dev) (x : ℕ)
    → first_word (d.disk start) ≡ 0
    → logblocks < d.left
    → IsHome start x
    → (recover_from_log start d).disk x ≡ d.disk x
unfolding is_in
recover_clean start d x clean enough home =
    recover-installs start d.disk [] d x (read_head-clean start d clean) tt (omega arith) tt enough
      home
