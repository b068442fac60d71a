-- ===== src/Log/Write.antt =====
-- kernel/log.c: what the loops of the log write, for any number of writes before a crash.
use mathlib.Core.Bool.{false≢true}
use kus_operating_system_pro.Log.{Block, Dev, bwrite, install_from, logblocks, write_log_from}
use kus_operating_system_pro.Shared.{
  is_in, Bool-cases, ap, inr, sym, All, List, [], arith, false, inl, length, refl, true, ℕ, ◌+◌,
  ◌-◌, ◌<◌, ◌∙◌, ◌∷◌, ◌≡◌, ◌≢◌, ◌≤◌, ◌⊎◌,
}

-- The slots from `tail` on hold the contents of the listed blocks.
abbrev pub Slots : ℕ → (ℕ → Block) → ℕ → List ℕ → (ℕ → Block) → Type 0
Slots start cache tail [] disk = Unit
Slots start cache tail (b ∷ bs) disk =
    (disk (start + tail + 1) ≡ cache b) × Slots start cache (tail + 1) bs disk

pub bwrite-other : (b : ℕ) (v : Block) (d : Dev) (x : ℕ) → x ≢ b → (bwrite b v d).disk x ≡ d.disk x
unfolding bwrite
bwrite-other b v d x h = ground arith

pub bwrite_self : (b : ℕ) (v : Block) (d : Dev) → 0 < d.left → (bwrite b v d).disk b ≡ v
unfolding bwrite
bwrite_self b v d h = ground arith

pub bwrite-left : (b : ℕ) (v : Block) (d : Dev) → (bwrite b v d).left ≡ d.left - 1
unfolding bwrite
bwrite-left b v d = ground arith

pub bwrite-dead : (b : ℕ) (v : Block) (d : Dev) → d.left ≡ 0 → bwrite b v d ≡ d
unfolding bwrite
bwrite-dead b v d h = ground arith

-- The slots are the only blocks that `write_log` writes.
pub write_log_from-other :
    (start : ℕ) (cache : ℕ → Block) (tail : ℕ) (bs : List ℕ) (d : Dev) (x : ℕ)
    → (x ≤ start + tail) ⊎ (start + tail + length bs < x)
    → (write_log_from start cache tail bs d).disk x ≡ d.disk x
unfolding write_log_from
write_log_from-other start cache tail [] d x h = refl
write_log_from-other start cache tail (b ∷ bs) d x h =
    write_log_from-other start cache (tail + 1) bs (bwrite (start + tail + 1) (cache b) d) x
      (omega arith)
    ∙ bwrite-other (start + tail + 1) (cache b) d x (omega arith)

pub write_log_from-left :
    (start : ℕ) (cache : ℕ → Block) (tail : ℕ) (bs : List ℕ) (d : Dev)
    → (write_log_from start cache tail bs d).left ≡ d.left - length bs
unfolding write_log_from
write_log_from-left start cache tail [] d = omega arith
write_log_from-left start cache tail (b ∷ bs) d = omega (
  arith,
  write_log_from-left start cache (tail + 1) bs (bwrite (start + tail + 1) (cache b) d),
  bwrite-left (start + tail + 1) (cache b) d,
)

-- With enough writes left, the slots hold the modified contents.
pub write_log_from-Slots :
    (start : ℕ) (cache : ℕ → Block) (tail : ℕ) (bs : List ℕ) (d : Dev)
    → length bs ≤ d.left
    → Slots start cache tail bs (write_log_from start cache tail bs d).disk
unfolding write_log_from
write_log_from-Slots start cache tail [] d h = tt
write_log_from-Slots start cache tail (b ∷ bs) d h = (
  write_log_from-other start cache (tail + 1) bs (bwrite (start + tail + 1) (cache b) d)
        (start + tail + 1) (inl (omega arith))
      ∙ bwrite_self (start + tail + 1) (cache b) d (omega arith),
  write_log_from-Slots start cache (tail + 1) bs (bwrite (start + tail + 1) (cache b) d)
      (omega (arith, bwrite-left (start + tail + 1) (cache b) d)),
)

-- The listed blocks lie outside the log, which takes `logblocks + 1` blocks from `start` on.
abbrev pub IsHome : ℕ → ℕ → Type 0
IsHome start b = (b < start) ⊎ (start + logblocks < b)

-- Slots survive writes to blocks outside the log.
pub Slots-bwrite :
    (start : ℕ) (cache : ℕ → Block) (tail : ℕ) (bs : List ℕ) (b : ℕ) (v : Block) (d : Dev)
    → IsHome start b
    → tail + length bs ≤ logblocks
    → Slots start cache tail bs d.disk
    → Slots start cache tail bs (bwrite b v d).disk
Slots-bwrite start cache tail [] b v d home fits s = tt
Slots-bwrite start cache tail (x ∷ bs) b v d home fits s = (
  bwrite-other b v d (start + tail + 1) (omega arith) ∙ s.0,
  Slots-bwrite start cache (tail + 1) bs b v d home (omega arith) s.1,
)

bwrite-cases :
    (b : ℕ) (v : Block) (d : Dev) (x : ℕ)
    → ((bwrite b v d).disk x ≡ d.disk x) ⊎ ((x ≡ b) × ((bwrite b v d).disk x ≡ v))
unfolding bwrite
bwrite-cases b v d x = ground arith

is_in-head : (x b : ℕ) (bs : List ℕ) → x ≡ b → is_in x (b ∷ bs) ≡ true
unfolding is_in
is_in-head x b bs h = ground arith

is_in-tail : (x b : ℕ) (bs : List ℕ) → is_in x bs ≡ true → is_in x (b ∷ bs) ≡ true
unfolding is_in
is_in-tail x b bs h = ground arith

is_in-cases : (x b : ℕ) (bs : List ℕ) → is_in x (b ∷ bs) ≡ true → (x ≡ b) ⊎ (is_in x bs ≡ true)
unfolding is_in
is_in-cases x b bs h = ground arith

-- Any part of an installation leaves alone what is not listed, and puts nothing but the modified
-- contents into what is.
pub install_from-part :
    (start : ℕ) (cache : ℕ → Block) (tail : ℕ) (bs : List ℕ) (d : Dev) (x : ℕ)
    → All (IsHome start) bs
    → tail + length bs ≤ logblocks
    → Slots start cache tail bs d.disk
    → ((install_from start tail bs d).disk x ≡ d.disk x)
      ⊎ ((is_in x bs ≡ true) × ((install_from start tail bs d).disk x ≡ cache x))
unfolding install_from
install_from-part start cache tail [] d x homes fits s = inl refl
install_from-part start cache tail (b ∷ bs) d x homes fits s =
    elim (install_from-part start cache (tail + 1) bs d1 x homes.1 (omega arith)
      (Slots-bwrite start cache (tail + 1) bs b v d homes.0 (omega arith) s.1)) [
        | inl rest ↦ elim (bwrite-cases b v d x) [
          | inl same ↦ inl (rest ∙ same)
          | inr (here, set_here) ↦
              inr (is_in-head x b bs here, rest ∙ set_here ∙ s.0 ∙ ap cache (sym here))
        ]
        | inr (listed, new) ↦ inr (is_in-tail x b bs listed, new)
      ]
  where
    v : Block
    v = d.disk (start + tail + 1)

    d1 : Dev
    d1 = bwrite b v d

-- What is not listed is as before.
pub install_from-other :
    (start : ℕ) (tail : ℕ) (bs : List ℕ) (d : Dev) (x : ℕ)
    → is_in x bs ≡ false
    → (install_from start tail bs d).disk x ≡ d.disk x
unfolding install_from is_in
install_from-other start tail [] d x h = refl
install_from-other start tail (b ∷ bs) d x h =
    install_from-other start (tail + 1) bs (bwrite b (d.disk (start + tail + 1)) d) x (ground arith)
    ∙ bwrite-other b (d.disk (start + tail + 1)) d x (ground arith)

-- With enough writes left, every listed block holds its modified contents.
pub install_from-full :
    (start : ℕ) (cache : ℕ → Block) (tail : ℕ) (bs : List ℕ) (d : Dev) (x : ℕ)
    → All (IsHome start) bs
    → tail + length bs ≤ logblocks
    → Slots start cache tail bs d.disk
    → length bs ≤ d.left
    → is_in x bs ≡ true
    → (install_from start tail bs d).disk x ≡ cache x
unfolding install_from
install_from-full start cache tail [] d x homes fits s enough listed =
    unfold is_in in absurd (false≢true listed)
install_from-full start cache tail (b ∷ bs) d x homes fits s enough listed =
    elim (Bool-cases (is_in x bs)) [
      | inl later ↦
          install_from-full start cache (tail + 1) bs d1 x homes.1 (omega arith)
            (Slots-bwrite start cache (tail + 1) bs b v d homes.0 (omega arith) s.1)
            (omega (arith, bwrite-left b v d)) later
      | inr not_later ↦ elim (is_in-cases x b bs listed) [
        | inl here ↦
            install_from-other start (tail + 1) bs d1 x not_later
            ∙ ap d1.disk here
            ∙ bwrite_self b v d (omega arith)
            ∙ s.0
            ∙ ap cache (sym here)
        | inr later ↦ absurd (false≢true (sym not_later ∙ later))
      ]
    ]
  where
    v : Block
    v = d.disk (start + tail + 1)

    d1 : Dev
    d1 = bwrite b v d

pub install_from-left :
    (start tail : ℕ) (bs : List ℕ) (d : Dev)
    → (install_from start tail bs d).left ≡ d.left - length bs
unfolding install_from
install_from-left start tail [] d = omega arith
install_from-left start tail (b ∷ bs) d = omega (
  arith,
  install_from-left start (tail + 1) bs (bwrite b (d.disk (start + tail + 1)) d),
  bwrite-left b (d.disk (start + tail + 1)) d,
)
