-- ===== src/Inode/Truncate.antt =====
-- kernel/fs.c, `itrunc`: the loops over the direct and the indirect blocks as one kind of run.
use kus_operating_system_pro.Fs.{Disk, Superblock}
use kus_operating_system_pro.Inode.{Inode, free_addr, get32, trunc_direct, trunc_words}
use kus_operating_system_pro.Shared.{
  Option, ap, none, sym, update_ne, ◌<◌, ◌∙◌, ◌≤◌, arith, if◌then◌else◌, leb, ltb, refl, some, suc,
  update, zero, ℕ, ◌&&◌, ◌*◌, ◌+◌, ◌≡◌,
}
use kus_operating_system_pro.Inode.Release.{free_run}
use mathlib.Core.Path.{fun_ext, ap₂}

-- The table of addresses with `n` entries from `i` on set to 0.
unfoldable pub cleared : ℕ → ℕ → (ℕ → ℕ) → ℕ → ℕ
cleared n i t j = if leb i j && ltb j (i + n) then 0 else t j

cleared-none : (i : ℕ) (t : ℕ → ℕ) → cleared 0 i t ≡ t
unfolding cleared
cleared-none i t = fun_ext (λ j. ground arith)

cleared-update : (n i : ℕ) (t : ℕ → ℕ) → cleared n (i + 1) (update t i 0) ≡ cleared (suc n) i t
unfolding cleared
cleared-update n i t = fun_ext (λ j. ground arith)

abbrev pub bind : {A : Type 0} → (Disk → Option A) → Option Disk → Option A
bind f none = none
bind f (some d) = f d

free_run-same :
    (sb : Superblock) (t u : ℕ → ℕ) (n i : ℕ) (d : Disk)
    → ((j : ℕ) → i ≤ j → j < i + n → t j ≡ u j)
    → free_run sb t n i d ≡ free_run sb u n i d
unfolding free_run
free_run-same sb t u zero i d h = refl
free_run-same sb t u (suc n) i d h =
    ap₂ (λ a f. bind f (free_addr sb a d)) (h i (omega arith) (omega arith))
      (fun_ext
        (λ d'. free_run-same sb t u n (i + 1) d' (λ j lo hi. h j (omega arith) (omega arith))))

unfoldable pub with_disk : Inode → Option Disk → Option (Inode × Disk)
with_disk ip none = none
with_disk ip (some d) = some (ip, d)

with_disk-bind :
    (ip : Inode) (f : Disk → Option Disk) (r : Option Disk)
    → with_disk ip (bind f r) ≡ bind (λ d. with_disk ip (f d)) r
unfolding with_disk
with_disk-bind ip f none = refl
with_disk-bind ip f (some d) = refl

-- The loop over the direct blocks.
pub trunc_direct-free_run :
    (sb : Superblock) (n i : ℕ) (ip : Inode) (d : Disk)
    → trunc_direct sb n i ip d
      ≡ with_disk (record ip { addrs = cleared n i ip.addrs }) (free_run sb ip.addrs n i d)
unfolding trunc_direct free_run with_disk
trunc_direct-free_run sb zero i ip d =
    ap (λ t. some (record ip { addrs = t }, d)) (sym (cleared-none i ip.addrs))
trunc_direct-free_run sb (suc n) i ip d =
    ap (λ f. bind f (free_addr sb (ip.addrs i) d))
      (fun_ext (λ d'.
        trunc_direct-free_run sb n (i + 1) (record ip { addrs = update ip.addrs i 0 }) d'
        ∙ ap₂ (λ t r. with_disk (record ip { addrs = t }) r) (cleared-update n i ip.addrs)
            (free_run-same sb (update ip.addrs i 0) ip.addrs n (i + 1) d'
              (λ j lo hi. update_ne ip.addrs 0 (λ (e : j ≡ i). omega arith)))))
    ∙ sym (
        with_disk-bind (record ip { addrs = cleared (suc n) i ip.addrs })
          (λ d'. free_run sb ip.addrs n (i + 1) d') (free_addr sb (ip.addrs i) d))

-- The loop over the words of the indirect block.
pub trunc_words-free_run :
    (sb : Superblock) (block : ℕ → ℕ) (n j : ℕ) (d : Disk)
    → trunc_words sb block n j d ≡ free_run sb (λ k. get32 (4 * k) block) n j d
unfolding trunc_words free_run
trunc_words-free_run sb block zero j d = refl
trunc_words-free_run sb block (suc n) j d =
    ap (λ f. bind f (free_addr sb (get32 (4 * j) block) d))
      (fun_ext (λ d'. trunc_words-free_run sb block n (j + 1) d'))
