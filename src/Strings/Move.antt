-- ===== src/Strings/Move.antt =====
-- kernel/string.c and user/ulib.c: both versions of `memmove` copy overlapping ranges as well.
use kus_operating_system_pro.Shared.{
  ap, arith, if◌then◌else◌, leb, ltb, suc, update, zero, ℕ, ◌&&◌, ◌+◌, ◌-◌, ◌∙◌, ◌≡◌, ◌≤◌, ◌⊎◌,
}
use kus_operating_system_pro.Strings.{memmove, move_down, move_up, user_memmove}

-- The memory after `n` bytes from `s` on have been copied to `d`, all at once.
abbrev pub copied_range : ℕ → ℕ → ℕ → (ℕ → ℕ) → ℕ → ℕ
copied_range d s n mem a = if leb d a && ltb a (d + n) then mem (s + (a - d)) else mem a

move_down-copied :
    (n d s : ℕ) (mem : ℕ → ℕ) (a : ℕ) → s ≤ d → move_down d s n mem a ≡ copied_range d s n mem a
unfolding move_down
move_down-copied zero d s mem a h = ground arith
move_down-copied (suc n) d s mem a h =
    move_down-copied n d s (update mem (d + n) (mem (s + n))) a h ∙ last
  where
    last : copied_range d s n (update mem (d + n) (mem (s + n))) a ≡ copied_range d s (suc n) mem a
    last = ground (arith, ap mem)

move_up-copied :
    (n d s : ℕ) (mem : ℕ → ℕ) (a : ℕ)
    → (d ≤ s) ⊎ (s + n ≤ d)
    → move_up d s n mem a ≡ copied_range d s n mem a
unfolding move_up
move_up-copied zero d s mem a h = ground arith
move_up-copied (suc n) d s mem a h =
    move_up-copied n (d + 1) (s + 1) (update mem d (mem s)) a (omega arith) ∙ first
  where
    first : copied_range (d + 1) (s + 1) n (update mem d (mem s)) a ≡ copied_range d s (suc n) mem a
    first = ground (arith, ap mem)

-- Both versions of `memmove`, the kernel's and the user library's, give the memory in which the `n`
-- bytes from `src` on, as they were before, stand from `dst` on, with all other bytes as they were,
-- however the two ranges overlap.
pub memmove-copies :
    (dst src n : ℕ) (mem : ℕ → ℕ) (a : ℕ)
    → (memmove dst src n mem a ≡ copied_range dst src n mem a)
      × (user_memmove dst src n mem a ≡ copied_range dst src n mem a)
unfolding memmove user_memmove
memmove-copies dst src n mem a = (
  ground (arith, move_down-copied n dst src mem a, move_up-copied n dst src mem a),
  ground (arith, move_down-copied n dst src mem a, move_up-copied n dst src mem a),
)
