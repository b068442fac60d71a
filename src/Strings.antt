-- ===== src/Strings.antt =====
-- kernel/string.c and the memory functions of user/ulib.c, on a memory of bytes by address. The
-- result is the memory afterwards; the pointer that the C functions hand back is their argument.
mod Tests
pub mod Move
pub mod Compare
pub mod Copy
use kus_operating_system_pro.Shared.{
  if◌then◌else◌, ltb, not, suc, update, zero, ℕ, ◌%◌, ◌&&◌, ◌+◌, ◌-◌, ◌==◌, ◌^◌,
}

-- The difference of two `uchar`s as the bit pattern of an `int`.
abbrev pub difference : ℕ → ℕ → ℕ
difference a b = (a + 2 ^ 32 - b) % 2 ^ 32

unfoldable pub memcmp : ℕ → ℕ → ℕ → (ℕ → ℕ) → ℕ
memcmp v1 v2 zero mem = 0
memcmp v1 v2 (suc n) mem =
    let rest = memcmp (v1 + 1) (v2 + 1) n mem in
    if mem v1 == mem v2 then rest else difference (mem v1) (mem v2)

-- The loop of `memmove` that goes down from the ends of `n` bytes.
unfoldable pub move_down : ℕ → ℕ → ℕ → (ℕ → ℕ) → ℕ → ℕ
move_down d s zero mem = mem
move_down d s (suc n) mem = move_down d s n (update mem (d + n) (mem (s + n)))

-- The loop of `memmove` that goes up.
unfoldable pub move_up : ℕ → ℕ → ℕ → (ℕ → ℕ) → ℕ → ℕ
move_up d s zero mem = mem
move_up d s (suc n) mem = move_up (d + 1) (s + 1) n (update mem d (mem s))

unfoldable pub memmove : ℕ → ℕ → ℕ → (ℕ → ℕ) → ℕ → ℕ
memmove dst src n mem =
    if n == 0
    then mem
    else if ltb src dst && ltb dst (src + n)
    then move_down dst src n mem
    else move_up dst src n mem

-- `memmove` of user/ulib.c, which goes up exactly if the source lies above.
unfoldable pub user_memmove : ℕ → ℕ → ℕ → (ℕ → ℕ) → ℕ → ℕ
user_memmove dst src n mem = if ltb dst src then move_up dst src n mem else move_down dst src n mem

unfoldable pub strncmp : ℕ → ℕ → ℕ → (ℕ → ℕ) → ℕ
strncmp p q zero mem = 0
strncmp p q (suc n) mem =
    let rest = strncmp (p + 1) (q + 1) n mem in
    if not (mem p == 0) && (mem p == mem q) then rest else difference (mem p) (mem q)

-- The second loop of `strncpy`.
unfoldable pub pad : ℕ → ℕ → (ℕ → ℕ) → ℕ → ℕ
pad s zero mem = mem
pad s (suc n) mem = pad (s + 1) n (update mem s 0)

unfoldable pub strncpy : ℕ → ℕ → ℕ → (ℕ → ℕ) → ℕ → ℕ
strncpy s t zero mem = mem
strncpy s t (suc n) mem =
    let copied = update mem s (mem t) in
    let rest = strncpy (s + 1) (t + 1) n copied in if mem t == 0 then pad (s + 1) n copied else rest

-- The loop of `safestrcpy` for at most `m` bytes, and the terminator behind it.
unfoldable pub safe_copy : ℕ → ℕ → ℕ → (ℕ → ℕ) → ℕ → ℕ
safe_copy s t zero mem = update mem s 0
safe_copy s t (suc m) mem =
    let copied = update mem s (mem t) in
    let rest = safe_copy (s + 1) (t + 1) m copied in
    if mem t == 0 then update copied (s + 1) 0 else rest

unfoldable pub safestrcpy : ℕ → ℕ → ℕ → (ℕ → ℕ) → ℕ → ℕ
safestrcpy s t zero mem = mem
safestrcpy s t (suc n) mem = safe_copy s t n mem
