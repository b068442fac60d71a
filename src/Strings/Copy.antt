-- ===== src/Strings/Copy.antt =====
-- kernel/string.c: `safestrcpy` copies what fits and terminates it.
use kus_operating_system_pro.Strings.{safestrcpy, safe_copy}
use kus_operating_system_pro.Shared.{
  Bool-cases, ap, inl, inr, ◌∙◌, arith, if◌then◌else◌, ltb, refl, suc, update, zero, ℕ, ◌+◌, ◌<◌,
  ◌==◌, ◌≡◌, ◌≤◌, ◌⊎◌,
}

-- How many bytes before the terminator of the string at `t`, at most `m`.
unfoldable pub text_length : ℕ → ℕ → (ℕ → ℕ) → ℕ
text_length t zero mem = 0
text_length t (suc m) mem =
    let rest = text_length (t + 1) m mem in if mem t == 0 then 0 else suc rest

text_length-le : (t m : ℕ) (mem : ℕ → ℕ) → text_length t m mem ≤ m
unfolding text_length
text_length-le t zero mem = omega arith
text_length-le t (suc m) mem = ground (arith, text_length-le (t + 1) m mem)

text_length-update :
    (t m : ℕ) (mem : ℕ → ℕ) (s v : ℕ)
    → (s < t) ⊎ (t + m ≤ s)
    → text_length t m (update mem s v) ≡ text_length t m mem
unfolding text_length
text_length-update t zero mem s v h = refl
text_length-update t (suc m) mem s v h =
    ground (arith, text_length-update (t + 1) m mem s v (omega arith))

safe_copy-outside :
    (m s t : ℕ) (mem : ℕ → ℕ) (a : ℕ) → (a < s) ⊎ (s + m < a) → safe_copy s t m mem a ≡ mem a
unfolding safe_copy
safe_copy-outside zero s t mem a h = ground arith
safe_copy-outside (suc m) s t mem a h =
    ground (arith, safe_copy-outside m (s + 1) (t + 1) (update mem s (mem t)) a (omega arith))

safe_copy-inside :
    (m s t : ℕ) (mem : ℕ → ℕ) (i : ℕ)
    → (t + m ≤ s) ⊎ (s + m < t)
    → i ≤ text_length t m mem
    → safe_copy s t m mem (s + i) ≡ (if ltb i (text_length t m mem) then mem (t + i) else 0)
unfolding safe_copy text_length
safe_copy-inside zero s t mem i apart h = ground arith
safe_copy-inside (suc m) s t mem zero apart h = ground (
  arith,
  safe_copy-outside m (s + 1) (t + 1) (update mem s (mem t)) (s + 0) (omega arith),
  ap mem,
)
safe_copy-inside (suc m) s t mem (suc i) apart h = elim (Bool-cases (mem t == 0)) [
  | inl stops ↦ absurd (ground arith)
  | inr goes ↦ rw goes (
      ap (safe_copy (s + 1) (t + 1) m mem') (omega arith)
      ∙ safe_copy-inside m (s + 1) (t + 1) mem' i (omega arith) (ground (arith, same))
      ∙ ground (arith, same, text_length-le (t + 1) m mem, ap mem shift))
]
  where
    shift : t + 1 + i ≡ t + suc i
    shift = omega arith

    mem' : ℕ → ℕ
    mem' = update mem s (mem t)

    same : text_length (t + 1) m mem' ≡ text_length (t + 1) m mem
    same = text_length-update (t + 1) m mem s (mem t) (omega arith)

-- `safestrcpy` with room for `suc n` bytes, between ranges that do not overlap: with `e` the length of
-- the source string cut to `n`, the bytes before `e` are the source's, byte `e` is 0, `e` is within
-- the room, and no byte outside the room changes.
pub safestrcpy-copies :
    (s t n : ℕ) (mem : ℕ → ℕ) (i a : ℕ)
    → (t + n ≤ s) ⊎ (s + n < t)
    → i ≤ text_length t n mem
    → (a < s) ⊎ (s + n < a)
    → (safestrcpy s t (suc n) mem (s + i)
        ≡ (if ltb i (text_length t n mem) then mem (t + i) else 0))
      × (text_length t n mem ≤ n)
      × (safestrcpy s t (suc n) mem a ≡ mem a)
unfolding safestrcpy
safestrcpy-copies s t n mem i a apart h out = (
  safe_copy-inside n s t mem i apart h,
  text_length-le t n mem,
  safe_copy-outside n s t mem a out,
)
