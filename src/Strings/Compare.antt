-- ===== src/Strings/Compare.antt =====
-- kernel/string.c: what the results of `memcmp` say.
use kus_operating_system_pro.Strings.{difference, memcmp}
use kus_operating_system_pro.Shared.{
  ==_iff, Bool-cases, arith, false, inl, inr, refl, suc, zero, ℕ, ◌+◌, ◌<◌, ◌==◌, ◌↔◌, ◌≡◌, ◌≢◌,
}

-- The two ranges hold the same bytes.
abbrev pub SameBytes : ℕ → ℕ → ℕ → (ℕ → ℕ) → Type 0
SameBytes v1 v2 zero mem = Unit
SameBytes v1 v2 (suc n) mem = (mem v1 ≡ mem v2) × SameBytes (v1 + 1) (v2 + 1) n mem

difference-zero : (a b : ℕ) → a < 256 → b < 256 → difference a b ≡ 0 → a ≡ b
difference-zero a b x y h = omega arith

-- On a memory of bytes, `memcmp` gives 0 exactly if the two ranges hold the same bytes.
pub memcmp_iff :
    (v1 v2 n : ℕ) (mem : ℕ → ℕ)
    → ((a : ℕ) → mem a < 256)
    → (memcmp v1 v2 n mem ≡ 0) ↔ SameBytes v1 v2 n mem
unfolding memcmp
memcmp_iff v1 v2 zero mem small = (λ h. tt, λ h. refl)
memcmp_iff v1 v2 (suc n) mem small =
    let (to, from) = memcmp_iff (v1 + 1) (v2 + 1) n mem small in
    elim (Bool-cases (mem v1 == mem v2)) [
      | inl same ↦ rw same (λ h. ((==_iff (mem v1) (mem v2)).0 same, to h), λ h. from h.1)
      | inr other ↦ rw other (
        λ h. absurd (ne other (difference-zero (mem v1) (mem v2) (small v1) (small v2) h)),
        λ h. absurd (ne other h.0),
      )
    ]
  where
    ne : (mem v1 == mem v2) ≡ false → mem v1 ≢ mem v2
    ne h e = ground arith
