-- ===== src/Fs/Bits.antt =====
-- kernel/fs.c: the bits of a byte of the free map, by evaluation over all bytes.
use native.Mathlib.Decide.{ℕ_discrete}
use kus_operating_system_pro.Fs.{bit_clear, set_bit, unset_bit}
use kus_operating_system_pro.Shared.{
  Bool-cases, if◌then◌else◌, inl, inr, Bool, ap, arith, false, ltb, not, refl, suc, sym, true, zero,
  ℕ, ◌%◌, ◌&&◌, ◌-◌, ◌<◌, ◌==◌, ◌^◌, ◌||◌, ◌∙◌, ◌≡◌,
}
use Prim.Native.Nat.{bit_and, bit_or}

-- Whether a test succeeds on all numbers under a bound, and what that says of one of them.
everywhere : (ℕ → Bool) → ℕ → Bool
everywhere test zero = true
everywhere test (suc bound) = if test bound then everywhere test bound else false

everywhere-at :
    (test : ℕ → Bool) (bound at : ℕ) → at < bound → everywhere test bound ≡ true → test at ≡ true
unfolding everywhere
everywhere-at test zero at inside all = absurd (omega arith)
everywhere-at test (suc bound) at inside all = elim (Bool-cases (test bound)) [
  | inr fails ↦ absurd (ground (arith, all))
  | inl holds ↦ elim (ℕ_discrete at bound) [
    | yes last ↦ ap test last ∙ holds
    | no before ↦ everywhere-at test bound at (omega arith) (ground (arith, all))
  ]
]

same : Bool → Bool → Bool
same true b = b
same false b = not b

same_eq : (a b : Bool) → same a b ≡ true → a ≡ b
unfolding same
same_eq true true h = refl
same_eq true false h = cc
same_eq false true h = cc
same_eq false false h = refl

-- At bits `i` and `j` and a byte, what setting and clearing a bit does to every bit.
set_row : ℕ → ℕ → ℕ → Bool
set_row i j byte = same (bit_clear j (set_bit i byte)) (not (j == i) && bit_clear j byte)

unset_row : ℕ → ℕ → ℕ → Bool
unset_row i j byte = same (bit_clear j (unset_bit i byte)) ((j == i) || bit_clear j byte)

small_row : ℕ → ℕ → Bool
small_row i byte = ltb (set_bit i byte) 256 && ltb (unset_bit i byte) 256

set_table : everywhere (λ i. everywhere (λ j. everywhere (set_row i j) 256) 8) 8 ≡ true
unfolding everywhere set_row same bit_clear set_bit
set_table = refl

unset_table : everywhere (λ i. everywhere (λ j. everywhere (unset_row i j) 256) 8) 8 ≡ true
unfolding everywhere unset_row same bit_clear unset_bit
unset_table = refl

small_table : everywhere (λ i. everywhere (small_row i) 256) 8 ≡ true
unfolding everywhere small_row set_bit unset_bit
small_table = refl

bit_clear-mod : (j byte : ℕ) → bit_clear (j % 8) byte ≡ bit_clear j byte
unfolding bit_clear
bit_clear-mod j byte = ap (λ m. bit_and byte (2 ^ m) == 0) (omega arith)

set_bit-mod : (i byte : ℕ) → set_bit (i % 8) byte ≡ set_bit i byte
unfolding set_bit
set_bit-mod i byte = ap (λ m. bit_or byte (2 ^ m)) (omega arith)

unset_bit-mod : (i byte : ℕ) → unset_bit (i % 8) byte ≡ unset_bit i byte
unfolding unset_bit
unset_bit-mod i byte = ap (λ m. bit_and byte (255 - 2 ^ m)) (omega arith)

pub bit_clear-set_bit :
    (i j byte : ℕ)
    → byte < 256
    → bit_clear j (set_bit i byte) ≡ (not (j % 8 == i % 8) && bit_clear j byte)
unfolding set_row
bit_clear-set_bit i j byte small =
    sym (ap (bit_clear j) (set_bit-mod i byte))
    ∙ sym (bit_clear-mod j (set_bit (i % 8) byte))
    ∙ same_eq _ _ (
        everywhere-at (set_row (i % 8) (j % 8)) 256 byte small (
          everywhere-at (λ j'. everywhere (set_row (i % 8) j') 256) 8 (j % 8) (omega arith)
            (everywhere-at (λ i'. everywhere (λ j'. everywhere (set_row i' j') 256) 8) 8 (i % 8)
              (omega arith) set_table)))
    ∙ ap (λ c. not (j % 8 == i % 8) && c) (bit_clear-mod j byte)

pub bit_clear-unset_bit :
    (i j byte : ℕ)
    → byte < 256
    → bit_clear j (unset_bit i byte) ≡ ((j % 8 == i % 8) || bit_clear j byte)
unfolding unset_row
bit_clear-unset_bit i j byte small =
    sym (ap (bit_clear j) (unset_bit-mod i byte))
    ∙ sym (bit_clear-mod j (unset_bit (i % 8) byte))
    ∙ same_eq _ _ (
        everywhere-at (unset_row (i % 8) (j % 8)) 256 byte small (
          everywhere-at (λ j'. everywhere (unset_row (i % 8) j') 256) 8 (j % 8) (omega arith)
            (everywhere-at (λ i'. everywhere (λ j'. everywhere (unset_row i' j') 256) 8) 8 (i % 8)
              (omega arith) unset_table)))
    ∙ ap (λ c. (j % 8 == i % 8) || c) (bit_clear-mod j byte)

pub bits-small : (i byte : ℕ) → byte < 256 → (set_bit i byte < 256) × (unset_bit i byte < 256)
unfolding small_row
bits-small i byte small =
    let t : small_row (i % 8) byte ≡ true =
      everywhere-at (small_row (i % 8)) 256 byte small
        (everywhere-at (λ i'. everywhere (small_row i') 256) 8 (i % 8) (omega arith) small_table) in
    ground (arith, t, set_bit-mod i byte, unset_bit-mod i byte)
