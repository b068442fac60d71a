-- ===== src/Shared/Counting.antt =====
-- Counting the entries of a table that pass a test.
use mathlib.Core.Bool.{Bool, true, false}
use Prim.Native.Nat.{ℕ, zero, suc, ◌+◌, ◌≤◌, ◌<◌}
use mathlib.Core.Path.{◌≡◌, refl, ap}
use mathlib.Core.Logic.{◌≢◌, inl, inr}
use native.Mathlib.Omega.{arith}
use native.Mathlib.Decide.{ℕ_discrete}
use kus_operating_system_pro.Shared.Tests.{if◌then◌else◌, Bool-cases}
use kus_operating_system_pro.Shared.Tables.{update, update_ne}

module _ {ℓ} {A : Type ℓ} where
  -- How many of entries `i` to `i + n - 1` of a table pass a test.
  unfoldable pub number : (A → Bool) → ℕ → ℕ → (ℕ → A) → ℕ
  number q zero i f = 0
  number q (suc n) i f = (if q (f i) then 1 else 0) + number q n (i + 1) f

  -- Some entry of the range passes the test.
  abbrev pub SomeOf : (A → Bool) → ℕ → ℕ → (ℕ → A) → Type 0
  SomeOf q n i f = (j : ℕ) × (i ≤ j) × (j < i + n) × (q (f j) ≡ true)

  pub SomeOf-number : (q : A → Bool) (n i : ℕ) (f : ℕ → A) → 0 < number q n i f → SomeOf q n i f
  unfolding number
  SomeOf-number q zero i f h = absurd (omega arith)
  SomeOf-number q (suc n) i f h = elim (Bool-cases (q (f i))) [
    | inl here ↦ (i, omega arith, omega arith, here)
    | inr not_here ↦
        let (j, a, b, e) = SomeOf-number q n (i + 1) f (ground arith) in
        (j, omega arith, omega arith, e)
  ]

  pub number-pos :
      (q : A → Bool) (n i j : ℕ) (f : ℕ → A)
      → i ≤ j
      → j < i + n
      → q (f j) ≡ true
      → 0 < number q n i f
  unfolding number
  number-pos q zero i j f a b e = absurd (omega arith)
  number-pos q (suc n) i j f a b e = elim (Bool-cases (q (f i))) [
    | inl here ↦ ground arith
    | inr not_here ↦
        let apart : j ≢ i = λ same. cc (ap (λ x. q (f x)) same) in
        omega (arith, number-pos q n (i + 1) j f (omega arith) (omega arith) e)
  ]

  pub number-zero :
      (q : A → Bool) (n i : ℕ) (f : ℕ → A)
      → ((j : ℕ) → i ≤ j → j < i + n → q (f j) ≡ false)
      → number q n i f ≡ 0
  unfolding number
  number-zero q zero i f h = refl
  number-zero q (suc n) i f h = ground (
    arith,
    h i (omega arith) (omega arith),
    number-zero q n (i + 1) f (λ j a b. h j (omega arith) (omega arith)),
  )

  abbrev pub weight : (A → Bool) → A → ℕ
  weight q a = if q a then 1 else 0

  number-update_out :
      (q : A → Bool) (n lo i : ℕ) (f : ℕ → A) (v : A)
      → i < lo
      → number q n lo (update f i v) ≡ number q n lo f
  unfolding number
  number-update_out q zero lo i f v h = refl
  number-update_out q (suc n) lo i f v h =
      ground (arith, number-update_out q n (lo + 1) i f v, update_ne f {i = i} {j = lo} v)

  number-update :
      (q : A → Bool) (n lo i : ℕ) (f : ℕ → A) (v : A)
      → lo ≤ i
      → i < lo + n
      → number q n lo (update f i v) + weight q (f i) ≡ number q n lo f + weight q v
  unfolding number
  number-update q zero lo i f v a b = absurd (omega arith)
  number-update q (suc n) lo i f v a b = elim (ℕ_discrete lo i) [
    | yes here ↦ omega (
      arith,
      number-update_out q n (lo + 1) i f v (omega arith),
      ap (weight q) (at here),
      ap (λ x. weight q (f x)) here,
    )
    | no apart ↦ omega (
      arith,
      number-update q n (lo + 1) i f v (omega arith) (omega arith),
      ap (weight q) (update_ne f {i = i} {j = lo} v apart),
    )
  ]
    where
      at : lo ≡ i → update f i v lo ≡ v
      at here = ground arith

  -- The exchange of two entries of a table.
  abbrev pub swap : (ℕ → A) → ℕ → ℕ → ℕ → A
  swap f i m = update (update f i (f m)) m (f i)

  -- An exchange within the range keeps every count.
  pub number-swap :
      (q : A → Bool) (n i m : ℕ) (f : ℕ → A)
      → i < n
      → m < n
      → number q n 0 (swap f i m) ≡ number q n 0 f
  number-swap q n i m f hi hm = omega (
    arith,
    number-update q n 0 m (update f i (f m)) (f i) (omega arith) (omega arith),
    number-update q n 0 i f (f m) (omega arith) (omega arith),
    ap (weight q) same,
  )
    where
      same : update f i (f m) m ≡ f m
      same = ground arith
