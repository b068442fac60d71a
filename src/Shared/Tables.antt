-- ===== src/Shared/Tables.antt =====
-- C arrays and memories as functions of an index, with a write at one index.
use Prim.Native.Nat.{ℕ}
use mathlib.Core.Path.{◌≡◌, ◌∙◌, ap, fun_ext}
use mathlib.Core.Logic.{◌≢◌}
use native.Mathlib.Omega.{arith}
use kus_operating_system_pro.Shared.Tests.{◌==◌, if◌then◌else◌}

abbrev pub update {ℓ} : {A : Type ℓ} → (ℕ → A) → ℕ → A → ℕ → A
update f i v j = if j == i then v else f j

module _ {ℓ} {A : Type ℓ} where
  pub update_self : (f : ℕ → A) (i : ℕ) (v : A) → update f i v i ≡ v
  update_self f i v = ground arith

  pub update_ne : (f : ℕ → A) {i j : ℕ} (v : A) → j ≢ i → update f i v j ≡ f j
  update_ne f v h = ground arith

  -- Writing back what was there, after any other write at that index, restores the table.
  pub update_back : (f : ℕ → A) (i : ℕ) (v w : A) → f i ≡ w → update (update f i v) i w ≡ f
  update_back f i v w h = fun_ext (λ j. ground arith)

  pub update_twice : (f : ℕ → A) (i : ℕ) (v w : A) → update (update f i v) i w ≡ update f i w
  update_twice f i v w = fun_ext (λ j. ground arith)

  -- A second entry taken and the first given back leaves just the second.
  pub update_handover :
      (f : ℕ → A) (i j : ℕ) (v w : A)
      → i ≢ j
      → f i ≡ w
      → update (update (update f i v) j v) i w ≡ update f j v
  update_handover f i j v w h e = fun_ext (λ x. ground arith)

  pub update_again :
      (f : ℕ → A) (i : ℕ) (v : A) (g : A → A)
      → update (update f i v) i (g (update f i v i)) ≡ update f i (g v)
  update_again f i v g =
      update_twice f i v (g (update f i v i)) ∙ ap (λ x. update f i (g x)) (update_self f i v)
