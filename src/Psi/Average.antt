-- ===== src/Psi/Average.antt =====
-- kernel/proc.c, the fixed-point average of `update_psi`: its range, its limits and its order.
use kus_operating_system_pro.Psi.{average}
use kus_operating_system_pro.Shared.{All, List, [], arith, suc, zero, ℕ, ◌+◌, ◌∷◌, ◌≡◌, ◌≤◌}

-- The average after ticks with the given readings, oldest first.
unfoldable pub averages : ℕ → List ℕ → ℕ
averages tau [] = tau
averages tau (t ∷ ts) = averages (average t tau) ts

-- The largest value that the truncating division lets the average reach.
abbrev pub ceiling : ℕ
ceiling = 925

pub average-le : (t tau : ℕ) → t ≤ 1 → tau ≤ ceiling → average t tau ≤ ceiling
unfolding average
average-le t tau a b = omega arith

-- From any value up to 925, whatever 0s and 1s are read, the average never exceeds 925 of the 1024
-- that stand for full pressure: it never shows more than 90.4 per cent.
pub averages-le-ceiling :
    (tau : ℕ) (ts : List ℕ) → tau ≤ ceiling → All (λ t. t ≤ 1) ts → averages tau ts ≤ ceiling
unfolding averages
averages-le-ceiling tau [] h a = h
averages-le-ceiling tau (t ∷ ts) h a =
    averages-le-ceiling (average t tau) ts (average-le t tau a.0 h) a.1

-- The average after `n` ticks that all read `t`.
unfoldable pub steady : ℕ → ℕ → ℕ → ℕ
steady t zero tau = tau
steady t (suc n) tau = steady t n (average t tau)

steady-grows : (n tau : ℕ) → tau ≤ ceiling → ceiling ≤ tau + n → steady 1 n tau ≡ ceiling
unfolding steady average
steady-grows zero tau h e = omega arith
steady-grows (suc n) tau h e = steady-grows n (average 1 tau) (omega arith) (omega arith)

steady-falls : (n tau : ℕ) → tau ≤ n → tau ≤ ceiling → steady 0 n tau ≡ 0
unfolding steady average
steady-falls zero tau h b = omega arith
steady-falls (suc n) tau h b = steady-falls n (average 0 tau) (omega arith) (omega arith)

-- From any value up to 925, 925 ticks or more of unbroken pressure bring the average to exactly 925,
-- and as many without pressure bring it to exactly 0.
pub steady-limits :
    (n tau : ℕ) → tau ≤ ceiling → ceiling ≤ n → (steady 1 n tau ≡ ceiling) × (steady 0 n tau ≡ 0)
steady-limits n tau h e = (steady-grows n tau h (omega arith), steady-falls n tau (omega arith) h)

-- The average is monotone in the reading and in the value before, so the full average of a history
-- whose readings are pointwise at most those of another stays at most that other's.
pub average_mono :
    (s t sigma tau : ℕ)
    → s ≤ t
    → t ≤ 1
    → sigma ≤ tau
    → tau ≤ ceiling
    → average s sigma ≤ average t tau
unfolding average
average_mono s t sigma tau a b c d = omega arith
