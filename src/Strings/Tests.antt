-- ===== src/Strings/Tests.antt =====
-- Runs of the theorems on copies.
use kus_operating_system_pro.Strings.{memmove, user_memmove}
use kus_operating_system_pro.Shared.{ℕ, ◌≡◌}
use kus_operating_system_pro.Strings.Move.{copied_range, memmove-copies}

-- The byte at address `a` is `a`; four bytes move up by one, over themselves.
abbrev bytes : ℕ → ℕ
bytes a = a

memmove-copies_example :
    (memmove 11 10 4 bytes 14 ≡ copied_range 11 10 4 bytes 14)
    × (user_memmove 11 10 4 bytes 14 ≡ copied_range 11 10 4 bytes 14)
memmove-copies_example = memmove-copies 11 10 4 bytes 14
