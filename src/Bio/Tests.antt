-- ===== src/Bio/Tests.antt =====
-- Runs of the theorems on the buffer cache.
use kus_operating_system_pro.Bio.Unique.{Reordered, IsUnique, brelse-IsUnique}
use kus_operating_system_pro.Bio.{Bcache, Buf, brelse}
use kus_operating_system_pro.Shared.{
  ◌≢◌, [], arith, if◌then◌else◌, is_in, refl, true, ℕ, ◌+◌, ◌==◌, ◌∷◌, ◌≡◌,
}

abbrev buffer : ℕ → ℕ → Buf
buffer n refs = record { dev = 1; blockno = n; valid = true; refcnt = refs }

-- Buffers 0, 1 and 2 cache blocks 40, 41 and 42; only 1 has no references.
abbrev cache : Bcache
cache = record { order = 2 ∷ 1 ∷ 0 ∷ []; bufs = λ b. buffer (40 + b) (if b == 1 then 0 else 1) }

cache-IsUnique : IsUnique cache
cache-IsUnique x y ix iy d e n = omega arith

brelse-IsUnique_example :
    IsUnique (brelse 0 cache)
    × Reordered 0 cache (brelse 0 cache)
    × ((brelse 0 cache).bufs 0 ≡ record (cache.bufs 0) { refcnt = 0 })
    × ((x : ℕ) → x ≢ 0 → (brelse 0 cache).bufs x ≡ cache.bufs x)
brelse-IsUnique_example =
    brelse-IsUnique 0 cache cache-IsUnique (unfold is_in in refl) (omega arith) (omega arith)
