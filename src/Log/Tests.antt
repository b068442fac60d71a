-- ===== src/Log/Tests.antt =====
-- Runs of the log's theorems at a concrete disk and header.
use kus_operating_system_pro.Log.Reserve.{MayWrite}
use kus_operating_system_pro.Shared.{List, All, ◌⊎◌}
use kus_operating_system_pro.Shared.{ℕ, ◌≡◌, ◌≤◌, refl, false, inr, [], ◌∷◌, arith}
use kus_operating_system_pro.Log.{
  begin_op, Block, Dev, Log, commit, recover_from_log, end_op, logblocks, done,
}
use kus_operating_system_pro.Log.Recover.{merged}
use kus_operating_system_pro.Log.Crash.{CanCommit, rebooted, commit-atomic}
use kus_operating_system_pro.Log.Reserve.{Reach, booted, later, begin, log_never_overflows}

-- The log lies at block 2; the machine stops after the header and one installed block.
abbrev device : Dev
device = record { disk = λ x. 0 ∷ x ∷ []; left = 4 }

abbrev buffers : ℕ → Block
buffers x = 7 ∷ x ∷ []

device-CanCommit : CanCommit 2 (40 ∷ 41 ∷ []) device
device-CanCommit = record {
  fits = omega arith;
  homes = (inr (omega arith), (inr (omega arith), tt));
  clean = refl;
}

commit-atomic_example :
    (recover_from_log 2 (rebooted 100 (commit 2 buffers (40 ∷ 41 ∷ []) device))).disk 41
    ≡ merged buffers (40 ∷ 41 ∷ []) device.disk 41
commit-atomic_example =
    commit-atomic 2 buffers 40 (41 ∷ []) device 100 device-CanCommit (omega arith) 41
      (inr (omega arith))

abbrev one_call : Log
one_call = record { outstanding = 1; committing = false; lh = [] }

started : Reach (record { log = one_call; calls = 10 ∷ [] })
unfolding begin_op
started = later booted (begin refl)

log_never_overflows_example :
    (0 ≤ logblocks)
    × All (MayWrite one_call) (10 ∷ [])
    × ((◌≡◌ {A = List ℕ} (10 ∷ []) []) ⊎ ((l : Log) × (end_op one_call ≡ done l)))
log_never_overflows_example = log_never_overflows started
