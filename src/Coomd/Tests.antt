-- ===== src/Coomd/Tests.antt =====
-- Runs of the theorems on the daemon.
use kus_operating_system_pro.Coomd.Select.{Chosen, choose-selects}
use kus_operating_system_pro.Coomd.{Candidate, choose}
use kus_operating_system_pro.Shared.{[], if◌then◌else◌, ℕ, ◌+◌, ◌==◌, ◌∷◌, ◌≡◌}
use Prim.Native.Nat.{min}

abbrev sized : ℕ → Candidate
sized kb = record { pid = 100 + kb; comm = 115 ∷ []; cmdline = []; rss_kb = kb; uid = 0; ppid = 1 }

-- Four candidates, of which two are to be chosen.
abbrev found : ℕ → Candidate
found i =
    if i == 0 then sized 30 else if i == 1 then sized 10 else if i == 2 then sized 70 else sized 50

choose-selects_example :
    let (size, (tmp', list')) = choose 4 2 found found in
    (size ≡ min 4 2) × Chosen (min 4 2) 4 found tmp' list'
choose-selects_example = choose-selects 4 2 found found
