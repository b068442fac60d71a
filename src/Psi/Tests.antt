-- ===== src/Psi/Tests.antt =====
-- Runs of the theorems on memory pressure at concrete states.
use kus_operating_system_pro.Shared.{arith, ◌≡◌, ◌↔◌, ◌≤◌, refl, some, [], ◌∷◌, SomeOf}
use kus_operating_system_pro.Machine.{ok, nproc, ticks_chan}
use kus_operating_system_pro.Sched.Wakeup.{woken_range}
use kus_operating_system_pro.Psi.{clockintr, some_flag, full_flag, is_stalled, is_ready}
use kus_operating_system_pro.Psi.Average.{averages, averages-le-ceiling}
use kus_operating_system_pro.Psi.Flags.{census, NoneOf, flags-census}
use kus_operating_system_pro.Psi.Tick.{CanTick, ticked, clockintr-ticks}
use kus_operating_system_pro.Sample.{calm}

calm-CanTick : CanTick calm
calm-CanTick = record { masked = λ h. absurd (h refl); table = λ j a b. refl; psi = refl }

clockintr-ticks_example :
    let woken = woken_range ticks_chan (some 3) 0 nproc calm.procs in
    clockintr calm ≡ ok tt (ticked woken (record calm { ticks = 42; procs = woken }))
clockintr-ticks_example = clockintr-ticks calm refl calm-CanTick refl

flags-census_example :
    ((some_flag (census calm.procs) ≡ 1) ↔ SomeOf is_stalled nproc 0 calm.procs)
    × ((full_flag (census calm.procs) ≡ 1)
        ↔ (SomeOf is_stalled nproc 0 calm.procs × NoneOf is_ready nproc calm.procs))
flags-census_example = flags-census calm.procs

averages-le-ceiling_example : averages 900 (1 ∷ 1 ∷ 0 ∷ 1 ∷ []) ≤ 925
averages-le-ceiling_example =
    averages-le-ceiling 900 (1 ∷ 1 ∷ 0 ∷ 1 ∷ []) (omega arith)
      (omega arith, (omega arith, (omega arith, (omega arith, tt))))
