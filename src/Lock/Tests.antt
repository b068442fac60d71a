-- ===== src/Lock/Tests.antt =====
-- Runs of the locks' theorems at concrete states.
use kus_operating_system_pro.Shared.{ℕ, ◌≡◌, ◌≢◌, refl, true, some, ◌↔◌, ◌&&◌, update}
use kus_operating_system_pro.Machine.{ok, and_then}
use kus_operating_system_pro.Lock.{is_index, acquire, release}
use kus_operating_system_pro.Lock.Nesting.{release-acquire}
use kus_operating_system_pro.Lock.Exclusion.{
  Reach, start, later, pick, enter, swap_free, set_cpu, inside, spinning, swapped, outside,
  panicked, mutual_exclusion, holding_iff_inside,
}
use kus_operating_system_pro.Sample.{calm}

release-acquire_example :
    and_then (acquire 7 calm) (λ _. release 7)
    ≡ ok tt (record calm { cpu = record calm.cpu { intena = true } })
release-acquire_example = release-acquire 7 calm refl (λ h. absurd (h refl))

-- CPU 4 has entered `acquire`, swapped, and set the owner.
entered_lock : Reach (record {
  lock = record { locked = true; cpu = some 4 };
  pc = update (update (update (λ _. outside) 4 spinning) 4 swapped) 4 inside;
})
entered_lock =
    later (later (later start (pick 4 (enter refl))) (pick 4 (swap_free refl))) (pick 4 set_cpu)

abbrev cpu4 : ℕ
cpu4 = 4

mutual_exclusion_example : (cpu4 ≡ cpu4) × (true ≡ true)
mutual_exclusion_example = mutual_exclusion entered_lock 4 4 refl refl

holding_iff_inside_example :
    (((true && is_index (some 4) 4) ≡ true) ↔ (inside ≡ inside)) × (inside ≢ panicked)
holding_iff_inside_example = holding_iff_inside entered_lock 4
