-- ===== src/Sleeplock/Tests.antt =====
-- Runs of the theorems on sleep locks.
use kus_operating_system_pro.Sleeplock.{Sleeplock, acquiresleep, got, holdingsleep, releasesleep}
use kus_operating_system_pro.Shared.{arith, false, refl, some, true, ◌≡◌}
use kus_operating_system_pro.Sample.{calm}
use kus_operating_system_pro.Sleeplock.Holding.{CanLock, owned, releasesleep-acquiresleep, settled}
use kus_operating_system_pro.Sched.Wakeup.{woken_range}
use kus_operating_system_pro.Machine.{nproc, ok}

abbrev idle : Sleeplock
idle = record { locked = false; pid = 0; lk = 100; chan = 500 }

idle-CanLock : CanLock idle 3 calm
idle-CanLock = record {
  masked = λ h. absurd (h refl);
  spinlock = refl;
  global = omega arith;
  table = λ j a b c. refl;
  running = refl;
}

releasesleep-acquiresleep_example :
    (acquiresleep idle calm ≡ ok (got (owned idle 3 calm)) (settled calm))
    × (holdingsleep (owned idle 3 calm) (settled calm) ≡ ok true (settled calm))
    × (releasesleep (owned idle 3 calm) (settled calm)
        ≡ ok idle (record (settled calm) { procs = woken_range 500 (some 3) 0 nproc calm.procs }))
releasesleep-acquiresleep_example = releasesleep-acquiresleep idle 3 calm idle-CanLock refl
