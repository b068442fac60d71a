-- ===== src/Kalloc/Tests.antt =====
-- Runs of the allocator's theorems at concrete states.
use kus_operating_system_pro.Shared.{false, arith, ◌≡◌, refl, update}
use kus_operating_system_pro.Machine.{Kernel, Message, panic, ok, kmem_chan, sleeping}
use kus_operating_system_pro.Kalloc.Held.{kalloc-panics}
use kus_operating_system_pro.Lock.{cpu_push_off}
use kus_operating_system_pro.Lock.Laws.{mine, settle}
use kus_operating_system_pro.Kalloc.{is_page, kfree, kalloc, asleep}
use kus_operating_system_pro.Kalloc.Free.{CanFree, freed, kfree-page}
use kus_operating_system_pro.Kalloc.Alloc.{kalloc-stalls}
use kus_operating_system_pro.Sample.{calm, exhausted}

calm-CanFree : CanFree calm
calm-CanFree = record { masked = λ h. absurd (h refl); kmem = refl; table = λ j a b c. refl }

kfree-page_example : kfree 0x80300000 calm ≡ ok tt (freed 0x80300000 calm)
kfree-page_example = kfree-page 0x80300000 calm calm-CanFree (unfold is_page in refl)

kalloc-stalls_example :
    kalloc exhausted
    ≡ ok (asleep (cpu_push_off (settle exhausted.cpu)).intena) (record exhausted {
      cpu = cpu_push_off (settle exhausted.cpu);
      locks = update exhausted.locks 3 (mine exhausted);
      procs = update exhausted.procs 3 (record (exhausted.procs 3) {
        last_stall_start = 41;
        chan = kmem_chan;
        state = sleeping;
      });
    })
kalloc-stalls_example = kalloc-stalls 3 exhausted refl refl (omega arith) refl refl refl refl

-- Process 3 holds a lock that is none of the allocator's.
abbrev locked : Kernel
locked = record exhausted { cpu = record exhausted.cpu { intr = false; noff = 1 } }

kalloc-panics_example : kalloc locked ≡ panic Message.sched_locks
kalloc-panics_example =
    kalloc-panics 3 locked record { off = refl; depth = omega arith } refl (omega arith) refl refl
      refl refl
