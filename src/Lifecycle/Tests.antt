-- ===== src/Lifecycle/Tests.antt =====
-- Runs of the theorems on waiting and orphans at concrete states.
use kus_operating_system_pro.Lock.{is_index}
use kus_operating_system_pro.Lifecycle.Orphans.{new_parent, reparent-parents}
use kus_operating_system_pro.Lock.Laws.{IsNested}
use kus_operating_system_pro.Kalloc.{is_page}
use kus_operating_system_pro.Shared.{false, ltb, ℕ, ◌&&◌, ◌≡◌, refl, true, arith}
use kus_operating_system_pro.Machine.{Kernel, nproc, ok, panic, Message}
use kus_operating_system_pro.Lifecycle.{reparent, kwait}
use kus_operating_system_pro.Lifecycle.Reap.{Finds, IsExitedChild, kwait-panics}
use kus_operating_system_pro.Sample.{masked, calm}

-- Process 3 waits, with every lock free, and 8 is its exited child.
calm-Finds : Finds 3 8 calm
calm-Finds = record {
  running_one = refl;
  other = omega arith;
  table = λ i h. refl;
  kmem = refl;
  first = λ i h. ground arith;
}

calm-IsExitedChild : IsExitedChild 3 8 calm
calm-IsExitedChild = record {
  in_table = omega arith;
  child = refl;
  exited = refl;
  has_frame = refl;
  frame_page = unfold is_page in refl;
}

kwait-panics_example : kwait (λ a x. true) 0x5000 3 calm ≡ panic Message.acquire
kwait-panics_example =
    kwait-panics (λ a x. true) 0x5000 3 8 calm refl calm-Finds calm-IsExitedChild refl

masked-IsNested : IsNested masked.cpu
masked-IsNested = record { off = refl; depth = omega arith }

-- Process 3 leaves its children 5 and 8 to `init`, which is process 0.
reparent-parents_example :
    (k' : Kernel) × (reparent 3 masked ≡ ok tt k')
    × (k'.locks ≡ masked.locks)
    × ((j : ℕ) → (k'.procs j).parent ≡ new_parent 3 0 nproc masked j)
    × ((j : ℕ) → (ltb j nproc && is_index (k'.procs j).parent 3) ≡ false)
reparent-parents_example =
    reparent-parents 3 masked masked-IsNested (λ j a b c. refl) (λ e. absurd (omega (arith, e)))
