-- ===== src/Lifecycle/Reap.antt =====
-- kernel/proc.c, `kwait`: what happens when it finds an exited child.
use native.Mathlib.Decide.{ℕ_discrete}
use mathlib.Core.Path.{subst}
use mathlib.Core.Bool.{false≢true}
use kus_operating_system_pro.Kalloc.Free.{kfree-panics}
use kus_operating_system_pro.Sched.Wakeup.{FreeRange}
use kus_operating_system_pro.Lock.Laws.{
  IsNested-push_off, acquire-entered, acquire-free, entered, held, release-held, IsNested, mine,
}
use kus_operating_system_pro.Kalloc.{is_page}
use kus_operating_system_pro.Lock.{is_index, unlocked}
use kus_operating_system_pro.Shared.{
  ==_refl, Bool-cases, ap, inl, inr, not, sym, update_ne, update_self, ◌&&◌, ◌∙◌, ◌≢◌, Bool, arith,
  false, refl, some, suc, true, zero, ℕ, ◌+◌, ◌<◌, ◌==◌, ◌≡◌, ◌≤◌, ◌⊎◌,
}
use kus_operating_system_pro.Machine.{wait_lock, Kernel, Message, kmem_lock, nproc, panic, zombie}
use kus_operating_system_pro.Lifecycle.{
  scan_child, kwait, kwait_pass, reap, free_trapframe, freeproc, is_zombie, scan_from,
}

-- `freeproc` of a process other than the running one, whose lock this CPU holds as it must, panics
-- as soon as it frees the trapframe.
pub freeproc-panics :
    (i : ℕ) (k : Kernel)
    → i < nproc
    → is_index k.cpu.proc i ≡ false
    → k.locks i ≡ mine k
    → FreeRange 0 i k
    → k.locks kmem_lock ≡ unlocked
    → ((k.procs i).trapframe == 0) ≡ false
    → is_page k.kernel_end (k.procs i).trapframe ≡ true
    → freeproc i k ≡ panic Message.acquire
unfolding freeproc free_trapframe
freeproc-panics i k lt other own free kmem used' page =
    rw used' (rw (kfree-panics (k.procs i).trapframe i k page kmem lt free other own) refl)

-- Process `j` of the table is an exited child of `me` that still has its trapframe page.
pub record IsExitedChild (me j : ℕ) (k : Kernel) : Type 0 where
  pub in_table : j < nproc
  pub child : (k.procs j).parent ≡ some me
  pub exited : (k.procs j).state ≡ zombie
  pub has_frame : ((k.procs j).trapframe == 0) ≡ false
  pub frame_page : is_page k.kernel_end (k.procs j).trapframe ≡ true

-- What `kwait` of the running process `me` needs to reach the exited child `j`: every lock that it
-- takes is free, and no process before `j` is an exited child.
pub record Finds (me j : ℕ) (k : Kernel) : Type 0 where
  pub running_one : k.cpu.proc ≡ some me
  pub other : me ≢ j
  pub table : (i : ℕ) → i < nproc → k.locks i ≡ unlocked
  pub kmem : k.locks kmem_lock ≡ unlocked
  pub first :
      (i : ℕ)
      → i < j
      → (is_index (k.procs i).parent me ≡ false) ⊎ (is_zombie (k.procs i).state ≡ false)

module _ (copyout : ℕ → ℕ → Bool) (addr me : ℕ) where
  reap-panics :
      (n j : ℕ) (havekids : Bool) (k : Kernel)
      → IsNested k.cpu
      → Finds me j k
      → IsExitedChild me j k
      → (not (addr == 0) && not (copyout addr (k.procs j).xstate)) ≡ false
      → scan_from copyout addr me (suc n) j havekids k ≡ panic Message.acquire
  unfolding scan_from scan_child reap
  reap-panics n j havekids k m f e writes = rw (ap (λ o. is_index o me) e.child ∙ ==_refl me) (
      rw (acquire-free j k m (f.table j e.in_table)) (
        rw (ap is_zombie e.exited) (
          rw writes (
            rw
              (freeproc-panics j (held j k) e.in_table not_me (update_self k.locks j (mine k))
                before (update_ne k.locks {i = j} (mine k) kmem_ne ∙ f.kmem) e.has_frame
                e.frame_page)
              refl))))
    where
      in_table : j < 64
      in_table = e.in_table

      kmem_ne : 64 ≢ j
      kmem_ne = omega arith

      not_me : is_index k.cpu.proc j ≡ false
      not_me = ground (arith, f.running_one, f.other)

      before : FreeRange 0 j (held j k)
      before i lo hi other' =
          update_ne k.locks {i = j} (mine k) (omega arith) ∙ f.table i (omega arith)

  -- The scan goes past a process that is no exited child, and leaves the state as it was.
  scan_from-passes :
      (n i : ℕ) (havekids : Bool) (k : Kernel)
      → IsNested k.cpu
      → k.locks i ≡ unlocked
      → (is_index (k.procs i).parent me ≡ false) ⊎ (is_zombie (k.procs i).state ≡ false)
      → (b : Bool) × (scan_from copyout addr me (suc n) i havekids k
          ≡ scan_from copyout addr me n (i + 1) b k)
  unfolding scan_from scan_child
  scan_from-passes n i havekids k m free p = elim (Bool-cases (is_index (k.procs i).parent me)) [
    | inl kid ↦ elim p [
      | inl not_kid ↦ absurd (false≢true (sym not_kid ∙ kid))
      | inr alive ↦ (
        true,
        rw kid (rw (acquire-free i k m free) (rw alive (rw (release-held i k m free) refl))),
      )
    ]
    | inr not_kid ↦ (havekids, rw not_kid refl)
  ]

  scan_from-panics :
      (n i j : ℕ) (havekids : Bool) (k : Kernel)
      → i ≤ j
      → j < i + n
      → IsNested k.cpu
      → Finds me j k
      → IsExitedChild me j k
      → (not (addr == 0) && not (copyout addr (k.procs j).xstate)) ≡ false
      → scan_from copyout addr me n i havekids k ≡ panic Message.acquire
  scan_from-panics zero i j havekids k lo hi m f e writes = absurd (omega arith)
  scan_from-panics (suc n) i j havekids k lo hi m f e writes = elim (ℕ_discrete i j) [
    | yes same ↦
        subst (λ x. scan_from copyout addr me (suc n) x havekids k ≡ panic Message.acquire)
          (sym same) (reap-panics n j havekids k m f e writes)
    | no apart ↦
        let (b, step) =
          scan_from-passes n i havekids k m (f.table i (below apart)) (f.first i (omega arith)) in
        step ∙ scan_from-panics n (i + 1) j b k (omega arith) (omega arith) m f e writes
  ]
    where
      below : i ≢ j → i < nproc
      below apart = let top : j < nproc = e.in_table in omega arith

-- `kwait` of a process that has an exited child which still has its trapframe never returns: with
-- every lock that it takes free, and unless copying the exit status to the user fails, it panics in
-- `acquire`, because `kfree` of the child's trapframe wakes on `&kmem` and takes every process lock,
-- the child's, which `kwait` holds, among them.
pub kwait-panics :
    (copyout : ℕ → ℕ → Bool) (addr me j : ℕ) (k : Kernel)
    → k.locks wait_lock ≡ unlocked
    → Finds me j k
    → IsExitedChild me j k
    → (not (addr == 0) && not (copyout addr (k.procs j).xstate)) ≡ false
    → kwait copyout addr me k ≡ panic Message.acquire
unfolding kwait kwait_pass
kwait-panics copyout addr me j k free f e writes = rw (acquire-entered wait_lock k free) (
    rw
      (scan_from-panics copyout addr me nproc 0 j false (entered wait_lock k) (omega arith) top
        (IsNested-push_off k.cpu) f' e' writes)
      refl)
  where
    top : j < 0 + nproc
    top = let t : j < 64 = e.in_table in omega arith

    f' : Finds me j (entered wait_lock k)
    f' = record {
      running_one = f.running_one;
      other = f.other;
      table = λ i lt. update_ne k.locks {i = wait_lock} (mine k) (omega arith) ∙ f.table i lt;
      kmem = update_ne k.locks {i = wait_lock} (mine k) (omega arith) ∙ f.kmem;
      first = f.first;
    }

    e' : IsExitedChild me j (entered wait_lock k)
    e' = record {
      in_table = e.in_table;
      child = e.child;
      exited = e.exited;
      has_frame = e.has_frame;
      frame_page = e.frame_page;
    }
