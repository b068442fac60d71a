-- ===== src/Psi/Flags.antt =====
-- kernel/proc.c, `update_psi`: what its counters and flags say of the process table.
use kus_operating_system_pro.Machine.{nproc, Kernel, Proc, ok}
use kus_operating_system_pro.Lock.{unlocked}
use kus_operating_system_pro.Lock.Laws.{
  IsMasked, acquire-entered, release-entered, settle, settle-settle,
}
use kus_operating_system_pro.Shared.{
  ltb, ◌&&◌, SomeOf, SomeOf-number, number, number-pos, number-zero, ◌∙◌, Bool, ◌↔◌, Bool-cases,
  arith, false, if◌then◌else◌, inl, inr, refl, suc, zero, ℕ, ◌+◌, ◌<◌, ◌≡◌, ◌≤◌,
}
use kus_operating_system_pro.Psi.{
  full_flag, no_counts, some_flag, Counts, count_from, count_proc, is_ready, is_stalled,
}

-- The counters after the loop, without its locks.
unfoldable pub tally : ℕ → ℕ → (ℕ → Proc) → Counts → Counts
tally zero i f c = c
tally (suc n) i f c = tally n (i + 1) f (count_proc (f i) c)

-- Every lock that the loop takes is free.
abbrev pub AllFree : ℕ → ℕ → Kernel → Type 0
AllFree i n k = (j : ℕ) → i ≤ j → j < i + n → k.locks j ≡ unlocked

count_from-settled :
    (n i : ℕ) (c : Counts) (k : Kernel)
    → IsMasked k.cpu
    → settle k.cpu ≡ k.cpu
    → AllFree i n k
    → count_from n i c k ≡ ok (tally n i k.procs c) k
unfolding count_from tally
count_from-settled zero i c k m still free = refl
count_from-settled (suc n) i c k m still free =
    rw (acquire-entered i k (free i (omega arith) (omega arith))) (
      rw (release-entered i k m (free i (omega arith) (omega arith))) (
        rw still (
          count_from-settled n (i + 1) (count_proc (k.procs i) c) k m still
            (λ j a b. free j (omega arith) (omega arith)))))

pub count_from-tally :
    (n i : ℕ) (c : Counts) (k : Kernel)
    → IsMasked k.cpu
    → AllFree i (suc n) k
    → count_from (suc n) i c k ≡ ok (tally (suc n) i k.procs c) (record k { cpu = settle k.cpu })
unfolding count_from tally
count_from-tally n i c k m free = rw (acquire-entered i k (free i (omega arith) (omega arith))) (
    rw (release-entered i k m (free i (omega arith) (omega arith))) (
      count_from-settled n (i + 1) (count_proc (k.procs i) c) (record k { cpu = settle k.cpu }) m
        (settle-settle k.cpu) (λ j a b. free j (omega arith) (omega arith))))

count_proc-stalled :
    (p : Proc) (c : Counts) → (count_proc p c).stalled ≡ c.stalled + (if is_stalled p then 1 else 0)
unfolding count_proc
count_proc-stalled p c = ground arith

count_proc-ready :
    (p : Proc) (c : Counts)
    → (count_proc p c).runnable_or_running ≡ c.runnable_or_running + (if is_ready p then 1 else 0)
unfolding count_proc
count_proc-ready p c = ground arith

pub tally-number :
    (n i : ℕ) (f : ℕ → Proc) (c : Counts)
    → ((tally n i f c).stalled ≡ c.stalled + number is_stalled n i f)
      × ((tally n i f c).runnable_or_running ≡ c.runnable_or_running + number is_ready n i f)
unfolding tally number
tally-number zero i f c = (omega arith, omega arith)
tally-number (suc n) i f c =
    let (a, b) = tally-number n (i + 1) f (count_proc (f i) c) in
    (omega (arith, a, count_proc-stalled (f i) c), omega (arith, b, count_proc-ready (f i) c))

-- The tally over the whole table.
abbrev pub census : (ℕ → Proc) → Counts
census f = tally nproc 0 f no_counts

some_flag-one : (c : Counts) → 0 < c.stalled → some_flag c ≡ 1
some_flag-one c h = ground arith

some_flag-pos : (c : Counts) → some_flag c ≡ 1 → 0 < c.stalled
some_flag-pos c h = ground arith

full_flag-parts : (c : Counts) → full_flag c ≡ 1 → (0 < c.stalled) × (c.runnable_or_running ≡ 0)
full_flag-parts c h = ground arith

full_flag-one : (c : Counts) → 0 < c.stalled → c.runnable_or_running ≡ 0 → full_flag c ≡ 1
full_flag-one c h z = ground arith

-- No entry of the table passes the test.
abbrev pub NoneOf : (Proc → Bool) → ℕ → (ℕ → Proc) → Type 0
NoneOf q n f = (j : ℕ) → (ltb j n && q (f j)) ≡ false

none-number : (q : Proc → Bool) (n : ℕ) (f : ℕ → Proc) → number q n 0 f ≡ 0 → NoneOf q n f
none-number q n f z j = elim (Bool-cases (ltb j n && q (f j))) [
  | inl both ↦
      absurd (omega (arith, number-pos q n 0 j f (omega arith) (ground arith) (ground arith)))
  | inr neither ↦ neither
]

module _ (f : ℕ → Proc) where
  stalled_count : (census f).stalled ≡ number is_stalled nproc 0 f
  stalled_count = omega (arith, (tally-number nproc 0 f no_counts).0)

  ready_count : (census f).runnable_or_running ≡ number is_ready nproc 0 f
  ready_count = omega (arith, (tally-number nproc 0 f no_counts).1)

  stalled_of_pos : 0 < (census f).stalled → SomeOf is_stalled nproc 0 f
  stalled_of_pos h = SomeOf-number is_stalled nproc 0 f (omega (arith, stalled_count))

  pos_of_stalled : SomeOf is_stalled nproc 0 f → 0 < (census f).stalled
  pos_of_stalled (j, a, b, e) =
      omega (arith, stalled_count, number-pos is_stalled nproc 0 j f a (omega arith) e)

  -- `some` is 1 exactly if a process of the table sleeps on `&kmem`, and `full` exactly if, besides,
  -- none of the table is runnable or running.
  pub flags-census :
      ((some_flag (census f) ≡ 1) ↔ SomeOf is_stalled nproc 0 f)
      × ((full_flag (census f) ≡ 1) ↔ (SomeOf is_stalled nproc 0 f × NoneOf is_ready nproc f))
  flags-census = (
    (
      λ h. stalled_of_pos (some_flag-pos (census f) h),
      λ s. some_flag-one (census f) (pos_of_stalled s),
    ),
    (
      λ h.
          let (a, b) = full_flag-parts (census f) h in
          (stalled_of_pos a, none-number is_ready nproc f (omega (arith, ready_count))),
      λ (s, n).
          full_flag-one (census f) (pos_of_stalled s)
            (ready_count ∙ number-zero is_ready nproc 0 f (λ j a b. ground (arith, n j))),
    ),
  )
