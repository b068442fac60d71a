-- ===== src/Lock/Exclusion.antt =====
-- kernel/spinlock.c under interleaving: any number of CPUs run `acquire` and `release` on one lock,
-- one store or swap at a time. The two loads of `holding`, of `locked` and of `cpu`, are one step.
use kus_operating_system_pro.Shared.{
  ℕ, ◌≡◌, ◌≢◌, refl, Bool, true, false, ◌&&◌, none, some, arith, update, ◌↔◌,
}
use kus_operating_system_pro.Machine.{Spinlock}
use kus_operating_system_pro.Lock.{unlocked, is_index}

-- Where a CPU stands. `panicked` is after the `panic` of `acquire` or of `release`.
pub data Pc : Type 0 where
  outside : Pc  -- before `holding` in `acquire`
  spinning : Pc  -- in the loop on the atomic swap
  swapped : Pc  -- the swap returned 0; `lk->cpu` is not yet set
  inside : Pc  -- between the return of `acquire` and `holding` in `release`
  cleared : Pc  -- `lk->cpu` is 0; `lk->locked` is not yet
  panicked : Pc

-- One step of CPU `i` on the lock: the test of `holding`, the swap, or a store.
pub data Move (i : ℕ) (m : Spinlock) : Pc → Spinlock → Pc → Type 0 where
  enter : (m.locked && is_index m.cpu i) ≡ false → Move i m outside m spinning
  enter_panics : (m.locked && is_index m.cpu i) ≡ true → Move i m outside m panicked
  swap_busy : m.locked ≡ true → Move i m spinning m spinning
  swap_free : m.locked ≡ false → Move i m spinning (record m { locked = true }) swapped
  set_cpu : Move i m swapped (record m { cpu = some i }) inside
  clear_cpu :
      (m.locked && is_index m.cpu i) ≡ true → Move i m inside (record m { cpu = none }) cleared
  leave_panics : (m.locked && is_index m.cpu i) ≡ false → Move i m inside m panicked
  unlock : Move i m cleared (record m { locked = false }) outside

pub record System : Type 0 where
  pub lock : Spinlock
  pub pc : ℕ → Pc

pub data Step (s : System) : System → Type 0 where
  pick :
      (i : ℕ) {m : Spinlock} {p : Pc}
      → Move i s.lock (s.pc i) m p
      → Step s (record { lock = m; pc = update s.pc i p })

abbrev pub init : System
init = record { lock = unlocked; pc = λ _. outside }

pub data Reach : System → Type 0 where
  start : Reach init
  later : {s t : System} → Reach s → Step s t → Reach t

-- The CPU's swap has returned 0, and its `release` has not yet written `locked`.
abbrev pub owns : Pc → Bool
owns swapped = true
owns inside = true
owns cleared = true
owns _ = false

-- What the test of `holding` says of the owner.
test-owner : (m : Spinlock) (i : ℕ) → (m.locked && is_index m.cpu i) ≡ true → m.cpu ≡ some i
test-owner m i h = ground arith

owner-test :
    (m : Spinlock) (i : ℕ)
    → m.locked ≡ true
    → m.cpu ≡ some i
    → (m.locked && is_index m.cpu i) ≡ true
owner-test m i h o = ground arith

record Inv (m : Spinlock) (pc : ℕ → Pc) : Type 0 where
  unique : (i j : ℕ) → owns (pc i) ≡ true → owns (pc j) ≡ true → i ≡ j
  taken : (i : ℕ) → owns (pc i) ≡ true → m.locked ≡ true
  named : (i : ℕ) → m.cpu ≡ some i → pc i ≡ inside
  names : (i : ℕ) → pc i ≡ inside → m.cpu ≡ some i
  calm : (i : ℕ) → pc i ≢ panicked

-- A match on `Move` needs a variable `p` for `pc i`.
module _ {m : Spinlock} {pc : ℕ → Pc} (inv : Inv m pc) (i : ℕ) where
  Move-unique :
      {p p' : Pc} {m' : Spinlock}
      → Move i m p m' p'
      → pc i ≡ p
      → (a b : ℕ) → owns (update pc i p' a) ≡ true
      → owns (update pc i p' b) ≡ true
      → a ≡ b
  Move-unique (enter g) e a b oa ob = ground (arith, inv.unique a b)
  Move-unique (swap_free g) e a b oa ob = ground (arith, inv.taken a, inv.taken b)
  Move-unique mv e a b oa ob = ground (arith, inv.unique a b)

  Move-taken :
      {p p' : Pc} {m' : Spinlock}
      → Move i m p m' p'
      → pc i ≡ p
      → (a : ℕ) → owns (update pc i p' a) ≡ true
      → m'.locked ≡ true
  Move-taken (enter g) e a oa = ground (arith, inv.taken a)
  Move-taken unlock e a oa = ground (arith, inv.unique a i)
  Move-taken mv e a oa = ground (arith, inv.taken a, inv.taken i)

  Move-named :
      {p p' : Pc} {m' : Spinlock}
      → Move i m p m' p'
      → pc i ≡ p
      → (a : ℕ) → m'.cpu ≡ some a
      → update pc i p' a ≡ inside
  Move-named (enter g) e a h = ground (arith, inv.named a)
  Move-named (leave_panics g) e a h = ground (arith, inv.named a, inv.names i e, inv.taken i)
  Move-named mv e a h = ground (arith, inv.named a)

  Move-names :
      {p p' : Pc} {m' : Spinlock}
      → Move i m p m' p'
      → pc i ≡ p
      → (a : ℕ) → update pc i p' a ≡ inside
      → m'.cpu ≡ some a
  Move-names (enter g) e a h = ground (arith, inv.names a)
  Move-names set_cpu e a h = ground (arith, inv.unique a i)
  Move-names mv e a h = ground (arith, inv.names a, inv.unique a i)

  Move-calm :
      {p p' : Pc} {m' : Spinlock}
      → Move i m p m' p'
      → pc i ≡ p
      → (a : ℕ) → update pc i p' a ≢ panicked
  Move-calm (enter_panics g) e a h = ground (arith, test-owner m i g, inv.named i)
  Move-calm (leave_panics g) e a h = ground (arith, inv.names i e, inv.taken i, inv.calm a)
  Move-calm mv e a h = ground (arith, inv.calm a)

  Move-Inv : {p' : Pc} {m' : Spinlock} → Move i m (pc i) m' p' → Inv m' (update pc i p')
  Move-Inv mv = record {
    unique = Move-unique mv refl;
    taken = Move-taken mv refl;
    named = Move-named mv refl;
    names = Move-names mv refl;
    calm = Move-calm mv refl;
  }

Reach-Inv : {s : System} → Reach s → Inv s.lock s.pc
Reach-Inv start = record {
  unique = λ i j a b. cc;
  taken = λ i a. cc;
  named = λ i a. cc;
  names = λ i a. cc;
  calm = λ i a. cc;
}
Reach-Inv (later r (pick i mv)) = Move-Inv (Reach-Inv r) i mv

-- In every reachable state of any number of CPUs: no two CPUs own the lock, and the lock word is 1
-- while one does.
pub mutual_exclusion :
    {s : System}
    → Reach s
    → (i j : ℕ) → owns (s.pc i) ≡ true
    → owns (s.pc j) ≡ true
    → (i ≡ j) × (s.lock.locked ≡ true)
mutual_exclusion r i j a b = ((Reach-Inv r).unique i j a b, (Reach-Inv r).taken i a)

-- In every reachable state the test of `holding` is true on exactly the CPU that stands between the
-- end of its `acquire` and the start of its `release`, and no CPU whose calls alternate has panicked
-- in `acquire` or `release`.
pub holding_iff_inside :
    {s : System}
    → Reach s
    → (i : ℕ)
    → (((s.lock.locked && is_index s.lock.cpu i) ≡ true) ↔ (s.pc i ≡ inside)) × (s.pc i ≢ panicked)
holding_iff_inside {s} r i =
    let inv = Reach-Inv r in
    (
      (
        λ h. inv.named i (test-owner s.lock i h),
        λ h. owner-test s.lock i (inv.taken i (ground arith)) (inv.names i h),
      ),
      inv.calm i,
    )
