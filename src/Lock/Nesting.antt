-- ===== src/Lock/Nesting.antt =====
-- kernel/spinlock.c: the nesting of `push_off` and `pop_off`, and the outcomes of `acquire` and
-- `release` on every state.
use kus_operating_system_pro.Shared.{
  ℕ, zero, suc, ◌≡◌, ◌≢◌, refl, update_back, false, arith, true, some, ◌==◌, if◌then◌else◌, ==_refl,
  ◌∙◌, ap, fun_ext, sym,
}
use kus_operating_system_pro.Machine.{
  Cpu, Spinlock, Kernel, Run, ok, panic, spins, K, pure, and_then, ◌>>◌, and_then_assoc,
}
use kus_operating_system_pro.Lock.{
  unlocked, cpu_push_off, push_off, pop_off, holding, take_lock, acquire, release,
}
use kus_operating_system_pro.Lock.Laws.{
  IsNested, IsNested-deeper, deeper, cpu_push_off-nested, pop_off-deeper,
}

and_then-pure : (r : Run (Unit {0})) → and_then r (λ _. pure tt) ≡ r
and_then-pure (ok tt k) = refl
and_then-pure (panic e) = refl
and_then-pure (spins l) = refl

pub repeat : ℕ → K (Unit {0}) → K (Unit {0})
repeat zero m = pure tt
repeat (suc n) m = m >> repeat n m

repeat_last :
    (n : ℕ) (m : K (Unit {0})) (k : Kernel) → repeat (suc n) m k ≡ and_then (repeat n m k) (λ _. m)
unfolding repeat
repeat_last zero m k = and_then-pure (m k)
repeat_last (suc n) m k =
    ap (and_then (m k)) (fun_ext (λ _. fun_ext (λ k'. repeat_last n m k')))
    ∙ sym (and_then_assoc (m k) (λ _. repeat n m) (λ _. m))

-- `push_off` and `pop_off` are matched: `n` of the one, then `suc n` of the other.
outer_pop :
    (n : ℕ) (k : Kernel)
    → and_then (repeat n push_off k) (λ _. repeat n pop_off) ≡ ok tt k
    → and_then (repeat n push_off k) (λ _. repeat (suc n) pop_off) ≡ pop_off k
outer_pop n k inner =
    ap (and_then (repeat n push_off k)) (fun_ext (λ _. fun_ext (repeat_last n pop_off)))
    ∙ sym (and_then_assoc (repeat n push_off k) (λ _. repeat n pop_off) (λ _. pop_off))
    ∙ ap (λ r. and_then r (λ _. pop_off)) inner

nested_round :
    (n : ℕ) (k : Kernel)
    → IsNested k.cpu
    → and_then (repeat n push_off k) (λ _. repeat n pop_off) ≡ ok tt k
unfolding repeat push_off
nested_round zero k m = refl
nested_round (suc n) k m =
    rw (cpu_push_off-nested m)
      (outer_pop n inside (nested_round n inside (IsNested-deeper m)) ∙ pop_off-deeper k m)
  where
    inside : Kernel
    inside = record k { cpu = deeper k.cpu }

IsNested-push_off : (c : Cpu) → IsNested (cpu_push_off c)
IsNested-push_off c = ground arith

pop_off_outer :
    (k : Kernel)
    → k.cpu.noff ≡ 0
    → pop_off (record k { cpu = cpu_push_off k.cpu })
      ≡ ok tt (record k { cpu = record k.cpu { intena = k.cpu.intr } })
unfolding pop_off
pop_off_outer k h = ground arith

-- From interrupts in any state and no `push_off` outstanding, any number of `push_off`s followed by
-- as many `pop_off`s does not panic, ends with interrupts enabled exactly if they were at the start
-- and no `push_off` outstanding, and changes nothing but the saved `intena`.
pub pop_off-push_off :
    (n : ℕ) (k : Kernel)
    → k.cpu.noff ≡ 0
    → and_then (repeat (suc n) push_off k) (λ _. repeat (suc n) pop_off)
      ≡ ok tt (record k { cpu = record k.cpu { intena = k.cpu.intr } })
unfolding repeat push_off
pop_off-push_off n k h =
    outer_pop n inside (nested_round n inside (IsNested-push_off k.cpu)) ∙ pop_off_outer k h
  where
    inside : Kernel
    inside = record k { cpu = cpu_push_off k.cpu }

-- A free lock can be taken and given back from any state in which `push_off`s outstanding mean
-- interrupts off: neither call panics or spins, every lock is as before, interrupts and the count
-- of `push_off`s are as before, and the only change is `intena`, saved where no `push_off` was
-- outstanding.
pub release-acquire :
    (l : ℕ) (k : Kernel)
    → k.locks l ≡ unlocked
    → (k.cpu.noff ≢ 0 → k.cpu.intr ≡ false)
    → and_then (acquire l k) (λ _. release l)
      ≡ ok tt (record k {
        cpu = record k.cpu { intena = if k.cpu.noff == 0 then k.cpu.intr else k.cpu.intena };
      })
unfolding acquire push_off holding take_lock release pop_off
release-acquire l k free m = rw free (
    rw (==_refl l)
      (rw (==_refl k.cpu.id) (rw (update_back k.locks l mine unlocked free) (ground arith))))
  where
    mine : Spinlock
    mine = record { locked = true; cpu = some k.cpu.id }
