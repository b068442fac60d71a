-- ===== src/Vm/Copies.antt =====
-- kernel/vm.c, `copyout` and `copyin`: what was written to user memory is read again.
use kus_operating_system_pro.Vm.Chunk.{user_at}
use kus_operating_system_pro.Vm.Leaf.{IsTree-same}
use kus_operating_system_pro.Vm.Map.{user_pa}
use kus_operating_system_pro.Vm.Tree.{IsTree, leaf}
use kus_operating_system_pro.Vm.{Vm, fine}
use kus_operating_system_pro.Vm.Copyin.{IsReadable, copyin-reads, reads}
use kus_operating_system_pro.Vm.User.{copyin, copyout}
use kus_operating_system_pro.Vm.Copyout.{IsWritable, Writes, copyout-Wrote, wrote}
use kus_operating_system_pro.Shared.{
  ap, arith, leb, ltb, refl, sym, true, ℕ, ◌%◌, ◌&&◌, ◌+◌, ◌-◌, ◌/◌, ◌<◌, ◌∙◌, ◌≡◌, ◌≢◌,
}
use mathlib.Core.Path.{subst}

IsReadable-Writes :
    (root dstva src dst len : ℕ) (s s' : Vm)
    → IsWritable root dstva src len s
    → Writes root dstva src len s s'
    → ((i j : ℕ) → i < len → j < len → user_at s root (dstva + i) ≢ dst + j)
    → IsReadable root dst dstva len s'
IsReadable-Writes root dstva src dst len s s' h w away =
    subst (IsReadable root dst dstva len) (sym w.same_rest)
      record { within = h.within; mapped_to = h.mapped_to; apart_from = away }

-- What `copyout` wrote to user memory on a tree, `copyin` from the same address reads back: it succeeds,
-- and the bytes at `dst` are those that were at `src`. The user's addresses are mapped, writable,
-- distinct in memory, and apart from `src` and `dst`.
pub copyin-copyout :
    (root sz p_table dstva src dst len : ℕ) (s s' : Vm)
    → IsTree root s
    → IsWritable root dstva src len s
    → ((i j : ℕ) → i < len → j < len → user_at s root (dstva + i) ≢ dst + j)
    → copyout sz p_table root dstva src len s ≡ fine true s'
    → (copyin sz p_table root dst dstva len s' ≡ fine true (reads root dst dstva len s'))
      × ((i : ℕ) → i < len → (reads root dst dstva len s').bytes (dst + i) ≡ s.bytes (src + i))
copyin-copyout root sz p_table dstva src dst len s s' k h away e =
    elim (copyout-Wrote root sz p_table dstva src len s k h) [
      | wrote s'' g w'' ↦
          let x : fine true s'' ≡ fine true s' = sym g ∙ e in
          let same : s'' ≡ s' = cc in
          let w = subst (Writes root dstva src len s) same w'' in
          let k' =
            subst (IsTree root) (sym w.same_rest)
              (IsTree-same root s (record s { bytes = s'.bytes }) k refl (λ m q ml ql. refl)) in
          (
            copyin-reads root sz p_table dst dstva len s' k'
                (IsReadable-Writes root dstva src dst len s s' h w away),
            λ i il.
                let inside : (leb dst (dst + i) && ltb (dst + i) (dst + len)) ≡ true =
                  ground arith in
                let back : dst + i - dst ≡ i = omega arith in
                let words : s'.words ≡ s.words = ap (λ (y : Vm). y.words) w.same_rest in
                rw (inside, back)
                  (ap
                      (λ f.
                        s'.bytes (user_pa (leaf f root ((dstva + i) / 4096)) + (dstva + i) % 4096))
                      words
                    ∙ w.written i il),
          )
    ]
