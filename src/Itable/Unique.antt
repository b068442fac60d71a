-- ===== src/Itable/Unique.antt =====
-- kernel/fs.c, `iget`: the entries of the table that stand for an inode of a device.
use mathlib.Core.Bool.{true≢false}
use kus_operating_system_pro.Itable.{
  Files, Fsr, done, iget, no_inodes, panics, set_inode, take_inode, Slot, find_inode, hit, holds,
  ninode, remember, vacant,
}
use kus_operating_system_pro.Shared.{
  ap, update, update_ne, update_self, ◌↔◌, ◌∙◌, none-some, sym, Bool-cases, Option, arith, false,
  inl, inr, none, refl, some, suc, true, zero, ℕ, ◌+◌, ◌<◌, ◌≡◌, ◌≢◌, ◌≤◌, ◌⊎◌,
}
use native.Mathlib.Decide.{ℕ_discrete}
use mathlib.Core.Path.{subst}
use kus_operating_system_pro.Inode.{Inode}

-- No two entries in use are the same inode.
abbrev pub IsUnique : (ℕ → Inode) → Type 0
IsUnique t =
    (a b : ℕ)
    → a < ninode
    → b < ninode
    → 0 < (t a).ref
    → 0 < (t b).ref
    → (t a).dev ≡ (t b).dev
    → (t a).inum ≡ (t b).inum
    → a ≡ b

-- What the loop of `iget` finds in `n` entries from `lo` on.
data Found (dev inum lo n : ℕ) (empty : Option ℕ) (t : ℕ → Inode) : Slot → Type 0 where
  at :
      {i : ℕ}
      → lo ≤ i
      → i < lo + n
      → holds dev inum (t i) ≡ true
      → Found dev inum lo n empty t (hit i)
  free :
      {i : ℕ}
      → (empty ≡ some i) ⊎ ((lo ≤ i) × (i < lo + n) × ((t i).ref ≡ 0))
      → ((j : ℕ) → lo ≤ j → j < lo + n → holds dev inum (t j) ≡ false)
      → Found dev inum lo n empty t (vacant (some i))
  full :
      empty ≡ none
      → ((j : ℕ) → lo ≤ j → j < lo + n → (t j).ref ≢ 0)
      → ((j : ℕ) → lo ≤ j → j < lo + n → holds dev inum (t j) ≡ false)
      → Found dev inum lo n empty t (vacant none)

remember-some :
    (empty : Option ℕ) (lo i : ℕ) (ip : Inode)
    → remember empty lo ip ≡ some i
    → (empty ≡ some i) ⊎ ((lo ≡ i) × (ip.ref ≡ 0))
remember-some (some e) lo i ip h = inl h
remember-some none lo i ip h = elim (ℕ_discrete ip.ref 0) [
  | yes z ↦ inr (ground (arith, h), z)
  | no nz ↦ absurd (ground (arith, h))
]

remember-none :
    (empty : Option ℕ) (lo : ℕ) (ip : Inode)
    → remember empty lo ip ≡ none
    → (empty ≡ none) × (ip.ref ≢ 0)
remember-none (some e) lo ip h = absurd (none-some (sym h))
remember-none none lo ip h = (refl, λ z. ground (arith, h))

-- A statement of all entries from `lo` on.
from_next :
    (P : ℕ → Type 0) (lo n : ℕ)
    → P lo
    → ((j : ℕ) → lo + 1 ≤ j → j < lo + 1 + n → P j)
    → (j : ℕ) → lo ≤ j
    → j < lo + suc n
    → P j
from_next P lo n p h j low high = elim (ℕ_discrete lo j) [
  | yes e ↦ subst P e p
  | no ne ↦ h j (omega arith) (omega arith)
]

Found-more :
    (dev inum lo n : ℕ) (empty : Option ℕ) (t : ℕ → Inode) (s : Slot)
    → holds dev inum (t lo) ≡ false
    → Found dev inum (lo + 1) n (remember empty lo (t lo)) t s
    → Found dev inum lo (suc n) empty t s
Found-more dev inum lo n empty t (hit i) h (at low high held) = at (omega arith) (omega arith) held
Found-more dev inum lo n empty t (vacant (some i)) h (free e apart) =
    free
      (elim e [
        | inr (low, high, z) ↦ inr (omega arith, omega arith, z)
        | inl r ↦ elim (remember-some empty lo i (t lo) r) [
          | inl before ↦ inl before
          | inr (here, z) ↦ inr (omega arith, omega arith, subst (λ j. (t j).ref ≡ 0) here z)
        ]
      ])
      (from_next (λ j. holds dev inum (t j) ≡ false) lo n h apart)
Found-more dev inum lo n empty t (vacant none) h (full none' taken apart) =
    let (before, nz) = remember-none empty lo (t lo) none' in
    full before (from_next (λ j. (t j).ref ≢ 0) lo n nz taken)
      (from_next (λ j. holds dev inum (t j) ≡ false) lo n h apart)

find_inode-Found :
    (dev inum n lo : ℕ) (empty : Option ℕ) (t : ℕ → Inode)
    → Found dev inum lo n empty t (find_inode dev inum n lo empty t)
unfolding find_inode
find_inode-Found dev inum zero lo none t =
    full refl (λ j a b. absurd (omega arith)) (λ j a b. absurd (omega arith))
find_inode-Found dev inum zero lo (some i) t = free (inl refl) (λ j a b. absurd (omega arith))
find_inode-Found dev inum (suc n) lo empty t = elim (Bool-cases (holds dev inum (t lo))) [
  | inl h ↦ rw h (at (omega arith) (omega arith) h)
  | inr h ↦ rw h (
      Found-more dev inum lo n empty t _ h
        (find_inode-Found dev inum n (lo + 1) (remember empty lo (t lo)) t))
]

-- What `iget` comes to: the entry that stands for the inode with one more reference, or, if none
-- does, a free entry made to stand for it, or the panic "iget: no inodes".
data Got (dev inum : ℕ) (s : Files) : Fsr ℕ → Type 0 where
  found :
      {r : Fsr ℕ} (i : ℕ)
      → i < ninode
      → holds dev inum (s.itable i) ≡ true
      → r ≡ done i (set_inode i (record (s.itable i) { ref = (s.itable i).ref + 1 }) s)
      → Got dev inum s r
  taken :
      {r : Fsr ℕ} (i : ℕ)
      → i < ninode
      → (s.itable i).ref ≡ 0
      → ((j : ℕ) → j < ninode → holds dev inum (s.itable j) ≡ false)
      → r
        ≡ done i
            (set_inode i (record (s.itable i) { dev = dev; inum = inum; ref = 1; valid = false }) s)
      → Got dev inum s r
  no_room :
      {r : Fsr ℕ}
      → ((j : ℕ) → j < ninode → (s.itable j).ref ≢ 0)
      → ((j : ℕ) → j < ninode → holds dev inum (s.itable j) ≡ false)
      → r ≡ panics no_inodes
      → Got dev inum s r

take_inode-Got :
    (dev inum : ℕ) (s : Files) (e : Slot)
    → Found dev inum 0 ninode none s.itable e
    → Got dev inum s (take_inode dev inum e s)
unfolding take_inode
take_inode-Got dev inum s (hit i) (at low high h) = found i (omega arith) h refl
take_inode-Got dev inum s (vacant (some i)) (free e apart) = elim e [
  | inl r ↦ absurd (none-some r)
  | inr (low, high, z) ↦ taken i (omega arith) z (λ j lt. apart j (omega arith) (omega arith)) refl
]
take_inode-Got dev inum s (vacant none) (full e rest apart) =
    no_room (λ j lt. rest j (omega arith) (omega arith))
      (λ j lt. apart j (omega arith) (omega arith)) refl

iget-Got : (dev inum : ℕ) (s : Files) → Got dev inum s (iget dev inum s)
unfolding iget
iget-Got dev inum s =
    take_inode-Got dev inum s (find_inode dev inum ninode 0 none s.itable)
      (find_inode-Found dev inum ninode 0 none s.itable)

holds_iff :
    (dev inum : ℕ) (ip : Inode)
    → (holds dev inum ip ≡ true) ↔ ((0 < ip.ref) × (ip.dev ≡ dev) × (ip.inum ≡ inum))
holds_iff dev inum ip =
    (λ h. (ground (arith, h), ground (arith, h), ground (arith, h)), λ h. ground (arith, h))

-- An entry is replaced by one that no other in use is the same inode as.
pub IsUnique-update :
    (t : ℕ → Inode) (i : ℕ) (e : Inode)
    → IsUnique t
    → ((j : ℕ) → j < ninode → j ≢ i → 0 < (t j).ref → (t j).dev ≡ e.dev → (t j).inum ≢ e.inum)
    → IsUnique (update t i e)
IsUnique-update t i e u apart a b al bl ra rb de ie = elim (ℕ_discrete a i) [
  | yes ai ↦ elim (ℕ_discrete b i) [
    | yes bi ↦ ai ∙ sym bi
    | no bi ↦
        let ea : update t i e a ≡ e = ap (update t i e) ai ∙ update_self t i e in
        let eb : update t i e b ≡ t b = update_ne t e bi in
        absurd (
          apart b bl bi (subst (λ (x : Inode). 0 < x.ref) eb rb)
            (ap (λ (x : Inode). x.dev) (sym eb) ∙ sym de ∙ ap (λ (x : Inode). x.dev) ea)
            (ap (λ (x : Inode). x.inum) (sym eb) ∙ sym ie ∙ ap (λ (x : Inode). x.inum) ea))
  ]
  | no ai ↦
      let ea : update t i e a ≡ t a = update_ne t e ai in
      elim (ℕ_discrete b i) [
        | yes bi ↦
            let eb : update t i e b ≡ e = ap (update t i e) bi ∙ update_self t i e in
            absurd (
              apart a al ai (subst (λ (x : Inode). 0 < x.ref) ea ra)
                (ap (λ (x : Inode). x.dev) (sym ea) ∙ de ∙ ap (λ (x : Inode). x.dev) eb)
                (ap (λ (x : Inode). x.inum) (sym ea) ∙ ie ∙ ap (λ (x : Inode). x.inum) eb))
        | no bi ↦
            let eb : update t i e b ≡ t b = update_ne t e bi in
            u a b al bl (subst (λ (x : Inode). 0 < x.ref) ea ra)
              (subst (λ (x : Inode). 0 < x.ref) eb rb)
              (ap (λ (x : Inode). x.dev) (sym ea) ∙ de ∙ ap (λ (x : Inode). x.dev) eb)
              (ap (λ (x : Inode). x.inum) (sym ea) ∙ ie ∙ ap (λ (x : Inode). x.inum) eb)
      ]
]

-- The entry before and after `iget`: one reference more, or, if it was free, a first one, with nothing
-- read from the disk yet.
pub data Referenced (dev inum : ℕ) (ip ip' : Inode) : Type 0 where
  again :
      holds dev inum ip ≡ true → ip' ≡ record ip { ref = ip.ref + 1 } → Referenced dev inum ip ip'
  first :
      ip.ref ≡ 0
      → ip' ≡ record ip { dev = dev; inum = inum; ref = 1; valid = false }
      → Referenced dev inum ip ip'

-- On a table that holds no inode twice, `iget` hands back an entry in use for the inode, the only one
-- there is for it before and after, which has one reference more, or was free and has one, not read
-- from the disk yet; it leaves every other entry and the disk alone; the table still
-- holds no inode twice. Or it panics, and then every entry is in use for another inode.
pub iget-IsUnique :
    (dev inum : ℕ) (s : Files)
    → IsUnique s.itable
    → ((iget dev inum s ≡ panics no_inodes)
        × ((j : ℕ) → j < ninode → ((s.itable j).ref ≢ 0) × (holds dev inum (s.itable j) ≡ false)))
      ⊎ ((i : ℕ) × (s' : Files) × (iget dev inum s ≡ done i s')
          × (i < ninode)
          × (holds dev inum (s'.itable i) ≡ true)
          × IsUnique s'.itable
          × ((j : ℕ) → j < ninode → holds dev inum (s.itable j) ≡ true → j ≡ i)
          × Referenced dev inum (s.itable i) (s'.itable i)
          × ((j : ℕ) → j ≢ i → s'.itable j ≡ s.itable j)
          × (s'.disk ≡ s.disk))
iget-IsUnique dev inum s u = elim (iget-Got dev inum s) [
  | no_room full' apart e ↦ inl (e, λ j lt. (full' j lt, apart j lt))
  | found i lt h e ↦
      let (r, de, ie) = (holds_iff dev inum (s.itable i)).0 h in
      inr (
        i,
        _,
        e,
        lt,
        subst (λ ip. holds dev inum ip ≡ true) (sym (update_self s.itable i _))
            ((holds_iff dev inum (record (s.itable i) { ref = (s.itable i).ref + 1 })).1
              (omega arith, de, ie)),
        IsUnique-update s.itable i _ u (λ j jl ne rj dj ij. ne (u j i jl lt rj r dj ij)),
        λ j jl hj.
            let (rj, dj, ij) = (holds_iff dev inum (s.itable j)).0 hj in
            u j i jl lt rj r (dj ∙ sym de) (ij ∙ sym ie),
        again h (update_self s.itable i _),
        λ j ne. update_ne s.itable _ ne,
        refl,
      )
  | taken i lt z apart e ↦ inr (
    i,
    _,
    e,
    lt,
    subst (λ ip. holds dev inum ip ≡ true) (sym (update_self s.itable i _))
        ((holds_iff dev inum
            (record (s.itable i) { dev = dev; inum = inum; ref = 1; valid = false })).1
          (omega arith, refl, refl)),
    IsUnique-update s.itable i _ u (λ j jl ne rj dj ij.
        true≢false (sym ((holds_iff dev inum (s.itable j)).1 (rj, dj, ij)) ∙ apart j jl)),
    λ j jl hj. absurd (true≢false (sym hj ∙ apart j jl)),
    first z (update_self s.itable i _),
    λ j ne. update_ne s.itable _ ne,
    refl,
  )
]
