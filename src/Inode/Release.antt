-- ===== src/Inode/Release.antt =====
-- kernel/fs.c, `itrunc`: freeing a sequence of addresses, some of them 0.
use kus_operating_system_pro.Inode.{free_addr}
use kus_operating_system_pro.Fs.{Disk, Superblock, bblock}
use kus_operating_system_pro.Shared.{
  Bool, Bool-cases, Option, ap, arith, false, inl, inr, none, not, refl, some, suc, sym, true, zero,
  ℕ, ◌&&◌, ◌+◌, ◌<◌, ◌==◌, ◌||◌, ◌∙◌, ◌≡◌, ◌≢◌, ◌≤◌,
}
use mathlib.Core.Bool.{false≢true}
use kus_operating_system_pro.Fs.Blocks.{is_used}
use kus_operating_system_pro.Fs.Free.{bfree-Freed}
use native.Mathlib.Decide.{ℕ_discrete}

-- `n` addresses from position `i` of a table, freed in order.
unfoldable pub free_run : Superblock → (ℕ → ℕ) → ℕ → ℕ → Disk → Option Disk
free_run sb t zero i d = some d
free_run sb t (suc n) i d = elim (free_addr sb (t i) d) [
  | none ↦ none
  | some d' ↦ free_run sb t n (i + 1) d'
]

-- Whether block `x` is one of them.
unfoldable pub listed : (ℕ → ℕ) → ℕ → ℕ → ℕ → Bool
listed t zero i x = false
listed t (suc n) i x = (not (t i == 0) && (x == t i)) || listed t n (i + 1) x

pub listed-position :
    (t : ℕ → ℕ) (n i x : ℕ)
    → listed t n i x ≡ true
    → (j : ℕ) × (i ≤ j) × (j < i + n) × (t j ≡ x) × (x ≢ 0)
unfolding listed
listed-position t zero i x h = absurd (false≢true h)
listed-position t (suc n) i x h = elim (Bool-cases (not (t i == 0) && (x == t i))) [
  | inl here ↦ (i, omega arith, omega arith, ground (arith, here), λ z. ground (arith, here, z))
  | inr other ↦
      let (j, lo, hi, e, nz) = listed-position t n (i + 1) x (ground (arith, h, other)) in
      (j, omega arith, omega arith, e, nz)
]

-- What freeing blocks has done: those that `gone` picks are free, and only the free map changed.
pub record Released (sb : Superblock) (gone : ℕ → Bool) (d d' : Disk) : Type 0 where
  pub bytes : (y a : ℕ) → d' y a < 256
  pub used : (x : ℕ) → is_used sb d' x ≡ (not (gone x) && is_used sb d x)
  pub others : (y : ℕ) → ((x : ℕ) → x < sb.size → bblock x sb ≢ y) → (a : ℕ) → d' y a ≡ d y a

-- The addresses that are not 0 are blocks of the device in use, none of them twice.
pub record CanFree (sb : Superblock) (t : ℕ → ℕ) (n i : ℕ) (d : Disk) : Type 0 where
  pub small : (y a : ℕ) → d y a < 256
  pub in_size : (j : ℕ) → i ≤ j → j < i + n → t j ≢ 0 → t j < sb.size
  pub in_use : (j : ℕ) → i ≤ j → j < i + n → t j ≢ 0 → is_used sb d (t j) ≡ true
  pub once : (j k : ℕ) → i ≤ j → j < i + n → i ≤ k → k < i + n → t j ≢ 0 → t j ≡ t k → j ≡ k

Released-none :
    (sb : Superblock) (gone : ℕ → Bool) (d : Disk)
    → ((y a : ℕ) → d y a < 256)
    → ((x : ℕ) → gone x ≡ false)
    → Released sb gone d d
Released-none sb gone d small h = record {
  bytes = small;
  used = λ x. rw (h x) refl;
  others = λ y o a. refl;
}

pub free_addr-Released :
    (sb : Superblock) (b : ℕ) (d : Disk)
    → ((y a : ℕ) → d y a < 256)
    → (b ≢ 0 → (b < sb.size) × (is_used sb d b ≡ true))
    → (d' : Disk) × (free_addr sb b d ≡ some d') × Released sb (λ x. not (b == 0) && (x == b)) d d'
unfolding free_addr
free_addr-Released sb b d small h = elim (ℕ_discrete b 0) [
  | yes z ↦
      let t : (b == 0) ≡ true = ground arith in
      (d, rw t refl, Released-none sb _ d small (λ x. rw t refl))
  | no nz ↦
      let t : (b == 0) ≡ false = ground arith in
      let (lt, used') = h nz in
      let (d', e, f) = bfree-Freed sb d b small used' in
      (
        d',
        rw t e,
        record {
          bytes = f.bytes;
          used = λ x. rw t (f.used x);
          others = λ y o a. f.others y a (λ e'. o b lt (sym e'));
        },
      )
]

pub Released-trans :
    (sb : Superblock) (g h k : ℕ → Bool) (d e f : Disk)
    → Released sb g d e
    → Released sb h e f
    → ((x : ℕ) → k x ≡ (g x || h x))
    → Released sb k d f
Released-trans sb g h k d e f p q both = record {
  bytes = q.bytes;
  used = λ x. q.used x ∙ ap (λ u. not (h x) && u) (p.used x) ∙ ground (arith, both x);
  others = λ y o a. q.others y o a ∙ p.others y o a;
}

pub free_run-Released :
    (sb : Superblock) (t : ℕ → ℕ) (n i : ℕ) (d : Disk)
    → CanFree sb t n i d
    → (d' : Disk) × (free_run sb t n i d ≡ some d') × Released sb (listed t n i) d d'
unfolding free_run listed
free_run-Released sb t zero i d c = (d, refl, Released-none sb _ d c.small (λ x. refl))
free_run-Released sb t (suc n) i d c =
    let (d', e, p) = free_addr-Released sb (t i) d c.small (λ nz.
      (c.in_size i (omega arith) (omega arith) nz, c.in_use i (omega arith) (omega arith) nz)) in
    let rest : CanFree sb t n (i + 1) d' = record {
      small = p.bytes;
      in_size = λ j lo hi nz. c.in_size j (omega arith) (omega arith) nz;
      in_use = λ j lo hi nz.
          p.used (t j)
          ∙ ground (
            arith,
            c.in_use j (omega arith) (omega arith) nz,
            λ (e' : t j ≡ t i).
                c.once j i (omega arith) (omega arith) (omega arith) (omega arith) nz e',
          );
      once = λ j k a b a' b' nz e'.
          c.once j k (omega arith) (omega arith) (omega arith) (omega arith) nz e';
    } in
    let (d'', e', q) = free_run-Released sb t n (i + 1) d' rest in
    (d'', ap (go_on n) e ∙ e', Released-trans sb _ _ _ d d' d'' p q (λ x. refl))
  where
    go_on : ℕ → Option Disk → Option Disk
    go_on m none = none
    go_on m (some d') = free_run sb t m (i + 1) d'

pub listed-entry : (t : ℕ → ℕ) (n i j : ℕ) → i ≤ j → j < i + n → t j ≢ 0 → listed t n i (t j) ≡ true
unfolding listed
listed-entry t zero i j lo hi nz = absurd (omega arith)
listed-entry t (suc n) i j lo hi nz = elim (ℕ_discrete i j) [
  | yes e ↦ rw e (ground (arith, nz))
  | no ne ↦ ground (arith, listed-entry t n (i + 1) j (omega arith) (omega arith) nz)
]
