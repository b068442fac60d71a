-- ===== src/Coomd/Select.antt =====
-- coomd/daemon/proc_reader.h: the selection of the processes with the most resident memory.
use mathlib.Core.Path.{subst}
use Prim.Native.Nat.{min}
use native.Mathlib.Decide.{ℕ_discrete}
use kus_operating_system_pro.Coomd.{choose, limit, select, Candidate, largest}
use kus_operating_system_pro.Shared.{
  ap, ◌-◌, Bool, Bool-cases, arith, if◌then◌else◌, inl, inr, ltb, number, number-swap, refl, suc,
  swap, update, zero, ℕ, ◌+◌, ◌<◌, ◌∙◌, ◌≡◌, ◌≤◌, ◌⊎◌,
}

largest-range :
    (n j m : ℕ) (f : ℕ → Candidate)
    → (largest n j m f ≡ m) ⊎ ((j ≤ largest n j m f) × (largest n j m f < j + n))
unfolding largest
largest-range zero j m f = inl refl
largest-range (suc n) j m f =
    ground (arith, largest-range n (j + 1) (if ltb (f m).rss_kb (f j).rss_kb then j else m) f)

-- The current maximum never loses to what it replaces.
largest-start : (n j m : ℕ) (f : ℕ → Candidate) → (f m).rss_kb ≤ (f (largest n j m f)).rss_kb
unfolding largest
largest-start zero j m f = omega arith
largest-start (suc n) j m f = elim (Bool-cases (ltb (f m).rss_kb (f j).rss_kb)) [
  | inl more ↦ rw more (let a = largest-start n (j + 1) j f in ground (arith, a))
  | inr less ↦ rw less (largest-start n (j + 1) m f)
]

largest-max :
    (n j m x : ℕ) (f : ℕ → Candidate)
    → j ≤ x
    → x < j + n
    → (f x).rss_kb ≤ (f (largest n j m f)).rss_kb
unfolding largest
largest-max zero j m x f a b = absurd (omega arith)
largest-max (suc n) j m x f a b = elim (ℕ_discrete j x) [
  | yes here ↦ omega (
    arith,
    largest-start n (j + 1) (if ltb (f m).rss_kb (f j).rss_kb then j else m) f,
    better,
    ap (λ y. (f y).rss_kb) here,
  )
  | no apart ↦ largest-max n (j + 1) _ x f (omega arith) (omega arith)
]
  where
    better : (f j).rss_kb ≤ (f (if ltb (f m).rss_kb (f j).rss_kb then j else m)).rss_kb
    better = ground arith

-- After `i` rounds: the first `i` entries are sorted down and at least all that follow, `list` has
-- them, and the table is a rearrangement.
pub record Chosen (i count : ℕ) (before tmp list : ℕ → Candidate) : Type 0 where
  pub descending : (a b : ℕ) → a < i → a < b → b < count → (tmp b).rss_kb ≤ (tmp a).rss_kb
  pub listed : (a : ℕ) → a < i → list a ≡ tmp a
  pub kept : (q : Candidate → Bool) → number q count 0 tmp ≡ number q count 0 before

one_round :
    (i count m : ℕ) (before tmp list : ℕ → Candidate)
    → i ≤ m
    → m < count
    → ((x : ℕ) → i ≤ x → x < count → (tmp x).rss_kb ≤ (tmp m).rss_kb)
    → Chosen i count before tmp list
    → Chosen (i + 1) count before (swap tmp i m) (update list i (swap tmp i m i))
one_round i count m before tmp list lo hi top c = record {
  descending = λ a b x y z.
      ground (arith, top i, top b, c.descending a b, c.descending a i, c.descending a m, ap tmp);
  listed = λ a lt. ground (arith, c.listed a);
  kept = λ q. number-swap q count i m tmp (omega arith) hi ∙ c.kept q;
}

rounds :
    (n i count : ℕ) (before tmp list : ℕ → Candidate)
    → i + n ≤ count
    → Chosen i count before tmp list
    → let (tmp', list') = select n i count tmp list in Chosen (i + n) count before tmp' list'
unfolding select
rounds zero i count before tmp list fits c =
    subst (λ x. Chosen x count before tmp list) (omega arith) c
rounds (suc n) i count before tmp list fits c =
    subst
      (λ x. let (tmp', list') = select (suc n) i count tmp list in Chosen x count before tmp' list')
      shift
      (rounds n (i + 1) count before _ _ (omega arith)
        (one_round i count m before tmp list (omega (arith, range)) (omega (arith, range)) top c))
  where
    m : ℕ
    m = largest (count - (i + 1)) (i + 1) i tmp

    shift : i + 1 + n ≡ i + suc n
    shift = omega arith

    range : (m ≡ i) ⊎ ((i + 1 ≤ m) × (m < i + 1 + (count - (i + 1))))
    range = largest-range (count - (i + 1)) (i + 1) i tmp

    top : (x : ℕ) → i ≤ x → x < count → (tmp x).rss_kb ≤ (tmp m).rss_kb
    top x lo hi = elim (ℕ_discrete i x) [
      | yes here ↦
          omega
            (arith, ap (λ y. (tmp y).rss_kb) here, largest-start (count - (i + 1)) (i + 1) i tmp)
      | no apart ↦ largest-max (count - (i + 1)) (i + 1) i x tmp (omega arith) (omega arith)
    ]

-- The selection from a table of `count` candidates gives the smaller of `count` and `max_size`. The
-- table is a rearrangement of what it was, in which each selected candidate has at least the resident
-- memory of every one behind it, selected or not; and `list` holds all selected ones in order.
pub choose-selects :
    (count max_size : ℕ) (tmp list : ℕ → Candidate)
    → let (size, (tmp', list')) = choose count max_size tmp list in
      (size ≡ min count max_size) × Chosen (min count max_size) count tmp tmp' list'
unfolding choose
choose-selects count max_size tmp list = (
  size,
  subst
      (λ n.
        let (tmp', list') = select (limit count max_size) 0 count tmp list in
        Chosen n count tmp tmp' list')
      all_of_them
      (rounds (limit count max_size) 0 count tmp tmp list (omega (arith, size)) record {
        descending = λ a b x. absurd (omega arith);
        listed = λ a x. absurd (omega arith);
        kept = λ q. refl;
      }),
)
  where
    size : limit count max_size ≡ min count max_size
    size = ground arith

    all_of_them : 0 + limit count max_size ≡ min count max_size
    all_of_them = omega (arith, size)
