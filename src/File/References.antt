-- ===== src/File/References.antt =====
-- kernel/file.c: the counts are those of the references that are held, over any sequence of calls.
use kus_operating_system_pro.File.{
  Closed, not_open, fd_none, release_of, File, Release, filealloc, fileclose, filedup, free_file,
  last_closed, nfile, set_ref, still_open, take_file,
}
use mathlib.Core.Path.{subst}
use kus_operating_system_pro.Shared.{
  none-some, Option, ap, ltb, sym, update, ◌-◌, ◌<◌, ◌∙◌, ==_iff, Bool-cases, List, Option-cases,
  [], arith, if◌then◌else◌, inl, inr, refl, suc, zero, ℕ, ◌+◌, ◌==◌, ◌∷◌, ◌≡◌, ◌++◌, none, some,
}

-- How often a number is in a list.
unfoldable pub occurrences : ℕ → List ℕ → ℕ
occurrences f [] = 0
occurrences f (x ∷ xs) = (if x == f then 1 else 0) + occurrences f xs

-- The table, and every reference to one of its files that is held.
pub record Table : Type 0 where
  pub files : ℕ → File
  pub handles : List ℕ

pub data Call (s : Table) : Table → Type 0 where
  opens :
      (f : ℕ) {t : ℕ → File}
      → filealloc s.files ≡ some (f, t)
      → Call s (record { files = t; handles = f ∷ s.handles })
  dups :
      (f : ℕ) {t : ℕ → File}
      → filedup f s.files ≡ some t
      → Call s (record { files = t; handles = f ∷ s.handles })
  closes :
      (f : ℕ) (xs ys : List ℕ) {t : ℕ → File}
      → s.handles ≡ xs ++ (f ∷ ys)
      → fileclose f s.files ≡ still_open t
      → Call s (record { files = t; handles = xs ++ ys })
  closes_last :
      (f : ℕ) (xs ys : List ℕ) {t : ℕ → File} {r : Release}
      → s.handles ≡ xs ++ (f ∷ ys)
      → fileclose f s.files ≡ last_closed t r
      → Call s (record { files = t; handles = xs ++ ys })
  sets :
      (f : ℕ) (v : File)
      → v.ref ≡ (s.files f).ref
      → Call s (record { files = update s.files f v; handles = s.handles })

-- States that calls lead to from a table without references.
pub data Calls : Table → Type 0 where
  none_open :
      (t : ℕ → File) → ((f : ℕ) → (t f).ref ≡ 0) → Calls (record { files = t; handles = [] })
  then_call : {s u : Table} → Calls s → Call s u → Calls u

occurrences-middle :
    (f g : ℕ) (xs ys : List ℕ)
    → occurrences g (xs ++ (f ∷ ys)) ≡ (if f == g then 1 else 0) + occurrences g (xs ++ ys)
unfolding occurrences
occurrences-middle f g [] ys = refl
occurrences-middle f g (x ∷ xs) ys = omega (arith, occurrences-middle f g xs ys)

free_file-some : (n i : ℕ) (t : ℕ → File) (f : ℕ) → free_file n i t ≡ some f → (t f).ref ≡ 0
unfolding free_file
free_file-some zero i t f h = absurd cc
free_file-some (suc n) i t f h = elim (Bool-cases ((t i).ref == 0)) [
  | inl idle ↦
      let e : i ≡ f = ground (arith, h) in
      subst (λ y. (t y).ref ≡ 0) e ((==_iff (t i).ref 0).0 idle)
  | inr used' ↦ free_file-some n (i + 1) t f (ground (arith, h))
]

set_ref-ref :
    (f r : ℕ) (t : ℕ → File) (g : ℕ) → (set_ref f r t g).ref ≡ (if g == f then r else (t g).ref)
set_ref-ref f r t g = ground arith

some_pair :
    (f g : ℕ) (t u : ℕ → File)
    → ◌≡◌ {A = Option (ℕ × (ℕ → File))} (some (g, u)) (some (f, t))
    → (g ≡ f) × (u ≡ t)
some_pair f g t u h =
    let e : (g, u) ≡ (f, t) = cc in
    (ap (λ (p : ℕ × (ℕ → File)). p.0) e, ap (λ (p : ℕ × (ℕ → File)). p.1) e)

filealloc-parts :
    (t t' : ℕ → File) (f : ℕ) → filealloc t ≡ some (f, t') → ((t f).ref ≡ 0) × (set_ref f 1 t ≡ t')
unfolding filealloc take_file
filealloc-parts t t' f h = elim (Option-cases (free_file nfile 0 t)) [
  | inl e ↦ absurd (none-some (sym (ap (λ o. take_file o t) e) ∙ h))
  | inr (g, e) ↦
      let (same, tables) = some_pair f g t' (set_ref g 1 t) (sym (ap (λ o. take_file o t) e) ∙ h) in
      (
        subst (λ y. (t y).ref ≡ 0) same (free_file-some nfile 0 t g e),
        ap (λ y. set_ref y 1 t) (sym same) ∙ tables,
      )
]

filedup-parts :
    (t t' : ℕ → File) (f : ℕ)
    → filedup f t ≡ some t'
    → (0 < (t f).ref) × (set_ref f ((t f).ref + 1) t ≡ t')
unfolding filedup
filedup-parts t t' f h = elim (Bool-cases (ltb (t f).ref 1)) [
  | inl shut ↦ absurd (
      none-some
        (subst (λ b. (if b then none else some (set_ref f ((t f).ref + 1) t)) ≡ some t') shut h))
  | inr open' ↦
      let e =
        subst (λ b. (if b then none else some (set_ref f ((t f).ref + 1) t)) ≡ some t') open' h in
      (ground arith, cc)
]

-- The counts are the numbers of references held.
abbrev IsCounted : Table → Type 0
IsCounted s = (g : ℕ) → (s.files g).ref ≡ occurrences g s.handles

-- The table behind a call of `fileclose`.
abbrev after_close : Closed → (ℕ → File) → ℕ → File
after_close not_open t = t
after_close (still_open u) t = u
after_close (last_closed u r) t = u

close-ref :
    (f : ℕ) (t : ℕ → File) (g : ℕ)
    → (after_close (fileclose f t) t g).ref ≡ (if g == f then (t f).ref - 1 else (t g).ref)
unfolding fileclose
close-ref f t g = ground arith

closed-IsCounted :
    (s : Table) (f : ℕ) (xs ys : List ℕ) (u : ℕ → File)
    → IsCounted s
    → s.handles ≡ xs ++ (f ∷ ys)
    → after_close (fileclose f s.files) s.files ≡ u
    → IsCounted (record { files = u; handles = xs ++ ys })
closed-IsCounted s f xs ys u v e a g = ground (
  arith,
  ap (λ (w : ℕ → File). (w g).ref) a,
  close-ref f s.files g,
  v g,
  v f,
  ap (occurrences g) e,
  ap (occurrences f) e,
  occurrences-middle f g xs ys,
  occurrences-middle f f xs ys,
  ap (λ y. (s.files y).ref),
)

added-IsCounted :
    (s : Table) (f r : ℕ)
    → IsCounted s
    → r ≡ (s.files f).ref + 1
    → IsCounted (record { files = set_ref f r s.files; handles = f ∷ s.handles })
unfolding occurrences
added-IsCounted s f r v e g = ground (arith, v g, v f, ap (λ y. (s.files y).ref))

Call-IsCounted : {s u : Table} → Call s u → IsCounted s → IsCounted u
Call-IsCounted {s} (opens f {t} h) v =
    let (z, e) = filealloc-parts s.files t f h in
    subst (λ w. IsCounted (record { files = w; handles = f ∷ s.handles })) e
      (added-IsCounted s f 1 v (omega (arith, z)))
Call-IsCounted {s} (dups f {t} h) v =
    let (p, e) = filedup-parts s.files t f h in
    subst (λ w. IsCounted (record { files = w; handles = f ∷ s.handles })) e
      (added-IsCounted s f ((s.files f).ref + 1) v refl)
Call-IsCounted {s} (closes f xs ys {t} e h) v =
    closed-IsCounted s f xs ys t v e (ap (λ c. after_close c s.files) h)
Call-IsCounted {s} (closes_last f xs ys {t} e h) v =
    closed-IsCounted s f xs ys t v e (ap (λ c. after_close c s.files) h)
Call-IsCounted {s} (sets f v e) c = λ g. ground (arith, e, c g, ap (λ y. (s.files y).ref))

Calls-IsCounted : {s : Table} → Calls s → IsCounted s
unfolding occurrences
Calls-IsCounted (none_open t z) g = z g
Calls-IsCounted (then_call r c) g = Call-IsCounted c (Calls-IsCounted r) g

closed_cases :
    (f : ℕ) (t : ℕ → File)
    → 0 < (t f).ref
    → fileclose f t ≡ (
        if (t f).ref == 1
        then last_closed (update t f (record (t f) { ref = 0; type' = fd_none })) (release_of (t f))
        else still_open (set_ref f ((t f).ref - 1) t))
unfolding fileclose
closed_cases f t h = ground arith

-- What `filealloc` comes to: a file without references, or none.
abbrev pub IsVacant : Table → Option (ℕ × (ℕ → File)) → Type 0
IsVacant s none = Unit {0}
IsVacant s (some (g, t)) = occurrences g s.handles ≡ 0

filealloc-IsVacant : (s : Table) → IsCounted s → IsVacant s (filealloc s.files)
filealloc-IsVacant s v = by_result (filealloc s.files) refl
  where
    by_result : (o : Option (ℕ × (ℕ → File))) → filealloc s.files ≡ o → IsVacant s o
    by_result none e = tt
    by_result (some (g, t)) e = sym (v g) ∙ (filealloc-parts s.files t g e).0

-- Over any sequence of `filealloc`, `filedup`, `fileclose` and assignments to the fields of a file but
-- its count, from a table without references, each close of a reference that is held: `fileclose` of
-- such a reference never panics, and it releases the pipe end or the inode of the file exactly if no
-- other reference to the file is held; else it only takes the reference from the count. `filealloc`
-- never hands out a file with a reference.
pub references_counted :
    {s : Table}
    → Calls s
    → (f : ℕ) (xs ys : List ℕ) → s.handles ≡ xs ++ (f ∷ ys)
    → (fileclose f s.files ≡ (
        if occurrences f (xs ++ ys) == 0
        then last_closed
            (update s.files f (record (s.files f) { ref = 0; type' = fd_none }))
            (release_of (s.files f))
        else still_open (set_ref f ((s.files f).ref - 1) s.files)))
      × IsVacant s (filealloc s.files)
references_counted {s} r f xs ys e = (
  closed_cases f s.files (omega (arith, counted))
      ∙ ap
          (λ b.
            if b
            then last_closed (update s.files f (record (s.files f) { ref = 0; type' = fd_none }))
                (release_of (s.files f))
            else still_open (set_ref f ((s.files f).ref - 1) s.files))
          same,
  filealloc-IsVacant s (Calls-IsCounted r),
)
  where
    counted : (s.files f).ref ≡ 1 + occurrences f (xs ++ ys)
    counted = Calls-IsCounted r f ∙ ap (occurrences f) e ∙ occurrences-middle f f xs ys ∙ one
      where
        one : (if f == f then 1 else 0) + occurrences f (xs ++ ys) ≡ 1 + occurrences f (xs ++ ys)
        one = ground arith

    same : ((s.files f).ref == 1) ≡ (occurrences f (xs ++ ys) == 0)
    same = ground (arith, counted)
