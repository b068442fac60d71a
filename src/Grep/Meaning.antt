-- ===== src/Grep/Meaning.antt =====
-- user/grep.c: the matcher decides what its patterns mean.
use kus_operating_system_pro.Grep.{
  at_end, fits, match_line, match_one, matchhere, matchstar, search_text,
}
use mathlib.Core.Bool.{false≢true}
use kus_operating_system_pro.Shared.{
  ap, ◌∙◌, Bool, Bool-cases, List, [], arith, if◌then◌else◌, inl, inr, refl, true, ℕ, ◌==◌, ◌∷◌,
  ◌≡◌, ◌↔◌, ◌++◌, All,
}

-- The first character of a text fits, and the rest is as stated.
abbrev pub Starts : ℕ → (List ℕ → Type 0) → List ℕ → Type 0
Starts c P text = (x : ℕ) × (xs : List ℕ) × (text ≡ x ∷ xs) × (fits c x ≡ true) × P xs

-- A text is a run of characters that fit, of any length, and a rest as stated.
abbrev pub Repeats : ℕ → (List ℕ → Type 0) → List ℕ → Type 0
Repeats c P text =
    (run : List ℕ) × (rest : List ℕ) × (text ≡ run ++ rest)
    × All (λ x. fits c x ≡ true) run
    × P rest

-- What a pattern says of the start of a text: `c*` a run of characters that fit `c`, `$` at the end of
-- the pattern the end of the text, and any other character one that fits.
unfoldable pub Here : List ℕ → List ℕ → Type 0
Here [] text = Unit
Here (c ∷ []) text = if c == 36 then (text ≡ []) else Starts c (λ xs. Unit) text
Here (c ∷ d ∷ re) text = if d == 42 then Repeats c (Here re) text else Starts c (Here (d ∷ re)) text

-- What a whole pattern says of a line: behind `^` of its start, else of some part of it.
abbrev pub Anywhere : List ℕ → List ℕ → Type 0
Anywhere re text = (before : List ℕ) × (rest : List ℕ) × (text ≡ before ++ rest) × Here re rest

unfoldable pub Meaning : List ℕ → List ℕ → Type 0
Meaning [] text = Anywhere [] text
Meaning (c ∷ re) text = if c == 94 then Here re text else Anywhere (c ∷ re) text

head_of : (x y : ℕ) (xs ys : List ℕ) → x ∷ xs ≡ y ∷ ys → (x ≡ y) × (xs ≡ ys)
head_of x y xs ys e = (cc, cc)

star_now :
    (c : ℕ) (here : List ℕ → Bool) (text : List ℕ) → here text ≡ true → matchstar c here text ≡ true
unfolding matchstar
star_now c here [] h = h
star_now c here (x ∷ xs) h = rw h refl

star_found :
    (c : ℕ) (here : List ℕ → Bool) (run rest text : List ℕ)
    → text ≡ run ++ rest
    → All (λ x. fits c x ≡ true) run
    → here rest ≡ true
    → matchstar c here text ≡ true
unfolding matchstar
star_found c here [] rest text e a h = star_now c here text (ap here e ∙ h)
star_found c here (y ∷ ys) rest [] e a h = absurd cc
star_found c here (y ∷ ys) rest (x ∷ xs) e a h =
    let (same, tails) = head_of x y xs (ys ++ rest) e in
    ground (arith, ap (fits c) same ∙ a.0, star_found c here ys rest xs tails a.1 h)

matchstar_iff :
    (c : ℕ) (here : List ℕ → Bool) (P : List ℕ → Type 0)
    → ((t : List ℕ) → (here t ≡ true) ↔ P t)
    → (text : List ℕ) → (matchstar c here text ≡ true) ↔ Repeats c P text
unfolding matchstar
matchstar_iff c here P dec [] = (
  λ h. ([], [], refl, tt, (dec []).0 h),
  λ (run, rest, e, a, p). star_found c here run rest [] e a ((dec rest).1 p),
)
matchstar_iff c here P dec (x ∷ xs) =
    let (to, _) = matchstar_iff c here P dec xs in
    (
      λ h. elim (Bool-cases (here (x ∷ xs))) [
        | inl now ↦ ([], x ∷ xs, refl, tt, (dec (x ∷ xs)).0 now)
        | inr goes ↦
            let (run, rest, e, a, p) = to (ground arith) in
            (x ∷ run, rest, ap (λ l. x ∷ l) e, (ground arith, a), p)
      ],
      λ (run, rest, e, a, p). star_found c here run rest (x ∷ xs) e a ((dec rest).1 p),
    )

match_one_iff :
    (c : ℕ) (here : List ℕ → Bool) (P : List ℕ → Type 0)
    → ((t : List ℕ) → (here t ≡ true) ↔ P t)
    → (text : List ℕ) → (match_one c here text ≡ true) ↔ Starts c P text
match_one_iff c here P dec [] = (λ h. absurd (false≢true h), λ (x, xs, e, f, p). absurd cc)
match_one_iff c here P dec (x ∷ xs) = (
  λ h. (x, xs, refl, ground arith, (dec xs).0 (ground arith)),
  λ (y, ys, e, f, p).
      let (same, tails) = head_of x y xs ys e in
      ground (arith, ap (fits c) same ∙ f, ap here tails ∙ (dec ys).1 p),
)

at_end_iff : (text : List ℕ) → (at_end text ≡ true) ↔ (text ≡ [])
at_end_iff [] = (λ h. refl, λ h. refl)
at_end_iff (x ∷ xs) = (λ h. absurd (false≢true h), λ h. absurd cc)

matchhere_iff : (re text : List ℕ) → (matchhere re text ≡ true) ↔ Here re text
unfolding matchhere Here
matchhere_iff [] text = (λ h. tt, λ h. refl)
matchhere_iff (c ∷ []) text = elim (Bool-cases (c == 36)) [
  | inl dollar ↦ rw dollar (at_end_iff text)
  | inr plain ↦
      rw plain (match_one_iff c (matchhere []) (λ xs. Unit) (λ t. (λ h. tt, λ h. refl)) text)
]
matchhere_iff (c ∷ d ∷ re) text = elim (Bool-cases (d == 42)) [
  | inl star ↦ rw star (matchstar_iff c (matchhere re) (Here re) (matchhere_iff re) text)
  | inr plain ↦
      rw plain (match_one_iff c (matchhere (d ∷ re)) (Here (d ∷ re)) (matchhere_iff (d ∷ re)) text)
]

search_now : (re text : List ℕ) → matchhere re text ≡ true → search_text re text ≡ true
unfolding search_text
search_now re [] h = h
search_now re (x ∷ xs) h = rw h refl

search_found :
    (re before rest text : List ℕ)
    → text ≡ before ++ rest
    → matchhere re rest ≡ true
    → search_text re text ≡ true
unfolding search_text
search_found re [] rest text e h = search_now re text (ap (matchhere re) e ∙ h)
search_found re (y ∷ ys) rest [] e h = absurd cc
search_found re (y ∷ ys) rest (x ∷ xs) e h =
    let (same, tails) = head_of x y xs (ys ++ rest) e in
    ground (arith, search_found re ys rest xs tails h)

search_text_iff : (re text : List ℕ) → (search_text re text ≡ true) ↔ Anywhere re text
unfolding search_text
search_text_iff re [] = (
  λ h. ([], [], refl, (matchhere_iff re []).0 h),
  λ (before, rest, e, p). search_found re before rest [] e ((matchhere_iff re rest).1 p),
)
search_text_iff re (x ∷ xs) =
    let (to, _) = search_text_iff re xs in
    (
      λ h. elim (Bool-cases (matchhere re (x ∷ xs))) [
        | inl now ↦ ([], x ∷ xs, refl, (matchhere_iff re (x ∷ xs)).0 now)
        | inr goes ↦
            let (before, rest, e, p) = to (ground arith) in (x ∷ before, rest, ap (λ l. x ∷ l) e, p)
      ],
      λ (before, rest, e, p). search_found re before rest (x ∷ xs) e ((matchhere_iff re rest).1 p),
    )

-- `match` of a pattern and a line gives 1 exactly if the line is as the pattern says.
pub match_line_iff : (re text : List ℕ) → (match_line re text ≡ true) ↔ Meaning re text
unfolding match_line Meaning
match_line_iff [] text = search_text_iff [] text
match_line_iff (c ∷ re) text = elim (Bool-cases (c == 94)) [
  | inl start ↦ rw start (matchhere_iff re text)
  | inr other ↦ rw other (search_text_iff (c ∷ re) text)
]
