-- ===== src/Dir/Paths.antt =====
-- kernel/fs.c, `skipelem` and `namex`: a path as the list of its elements.
use mathlib.Core.Path.{ap₂, subst}
use mathlib.Core.List.{append-nil, append_assoc}
use kus_operating_system_pro.Dir.{
  skipelem_at, dirsiz, is_nil, skipelem, at_slash, behind_element, element_of, skip_slashes,
}
use kus_operating_system_pro.Shared.{
  Option, false, none, some, take, ◌<◌, Bool-cases, List, [], ap, arith, if◌then◌else◌, inl, inr,
  length, refl, sym, ℕ, ◌++◌, ◌∙◌, ◌∷◌, ◌≡◌, ◌≤◌,
}

-- The non-empty runs of characters between slashes; `flush` ends the run so far.
unfoldable pub flush : List ℕ → List (List ℕ) → List (List ℕ)
flush [] ws = ws
flush (c ∷ cs) ws = (c ∷ cs) ∷ ws

unfoldable pub cut_path : List ℕ → List ℕ → List (List ℕ)
cut_path run [] = flush run []
cut_path run (c ∷ cs) =
    if at_slash c then flush run (cut_path [] cs) else cut_path (run ++ (c ∷ [])) cs

abbrev pub elements : List ℕ → List (List ℕ)
elements path = cut_path [] path

elements-skip_slashes : (path : List ℕ) → elements (skip_slashes path) ≡ elements path
unfolding cut_path skip_slashes flush
elements-skip_slashes [] = refl
elements-skip_slashes (c ∷ cs) = elim (Bool-cases (at_slash c)) [
  | inl t ↦ rw t (elements-skip_slashes cs)
  | inr t ↦ rw t (rw t refl)
]

cut_path_run :
    (run path : List ℕ)
    → cut_path run path ≡ flush (run ++ element_of path) (elements (behind_element path))
unfolding cut_path element_of behind_element flush
cut_path_run run [] = ap (λ r. flush r []) (sym (append-nil run))
cut_path_run run (c ∷ cs) = elim (Bool-cases (at_slash c)) [
  | inl t ↦ rw t (ap₂ flush (sym (append-nil run)) (sym (rw t refl)))
  | inr t ↦ rw t (
      cut_path_run (run ++ (c ∷ [])) cs
      ∙ ap (λ r. flush r (elements (behind_element cs)))
          (append_assoc run (c ∷ []) (element_of cs)))
]

length-skip_slashes : (path : List ℕ) → length (skip_slashes path) ≤ length path
unfolding skip_slashes
length-skip_slashes [] = omega arith
length-skip_slashes (c ∷ cs) = ground (arith, length-skip_slashes cs)

length-behind_element : (path : List ℕ) → length (behind_element path) ≤ length path
unfolding behind_element
length-behind_element [] = omega arith
length-behind_element (c ∷ cs) = ground (arith, length-behind_element cs)

-- What is left behind slashes is nothing, or starts with an element.
data Start : List ℕ → Type 0 where
  nothing_left : Start []
  at_element : {c : ℕ} {cs : List ℕ} → at_slash c ≡ false → Start (c ∷ cs)

skip_slashes-Start : (path : List ℕ) → Start (skip_slashes path)
unfolding skip_slashes
skip_slashes-Start [] = nothing_left
skip_slashes-Start (c ∷ cs) = elim (Bool-cases (at_slash c)) [
  | inl t ↦ rw t (skip_slashes-Start cs)
  | inr t ↦ rw t (at_element t)
]

-- A path behind its slashes is empty just when no element is left.
is_nil-elements : (path : List ℕ) → Start path → is_nil path ≡ is_nil (elements path)
unfolding cut_path flush
is_nil-elements [] nothing_left = refl
is_nil-elements (c ∷ cs) (at_element t) = rw t (sym (ap is_nil (cut_path_run (c ∷ []) cs)))

-- What `skipelem` makes of a path with these elements.
pub data Skipped (path : List ℕ) : Option (List ℕ × List ℕ) → List (List ℕ) → Type 0 where
  done : Skipped path none []
  element :
      {w rest : List ℕ}
      → length rest < length path
      → is_nil rest ≡ is_nil (elements rest)
      → Skipped path (some (take dirsiz w, rest)) (w ∷ elements rest)

skipelem_at-Skipped :
    (path q : List ℕ) → length q ≤ length path → Start q → Skipped path (skipelem_at q) (elements q)
unfolding skipelem_at cut_path element_of behind_element flush
skipelem_at-Skipped path [] le nothing_left = done
skipelem_at-Skipped path (c ∷ cs) le (at_element t) =
    let rest : List ℕ = skip_slashes (behind_element (c ∷ cs)) in
    subst (Skipped path (some (take dirsiz (element_of (c ∷ cs)), rest))) whole (
      element {w = element_of (c ∷ cs)} {rest = rest} shorter
        (is_nil-elements rest (skip_slashes-Start (behind_element (c ∷ cs)))))
  where
    whole :
        element_of (c ∷ cs) ∷ elements (skip_slashes (behind_element (c ∷ cs))) ≡ elements (c ∷ cs)
    whole = rw t (
        ap (λ ws. (c ∷ element_of cs) ∷ ws) (elements-skip_slashes (behind_element cs))
        ∙ sym (cut_path_run (c ∷ []) cs))

    shorter : length (skip_slashes (behind_element (c ∷ cs))) < length path
    shorter =
        let a = length-skip_slashes (behind_element cs) in
        let b = length-behind_element cs in rw t (omega arith)

pub skipelem-Skipped : (path : List ℕ) → Skipped path (skipelem path) (elements path)
unfolding skipelem
skipelem-Skipped path =
    subst (Skipped path (skipelem_at (skip_slashes path))) (elements-skip_slashes path) (
      skipelem_at-Skipped path (skip_slashes path) (length-skip_slashes path)
        (skip_slashes-Start path))
