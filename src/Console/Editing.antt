-- ===== src/Console/Editing.antt =====
-- kernel/console.c: the ring as the text that is ready to be read and the line that is being edited.
use kus_operating_system_pro.Console.{Cons, input_buf_size, newline_of}
use kus_operating_system_pro.Shared.{
  All, List, [], arith, if◌then◌else◌, length, length-append, ltb, not, refl, update, update_ne, ℕ,
  ◌%◌, ◌&&◌, ◌++◌, ◌+◌, ◌<◌, ◌==◌, ◌^◌, ◌||◌, ◌∙◌, ◌∷◌, ◌≡◌, ◌≢◌, ◌≤◌,
}
use mathlib.Core.Path.{subst}

-- The line being edited has its newest character first.
unfoldable pub oldest_first : List ℕ → List ℕ
oldest_first [] = []
oldest_first (x ∷ xs) = oldest_first xs ++ (x ∷ [])

-- What a key does to the text that is ready and to the line.
unfoldable pub type_char : ℕ → List ℕ × List ℕ → List ℕ × List ℕ
type_char c (ready, line) =
    if (c == 10) || (c == 4) || (length ready + length line + 1 == input_buf_size)
    then (ready ++ oldest_first (c ∷ line), [])
    else (ready, c ∷ line)

abbrev pub erase_newest : List ℕ → List ℕ
erase_newest [] = []
erase_newest (x ∷ xs) = xs

unfoldable pub press : ℕ → List ℕ × List ℕ → List ℕ × List ℕ
press c (ready, line) =
    if c == 16
    then (ready, line)
    else if c == 21
    then (ready, [])
    else if (c == 8) || (c == 127)
    then (ready, erase_newest line)
    else if not (c == 0) && ltb (length ready + length line) input_buf_size
    then type_char (newline_of c) (ready, line)
    else (ready, line)

-- The ring has `xs` from index `i` on, and `xs`, the newest first, behind index `i`.
abbrev pub Text : (ℕ → ℕ) → ℕ → List ℕ → Type 0
Text buf i [] = Unit {0}
Text buf i (x ∷ xs) = (buf (i % input_buf_size) ≡ x) × Text buf (i + 1) xs

abbrev pub Line : (ℕ → ℕ) → ℕ → List ℕ → Type 0
Line buf i [] = Unit {0}
Line buf i (x ∷ xs) = (buf ((i + length xs) % input_buf_size) ≡ x) × Line buf i xs

-- The ring holds the text that is ready and the line, in which no line ends.
pub record IsConsole (ready line : List ℕ) (s : Cons) : Type 0 where
  pub start : ℕ
  pub r_at : s.r ≡ start % 2 ^ 32
  pub w_at : s.w ≡ (start + length ready) % 2 ^ 32
  pub e_at : s.e ≡ (start + length ready + length line) % 2 ^ 32
  pub room : length ready + length line ≤ input_buf_size
  pub text : Text s.buf start ready
  pub edited : Line s.buf (start + length ready) line
  pub one_line : All (λ x. x ≢ 10) line

pub Text-append :
    (buf : ℕ → ℕ) (i : ℕ) (xs ys : List ℕ)
    → Text buf i xs
    → Text buf (i + length xs) ys
    → Text buf i (xs ++ ys)
Text-append buf i [] ys a b = subst (λ j. Text buf j ys) (omega arith) b
Text-append buf i (x ∷ xs) ys a b =
    (a.0, Text-append buf (i + 1) xs ys a.1 (subst (λ j. Text buf j ys) (omega arith) b))

pub length-oldest_first : (xs : List ℕ) → length (oldest_first xs) ≡ length xs
unfolding oldest_first
length-oldest_first [] = refl
length-oldest_first (x ∷ xs) =
    length-append (oldest_first xs) (x ∷ []) ∙ omega (arith, length-oldest_first xs)

pub Line-Text : (buf : ℕ → ℕ) (i : ℕ) (xs : List ℕ) → Line buf i xs → Text buf i (oldest_first xs)
unfolding oldest_first
Line-Text buf i [] h = tt
Line-Text buf i (x ∷ xs) h =
    Text-append buf i (oldest_first xs) (x ∷ []) (Line-Text buf i xs h.1)
      (subst (λ j. buf (j % input_buf_size) ≡ x) (omega (arith, length-oldest_first xs)) h.0, tt)

-- A character stored behind the text and the line.
pub Text-update :
    (buf : ℕ → ℕ) (i p c : ℕ) (xs : List ℕ)
    → i + length xs ≤ p
    → p < i + input_buf_size
    → Text buf i xs
    → Text (update buf (p % input_buf_size) c) i xs
Text-update buf i p c [] lo hi h = tt
Text-update buf i p c (x ∷ xs) lo hi h = (
  update_ne buf c (λ (e : i % input_buf_size ≡ p % input_buf_size). omega arith) ∙ h.0,
  Text-update buf (i + 1) p c xs (omega arith) (omega arith) h.1,
)

pub Line-update :
    (buf : ℕ → ℕ) (i p c : ℕ) (xs : List ℕ)
    → i + length xs ≤ p
    → p < i + input_buf_size
    → Line buf i xs
    → Line (update buf (p % input_buf_size) c) i xs
Line-update buf i p c [] lo hi h = tt
Line-update buf i p c (x ∷ xs) lo hi h = (
  update_ne buf c (λ (e : (i + length xs) % input_buf_size ≡ p % input_buf_size). omega arith)
      ∙ h.0,
  Line-update buf i p c xs (omega arith) hi h.1,
)
