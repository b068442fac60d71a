-- ===== src/Grep.antt =====
-- user/grep.c: the matcher, on strings as lists of their characters before the terminator.
mod Tests
pub mod Meaning
use kus_operating_system_pro.Shared.{
  Bool, List, [], false, if◌then◌else◌, true, ℕ, ◌&&◌, ◌==◌, ◌||◌, ◌∷◌,
}

-- `re[0]=='.' || re[0]==*text`, and `*text++==c || c=='.'`.
abbrev pub fits : ℕ → ℕ → Bool
fits c x = (c == 46) || (c == x)

-- `*text == '\0'`.
abbrev pub at_end : List ℕ → Bool
at_end [] = true
at_end (x ∷ xs) = false

-- `matchstar` of a character and a pattern for which `here` is `matchhere`.
unfoldable pub matchstar : ℕ → (List ℕ → Bool) → List ℕ → Bool
matchstar c here [] = here []
matchstar c here (x ∷ xs) = here (x ∷ xs) || (fits c x && matchstar c here xs)

-- The last test of `matchhere`, with `here` for the rest of the pattern.
abbrev pub match_one : ℕ → (List ℕ → Bool) → List ℕ → Bool
match_one c here [] = false
match_one c here (x ∷ xs) = fits c x && here xs

unfoldable pub matchhere : List ℕ → List ℕ → Bool
matchhere [] text = true
matchhere (c ∷ []) text = if c == 36 then at_end text else match_one c (matchhere []) text
matchhere (c ∷ d ∷ re) text =
    if d == 42 then matchstar c (matchhere re) text else match_one c (matchhere (d ∷ re)) text

-- The loop of `match`.
unfoldable pub search_text : List ℕ → List ℕ → Bool
search_text re [] = matchhere re []
search_text re (x ∷ xs) = matchhere re (x ∷ xs) || search_text re xs

unfoldable pub match_line : List ℕ → List ℕ → Bool
match_line [] text = search_text [] text
match_line (c ∷ re) text = if c == 94 then matchhere re text else search_text (c ∷ re) text
