-- ===== src/Grep/Tests.antt =====
-- Runs of the theorems on the matcher.
-- The pattern `b*c$` on the line `abbc`.
use kus_operating_system_pro.Grep.Meaning.{Meaning, match_line_iff}
use kus_operating_system_pro.Shared.{[], false, refl, true, ◌↔◌, ◌∷◌, ◌≡◌}
use kus_operating_system_pro.Grep.{match_line, matchhere, matchstar, search_text}

match_line_iff_example :
    (match_line (98 ∷ 42 ∷ 99 ∷ 36 ∷ []) (97 ∷ 98 ∷ 98 ∷ 99 ∷ []) ≡ true)
    ↔ Meaning (98 ∷ 42 ∷ 99 ∷ 36 ∷ []) (97 ∷ 98 ∷ 98 ∷ 99 ∷ [])
match_line_iff_example = match_line_iff (98 ∷ 42 ∷ 99 ∷ 36 ∷ []) (97 ∷ 98 ∷ 98 ∷ 99 ∷ [])

-- It matches, and the pattern `^b` does not.
found : match_line (98 ∷ 42 ∷ 99 ∷ 36 ∷ []) (97 ∷ 98 ∷ 98 ∷ 99 ∷ []) ≡ true
unfolding match_line search_text matchhere matchstar
found = refl

not_found : match_line (94 ∷ 98 ∷ []) (97 ∷ 98 ∷ []) ≡ false
unfolding match_line matchhere
not_found = refl
