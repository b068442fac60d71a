-- ===== src/Console/Tests.antt =====
-- Runs of the theorems on the console.
use kus_operating_system_pro.Console.{Cons, consoleintr, consoleread, returned}
use kus_operating_system_pro.Shared.{List, [], arith, false, refl, true, ℕ, ◌-◌, ◌^◌, ◌∷◌, ◌≡◌}
use kus_operating_system_pro.Console.Editing.{IsConsole, press}
use kus_operating_system_pro.Console.Keys.{consoleintr-IsConsole}
use kus_operating_system_pro.Console.Lines.{IsPlain, consoleread-typed, press_keys}

-- The indices are about to wrap around.
abbrev empty : Cons
empty = record { buf = λ i. 0; r = 2 ^ 32 - 1; w = 2 ^ 32 - 1; e = 2 ^ 32 - 1 }

empty-IsConsole : IsConsole [] [] empty
empty-IsConsole = record {
  start = 2 ^ 32 - 1;
  r_at = refl;
  w_at = refl;
  e_at = refl;
  room = omega arith;
  text = tt;
  edited = tt;
  one_line = tt;
}

h-IsPlain : IsPlain 104
h-IsPlain = record {
  not_null = λ e. omega arith;
  not_end = λ e. omega arith;
  not_back = λ e. omega arith;
  not_newline = λ e. omega arith;
  not_return = λ e. omega arith;
  not_list = λ e. omega arith;
  not_kill = λ e. omega arith;
  not_delete = λ e. omega arith;
}

consoleintr-IsConsole_example :
    IsConsole ((press 104 ([], [])).0) ((press 104 ([], [])).1) ((consoleintr 104 empty).1)
consoleintr-IsConsole_example = consoleintr-IsConsole 104 [] [] empty empty-IsConsole

abbrev text_typed : List ℕ
text_typed = 104 ∷ 104 ∷ []

consoleread-typed_example :
    (s' : Cons) × (consoleread false
        (λ j. true)
        9
        ((consoleintr 10 (press_keys text_typed empty)).1)
      ≡ (returned 3, 104 ∷ 104 ∷ 10 ∷ [], s'))
    × IsConsole [] [] s'
consoleread-typed_example =
    consoleread-typed false (λ j. true) text_typed 9 empty (λ j. refl) (h-IsPlain, (h-IsPlain, tt))
      (omega arith) (omega arith) empty-IsConsole
