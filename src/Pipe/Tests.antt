-- ===== src/Pipe/Tests.antt =====
-- Runs of the pipe's theorems at concrete pipes.
use kus_operating_system_pro.Shared.{
  ◌^◌, ℕ, ◌≡◌, refl, true, false, List, [], ◌∷◌, map, some, replicate, ◌-◌, arith,
}
use kus_operating_system_pro.Pipe.{Pipe, pipewrite, piperead, count}
use kus_operating_system_pro.Pipe.Contents.{window, IsPipe, contents}
use kus_operating_system_pro.Pipe.Transfer.{piperead-pipewrite}

-- A pipe whose positions are about to wrap around, with two bytes in it.
abbrev wrapping : Pipe
wrapping = record {
  data' = λ i. i;
  nread = 2 ^ 32 - 1;
  nwrite = 1;
  readopen = true;
  writeopen = true;
}

abbrev bare : Pipe
bare = record wrapping { nwrite = 2 ^ 32 - 1 }

bare-IsPipe : IsPipe bare
bare-IsPipe = record { read_word = omega arith; write_word = omega arith; bounded = omega arith }

abbrev word : List ℕ
word = 104 ∷ 105 ∷ 33 ∷ []

piperead-pipewrite_example :
    let (r, p') = pipewrite false (map some word) bare in
    let (r', out, p'') = piperead false (replicate 3 true) p' in
    (r ≡ count 3) × (r' ≡ count 3) × (out ≡ word) × (contents p'' ≡ [])
piperead-pipewrite_example =
    piperead-pipewrite word bare bare-IsPipe refl (unfold window in refl) (omega arith)
      (omega arith)
