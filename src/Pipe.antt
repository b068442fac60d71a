-- ===== src/Pipe.antt =====
-- kernel/pipe.c: the ring of a pipe, its writer and its reader. A call that sleeps is cut there: it
-- hands back what it has done, and the caller runs it again with what is left. `killed(pr)`, the
-- bytes that `copyin` delivers and the success of each `copyout` are arguments. The lock of the pipe and
-- the wake-ups of its other end are left out.
mod Tests
pub mod Contents
pub mod Writer
pub mod Transfer
use kus_operating_system_pro.Shared.{
  Bool, List, Option, [], false, if◌then◌else◌, none, not, some, true, update, ℕ, ◌%◌, ◌&&◌, ◌+◌,
  ◌==◌, ◌^◌, ◌||◌, ◌∷◌,
}

abbrev pub pipesize : ℕ
pipesize = 512

-- `struct pipe` without its lock; `nread` and `nwrite` are `uint`.
pub record Pipe : Type 0 where
  pub data' : ℕ → ℕ
  pub nread : ℕ
  pub nwrite : ℕ
  pub readopen : Bool
  pub writeopen : Bool

-- The pipe that `pipealloc` makes of a fresh page.
unfoldable pub fresh : (ℕ → ℕ) → Pipe
fresh page = record { data' = page; nread = 0; nwrite = 0; readopen = true; writeopen = true }

-- How a call ends: with a count, with -1, or asleep after `i` bytes.
pub data Ending : Type 0 where
  count : ℕ → Ending
  error : Ending
  asleep : ℕ → Ending

-- `pipeclose`: the pipe afterwards and whether its page is freed.
unfoldable pub pipeclose : Bool → Pipe → Pipe × Bool
pipeclose writable p =
    let p' : Pipe =
      if writable then record p { writeopen = false } else record p { readopen = false } in
    (p', not p'.readopen && not p'.writeopen)

unfoldable pub is_full : Pipe → Bool
is_full p = p.nwrite == (p.nread + pipesize) % 2 ^ 32

unfoldable pub is_empty : Pipe → Bool
is_empty p = p.nread == p.nwrite

-- `pi->data[pi->nwrite++ % PIPESIZE] = ch`.
unfoldable pub put : ℕ → Pipe → Pipe
put ch p = record p {
  data' = update p.data' (p.nwrite % pipesize) ch;
  nwrite = (p.nwrite + 1) % 2 ^ 32;
}

-- The loop of `pipewrite` from byte `i` on; an element is what `copyin` gives for it.
unfoldable pub write_from : Bool → ℕ → List (Option ℕ) → Pipe → Ending × Pipe
write_from dead i [] p = (count i, p)
write_from dead i (none ∷ xs) p =
    if not p.readopen || dead then (error, p) else if is_full p then (asleep i, p) else (count i, p)
write_from dead i (some ch ∷ xs) p =
    let rest = write_from dead (i + 1) xs (put ch p) in
    if not p.readopen || dead then (error, p) else if is_full p then (asleep i, p) else rest

unfoldable pub pipewrite : Bool → List (Option ℕ) → Pipe → Ending × Pipe
pipewrite dead xs p = write_from dead 0 xs p

-- The copying loop of `piperead` from byte `i` on: an element says whether `copyout` succeeds for
-- it. The list is the bytes that have been copied out.
unfoldable pub read_from : ℕ → List Bool → Pipe → Ending × List ℕ × Pipe
read_from i [] p = (count i, [], p)
read_from i (false ∷ oks) p =
    if is_empty p then (count i, [], p) else if i == 0 then (error, [], p) else (count i, [], p)
read_from i (true ∷ oks) p =
    let rest = read_from (i + 1) oks (record p { nread = (p.nread + 1) % 2 ^ 32 }) in
    if is_empty p then (count i, [], p) else (rest.0, p.data' (p.nread % pipesize) ∷ rest.1, rest.2)

unfoldable pub piperead : Bool → List Bool → Pipe → Ending × List ℕ × Pipe
piperead dead oks p =
    if is_empty p && p.writeopen
    then if dead then (error, [], p) else (asleep 0, [], p)
    else read_from 0 oks p
