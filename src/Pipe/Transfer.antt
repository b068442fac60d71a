-- ===== src/Pipe/Transfer.antt =====
-- kernel/pipe.c: `piperead` as the taking end of the queue, and what passes through a pipe.
use kus_operating_system_pro.Pipe.Writer.{pipewrite-appends}
use kus_operating_system_pro.Pipe.{
  is_empty, piperead, pipewrite, read_from, Ending, Pipe, asleep, count, pipesize,
}
use kus_operating_system_pro.Pipe.Contents.{
  length-window, advanced, advanced-IsPipe, contents-advanced, held_bytes-advanced, is_empty_iff,
  IsPipe, contents, held_bytes, window,
}
use kus_operating_system_pro.Shared.{
  drop-all, take-all, ◌<◌, ◌≤◌, Bool, drop, replicate, ◌&&◌, arith, refl, suc, sym, zero,
  Bool-cases, List, [], ap, false, if◌then◌else◌, inl, inr, leb, length, map, some, take, true, ℕ,
  ◌%◌, ◌++◌, ◌+◌, ◌-◌, ◌∙◌, ◌∷◌, ◌≡◌,
}
use Prim.Native.Nat.{min}

-- What the copying loop of a read has done when every byte can be copied out.
record Took (i n : ℕ) (p : Pipe) (r : Ending × List ℕ × Pipe) : Type 0 where
  valid : IsPipe r.2
  bytes : r.1 ≡ take n (contents p)
  remains : contents r.2 ≡ drop n (contents p)
  ending : r.0 ≡ count (i + min n (held_bytes p))

read_empty :
    (i : ℕ) (oks : List Bool) (p : Pipe)
    → is_empty p ≡ true
    → read_from i (true ∷ oks) p ≡ (count i, [], p)
unfolding read_from
read_empty i oks p h = ground arith

read_more :
    (i : ℕ) (oks : List Bool) (p : Pipe)
    → is_empty p ≡ false
    → let rest = read_from (i + 1) oks (advanced p) in
      read_from i (true ∷ oks) p ≡ (rest.0, p.data' (p.nread % pipesize) ∷ rest.1, rest.2)
unfolding read_from
read_more i oks p h = rw h refl

contents-nil : (p : Pipe) → IsPipe p → is_empty p ≡ true → contents p ≡ []
unfolding window
contents-nil p v h = ap (window p.data' p.nread) ((is_empty_iff p v).0 h)

read_from-Took : (i n : ℕ) (p : Pipe) → IsPipe p → Took i n p (read_from i (replicate n true) p)
unfolding read_from
read_from-Took i zero p v = record {
  valid = v;
  bytes = refl;
  remains = refl;
  ending = ap count (omega arith);
}
read_from-Took i (suc n) p v = elim (Bool-cases (is_empty p)) [
  | inl dry ↦ rw (read_empty i (replicate n true) p dry) (
      let none' : held_bytes p ≡ 0 = (is_empty_iff p v).0 dry in
      let gone = contents-nil p v dry in
      record {
        valid = v;
        bytes = sym (ap (take (suc n)) gone);
        remains = gone ∙ sym (ap (drop (suc n)) gone);
        ending = ap count (omega arith);
      })
  | inr wet ↦ rw (read_more i (replicate n true) p wet) (
      let ih = read_from-Took (i + 1) n (advanced p) (advanced-IsPipe p v wet) in
      let less = held_bytes-advanced p v wet in
      let split = contents-advanced p v wet in
      record {
        valid = ih.valid;
        bytes = ap (λ l. p.data' (p.nread % pipesize) ∷ l) ih.bytes ∙ sym (ap (take (suc n)) split);
        remains = ih.remains ∙ sym (ap (drop (suc n)) split);
        ending = ih.ending ∙ ap count (omega arith);
      })
]

-- `piperead` of up to `n` bytes, each of which can be copied out, by a process that is not killed:
-- it sleeps exactly on an empty pipe whose writing end is open, leaving it alone; else it returns the
-- smaller of `n` and the number of bytes held, having delivered that many of the oldest bytes in
-- order, and leaves the others in order, the pipe well formed.
pub piperead-takes :
    (n : ℕ) (p : Pipe)
    → IsPipe p
    → let (r, out, p') = piperead false (replicate n true) p in
      let dry = is_empty p && p.writeopen in
      IsPipe p'
      × (r ≡ (if dry then asleep 0 else count (min n (held_bytes p))))
      × (out ≡ (if dry then [] else take n (contents p)))
      × (contents p' ≡ (if dry then contents p else drop n (contents p)))
unfolding piperead
piperead-takes n p v = elim (Bool-cases (is_empty p && p.writeopen)) [
  | inl dry ↦ rw dry (v, refl, refl, refl)
  | inr wet ↦
      let t = read_from-Took 0 n p v in
      rw wet (t.valid, t.ending ∙ ap count (omega arith), t.bytes, t.remains)
]

-- What goes into a pipe comes out of it: bytes that all fit into an empty pipe, written and then read
-- back with room for all, are the bytes read, and the pipe is empty again.
pub piperead-pipewrite :
    (xs : List ℕ) (p : Pipe)
    → IsPipe p
    → p.readopen ≡ true
    → contents p ≡ []
    → length xs ≤ pipesize
    → 0 < length xs
    → let (r, p') = pipewrite false (map some xs) p in
      let (r', out, p'') = piperead false (replicate (length xs) true) p' in
      (r ≡ count (length xs)) × (r' ≡ count (length xs)) × (out ≡ xs) × (contents p'' ≡ [])
piperead-pipewrite xs p v open' bare fits some' = (
  sent.2 ∙ all_fit,
  got.1 ∙ wet_case ∙ ap count (omega (arith, holds)),
  got.2 ∙ wet_bytes ∙ ap (take (length xs)) stored ∙ take-all (length xs) xs (omega arith),
  got.3 ∙ wet_rest ∙ ap (drop (length xs)) stored ∙ drop-all (length xs) xs (omega arith),
)
  where
    p1 : Pipe
    p1 = (pipewrite false (map some xs) p).1

    empty_before : held_bytes p ≡ 0
    empty_before = sym (length-window p.data' p.nread (held_bytes p)) ∙ ap length bare

    sent :
        IsPipe p1
        × (contents p1 ≡ contents p ++ take (pipesize - held_bytes p) xs)
        × ((pipewrite false (map some xs) p).0 ≡ (
            if leb (length xs) (pipesize - held_bytes p)
            then count (length xs)
            else asleep (pipesize - held_bytes p)))
    sent = pipewrite-appends xs p v open'

    all_fit :
        (if leb (length xs) (pipesize - held_bytes p)
          then count (length xs)
          else asleep (pipesize - held_bytes p))
        ≡ count (length xs)
    all_fit = ground (arith, empty_before)

    stored : contents p1 ≡ xs
    stored =
        sent.1
        ∙ ap (λ l. l ++ take (pipesize - held_bytes p) xs) bare
        ∙ take-all (pipesize - held_bytes p) xs (omega (arith, empty_before))

    holds : held_bytes p1 ≡ length xs
    holds = sym (length-window p1.data' p1.nread (held_bytes p1)) ∙ ap length stored

    wet : (is_empty p1 && p1.writeopen) ≡ false
    wet = elim (Bool-cases (is_empty p1)) [
      | inl dry ↦ absurd (omega (arith, (is_empty_iff p1 sent.0).0 dry, holds))
      | inr full ↦ rw full refl
    ]

    got :
        let (r, out, p'') = piperead false (replicate (length xs) true) p1 in
        let dry = is_empty p1 && p1.writeopen in
        IsPipe p''
        × (r ≡ (if dry then asleep 0 else count (min (length xs) (held_bytes p1))))
        × (out ≡ (if dry then [] else take (length xs) (contents p1)))
        × (contents p'' ≡ (if dry then contents p1 else drop (length xs) (contents p1)))
    got = piperead-takes (length xs) p1 sent.0

    wet_case :
        (if is_empty p1 && p1.writeopen then asleep 0 else count (min (length xs) (held_bytes p1)))
        ≡ count (min (length xs) (held_bytes p1))
    wet_case = rw wet refl

    wet_bytes :
        (if is_empty p1 && p1.writeopen then [] else take (length xs) (contents p1))
        ≡ take (length xs) (contents p1)
    wet_bytes = rw wet refl

    wet_rest :
        (if is_empty p1 && p1.writeopen then contents p1 else drop (length xs) (contents p1))
        ≡ drop (length xs) (contents p1)
    wet_rest = rw wet refl
