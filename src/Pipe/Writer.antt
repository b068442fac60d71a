-- ===== src/Pipe/Writer.antt =====
-- kernel/pipe.c: `pipewrite` as the putting end of a bounded queue of bytes.
use kus_operating_system_pro.Pipe.{
  pipewrite, Ending, Pipe, asleep, count, is_full, pipesize, put, write_from,
}
use kus_operating_system_pro.Pipe.Contents.{
  contents-put, is_full_iff, put-IsPipe, room-lt, IsPipe, contents, held_bytes, held_bytes-put,
}
use kus_operating_system_pro.Shared.{
  Option, arith, refl, suc, sym, take-cons, take-eq-nil, zero, Bool-cases, List, [], ap, false,
  if◌then◌else◌, inl, inr, leb, length, map, some, take, true, ℕ, ◌++◌, ◌+◌, ◌-◌, ◌∙◌, ◌∷◌, ◌≡◌,
}
use mathlib.Core.List.{append-nil, append_assoc}

-- What a write that finds the reader's end open and every byte readable has done: it has put in the
-- bytes that fit, in order, and returns their number if these are all, and else sleeps.
record Wrote (i : ℕ) (xs : List ℕ) (p : Pipe) (r : Ending × Pipe) : Type 0 where
  valid : IsPipe r.1
  stored : contents r.1 ≡ contents p ++ take (pipesize - held_bytes p) xs
  ending : r.0 ≡ (
      if leb (length xs) (pipesize - held_bytes p)
      then count (i + length xs)
      else asleep (i + (pipesize - held_bytes p)))

take-nil : (n : ℕ) → take {A = ℕ} n [] ≡ []
take-nil zero = refl
take-nil (suc n) = refl

step_full :
    (i x : ℕ) (ys : List (Option ℕ)) (p : Pipe)
    → p.readopen ≡ true
    → is_full p ≡ true
    → write_from false i (some x ∷ ys) p ≡ (asleep i, p)
unfolding write_from
step_full i x ys p open' full = ground arith

step_room :
    (i x : ℕ) (ys : List (Option ℕ)) (p : Pipe)
    → p.readopen ≡ true
    → is_full p ≡ false
    → write_from false i (some x ∷ ys) p ≡ write_from false (i + 1) ys (put x p)
unfolding write_from
step_room i x ys p open' room = ground arith

open-put : (x : ℕ) (p : Pipe) → (put x p).readopen ≡ p.readopen
unfolding put
open-put x p = refl

ending-step :
    (i n r r' : ℕ)
    → r ≡ suc r'
    → (if leb n r' then count (i + 1 + n) else asleep (i + 1 + r'))
      ≡ (if leb (suc n) r then count (i + suc n) else asleep (i + r))
ending-step i n r r' h = ground arith

write_from-Wrote :
    (i : ℕ) (xs : List ℕ) (p : Pipe)
    → IsPipe p
    → p.readopen ≡ true
    → Wrote i xs p (write_from false i (map some xs) p)
unfolding write_from
write_from-Wrote i [] p v open' = record {
  valid = v;
  stored =
      sym
        (ap (λ l. contents p ++ l) (take-nil (pipesize - held_bytes p)) ∙ append-nil (contents p));
  ending = ground arith;
}
write_from-Wrote i (x ∷ xs) p v open' = elim (Bool-cases (is_full p)) [
  | inl full ↦ rw (step_full i x (map some xs) p open' full) (
      let all : held_bytes p ≡ pipesize = (is_full_iff p v).0 full in
      record {
        valid = v;
        stored = sym (
            ap (λ l. contents p ++ l) (take-eq-nil (pipesize - held_bytes p) (x ∷ xs) (omega arith))
            ∙ append-nil (contents p));
        ending = ground arith;
      })
  | inr room ↦ rw (step_room i x (map some xs) p open' room) (
      let ih =
        write_from-Wrote (i + 1) xs (put x p) (put-IsPipe x p v room) (open-put x p ∙ open') in
      let more = held_bytes-put x p v room in
      let lt = room-lt p v room in
      record {
        valid = ih.valid;
        stored =
            ih.stored
            ∙ ap (λ l. l ++ take (pipesize - held_bytes (put x p)) xs) (contents-put x p v room)
            ∙ append_assoc (contents p) (x ∷ []) (take (pipesize - held_bytes (put x p)) xs)
            ∙ ap (λ l. contents p ++ l)
                (sym (
                  take-cons (pipesize - held_bytes p) (pipesize - held_bytes (put x p)) x xs
                    (omega arith)));
        ending =
            ih.ending
            ∙ ending-step i (length xs) (pipesize - held_bytes p) (pipesize - held_bytes (put x p))
                (omega arith);
      })
]

-- `pipewrite` of bytes that can all be read, to a pipe whose reading end is open, by a process that
-- is not killed: the bytes that fit are appended to the contents, in order; if these are all, the
-- call returns their number, and else it sleeps after exactly the free space; no byte is lost or
-- overwritten, and the pipe stays well formed.
pub pipewrite-appends :
    (xs : List ℕ) (p : Pipe)
    → IsPipe p
    → p.readopen ≡ true
    → let (r, p') = pipewrite false (map some xs) p in
      IsPipe p'
      × (contents p' ≡ contents p ++ take (pipesize - held_bytes p) xs)
      × (r ≡ (
          if leb (length xs) (pipesize - held_bytes p)
          then count (length xs)
          else asleep (pipesize - held_bytes p)))
unfolding pipewrite
pipewrite-appends xs p v open' =
    let w = write_from-Wrote 0 xs p v open' in (w.valid, w.stored, w.ending ∙ ground arith)
