-- ===== src/Log/Reserve.antt =====
-- kernel/log.c: the reservation of log space by `begin_op`, over any interleaving of file-system
use kus_operating_system_pro.Shared.{◌⊎◌, zero}
-- calls, each of which writes at most `MAXOPBLOCKS` blocks that are not yet in the log.
use mathlib.Core.Bool.{false≢true}
use mathlib.Core.Path.{subst}
use kus_operating_system_pro.Shared.{is_in}
use kus_operating_system_pro.Log.{
  Log, absorb, begin_op, done, end_commit, end_op, log_write, logblocks, maxopblocks,
}
use kus_operating_system_pro.Shared.{
  Bool-cases, inl, inr, ◌==◌, All, All-append, All-split, refl, ◌<◌, ap, sym, ◌-◌, ◌∙◌, List, [],
  arith, false, length, length-append, suc, true, ℕ, ◌*◌, ◌++◌, ◌+◌, ◌∷◌, ◌≡◌, ◌≤◌,
}

-- The log with, for each call in progress, how many new blocks it may still write.
pub record System : Type 0 where
  pub log : Log
  pub calls : List ℕ

pub data Step (s : System) : System → Type 0 where
  begin :
      {l : Log}
      → begin_op s.log ≡ done l
      → Step s (record { log = l; calls = maxopblocks ∷ s.calls })
  write_new :
      (b a : ℕ) (xs ys : List ℕ) {l : Log}
      → s.calls ≡ xs ++ (suc a ∷ ys)
      → is_in b s.log.lh ≡ false
      → log_write b s.log ≡ done l
      → Step s (record { log = l; calls = xs ++ (a ∷ ys) })
  write_again :
      (b : ℕ) {l : Log}
      → is_in b s.log.lh ≡ true
      → log_write b s.log ≡ done l
      → Step s (record { log = l; calls = s.calls })
  end :
      (a : ℕ) (xs ys : List ℕ) {l : Log}
      → s.calls ≡ xs ++ (a ∷ ys)
      → end_op s.log ≡ done l
      → Step s (record { log = l; calls = xs ++ ys })
  committed : s.log.committing ≡ true → Step s (record { log = end_commit s.log; calls = s.calls })

abbrev pub init : System
init = record { log = record { outstanding = 0; committing = false; lh = [] }; calls = [] }

pub data Reach : System → Type 0 where
  booted : Reach init
  later : {s t : System} → Reach s → Step s t → Reach t

unfoldable pub total : List ℕ → ℕ
total [] = 0
total (a ∷ as') = a + total as'

total-append : (xs ys : List ℕ) → total (xs ++ ys) ≡ total xs + total ys
unfolding total
total-append [] ys = omega arith
total-append (x ∷ xs) ys = omega (arith, total-append xs ys)

total-middle : (xs ys : List ℕ) (a : ℕ) → total (xs ++ (a ∷ ys)) ≡ total xs + a + total ys
unfolding total
total-middle xs ys a = omega (arith, total-append xs (a ∷ ys))

length-middle : (xs ys : List ℕ) (a : ℕ) → length (xs ++ (a ∷ ys)) ≡ length xs + 1 + length ys
length-middle xs ys a = omega (arith, length-append xs (a ∷ ys))

absorb-new : (b : ℕ) (xs : List ℕ) → is_in b xs ≡ false → length (absorb b xs) ≡ length xs + 1
unfolding absorb is_in
absorb-new b [] h = omega arith
absorb-new b (x ∷ xs) h = ground (arith, absorb-new b xs)

absorb-old : (b : ℕ) (xs : List ℕ) → is_in b xs ≡ true → length (absorb b xs) ≡ length xs
unfolding absorb is_in
absorb-old b [] h = absurd (false≢true h)
absorb-old b (x ∷ xs) h = ground (arith, absorb-old b xs)

record Inv (s : System) : Type 0 where
  counted : s.log.outstanding ≡ length s.calls
  reserved : length s.log.lh + total s.calls ≤ logblocks
  small : All (λ a. a ≤ maxopblocks) s.calls
  quiet : s.log.committing ≡ true → s.log.outstanding ≡ 0

begin-room :
    (l l' : Log)
    → begin_op l ≡ done l'
    → (l'.outstanding ≡ l.outstanding + 1)
      × (l'.lh ≡ l.lh)
      × (l'.committing ≡ false)
      × (length l.lh + (l.outstanding + 1) * maxopblocks ≤ logblocks)
unfolding begin_op
begin-room l l' h = ground arith

write-parts :
    (b : ℕ) (l l' : Log)
    → log_write b l ≡ done l'
    → (l'.outstanding ≡ l.outstanding) × (l'.lh ≡ absorb b l.lh) × (l'.committing ≡ l.committing)
unfolding log_write
write-parts b l l' h = ground arith

end-parts :
    (l l' : Log)
    → end_op l ≡ done l'
    → (l'.outstanding ≡ l.outstanding - 1)
      × (l'.lh ≡ l.lh)
      × (l'.committing ≡ true → l'.outstanding ≡ 0)
unfolding end_op
end-parts l l' h = ground arith

total-le : (as' : List ℕ) → All (λ a. a ≤ maxopblocks) as' → total as' ≤ length as' * maxopblocks
unfolding total
total-le [] h = omega arith
total-le (a ∷ as') h = omega (arith, total-le as' h.1, h.0)

-- Taking blocks from one call's share.
shrunk :
    (calls xs ys : List ℕ) (a c : ℕ)
    → calls ≡ xs ++ (c ∷ ys)
    → a ≤ c
    → All (λ n. n ≤ maxopblocks) calls
    → All (λ n. n ≤ maxopblocks) (xs ++ (a ∷ ys))
shrunk calls xs ys a c e le h =
    let (l, r) =
      All-split (λ n. n ≤ maxopblocks) xs (c ∷ ys) (subst (All (λ n. n ≤ maxopblocks)) e h) in
    All-append (λ n. n ≤ maxopblocks) xs (a ∷ ys) l (omega (arith, r.0), r.1)

removed :
    (calls xs ys : List ℕ) (c : ℕ)
    → calls ≡ xs ++ (c ∷ ys)
    → All (λ n. n ≤ maxopblocks) calls
    → All (λ n. n ≤ maxopblocks) (xs ++ ys)
removed calls xs ys c e h =
    let (l, r) =
      All-split (λ n. n ≤ maxopblocks) xs (c ∷ ys) (subst (All (λ n. n ≤ maxopblocks)) e h) in
    All-append (λ n. n ≤ maxopblocks) xs ys l r.1

-- Every step keeps the reservation.
Step-Inv : {s t : System} → Step s t → Inv s → Inv t
unfolding total end_commit
Step-Inv {s} (begin {l} h) v =
    let (a, b, c, d) = begin-room s.log l h in
    record {
      counted = omega (arith, a, v.counted);
      reserved = omega (arith, ap length b, d, v.counted, total-le s.calls v.small);
      small = (omega arith, v.small);
      quiet = λ e. absurd (false≢true (sym c ∙ e));
    }
Step-Inv {s} (write_new b a xs ys {l} e new h) v =
    let (o, lh', c) = write-parts b s.log l h in
    record {
      counted =
          omega
            (arith, o, v.counted, ap length e, length-middle xs ys a, length-middle xs ys (suc a));
      reserved = omega (
        arith,
        ap length lh',
        absorb-new b s.log.lh new,
        v.reserved,
        ap total e,
        total-middle xs ys a,
        total-middle xs ys (suc a),
      );
      small = shrunk s.calls xs ys a (suc a) e (omega arith) v.small;
      quiet = λ q. o ∙ v.quiet (sym c ∙ q);
    }
Step-Inv {s} (write_again b {l} old h) v =
    let (o, lh', c) = write-parts b s.log l h in
    record {
      counted = o ∙ v.counted;
      reserved = omega (arith, ap length lh', absorb-old b s.log.lh old, v.reserved);
      small = v.small;
      quiet = λ q. o ∙ v.quiet (sym c ∙ q);
    }
Step-Inv {s} (end a xs ys {l} e h) v =
    let (o, lh', q) = end-parts s.log l h in
    record {
      counted =
          omega (arith, o, v.counted, ap length e, length-middle xs ys a, length-append xs ys);
      reserved =
          omega (
            arith,
            ap length lh',
            v.reserved,
            ap total e,
            total-middle xs ys a,
            total-append xs ys,
          );
      small = removed s.calls xs ys a e v.small;
      quiet = q;
    }
Step-Inv {s} (committed h) v = record {
  counted = v.counted;
  reserved = omega (arith, v.reserved);
  small = v.small;
  quiet = λ e. absurd (false≢true e);
}

Reach-Inv : {s : System} → Reach s → Inv s
unfolding total
Reach-Inv booted = record { counted = refl; reserved = omega arith; small = tt; quiet = λ e. refl }
Reach-Inv (later r st) = Step-Inv st (Reach-Inv r)

calls-pos : (calls xs ys : List ℕ) (a : ℕ) → calls ≡ xs ++ (a ∷ ys) → 0 < length calls
calls-pos calls xs ys a e = omega (arith, ap length e, length-middle xs ys a)

write-done :
    (b : ℕ) (l : Log)
    → length l.lh < logblocks
    → 0 < l.outstanding
    → log_write b l ≡ done (record l { lh = absorb b l.lh })
unfolding log_write
write-done b l room some' = ground arith

end-done :
    (l : Log)
    → l.committing ≡ false
    → end_op l
      ≡ done (record l { outstanding = l.outstanding - 1; committing = l.outstanding - 1 == 0 })
unfolding end_op
end-done l h = ground arith

-- A call that has a share left may write any block, and one without is promised nothing.
abbrev pub MayWrite : Log → ℕ → Type 0
MayWrite log share = (share ≡ 0) ⊎ ((b : ℕ) → (l : Log) × (log_write b log ≡ done l))

shares-MayWrite :
    (log : Log) (shares : List ℕ)
    → 0 < log.outstanding
    → length log.lh + total shares ≤ logblocks
    → All (MayWrite log) shares
unfolding total
shares-MayWrite log [] some_call room = tt
shares-MayWrite log (zero ∷ shares) some_call room =
    (inl refl, shares-MayWrite log shares some_call (omega (arith, room)))
shares-MayWrite log (suc c ∷ shares) some_call room = (
  inr (λ b. (_, write-done b log (omega (arith, room)) some_call)),
  shares-MayWrite log shares some_call (omega (arith, room)),
)

-- In every reachable state the log holds at most `LOGBLOCKS` blocks. No panic stops a call in progress
-- when it writes a block with a share left, whether the log has the block already or not, and none
-- stops a call in progress when it ends.
pub log_never_overflows :
    {s : System}
    → Reach s
    → (length s.log.lh ≤ logblocks)
      × All (MayWrite s.log) s.calls
      × ((s.calls ≡ []) ⊎ ((l : Log) × (end_op s.log ≡ done l)))
log_never_overflows {s} r =
    let v = Reach-Inv r in
    (
      omega (arith, v.reserved),
      writes s.calls v.counted v.reserved,
      ends s.calls refl (ap length) v,
    )
  where
    writes :
        (calls : List ℕ)
        → s.log.outstanding ≡ length calls
        → length s.log.lh + total calls ≤ logblocks
        → All (MayWrite s.log) calls
    writes [] counted room = tt
    writes (c ∷ calls) counted room =
        shares-MayWrite s.log (c ∷ calls) (omega (arith, counted)) room

    ends :
        (calls : List ℕ)
        → s.calls ≡ calls
        → (s.calls ≡ calls → length s.calls ≡ length calls)
        → Inv s
        → (s.calls ≡ []) ⊎ ((l : Log) × (end_op s.log ≡ done l))
    ends [] e long v = inl e
    ends (c ∷ calls) e long v = inr (
      _,
      end-done s.log (elim (Bool-cases s.log.committing) [
        | inl busy ↦ absurd (omega (arith, v.quiet busy, v.counted, long e))
        | inr quiet ↦ quiet
      ]),
    )
