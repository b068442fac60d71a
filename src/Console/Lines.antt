-- ===== src/Console/Lines.antt =====
-- kernel/console.c: lines, as they are typed and read.
use kus_operating_system_pro.Console.{consoleread, newline_of}
use kus_operating_system_pro.Console.{
  Cons, consoleintr, consoleread_from, ctrl, deliver, input_buf_size, returned,
}
use kus_operating_system_pro.Shared.{
  All, Bool, List, [], ap, arith, false, length, ltb, not, refl, suc, sym, true, zero, ℕ, ◌%◌, ◌&&◌,
  ◌++◌, ◌+◌, ◌<◌, ◌==◌, ◌^◌, ◌||◌, ◌∙◌, ◌∷◌, ◌≡◌, ◌≢◌,
}
use kus_operating_system_pro.Console.Editing.{Line, IsConsole, oldest_first, press, type_char}
use kus_operating_system_pro.Console.Keys.{consoleintr-IsConsole}
use mathlib.Core.Path.{subst}
use mathlib.Core.List.{append-nil, append_assoc}

-- A character that does not edit the line or end it.
pub record IsPlain (c : ℕ) : Type 0 where
  pub not_null : c ≢ 0
  pub not_end : c ≢ 4
  pub not_back : c ≢ 8
  pub not_newline : c ≢ 10
  pub not_return : c ≢ 13
  pub not_list : c ≢ 16
  pub not_kill : c ≢ 21
  pub not_delete : c ≢ 127

-- The keys of a list, pressed in order.
unfoldable pub press_keys : List ℕ → Cons → Cons
press_keys [] s = s
press_keys (c ∷ cs) s = press_keys cs ((consoleintr c s).1)

newest_first : List ℕ → List ℕ → List ℕ
newest_first [] line = line
newest_first (c ∷ cs) line = newest_first cs (c ∷ line)

oldest_first-newest_first :
    (cs line : List ℕ) → oldest_first (newest_first cs line) ≡ oldest_first line ++ cs
unfolding newest_first
oldest_first-newest_first [] line = sym (append-nil (oldest_first line))
oldest_first-newest_first (c ∷ cs) line =
    oldest_first-newest_first cs (c ∷ line)
    ∙ unfold oldest_first in append_assoc (oldest_first line) (c ∷ []) cs

length-newest_first : (cs line : List ℕ) → length (newest_first cs line) ≡ length cs + length line
unfolding newest_first
length-newest_first [] line = omega arith
length-newest_first (c ∷ cs) line = omega (arith, length-newest_first cs (c ∷ line))

press-plain :
    (c : ℕ) (ready line : List ℕ)
    → IsPlain c
    → length ready + length line + 1 < input_buf_size
    → press c (ready, line) ≡ (ready, c ∷ line)
unfolding press type_char
press-plain c ready line p room =
    let a : (c == 16) ≡ false = ground (arith, p.not_list) in
    let b : (c == 21) ≡ false = ground (arith, p.not_kill) in
    let d : ((c == 8) || (c == 127)) ≡ false = ground (arith, p.not_back, p.not_delete) in
    let e : (not (c == 0) && ltb (length ready + length line) input_buf_size) ≡ true =
      ground (arith, p.not_null) in
    let f : newline_of c ≡ c = ground (arith, p.not_return) in
    let g : ((c == 10) || (c == 4) || (length ready + length line + 1 == input_buf_size)) ≡ false =
      ground (arith, p.not_newline, p.not_end) in
    rw (a, b, d, e, f, g) refl

press-newline :
    (ready line : List ℕ)
    → length ready + length line < input_buf_size
    → press 10 (ready, line) ≡ (ready ++ oldest_first (10 ∷ line), [])
unfolding press type_char
press-newline ready line room =
    let e : ltb (length ready + length line) input_buf_size ≡ true = ground arith in rw e refl

press_keys-IsConsole :
    (cs ready line : List ℕ) (s : Cons)
    → All IsPlain cs
    → length ready + length line + length cs < input_buf_size
    → IsConsole ready line s
    → IsConsole ready (newest_first cs line) (press_keys cs s)
unfolding press_keys newest_first
press_keys-IsConsole [] ready line s plain room k = k
press_keys-IsConsole (c ∷ cs) ready line s plain room k =
    press_keys-IsConsole cs ready (c ∷ line) _ plain.1 (omega arith) (
      subst (λ (t : List ℕ × List ℕ). IsConsole (t.0) (t.1) ((consoleintr c s).1))
        (press-plain c ready line plain.0 (omega arith)) (consoleintr-IsConsole c ready line s k))

typed-line :
    (cs ready : List ℕ) (s : Cons)
    → All IsPlain cs
    → length ready + length cs < input_buf_size
    → IsConsole ready [] s
    → IsConsole (ready ++ (cs ++ (10 ∷ []))) [] ((consoleintr 10 (press_keys cs s)).1)
unfolding oldest_first
typed-line cs ready s plain room k =
    let n = length-newest_first cs [] in
    let k' = press_keys-IsConsole cs ready [] s plain (omega arith) k in
    subst (λ (t : List ℕ × List ℕ). IsConsole (t.0) (t.1) ((consoleintr 10 (press_keys cs s)).1))
      (press-newline ready (newest_first cs []) (omega arith)
        ∙ ap (λ l. (ready ++ (l ++ (10 ∷ [])), [])) (oldest_first-newest_first cs []))
      (consoleintr-IsConsole 10 ready (newest_first cs []) (press_keys cs s) k')

-- One character taken from the text that is ready.
IsConsole-take :
    (x : ℕ) (ready line : List ℕ) (s : Cons)
    → IsConsole (x ∷ ready) line s
    → (s.buf (s.r % input_buf_size) ≡ x)
      × ((s.r == s.w) ≡ false)
      × IsConsole ready line (record s { r = (s.r + 1) % 2 ^ 32 })
IsConsole-take x ready line s k = (
  ap s.buf (omega (arith, k.r_at)) ∙ k.text.0,
  ground (arith, k.r_at, k.w_at, k.room),
  record {
    start = k.start + 1;
    r_at = omega (arith, k.r_at);
    w_at = omega (arith, k.w_at);
    e_at = omega (arith, k.e_at);
    room = omega (arith, k.room);
    text = k.text.1;
    edited = subst (λ j. Line s.buf j line) (omega arith) k.edited;
    one_line = k.one_line;
  },
)

consoleread_from-line :
    (dead : Bool) (copies : ℕ → Bool) (cs more line : List ℕ) (n i : ℕ) (s : Cons)
    → ((j : ℕ) → copies j ≡ true)
    → All IsPlain cs
    → length cs < n
    → IsConsole (cs ++ (10 ∷ more)) line s
    → (s' : Cons) × (consoleread_from dead copies n i s
        ≡ (returned (i + length cs + 1), cs ++ (10 ∷ []), s'))
      × IsConsole more line s'
unfolding consoleread_from deliver
consoleread_from-line dead copies cs more line zero i s all plain lt k = absurd (omega arith)
consoleread_from-line dead copies [] more line (suc n) i s all plain lt k =
    let (c, t, k') = IsConsole-take 10 more line s k in
    (
      _,
      rw (c, t, all i)
          (ap (λ j. (returned j, 10 ∷ [], record s { r = (s.r + 1) % 2 ^ 32 })) (omega arith)),
      k',
    )
consoleread_from-line dead copies (x ∷ cs) more line (suc n) i s all plain lt k =
    let (c, t, k') = IsConsole-take x (cs ++ (10 ∷ more)) line s k in
    let p = plain.0 in
    let (s', e, k'') =
      consoleread_from-line dead copies cs more line n (i + 1) _ all plain.1 (omega arith) k' in
    let u : (x == ctrl 68) ≡ false = ground (arith, p.not_end) in
    let v : (x == 10) ≡ false = ground (arith, p.not_newline) in
    (
      s',
      rw (c, t, all i, u, v, e) (ap (λ j. (returned j, x ∷ (cs ++ (10 ∷ [])), s')) (omega arith)),
      k'',
    )

-- A line of plain characters that is typed into an empty console, with its newline, is what a
-- `consoleread` of at least its length hands over, if the copies succeed, and the console is empty
-- again after it.
pub consoleread-typed :
    (dead : Bool) (copies : ℕ → Bool) (cs : List ℕ) (n : ℕ) (s : Cons)
    → ((j : ℕ) → copies j ≡ true)
    → All IsPlain cs
    → length cs < input_buf_size
    → length cs < n
    → IsConsole [] [] s
    → (s' : Cons) × (consoleread dead copies n ((consoleintr 10 (press_keys cs s)).1)
        ≡ (returned (length cs + 1), cs ++ (10 ∷ []), s'))
      × IsConsole [] [] s'
unfolding consoleread
consoleread-typed dead copies cs n s all plain room lt k =
    let (s', e, k') =
      consoleread_from-line dead copies cs [] [] n 0 ((consoleintr 10 (press_keys cs s)).1) all
        plain lt (typed-line cs [] s plain (omega arith) k) in
    (s', e ∙ ap (λ j. (returned j, cs ++ (10 ∷ []), s')) (omega arith), k')
