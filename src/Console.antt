-- ===== src/Console.antt =====
-- kernel/console.c: the line discipline of the console. The lock is left out; `procdump` and the
-- wake-up of the readers do not change this state. A call of `consoleread` that sleeps is cut there.
pub mod Editing
pub mod Keys
pub mod Lines
mod Tests
use kus_operating_system_pro.Shared.{
  Bool, List, [], if◌then◌else◌, ltb, not, suc, update, zero, ℕ, ◌%◌, ◌&&◌, ◌++◌, ◌+◌, ◌-◌, ◌==◌,
  ◌^◌, ◌||◌, ◌∷◌,
}

abbrev pub input_buf_size : ℕ
input_buf_size = 128

abbrev pub backspace : ℕ
backspace = 256

-- `C(x)`.
abbrev pub ctrl : ℕ → ℕ
ctrl x = x - 64

-- The indices are `uint`s.
pub record Cons : Type 0 where
  pub buf : ℕ → ℕ
  pub r : ℕ
  pub w : ℕ
  pub e : ℕ

-- What goes to the device for a character.
unfoldable pub consputc : ℕ → List ℕ
consputc c = if c == backspace then 8 ∷ 32 ∷ 8 ∷ [] else c ∷ []

abbrev pub before : ℕ → ℕ
before i = (i + (2 ^ 32 - 1)) % 2 ^ 32

-- `n` rounds of the loop that kills a line, and what it echoes.
unfoldable pub kill_line : ℕ → Cons → List ℕ × Cons
kill_line zero s = ([], s)
kill_line (suc n) s =
    let rest = kill_line n (record s { e = before s.e }) in
    if not (s.e == s.w) && not (s.buf (before s.e % input_buf_size) == 10)
    then (consputc backspace ++ rest.0, rest.1)
    else ([], s)

unfoldable pub erase_char : Cons → List ℕ × Cons
erase_char s = if s.e == s.w then ([], s) else (consputc backspace, record s { e = before s.e })

abbrev pub held_chars : Cons → ℕ
held_chars s = (s.e + (2 ^ 32 - s.r)) % 2 ^ 32

-- `cons.w = cons.e` behind the end of a line, or a full buffer.
abbrev pub commit_line : ℕ → Cons → Cons
commit_line c s =
    if (c == 10) || (c == ctrl 68) || (held_chars s == input_buf_size)
    then record s { w = s.e }
    else s

-- A key is a byte, as `uartgetc` reads it, which the `char` of the ring keeps as it is.
unfoldable pub store_char : ℕ → Cons → List ℕ × Cons
store_char c s = (
  consputc c,
  commit_line c (record s { buf = update s.buf (s.e % input_buf_size) c; e = (s.e + 1) % 2 ^ 32 }),
)

abbrev pub newline_of : ℕ → ℕ
newline_of c = if c == 13 then 10 else c

-- `consoleintr`: what it echoes, and the buffer. Each round of the kill takes a character that is
-- being edited, so that their number is enough.
unfoldable pub consoleintr : ℕ → Cons → List ℕ × Cons
consoleintr c s =
    if c == ctrl 80
    then ([], s)
    else if c == ctrl 85
    then kill_line ((s.e + (2 ^ 32 - s.w)) % 2 ^ 32) s
    else if (c == ctrl 72) || (c == 127)
    then erase_char s
    else if not (c == 0) && ltb (held_chars s) input_buf_size
    then store_char (newline_of c) s
    else ([], s)

-- How a call of `consoleread` ends: with a count, with -1, or asleep after `i` bytes.
pub data Ended : Type 0 where
  returned : ℕ → Ended
  killed_reader : Ended
  sleeping : ℕ → Ended

unfoldable pub deliver : ℕ → Ended × List ℕ × Cons → Ended × List ℕ × Cons
deliver c (end, xs, s) = (end, c ∷ xs, s)

-- The loop of `consoleread` with `n` bytes left after `i`: `dead` is `killed(myproc())`, and `copies`
-- says of each byte whether its copy to the caller succeeds.
unfoldable pub consoleread_from : Bool → (ℕ → Bool) → ℕ → ℕ → Cons → Ended × List ℕ × Cons
consoleread_from dead copies zero i s = (returned i, [], s)
consoleread_from dead copies (suc n) i s =
    let c = s.buf (s.r % input_buf_size) in
    let taken = record s { r = (s.r + 1) % 2 ^ 32 } in
    let rest = consoleread_from dead copies n (i + 1) taken in
    if s.r == s.w
    then (if dead then (killed_reader, [], s) else (sleeping i, [], s))
    else if c == ctrl 68
    then (returned i, [], if ltb 0 i then s else taken)
    else if not (copies i)
    then (returned i, [], taken)
    else if c == 10
    then (returned (i + 1), c ∷ [], taken)
    else deliver c rest

unfoldable pub consoleread : Bool → (ℕ → Bool) → ℕ → Cons → Ended × List ℕ × Cons
consoleread dead copies n s = consoleread_from dead copies n 0 s
