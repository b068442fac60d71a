-- ===== src/Console/Keys.antt =====
-- kernel/console.c, `consoleintr`: its keys and those of a line editor.
use kus_operating_system_pro.Console.{
  Cons, before, consoleintr, erase_char, held_chars, input_buf_size, kill_line, newline_of,
  store_char,
}
use kus_operating_system_pro.Shared.{
  ==_iff, Bool-cases, List, [], ap, arith, false, inl, inr, length, length-append, ltb, not, refl,
  suc, sym, true, update, update_self, zero, ℕ, ◌%◌, ◌&&◌, ◌++◌, ◌+◌, ◌-◌, ◌<◌, ◌==◌, ◌^◌, ◌||◌,
  ◌↔◌, ◌∙◌, ◌∷◌, ◌≡◌, ◌≢◌, ◌≤◌,
}
use kus_operating_system_pro.Console.Editing.{
  IsConsole, Line, Line-Text, Line-update, Text, Text-append, Text-update, erase_newest,
  length-oldest_first, oldest_first, press, type_char,
}
use mathlib.Core.Path.{subst}

module _ (ready line : List ℕ) (s : Cons) (k : IsConsole ready line s) where
  edit_index : s.e % input_buf_size ≡ (k.start + length ready + length line) % input_buf_size
  edit_index = ap (λ j. j % input_buf_size) k.e_at ∙ omega arith

  held_chars-length : held_chars s ≡ length ready + length line
  held_chars-length = omega (arith, k.e_at, k.r_at, k.room)

  -- Nothing is being edited just when the indices agree.
  at_start_iff : (s.e ≡ s.w) ↔ (length line ≡ 0)
  at_start_iff =
      (λ e. omega (arith, k.e_at, k.w_at, k.room), λ z. omega (arith, k.e_at, k.w_at, k.room))

-- One character less.
IsConsole-erase :
    (ready line : List ℕ) (x : ℕ) (s : Cons)
    → IsConsole ready (x ∷ line) s
    → IsConsole ready line (record s { e = before s.e })
IsConsole-erase ready line x s k = record {
  start = k.start;
  r_at = k.r_at;
  w_at = k.w_at;
  e_at = omega (arith, k.e_at);
  room = omega (arith, k.room);
  text = k.text;
  edited = k.edited.1;
  one_line = k.one_line.1;
}

newest-at :
    (ready line : List ℕ) (x : ℕ) (s : Cons)
    → IsConsole ready (x ∷ line) s
    → s.buf (before s.e % input_buf_size) ≡ x
newest-at ready line x s k = ap s.buf (omega (arith, k.e_at)) ∙ k.edited.0

erase_char-IsConsole :
    (ready line : List ℕ) (s : Cons)
    → IsConsole ready line s
    → IsConsole ready (erase_newest line) ((erase_char s).1)
unfolding erase_char
erase_char-IsConsole ready [] s k =
    let t : (s.e == s.w) ≡ true = (==_iff s.e s.w).1 ((at_start_iff ready [] s k).1 refl) in rw t k
erase_char-IsConsole ready (x ∷ line) s k =
    let t : (s.e == s.w) ≡ false = ground (arith, (at_start_iff ready (x ∷ line) s k).0) in
    rw t (IsConsole-erase ready line x s k)

kill_line-IsConsole :
    (n : ℕ) (ready line : List ℕ) (s : Cons)
    → length line ≤ n
    → IsConsole ready line s
    → IsConsole ready [] ((kill_line n s).1)
unfolding kill_line
kill_line-IsConsole zero ready [] s le k = k
kill_line-IsConsole zero ready (x ∷ line) s le k = absurd (omega arith)
kill_line-IsConsole (suc n) ready [] s le k =
    let t : (s.e == s.w) ≡ true = (==_iff s.e s.w).1 ((at_start_iff ready [] s k).1 refl) in rw t k
kill_line-IsConsole (suc n) ready (x ∷ line) s le k =
    let t : (s.e == s.w) ≡ false = ground (arith, (at_start_iff ready (x ∷ line) s k).0) in
    let u : (x == 10) ≡ false = ground (arith, k.one_line.0) in
    rw (t, newest-at ready line x s k, u)
      (kill_line-IsConsole n ready line (record s { e = before s.e }) (omega arith)
        (IsConsole-erase ready line x s k))

-- The ring with one more character, before the line is committed.
module _ (ready line : List ℕ) (s : Cons) (k : IsConsole ready line s)
    (room : length ready + length line < input_buf_size) (c : ℕ) where
  abbrev stored : Cons
  stored = record s { buf = update s.buf (s.e % input_buf_size) c; e = (s.e + 1) % 2 ^ 32 }

  stored-held : held_chars stored ≡ length ready + length line + 1
  stored-held = omega (arith, k.e_at, k.r_at)

  stored-Text : Text stored.buf k.start ready
  stored-Text =
      subst (λ p. Text (update s.buf p c) k.start ready) (sym (edit_index ready line s k))
        (Text-update s.buf k.start (k.start + length ready + length line) c ready (omega arith)
          (omega arith) k.text)

  stored-Line : Line stored.buf (k.start + length ready) (c ∷ line)
  stored-Line =
      subst (λ p. Line (update s.buf p c) (k.start + length ready) (c ∷ line))
        (sym (edit_index ready line s k))
        (
          update_self s.buf ((k.start + length ready + length line) % input_buf_size) c,
          Line-update s.buf (k.start + length ready) (k.start + length ready + length line) c line
              (omega arith) (omega arith) k.edited,
        )

  open_line : c ≢ 10 → IsConsole ready (c ∷ line) stored
  open_line ne = record {
    start = k.start;
    r_at = k.r_at;
    w_at = k.w_at;
    e_at = omega (arith, k.e_at);
    room = omega arith;
    text = stored-Text;
    edited = stored-Line;
    one_line = (ne, k.one_line);
  }

  whole_line : IsConsole (ready ++ oldest_first (c ∷ line)) [] (record stored { w = stored.e })
  whole_line =
      let n = length-append ready (oldest_first (c ∷ line)) in
      let m = length-oldest_first (c ∷ line) in
      record {
        start = k.start;
        r_at = k.r_at;
        w_at = omega (arith, k.e_at, n, m);
        e_at = omega (arith, k.e_at, n, m);
        room = omega (arith, n, m);
        text =
            Text-append stored.buf k.start ready (oldest_first (c ∷ line)) stored-Text
              (Line-Text stored.buf (k.start + length ready) (c ∷ line) stored-Line);
        edited = tt;
        one_line = tt;
      }

  store_char-IsConsole :
      IsConsole ((type_char c (ready, line)).0) ((type_char c (ready, line)).1) ((store_char c s).1)
  unfolding store_char type_char
  store_char-IsConsole =
      rw stored-held
        (elim (Bool-cases
          ((c == 10) || (c == 4) || (length ready + length line + 1 == input_buf_size))) [
            | inl t ↦ rw t whole_line
            | inr t ↦ rw t (open_line (λ e. ground (arith, e, t)))
          ])

-- Every key does to the ring what `press` does to the text that is ready and to the line: it edits
-- the line, which a newline, control-d or a full ring hands over to the readers; the ring never holds
-- more than 128 characters.
pub consoleintr-IsConsole :
    (c : ℕ) (ready line : List ℕ) (s : Cons)
    → IsConsole ready line s
    → IsConsole ((press c (ready, line)).0) ((press c (ready, line)).1) ((consoleintr c s).1)
unfolding consoleintr press
consoleintr-IsConsole c ready line s k =
    let held = held_chars-length ready line s k in
    elim (Bool-cases (c == 16)) [
      | inl t ↦ rw t k
      | inr t ↦ elim (Bool-cases (c == 21)) [
        | inl u ↦
            rw (t, u)
              (kill_line-IsConsole ((s.e + (2 ^ 32 - s.w)) % 2 ^ 32) ready line s
                (omega (arith, k.e_at, k.w_at, k.room)) k)
        | inr u ↦ elim (Bool-cases ((c == 8) || (c == 127))) [
          | inl v ↦ rw (t, u, v) (erase_char-IsConsole ready line s k)
          | inr v ↦
              elim (Bool-cases (not (c == 0) && ltb (length ready + length line) input_buf_size)) [
                | inl w ↦
                    rw (t, u, v, held, w)
                      (store_char-IsConsole ready line s k (ground (arith, w)) (newline_of c))
                | inr w ↦ rw (t, u, v, held, w) k
              ]
        ]
      ]
    ]
