-- ===== src/Pipe/Contents.antt =====
-- kernel/pipe.c: the bytes that a pipe holds, oldest first, and what one `put` and one read of the
-- ring do to them.
use kus_operating_system_pro.Pipe.{Pipe, is_empty, is_full, pipesize, put}
use kus_operating_system_pro.Shared.{
  ◌∙◌, List, [], ap, arith, false, length, refl, suc, true, update, update_ne, zero, ℕ, ◌%◌, ◌++◌,
  ◌+◌, ◌-◌, ◌<◌, ◌^◌, ◌↔◌, ◌∷◌, ◌≡◌, ◌≤◌,
}
use mathlib.Core.Path.{ap₂}

-- `n` bytes of the ring from position `h` on.
unfoldable pub window : (ℕ → ℕ) → ℕ → ℕ → List ℕ
window f h zero = []
window f h (suc n) = f (h % pipesize) ∷ window f (h + 1) n

-- How many bytes the pipe holds: the difference of the two `uint`s.
abbrev pub held_bytes : Pipe → ℕ
held_bytes p = (p.nwrite + 2 ^ 32 - p.nread) % 2 ^ 32

abbrev pub contents : Pipe → List ℕ
contents p = window p.data' p.nread (held_bytes p)

pub record IsPipe (p : Pipe) : Type 0 where
  pub read_word : p.nread < 2 ^ 32
  pub write_word : p.nwrite < 2 ^ 32
  pub bounded : held_bytes p ≤ pipesize

pub length-window : (f : ℕ → ℕ) (h n : ℕ) → length (window f h n) ≡ n
unfolding window
length-window f h zero = refl
length-window f h (suc n) = ap suc (length-window f (h + 1) n)

-- Positions count modulo 512 only.
window-shift : (f : ℕ → ℕ) (h g n : ℕ) → h % pipesize ≡ g % pipesize → window f h n ≡ window f g n
unfolding window
window-shift f h g zero e = refl
window-shift f h g (suc n) e = ap₂ ◌∷◌ (ap f e) (window-shift f (h + 1) (g + 1) n (omega arith))

-- A byte written just past a window extends it.
window-put :
    (f : ℕ → ℕ) (h n i ch : ℕ)
    → n < pipesize
    → i ≡ (h + n) % pipesize
    → window (update f i ch) h (suc n) ≡ window f h n ++ (ch ∷ [])
unfolding window
window-put f h zero i ch lt e = ap (λ x. x ∷ []) (ground arith)
window-put f h (suc n) i ch lt e =
    ap₂ ◌∷◌ (update_ne f ch (omega arith)) (window-put f (h + 1) n i ch (omega arith) (omega arith))

window-take :
    (f : ℕ → ℕ) (h n : ℕ) → 0 < n → window f h n ≡ f (h % pipesize) ∷ window f (h + 1) (n - 1)
unfolding window
window-take f h zero lt = absurd (omega arith)
window-take f h (suc n) lt = ap (λ m. f (h % pipesize) ∷ window f (h + 1) m) (omega arith)

pub is_full_iff : (p : Pipe) → IsPipe p → (is_full p ≡ true) ↔ (held_bytes p ≡ pipesize)
unfolding is_full
is_full_iff p v = (λ h. ground arith, λ h. ground arith)

pub is_empty_iff : (p : Pipe) → IsPipe p → (is_empty p ≡ true) ↔ (held_bytes p ≡ 0)
unfolding is_empty
is_empty_iff p v = (λ h. ground arith, λ h. ground arith)

pub put-IsPipe : (ch : ℕ) (p : Pipe) → IsPipe p → is_full p ≡ false → IsPipe (put ch p)
unfolding put is_full
put-IsPipe ch p v h = ground arith

pub held_bytes-put :
    (ch : ℕ) (p : Pipe) → IsPipe p → is_full p ≡ false → held_bytes (put ch p) ≡ held_bytes p + 1
unfolding put is_full
held_bytes-put ch p v h = ground arith

pub room-lt : (p : Pipe) → IsPipe p → is_full p ≡ false → held_bytes p < pipesize
unfolding is_full
room-lt p v h = ground arith

-- `put` on a pipe that is not full appends its byte.
pub contents-put :
    (ch : ℕ) (p : Pipe)
    → IsPipe p
    → is_full p ≡ false
    → contents (put ch p) ≡ contents p ++ (ch ∷ [])
unfolding put
contents-put ch p v room =
    ap (window (update p.data' (p.nwrite % pipesize) ch) p.nread)
      (held_bytes-put ch p v room ∙ plus_one)
    ∙ window-put p.data' p.nread (held_bytes p) (p.nwrite % pipesize) ch (room-lt p v room) place
  where
    plus_one : held_bytes p + 1 ≡ suc (held_bytes p)
    plus_one = omega arith

    place : p.nwrite % pipesize ≡ (p.nread + held_bytes p) % pipesize
    place =
        let w : p.nwrite < 2 ^ 32 = v.write_word in
        let r : p.nread < 2 ^ 32 = v.read_word in omega arith

-- The pipe after `pi->nread++`.
abbrev pub advanced : Pipe → Pipe
advanced p = record p { nread = (p.nread + 1) % 2 ^ 32 }

pub advanced-IsPipe : (p : Pipe) → IsPipe p → is_empty p ≡ false → IsPipe (advanced p)
unfolding is_empty
advanced-IsPipe p v h = ground arith

pub held_bytes-advanced :
    (p : Pipe) → IsPipe p → is_empty p ≡ false → held_bytes p ≡ suc (held_bytes (advanced p))
unfolding is_empty
held_bytes-advanced p v h = ground arith

-- The oldest byte, and what is left when it has been read.
pub contents-advanced :
    (p : Pipe)
    → IsPipe p
    → is_empty p ≡ false
    → contents p ≡ p.data' (p.nread % pipesize) ∷ contents (advanced p)
unfolding window
contents-advanced p v h =
    ap (window p.data' p.nread) (held_bytes-advanced p v h)
    ∙ ap (λ l. p.data' (p.nread % pipesize) ∷ l)
        (window-shift p.data' (p.nread + 1) ((p.nread + 1) % 2 ^ 32) (held_bytes (advanced p))
          (omega arith))
