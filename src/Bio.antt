-- ===== src/Bio.antt =====
-- kernel/bio.c: the buffer cache. A buffer is its index in `bcache.buf`; `order` is the linked list
-- from `head.next`, the most recently used buffer, to `head.prev`. A call runs under `bcache.lock`, and
-- the buffer that it hands back is then locked by `acquiresleep`, which is not part of the model.
mod Tests
pub mod Unique
use kus_operating_system_pro.Shared.{
  Bool, List, Option, [], false, if◌then◌else◌, none, some, update, ℕ, ◌%◌, ◌&&◌, ◌+◌, ◌-◌, ◌==◌,
  ◌^◌, ◌∷◌,
}

-- `struct buf` without its lock, its links and its data.
pub record Buf : Type 0 where
  pub dev : ℕ
  pub blockno : ℕ
  pub valid : Bool
  pub refcnt : ℕ

pub record Bcache : Type 0 where
  pub order : List ℕ
  pub bufs : ℕ → Buf

-- `b->dev == dev && b->blockno == blockno`.
abbrev pub caches : ℕ → ℕ → Buf → Bool
caches dev blockno b = (b.dev == dev) && (b.blockno == blockno)

-- The first loop of `bget`.
unfoldable pub find_cached : ℕ → ℕ → List ℕ → (ℕ → Buf) → Option ℕ
find_cached dev blockno [] bufs = none
find_cached dev blockno (b ∷ bs) bufs =
    let rest = find_cached dev blockno bs bufs in
    if caches dev blockno (bufs b) then some b else rest

-- The second loop of `bget`, which starts from the end of the list: a buffer behind comes first.
unfoldable pub find_free : List ℕ → (ℕ → Buf) → Option ℕ
find_free [] bufs = none
find_free (b ∷ bs) bufs = elim (find_free bs bufs) [
  | some behind ↦ some behind
  | none ↦ if (bufs b).refcnt == 0 then some b else none
]

abbrev pub with_buf : ℕ → Buf → Bcache → Bcache
with_buf b v c = record c { bufs = update c.bufs b v }

-- `bget` behind its first loop, and the whole of it: the buffer and the cache afterwards, `none` for
-- the panic "no buffers". `refcnt` is a `uint`.
unfoldable pub bget_recycle : ℕ → ℕ → Option ℕ → Bcache → Option (ℕ × Bcache)
bget_recycle dev blockno none c = none
bget_recycle dev blockno (some b) c =
    some (b, with_buf b (record { dev = dev; blockno = blockno; valid = false; refcnt = 1 }) c)

unfoldable pub bget_found : ℕ → ℕ → Option ℕ → Bcache → Option (ℕ × Bcache)
bget_found dev blockno (some b) c =
    some (b, with_buf b (record (c.bufs b) { refcnt = ((c.bufs b).refcnt + 1) % 2 ^ 32 }) c)
bget_found dev blockno none c = bget_recycle dev blockno (find_free c.order c.bufs) c

unfoldable pub bget : ℕ → ℕ → Bcache → Option (ℕ × Bcache)
bget dev blockno c = bget_found dev blockno (find_cached dev blockno c.order c.bufs) c

-- The list without one of its buffers.
unfoldable pub unlink : ℕ → List ℕ → List ℕ
unlink b [] = []
unlink b (x ∷ xs) = if x == b then xs else x ∷ unlink b xs

-- `b->refcnt--`.
abbrev pub drop_reference : ℕ → Bcache → Bcache
drop_reference b c =
    with_buf b (record (c.bufs b) { refcnt = ((c.bufs b).refcnt + 2 ^ 32 - 1) % 2 ^ 32 }) c

-- `brelse` behind `releasesleep`.
unfoldable pub brelse : ℕ → Bcache → Bcache
brelse b c =
    let c' = drop_reference b c in
    if (c'.bufs b).refcnt == 0 then record c' { order = b ∷ unlink b c'.order } else c'

unfoldable pub bpin : ℕ → Bcache → Bcache
bpin b c = with_buf b (record (c.bufs b) { refcnt = ((c.bufs b).refcnt + 1) % 2 ^ 32 }) c

unfoldable pub bunpin : ℕ → Bcache → Bcache
bunpin b c = drop_reference b c
