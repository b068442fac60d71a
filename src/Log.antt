-- ===== src/Log.antt =====
-- kernel/log.c: the redo log. A disk is a function from block numbers to blocks, a block the list of
-- its 32-bit words. A crash is a budget of disk writes: when it is used up, the writes that follow
-- are lost, so the disk at the end is the disk at the crash. Buffers of blocks that were not
-- modified hold what the disk holds, so `bread` of such a block reads the disk; `cache` gives the
-- contents of the modified blocks, which are pinned until they are installed.
mod Tests
pub mod Write
pub mod Recover
pub mod Crash
pub mod Reserve
use kus_operating_system_pro.Shared.{
  Bool, false, leb, ltb, true, List, [], drop, if◌then◌else◌, length, suc, take, update, ℕ, ◌*◌,
  ◌++◌, ◌+◌, ◌-◌, ◌==◌, ◌∷◌,
}

abbrev pub Block : Type 0
Block = List ℕ

abbrev pub maxopblocks : ℕ
maxopblocks = 10

abbrev pub logblocks : ℕ
logblocks = maxopblocks * 3

-- `struct log` without `start` and `dev`: `lh` is `lh.block[0 .. lh.n-1]`.
pub record Log : Type 0 where
  pub outstanding : ℕ
  pub committing : Bool
  pub lh : List ℕ

-- What a call comes to: it goes on, it sleeps on the log, or it panics.
pub data Outcome : Type 0 where
  done : Log → Outcome
  sleeps : Outcome
  too_big outside_of_trans already_committing : Outcome

-- One pass of the loop of `begin_op`.
unfoldable pub begin_op : Log → Outcome
begin_op s =
    if s.committing
    then sleeps
    else if ltb logblocks (length s.lh + (s.outstanding + 1) * maxopblocks)
    then sleeps
    else done (record s { outstanding = s.outstanding + 1 })

-- The loop over the header and the write behind it: a listed block is absorbed, another one added.
unfoldable pub absorb : ℕ → List ℕ → List ℕ
absorb b [] = b ∷ []
absorb b (x ∷ xs) = if x == b then b ∷ xs else x ∷ absorb b xs

unfoldable pub log_write : ℕ → Log → Outcome
log_write b s =
    if leb logblocks (length s.lh)
    then too_big
    else if ltb s.outstanding 1
    then outside_of_trans
    else done (record s { lh = absorb b s.lh })

-- `end_op` up to its commit, which follows if it set `committing`. The count is an `int` that is
-- at least 1 whenever a call is in progress, so the subtraction does not go below 0.
unfoldable pub end_op : Log → Outcome
end_op s =
    if s.committing
    then already_committing
    else if s.outstanding - 1 == 0
    then done (record s { outstanding = s.outstanding - 1; committing = true })
    else done (record s { outstanding = s.outstanding - 1 })

-- The rest of `end_op` behind `commit`, which has emptied the header.
unfoldable pub end_commit : Log → Log
end_commit s = record s { lh = []; committing = false }

-- The disk, with the number of writes that still reach it.
pub record Dev : Type 0 where
  pub disk : ℕ → Block
  pub left : ℕ

-- `bwrite` of a buffer with block number `b` and contents `v`.
unfoldable pub bwrite : ℕ → Block → Dev → Dev
bwrite b v d = if d.left == 0 then d else record { disk = update d.disk b v; left = d.left - 1 }

-- The first word of a block, 0 for an empty one.
abbrev pub first_word : Block → ℕ
first_word [] = 0
first_word (w ∷ ws) = w

abbrev pub rest_words : Block → List ℕ
rest_words [] = []
rest_words (w ∷ ws) = ws

-- `read_head`: the blocks that the header on disk lists.
unfoldable pub read_head : ℕ → Dev → List ℕ
read_head start d = take (first_word (d.disk start)) (rest_words (d.disk start))

-- The header block with `n` and `block[0 .. n-1]` overwritten.
unfoldable pub head_block : List ℕ → Block → Block
head_block lh old = (length lh) ∷ (lh ++ drop (suc (length lh)) old)

unfoldable pub write_head : ℕ → List ℕ → Dev → Dev
write_head start lh d = bwrite start (head_block lh (d.disk start)) d

-- The loop of `write_log` from `tail` on; the list is `log.lh.block[tail ..]`.
unfoldable pub write_log_from : ℕ → (ℕ → Block) → ℕ → List ℕ → Dev → Dev
write_log_from start cache tail [] d = d
write_log_from start cache tail (b ∷ bs) d =
    write_log_from start cache (tail + 1) bs (bwrite (start + tail + 1) (cache b) d)

-- The loop of `install_trans` from `tail` on.
unfoldable pub install_from : ℕ → ℕ → List ℕ → Dev → Dev
install_from start tail [] d = d
install_from start tail (b ∷ bs) d =
    install_from start (tail + 1) bs (bwrite b (d.disk (start + tail + 1)) d)

-- `recover_from_log`.
unfoldable pub recover_from_log : ℕ → Dev → Dev
recover_from_log start d = write_head start [] (install_from start 0 (read_head start d) d)

-- `commit` for the in-memory header `lh`, which it empties.
unfoldable pub commit : ℕ → (ℕ → Block) → List ℕ → Dev → Dev
commit start cache [] d = d
commit start cache (b ∷ bs) d =
    let lh = b ∷ bs in
    let logged = write_log_from start cache 0 lh d in
    let committed = write_head start lh logged in
    let installed = install_from start 0 lh committed in write_head start [] installed
