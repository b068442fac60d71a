-- ===== src/Log/Crash.antt =====
-- kernel/log.c: a crash at any point of a commit, and the recovery after it.
use kus_operating_system_pro.Log.Recover.{
  Slots-agree, install_from-dead, merged, not_listed, read_head-head_block, recover-installs,
  recover_clean,
}
use native.Mathlib.Decide.{dec_lt}
use kus_operating_system_pro.Shared.{
  is_in, leb→le, leb→lt, leb, ◌-◌, ◌≢◌, All, Bool-cases, List, [], ap, arith, if◌then◌else◌, inl,
  inr, length, refl, suc, ℕ, ◌+◌, ◌<◌, ◌∙◌, ◌∷◌, ◌≡◌, ◌≤◌,
}
use kus_operating_system_pro.Log.Write.{
  write_log_from-Slots, write_log_from-left, write_log_from-other, bwrite-dead, IsHome, Slots,
  bwrite-other, bwrite_self, install_from-full, install_from-left, install_from-other,
}
use kus_operating_system_pro.Log.{
  commit, write_log_from, Block, Dev, first_word, head_block, install_from, logblocks,
  recover_from_log, write_head,
}

-- The state in which `commit` may run: at most `LOGBLOCKS` blocks are listed, none of the log's own,
-- and the header on disk is empty.
pub record CanCommit (start : ℕ) (lh : List ℕ) (d : Dev) : Type 0 where
  pub fits : length lh ≤ logblocks
  pub homes : All (IsHome start) lh
  pub clean : first_word (d.disk start) ≡ 0

-- The machine comes up again with the disk as it is.
abbrev pub rebooted : ℕ → Dev → Dev
rebooted n d = record d { left = n }

module _ (start : ℕ) (cache : ℕ → Block) (b : ℕ) (bs : List ℕ) (d : Dev)
    (can : CanCommit start (b ∷ bs) d) (n : ℕ) (enough : logblocks < n) where
  abbrev logged : Dev
  logged = write_log_from start cache 0 (b ∷ bs) d

  abbrev committed : Dev
  committed = write_head start (b ∷ bs) logged

  abbrev installed : Dev
  installed = install_from start 0 (b ∷ bs) committed

  outside_slots : (x : ℕ) → IsHome start x → logged.disk x ≡ d.disk x
  outside_slots x home =
      let fits : suc (length bs) ≤ logblocks = can.fits in
      write_log_from-other start cache 0 (b ∷ bs) d x (omega arith)

  head_kept : logged.disk start ≡ d.disk start
  head_kept = write_log_from-other start cache 0 (b ∷ bs) d start (inl (omega arith))

  logged_left : logged.left ≡ d.left - length (b ∷ bs)
  logged_left = write_log_from-left start cache 0 (b ∷ bs) d

  commit_short : d.left ≤ length (b ∷ bs) → commit start cache (b ∷ bs) d ≡ logged
  unfolding commit write_head
  commit_short short =
      rw (bwrite-dead start (head_block (b ∷ bs) (logged.disk start)) logged dead) (
        rw (install_from-dead start 0 (b ∷ bs) logged dead)
          (bwrite-dead start (head_block [] (logged.disk start)) logged dead))
    where
      dead : logged.left ≡ 0
      dead = omega (arith, logged_left)

  -- The crash came before the header was written: recovery finds an empty log.
  early :
      d.left ≤ length (b ∷ bs)
      → (x : ℕ) → IsHome start x
      → (recover_from_log start (rebooted n (commit start cache (b ∷ bs) d))).disk x ≡ d.disk x
  early short x home = rw (commit_short short) (
      recover_clean start (rebooted n logged) x (ap first_word head_kept ∙ can.clean) enough home
      ∙ outside_slots x home)

  committed_other : (x : ℕ) → x ≢ start → committed.disk x ≡ logged.disk x
  unfolding write_head
  committed_other x h = bwrite-other start (head_block (b ∷ bs) (logged.disk start)) logged x h

  committed_head :
      length (b ∷ bs) < d.left → committed.disk start ≡ head_block (b ∷ bs) (logged.disk start)
  unfolding write_head
  committed_head long =
      bwrite_self start (head_block (b ∷ bs) (logged.disk start)) logged
        (omega (arith, logged_left))

  committed-Slots : length (b ∷ bs) < d.left → Slots start cache 0 (b ∷ bs) committed.disk
  committed-Slots long =
      Slots-agree start cache 0 (b ∷ bs) logged.disk committed.disk
        (λ x lo hi. committed_other x (omega arith)) (omega (arith, can.fits))
        (write_log_from-Slots start cache 0 (b ∷ bs) d (omega arith))

  installed_log : (x : ℕ) → start ≤ x → x ≤ start + logblocks → installed.disk x ≡ committed.disk x
  installed_log x lo hi =
      install_from-other start 0 (b ∷ bs) committed x (not_listed start x (b ∷ bs) lo hi can.homes)

  installed-Slots : length (b ∷ bs) < d.left → Slots start cache 0 (b ∷ bs) installed.disk
  installed-Slots long =
      Slots-agree start cache 0 (b ∷ bs) committed.disk installed.disk
        (λ x lo hi. installed_log x (omega arith) hi) (omega (arith, can.fits))
        (committed-Slots long)

  -- What is not listed is as at the start, so a merge over either disk is the same.
  merged_start :
      (x : ℕ)
      → IsHome start x
      → merged cache (b ∷ bs) installed.disk x ≡ merged cache (b ∷ bs) d.disk x
  merged_start x home = elim (Bool-cases (is_in x (b ∷ bs))) [
    | inl listed ↦ rw listed refl
    | inr other ↦ rw other (
        install_from-other start 0 (b ∷ bs) committed x other
        ∙ committed_other x (omega arith)
        ∙ outside_slots x home)
  ]

  installed_all :
      length (b ∷ bs) < d.left
      → 0 < installed.left
      → (x : ℕ) → IsHome start x
      → installed.disk x ≡ merged cache (b ∷ bs) installed.disk x
  installed_all long alive x home = elim (Bool-cases (is_in x (b ∷ bs))) [
    | inl listed ↦ rw listed (
        install_from-full start cache 0 (b ∷ bs) committed x can.homes (omega (arith, can.fits))
          (committed-Slots long) (omega (arith, install_from-left start 0 (b ∷ bs) committed))
          listed)
    | inr other ↦ rw other refl
  ]

  abbrev final : Dev
  final = write_head start [] installed

  final_other : (y : ℕ) → y ≢ start → final.disk y ≡ installed.disk y
  unfolding write_head
  final_other y h = bwrite-other start (head_block [] (installed.disk start)) installed y h

  final_head : 0 < installed.left → first_word (final.disk start) ≡ 0
  unfolding write_head head_block
  final_head alive =
      ap first_word (bwrite_self start (head_block [] (installed.disk start)) installed alive)

  final_dead : installed.left ≡ 0 → final ≡ installed
  unfolding write_head
  final_dead dead = bwrite-dead start (head_block [] (installed.disk start)) installed dead

  commit_lem : commit start cache (b ∷ bs) d ≡ final
  unfolding commit
  commit_lem = refl

  -- The header was written: recovery or the commit itself installs every listed block.
  late :
      length (b ∷ bs) < d.left
      → (x : ℕ) → IsHome start x
      → (recover_from_log start (rebooted n (commit start cache (b ∷ bs) d))).disk x
        ≡ merged cache (b ∷ bs) d.disk x
  late long x home = rw commit_lem (elim (dec_lt 0 installed.left) [
    | yes alive ↦
        recover_clean start (rebooted n final) x (final_head alive) enough home
        ∙ final_other x (omega arith)
        ∙ installed_all long alive x home
        ∙ merged_start x home
    | no dead ↦ rw (final_dead (omega arith)) (
        recover-installs start cache (b ∷ bs) (rebooted n installed) x
          (read_head-head_block start (b ∷ bs) (logged.disk start) (rebooted n installed)
            (installed_log start (omega arith) (omega arith) ∙ committed_head long))
          can.homes can.fits (installed-Slots long) enough home
        ∙ merged_start x home)
  ])

-- A commit is atomic. Wherever the machine stops while it runs, recovery afterwards leaves every
-- block outside the log either as it was before the commit, if the writes that reached the disk did
-- not include the header, or else with the modified contents of every listed block and all others as
-- before.
pub commit-atomic :
    (start : ℕ) (cache : ℕ → Block) (b : ℕ) (bs : List ℕ) (d : Dev) (n : ℕ)
    → CanCommit start (b ∷ bs) d
    → logblocks < n
    → (x : ℕ) → IsHome start x
    → (recover_from_log start (rebooted n (commit start cache (b ∷ bs) d))).disk x
      ≡ (if leb d.left (length (b ∷ bs)) then d.disk x else merged cache (b ∷ bs) d.disk x)
commit-atomic start cache b bs d n can enough x home =
    elim (Bool-cases (leb d.left (length (b ∷ bs)))) [
      | inl short ↦
          rw short
            (early start cache b bs d can n enough (leb→le d.left (length (b ∷ bs)) short) x home)
      | inr long ↦
          rw long
            (late start cache b bs d can n enough (leb→lt d.left (length (b ∷ bs)) long) x home)
    ]
