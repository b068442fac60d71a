-- ===== src/Dir/Walk.antt =====
-- kernel/fs.c, `namex`: a walk over the elements of the path.
use kus_operating_system_pro.Itable.{iput, go_on, ilock, iunlock, iunlockput, give}
use kus_operating_system_pro.Dir.{dirlookup, name_bytes, t_dir}
use kus_operating_system_pro.Fs.{Superblock}
use kus_operating_system_pro.Dir.{
  dirlookup, name_bytes, namex_next, t_dir, dirsiz, is_absolute, is_nil, nameiparent, namex,
  namex_end, namex_from, namex_round, skipelem,
}
use kus_operating_system_pro.Shared.{
  false, true, ◌&&◌, ◌==◌, ◌∙◌, Bool, Bool-cases, inl, inr, List, Option, [], ap, arith,
  if◌then◌else◌, length, none, refl, some, suc, take, zero, ℕ, ◌∷◌, ◌≡◌, ◌≤◌,
}
use mathlib.Core.Path.{ap₂, fun_ext}
use kus_operating_system_pro.Dir.Paths.{
  Skipped, element, elements, flush, cut_path, skipelem-Skipped,
}
use kus_operating_system_pro.Itable.{idup, iget, ◌>>=◌, ◌>>◌, F}

module _ (sb : Superblock) (nameiparent : Bool) where
  -- A walk over the names of a path, each cut to `DIRSIZ` characters. An inode that is walked
  -- through is a directory; the walk for the parent stops, unlocked, in front of the last name, and
  -- every other inode is unlocked and put before the walk goes on or gives up.
  unfoldable pub walk : ℕ → List (List ℕ) → F (Option (ℕ × List ℕ))
  walk ip [] = if nameiparent then (do iput sb ip; give none) else give (some (ip, []))
  walk ip (w ∷ ws) = do
    ilock sb ip
    λ s.
        (if (s.itable ip).type' == t_dir
            then (if nameiparent && is_nil ws
                then (do iunlock sb ip; give (some (ip, take dirsiz w)))
                else (do
                  found ← dirlookup sb ip (name_bytes (take dirsiz w))
                  iunlockput sb ip
                  elim found [ none ↦ give none | some (next, off) ↦ walk next ws ]))
            else (do iunlockput sb ip; give none))
          s

  namex_end-walk : (ip : ℕ) → namex_end sb nameiparent ip ≡ walk ip []
  unfolding namex_end walk
  namex_end-walk ip =
      elim nameiparent
        as (λ b.
          namex_end sb b ip ≡ (if b then (do iput sb ip; give none) else give (some (ip, [])))) [
            | true ↦ refl
            | false ↦ refl
          ]

  namex_next_lem :
      (ip : ℕ) (found : Option (ℕ × ℕ)) (rest : ℕ → F (Option (ℕ × List ℕ)))
      → namex_next sb ip found rest
        ≡ (do iunlockput sb ip; elim found [ none ↦ give none | some (next, off) ↦ rest next ])
  unfolding namex_next
  namex_next_lem ip none rest = refl
  namex_next_lem ip (some (next, off)) rest = refl

  namex_round-walk :
      (ip : ℕ) (w : List ℕ) (ws : List (List ℕ))
      → namex_round sb nameiparent ip (take dirsiz w) (is_nil ws) (λ next. walk next ws)
        ≡ walk ip (w ∷ ws)
  unfolding namex_round walk
  namex_round-walk ip w ws = fun_ext (λ s.
      ap (λ k. go_on (ilock sb ip s) k)
        (fun_ext (λ _. fun_ext (λ t. elim (Bool-cases ((t.itable ip).type' == t_dir)) [
          | inr other ↦ rw other refl
          | inl dir ↦ elim (Bool-cases (nameiparent && is_nil ws)) [
            | inl final ↦ rw (dir, final) refl
            | inr more ↦
                rw (dir, more)
                  (ap (λ k. go_on (dirlookup sb ip (name_bytes (take dirsiz w)) t) k)
                    (fun_ext (λ found. namex_next_lem ip found (λ next. walk next ws))))
          ]
        ]))))

  namex_from-walk_step :
      (fuel ip : ℕ) (path : List ℕ)
      → ((next : ℕ) (rest : List ℕ)
          → length rest ≤ fuel
          → namex_from sb nameiparent fuel next rest ≡ walk next (elements rest))
      → length path ≤ suc fuel
      → (r : Option (List ℕ × List ℕ)) (ws : List (List ℕ)) → Skipped path r ws
      → elim r [
        | none ↦ namex_end sb nameiparent ip
        | some (name, rest) ↦
            namex_round sb nameiparent ip name
              (is_nil rest)
              (λ next. namex_from sb nameiparent fuel next rest)
      ]
        ≡ walk ip ws
  namex_from-walk_step fuel ip path ih enough none [] Skipped.done = namex_end-walk ip
  namex_from-walk_step fuel ip path ih enough none (w ∷ ws) s = elim s [ ]
  namex_from-walk_step fuel ip path ih enough (some (name, rest)) [] s = elim s [ ]
  namex_from-walk_step fuel ip path ih enough (some (name, rest)) (w ∷ ws) (element shorter same) =
      ap₂ (namex_round sb nameiparent ip name) same (fun_ext (λ next. ih next rest (omega arith)))
      ∙ namex_round-walk ip w ws

  namex_from-walk :
      (fuel ip : ℕ) (path : List ℕ)
      → length path ≤ fuel
      → namex_from sb nameiparent fuel ip path ≡ walk ip (elements path)
  unfolding namex_from cut_path flush
  namex_from-walk zero ip [] enough = namex_end-walk ip
  namex_from-walk zero ip (c ∷ cs) enough = absurd (omega arith)
  namex_from-walk (suc fuel) ip path enough =
      namex_from-walk_step fuel ip path (namex_from-walk fuel) enough (skipelem path)
        (elements path) (skipelem-Skipped path)

-- `namex` walks the elements of the path, from the root for an absolute path and from the current
-- directory for another: `DIRSIZ` characters of each name count, slashes that repeat or end the path
-- do not, and the fuel that its loop is given is enough. Each inode walked through is locked, must be a
-- directory, is searched, unlocked and put; the walk for the parent stops in front of the last name.
pub namex-walk :
    (sb : Superblock) (cwd : ℕ) (path : List ℕ) (nameiparent : Bool)
    → namex sb cwd path nameiparent ≡ (
        (λ s. if is_absolute path then iget 1 1 s else idup cwd s) >>= λ ip.
        walk sb nameiparent ip (elements path))
unfolding namex
namex-walk sb cwd path nameiparent =
    ap (λ k. (λ s. if is_absolute path then iget 1 1 s else idup cwd s) >>= k)
      (fun_ext (λ ip. namex_from-walk sb nameiparent (length path) ip path (omega arith)))
