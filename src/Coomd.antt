-- ===== src/Coomd.antt =====
-- coomd/daemon: the choice of the candidates (proc_reader.h) and the veto on victims (validator.c).
-- What the files under /proc hold, and the daemon's own process id, are arguments.
mod Tests
pub mod Select
use kus_operating_system_pro.Shared.{
  Bool, List, Option, [], false, if◌then◌else◌, leb, ltb, none, not, some, suc, swap, true, update,
  zero, ℕ, ◌&&◌, ◌+◌, ◌-◌, ◌==◌, ◌^◌, ◌||◌, ◌∷◌,
}

-- `proc_candidate_t`; a string is the list of its characters.
pub record Candidate : Type 0 where
  pub pid : ℕ
  pub comm : List ℕ
  pub cmdline : List ℕ
  pub rss_kb : ℕ
  pub uid : ℕ
  pub ppid : ℕ

-- `isdigit`, and `r2_is_number` on a string.
abbrev pub is_digit : ℕ → Bool
is_digit c = leb 48 c && leb c 57

unfoldable pub all_digits : List ℕ → Bool
all_digits [] = true
all_digits (c ∷ cs) = is_digit c && all_digits cs

unfoldable pub r2_is_number : List ℕ → Bool
r2_is_number [] = false
r2_is_number (c ∷ cs) = all_digits (c ∷ cs)

abbrev pub tmp_max : ℕ
tmp_max = 1024

-- What the loop over /proc does with the rest of its entries: a name, and what `r2_read_status` and
-- `r2_read_cmdline` read for it, if it can be read.
unfoldable pub gather : ℕ → (ℕ → Candidate) → List (List ℕ × Option Candidate) → ℕ × (ℕ → Candidate)
gather count tmp [] = (count, tmp)
gather count tmp ((name, none) ∷ rest) =
    if ltb count tmp_max then gather count tmp rest else (count, tmp)
gather count tmp ((name, some c) ∷ rest) =
    if not (ltb count tmp_max)
    then (count, tmp)
    else if not (r2_is_number name)
    then gather count tmp rest
    else if c.rss_kb == 0
    then gather count tmp rest
    else gather (count + 1) (update tmp count c) rest

-- `n` rounds of the inner loop of `r2_collect_candidates`, from `j` on.
unfoldable pub largest : ℕ → ℕ → ℕ → (ℕ → Candidate) → ℕ
largest zero j max_idx tmp = max_idx
largest (suc n) j max_idx tmp =
    largest n (j + 1) (if ltb (tmp max_idx).rss_kb (tmp j).rss_kb then j else max_idx) tmp

-- `n` rounds of the outer loop, from `i` on: `tmp` and `list` afterwards.
unfoldable pub select :
    ℕ → ℕ → ℕ → (ℕ → Candidate) → (ℕ → Candidate) → (ℕ → Candidate) × (ℕ → Candidate)
select zero i count tmp list = (tmp, list)
select (suc n) i count tmp list =
    let tmp' : ℕ → Candidate = swap tmp i (largest (count - (i + 1)) (i + 1) i tmp) in
    select n (i + 1) count tmp' (update list i (tmp' i))

abbrev pub limit : ℕ → ℕ → ℕ
limit count max_size = if ltb count max_size then count else max_size

-- `r2_collect_candidates` behind its first loop: its result, `tmp` and `list`.
unfoldable pub choose :
    ℕ → ℕ → (ℕ → Candidate) → (ℕ → Candidate) → ℕ × ((ℕ → Candidate) × (ℕ → Candidate))
choose count max_size tmp list =
    (limit count max_size, select (limit count max_size) 0 count tmp list)

unfoldable pub r2_collect_candidates :
    ℕ
    → List (List ℕ × Option Candidate)
    → (ℕ → Candidate)
    → (ℕ → Candidate)
    → ℕ × ((ℕ → Candidate) × (ℕ → Candidate))
r2_collect_candidates max_size entries tmp list =
    let (count, tmp') = gather 0 tmp entries in choose count max_size tmp' list

unfoldable pub same_text : List ℕ → List ℕ → Bool
same_text [] [] = true
same_text [] (d ∷ ds) = false
same_text (c ∷ cs) [] = false
same_text (c ∷ cs) (d ∷ ds) = (c == d) && same_text cs ds

-- `PROTECTED_NAMES`: systemd, sshd, dbus-daemon, init, coomd.
abbrev pub protected_names : List (List ℕ)
protected_names =
    (115 ∷ 121 ∷ 115 ∷ 116 ∷ 101 ∷ 109 ∷ 100 ∷ [])
    ∷ (115 ∷ 115 ∷ 104 ∷ 100 ∷ [])
    ∷ (100 ∷ 98 ∷ 117 ∷ 115 ∷ 45 ∷ 100 ∷ 97 ∷ 101 ∷ 109 ∷ 111 ∷ 110 ∷ [])
    ∷ (105 ∷ 110 ∷ 105 ∷ 116 ∷ [])
    ∷ (99 ∷ 111 ∷ 111 ∷ 109 ∷ 100 ∷ [])
    ∷ []

unfoldable pub is_protected : List (List ℕ) → List ℕ → Bool
is_protected [] comm = false
is_protected (n ∷ ns) comm = same_text comm n || is_protected ns comm

-- `pid <= 1` on the bit pattern of a 32-bit `pid_t`.
abbrev pub at_most_one : ℕ → Bool
at_most_one pid = leb pid 1 || leb (2 ^ 31) pid

-- What opening and reading /proc/<pid>/comm comes to.
pub data CommFile : Type 0 where
  missing : CommFile
  unreadable : CommFile
  named : List ℕ → CommFile

unfoldable pub validator_ok : ℕ → (ℕ → CommFile) → ℕ → Bool
validator_ok self comm pid =
    if at_most_one pid then false else if pid == self then false else elim (comm pid) [
      | missing ↦ true
      | unreadable ↦ true
      | named text ↦ not (is_protected protected_names text)
    ]
