-- ===== src/File.antt =====
-- kernel/file.c: the table of open files and its reference counts. A call runs under `ftable.lock`.
-- The count is an `int`, which stays far below its bound: there are at most 64 processes with 16
-- descriptors each.
mod Tests
pub mod References
use kus_operating_system_pro.Shared.{
  Bool, Option, if◌then◌else◌, ltb, none, some, suc, update, zero, ℕ, ◌+◌, ◌-◌, ◌==◌,
}

-- The type of a `struct file`.
pub data FileType : Type 0 where
  fd_none fd_pipe fd_inode fd_device : FileType

-- `struct file` without the device number; pointers are addresses.
pub record File : Type 0 where
  pub type' : FileType
  pub ref : ℕ
  pub readable : Bool
  pub writable : Bool
  pub pipe : ℕ
  pub ip : ℕ
  pub off : ℕ

abbrev pub nfile : ℕ
nfile = 100

-- The loop of `filealloc`, with `n` entries left from `f` on.
unfoldable pub free_file : ℕ → ℕ → (ℕ → File) → Option ℕ
free_file zero f table = none
free_file (suc n) f table =
    let rest = free_file n (f + 1) table in if (table f).ref == 0 then some f else rest

abbrev pub set_ref : ℕ → ℕ → (ℕ → File) → ℕ → File
set_ref f r table = update table f (record (table f) { ref = r })

unfoldable pub take_file : Option ℕ → (ℕ → File) → Option (ℕ × (ℕ → File))
take_file none table = none
take_file (some f) table = some (f, set_ref f 1 table)

-- `none` for the null pointer.
unfoldable pub filealloc : (ℕ → File) → Option (ℕ × (ℕ → File))
filealloc table = take_file (free_file nfile 0 table) table

-- `none` for the panic.
unfoldable pub filedup : ℕ → (ℕ → File) → Option (ℕ → File)
filedup f table = if ltb (table f).ref 1 then none else some (set_ref f ((table f).ref + 1) table)

-- What is left to do behind the lock: close one end of a pipe, put an inode, or nothing.
pub data Release : Type 0 where
  close_pipe : ℕ → Bool → Release
  put_inode : ℕ → Release
  nothing : Release

unfoldable pub release_of : File → Release
release_of f = elim f.type' [
  | fd_pipe ↦ close_pipe f.pipe f.writable
  | fd_inode ↦ put_inode f.ip
  | fd_device ↦ put_inode f.ip
  | fd_none ↦ nothing
]

-- How `fileclose` ends: with the panic, with references left, or with the last one gone.
pub data Closed : Type 0 where
  not_open : Closed
  still_open : (ℕ → File) → Closed
  last_closed : (ℕ → File) → Release → Closed

unfoldable pub fileclose : ℕ → (ℕ → File) → Closed
fileclose f table =
    if ltb (table f).ref 1
    then not_open
    else if ltb 0 ((table f).ref - 1)
    then still_open (set_ref f ((table f).ref - 1) table)
    else last_closed (update table f (record (table f) { ref = 0; type' = fd_none }))
        (release_of (table f))
