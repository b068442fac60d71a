-- ===== src/Lib.antt =====
-- The kernel and its memory-pressure accounting, as checked definitions with the theorems that make
-- them correct. The repository holds an xv6 kernel for RISC-V (kernel/) whose page allocator puts a
-- process to sleep when no page is free and whose clock interrupt keeps pressure averages of such
-- stalls, its user programs (user/), and a daemon (coomd/) that asks for victims when memory runs low.
--
-- How the parts interact. Every shared object stands behind a spinlock (kernel/spinlock.c), which
-- keeps interrupts off while it is held. Processes (kernel/proc.c) sleep on channels and are woken
-- under their locks. `kalloc` (kernel/kalloc.c) sleeps on `&kmem`, and `kfree` wakes that channel.
-- `clockintr` (kernel/trap.c) wakes the sleepers on `ticks` and calls `update_psi` (kernel/proc.c),
-- which counts the processes that sleep on `&kmem`. `kwait` frees exited children through `kfree`.
-- The file system writes blocks through the log (kernel/log.c), and kernel/pipe.c is a ring in a page.
--
-- Files:
--   Shared: Boolean tests, lists over the native numbers, tables with updates, counting in a table.
--   Machine: the state that the kernel's C files share, and the monad of code that runs on one CPU:
--     it returns, panics, or spins on a lock that another CPU holds.
--   Lock: kernel/spinlock.c. Lock/Laws has the lemmas for callers, Lock/Nesting the matching of
--     `push_off` and `pop_off`, Lock/Exclusion the lock under interleaving, one store or swap
--     at a time.
--   Sched: sleeping, waking, yielding, killing (kernel/proc.c), cut at `swtch`.
--   Kalloc: kernel/kalloc.c. A call that stalls is cut at its `sleep`.
--   Psi: `update_psi`, `get_psi_stats` (kernel/proc.c) and `clockintr` (kernel/trap.c).
--   Lifecycle: `allocpid`, `freeproc`, `reparent`, `kwait` (kernel/proc.c).
--   Log: kernel/log.c, with crashes as a budget of disk writes.
--   Pipe: kernel/pipe.c, the ring and its two ends.
--   Strings: kernel/string.c and `memmove` of user/ulib.c, on a memory of bytes by address.
--   Coomd: the choice of candidates in coomd/daemon/proc_reader.h and coomd/daemon/validator.c.
--   Bio: kernel/bio.c, the buffer cache with its reference counts and its order of use.
--   Grep: the matcher of user/grep.c.
--   Fs: the free map of the disk, `balloc` and `bfree` (kernel/fs.c). Fs/Bits has tables of all bytes,
--     Fs/Blocks the map as a set of blocks in use.
--   Inode: inodes on disk and the content of files, `iupdate`, `bmap`, `itrunc`, `readi` and `writei`
--     (kernel/fs.c). Inode/Blocks says what a well-formed file is, Inode/Map and Inode/Bmap that it
--     grows as one, Inode/Content reads it, and Inode/Release to Inode/Emptying give its blocks back.
--   Itable: the table of inodes in memory, from `iget` to `ireclaim` (kernel/fs.c).
--   Dir: directories and path names (kernel/fs.c). Dir/Paths cuts a path, Dir/Walk follows it.
--   Sleeplock: kernel/sleeplock.c, on top of `sleep` and `wakeup`.
--   Console: the line discipline of kernel/console.c. Console/Editing says what the ring holds,
--     Console/Keys what a key does to it, Console/Lines that typed lines are read.
--   File: the table of open files and its reference counts, kernel/file.c.
--   Vm: page tables and the copies to and from user memory, kernel/vm.c, on a memory of words and
--     bytes. Vm/Tree says what a page table is as a tree and as a map from page numbers, Vm/Grow and
--     Vm/Walk follow `walk` in it, Vm/Map and Vm/Pages map pages, Vm/Unmap and Vm/Region unmap them,
--     Vm/User has the copies, which Vm/Copyin, Vm/Copyout, Vm/Copies and Vm/Copyinstr follow, and
--     `vmfault`, for Vm/Fresh and Vm/Fault; Vm/Space has `uvmalloc`, for Vm/Lot and Vm/Alloc. Its
--     `kalloc` and `kfree` are those of kernel/kalloc.c as a page table sees them: a process that finds
--     no page free goes to sleep, where the run ends, and a page that is freed wakes the sleepers.
--   Sample, and the Tests in each component: concrete states and runs of the theorems on them.
--
-- Functions keep the names of the C functions. A pointer to a process is its index in `proc[]`, a page
-- its address, a wait channel a number. The rounds of a loop are a function by recursion on how many
-- are left, so no fuel is needed: `proc[]` has 64 entries, `freerange` runs once per whole page. The
-- loops of `readi`, `writei`, `namex` and of the copies have fuel, the number of bytes or of
-- characters of the path, which is enough since each round takes one at least. The file system reads
-- and writes its blocks as one disk of bytes by block and position, the disk as the running
-- transaction sees it. A `uint` or `uint64` keeps its wrap-around written out.
--
-- Not modelled: registers, devices and assembly; in page tables `uvmcopy`, `freewalk` and the kernel's own
-- table; what a process does that `kalloc` has put to sleep below a page table, and the panic of `sched`
-- there (Kalloc has both for `kalloc` itself). Files, pipes and the console have the success of a copy
-- as an argument; what a copy that fails has left in user memory is not shown. The file system runs
-- inside a transaction with room and with a free buffer: the panics of `log_write` and of `bget`
-- are in Log and Bio, and not in the functions that call them. Not modelled either: the data of
-- buffers below the file system, the lock of the table of inodes and other processes while an inode
-- is used; system calls, the other user programs, the image builder, and of the daemon what reads
-- /proc, asks the model and parses its answer. The spinlock is modelled on sequentially consistent
-- memory. The ring of a pipe and the header of the log are modelled without their own locks and
-- wake-ups.
pub mod Shared
pub mod Machine
pub mod Sample
pub mod Lock
pub mod Sched
pub mod Kalloc
pub mod Psi
pub mod Lifecycle
pub mod Log
pub mod Pipe
pub mod Strings
pub mod Coomd
pub mod Bio
pub mod Grep
pub mod File
pub mod Fs
pub mod Inode
pub mod Itable
pub mod Dir
pub mod Console
pub mod Sleeplock
pub mod Vm
