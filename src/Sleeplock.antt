-- ===== src/Sleeplock.antt =====
-- kernel/sleeplock.c. A sleep lock is a value here, which its functions hand back changed; `lk` is the
-- number of its spinlock and `chan` its address as a wait channel. A call that sleeps is cut at `swtch`.
pub mod Holding
mod Tests
use kus_operating_system_pro.Shared.{Bool, Option, false, if◌then◌else◌, none, some, true, ℕ, ◌==◌}
use kus_operating_system_pro.Machine.{Message, K, no_process, ok, pure, stop, and_then, ◌>>=◌, ◌>>◌}
use kus_operating_system_pro.Lock.{acquire, release, myproc}
use kus_operating_system_pro.Sched.{sleep, sleep_return, wakeup}

pub record Sleeplock : Type 0 where
  pub locked : Bool
  pub pid : ℕ
  pub lk : ℕ
  pub chan : ℕ

-- How far `acquiresleep` has come: it has the lock, or it sleeps, with the `intena` that `sched` saved.
pub data Taking : Type 0 where
  got : Sleeplock → Taking
  dozing : Bool → Taking

unfoldable pub sleep_on : Sleeplock → Option ℕ → K Taking
sleep_on l none = stop no_process
sleep_on l (some p) = do intena ← sleep p l.chan l.lk; pure (dozing intena)

unfoldable pub own_lock : Sleeplock → Option ℕ → K Taking
own_lock l none k = stop no_process k
own_lock l (some p) k =
    and_then (release l.lk k) (λ _. pure (got (record l { locked = true; pid = (k.procs p).pid })))

-- The loop of `acquiresleep` with the spinlock held.
unfoldable pub acquiresleep_held : Sleeplock → K Taking
acquiresleep_held l = do p ← myproc; if l.locked then sleep_on l p else own_lock l p

unfoldable pub acquiresleep : Sleeplock → K Taking
acquiresleep l = do acquire l.lk; acquiresleep_held l

-- `acquiresleep` of process `p` behind its `sleep`; `l` is the lock as it is then.
unfoldable pub acquiresleep_resume : ℕ → Bool → Sleeplock → K Taking
acquiresleep_resume p intena l = do sleep_return p l.lk intena; acquiresleep_held l

unfoldable pub releasesleep : Sleeplock → K Sleeplock
releasesleep l = do
  acquire l.lk
  wakeup l.chan
  release l.lk
  pure (record l { locked = false; pid = 0 })

unfoldable pub has_pid : ℕ → Option ℕ → K Bool
has_pid pid none k = stop no_process k
has_pid pid (some p) k = ok (pid == (k.procs p).pid) k

unfoldable pub is_holder : Sleeplock → K Bool
is_holder l = if l.locked then myproc >>= has_pid l.pid else pure false

unfoldable pub holdingsleep : Sleeplock → K Bool
holdingsleep l = do acquire l.lk; r ← is_holder l; release l.lk; pure r
