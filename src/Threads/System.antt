-- ===== src/Threads/System.antt =====
-- Threads that call the operations of synch.cc in any order, with interrupts between the operations.
use csci402_projects.Base.{ℕ, ◌≡◌, Option, none, some}
use csci402_projects.Threads.Kernel.{
  Kernel, just_created, Stage, user, in_p, in_acquire, in_wait, sleep, yield, fork, wake, set_stage,
}
use csci402_projects.Threads.Semaphore.{p, v}
use csci402_projects.Threads.Lock.{acquire, release}
use csci402_projects.Threads.Condition.{wait, signal}

-- What thread `r` does when `Sleep` returns: P tests again, Wait acquires its lock, Acquire is done.
unfoldable pub resume : Kernel → ℕ → Stage → Kernel
resume k r user = k
resume k r (in_p s) = p k r s
resume k r (in_acquire l) = set_stage k r user
resume k r (in_wait c l) = acquire k r l

-- Broadcast is a sequence of signals by its caller; `finish` is Thread::Finish, a sleep for good.
pub data Call : Type 0 where
  p_on v_on acquires releases : ℕ → Call
  waits signals : ℕ → Option ℕ → Call
  yields finishes : Call

unfoldable pub perform : Kernel → ℕ → Call → Kernel
perform k r (p_on s) = p k r s
perform k r (v_on s) = v k s
perform k r (acquires l) = acquire k r l
perform k r (releases l) = release k r l
perform k r (waits c l) = wait k r c l
perform k r (signals c l) = signal k c l
perform k r yields = yield k r
perform k r finishes = sleep k r user

pub data Step (k : Kernel) (k' : Kernel) : Type 0 where
  calls :
      (r : ℕ) (call : Call)
      → k.current ≡ some r
      → k.stage r ≡ user
      → k' ≡ perform k r call
      → Step k k'
  forks : (r u : ℕ) → k.current ≡ some r → k.status u ≡ just_created → k' ≡ fork k u → Step k k'
  resumes : (r : ℕ) → k.current ≡ some r → k' ≡ resume k r (k.stage r) → Step k k'
  interrupts : (s : ℕ) → k' ≡ v k s → Step k k'
  wakes : k.current ≡ none → k' ≡ wake k → Step k k'

pub data Steps (k : Kernel) : Kernel → Type 0 where
  here : Steps k k
  next : {l m : Kernel} → Steps k l → Step l m → Steps k m
