-- ===== src/SystemCalls/Calls.antt =====
-- Threads of user programs that make these calls in any order.
use csci402_projects.Base.{ℕ, ℤ, ◌≡◌, Result, ok, ◌>>=◌}
use csci402_projects.Threads.Kernel.{Kernel}
use csci402_projects.SystemCalls.Objects.{Sys, Entry, with_kernel}
use csci402_projects.SystemCalls.Locks.{acquire_syscall, release_syscall, create_lock, destroy_lock}
use csci402_projects.SystemCalls.Conditions.{
  Returned, returned, waiting, wait_syscall, wait_woken, signal_syscall, broadcast_syscall,
  create_condition, create_condition_locked, destroy_condition,
}

pub data Call : Type 0 where
  acquires releases destroys_lock destroys_condition : (index : ℤ) → Call
  waits signals broadcasts : (condition lock : ℤ) → Call
  creates_lock creates_condition : (read : ℤ) → Call

abbrev pub to_returned : Sys × ℤ → Returned
to_returned r = returned r.0 r.1

-- The branch of ExceptionHandler for the call of thread `t`.
unfoldable pub perform : Sys → ℕ → Call → Result Returned
perform s t (acquires i) = acquire_syscall s t i >>= λ r. ok (to_returned r)
perform s t (releases i) = release_syscall s t i >>= λ r. ok (to_returned r)
perform s t (destroys_lock i) = destroy_lock s t i >>= λ r. ok (to_returned r)
perform s t (destroys_condition i) = destroy_condition s t i
perform s t (waits c l) = wait_syscall s t c l
perform s t (signals c l) = signal_syscall s t c l
perform s t (broadcasts c l) = broadcast_syscall s t c l
perform s t (creates_lock read) = ok (to_returned (create_lock s t read))
perform s t (creates_condition read) = ok (create_condition s t read)

-- A call that returns or sleeps, the second halves of CreateCondition and Wait, or anything that the kernel does
-- to its own threads, locks and condition variables.
pub data Step (s : Sys) : Sys → Type 0 where
  calls :
      (t : ℕ) (call : Call) (s' : Sys) (v : ℤ) → perform s t call ≡ ok (returned s' v) → Step s s'
  sleeps : (t : ℕ) (call : Call) (s' : Sys) → perform s t call ≡ ok (waiting s') → Step s s'
  goes_on : (t : ℕ) (s' : Sys) (v : ℤ) → create_condition_locked s t ≡ returned s' v → Step s s'
  wakes : (t : ℕ) (l : Entry) (s' : Sys) → wait_woken s t l ≡ ok s' → Step s s'
  runs : (k : Kernel) → Step s (with_kernel s k)

pub data Steps (s : Sys) : Sys → Type 0 where
  here : Steps s s
  next : {s' s'' : Sys} → Steps s s' → Step s' s'' → Steps s s''
