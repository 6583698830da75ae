-- ===== src/Threads/Inv.antt =====
-- Where each thread is: in at most one queue, and then blocked in the operation of that queue; on the
-- ready list, and then ready; or running.
use csci402_projects.Base.{ℕ, ◌≡◌, ◌≢◌, ◌⊎◌, true, false, none, some, [], mem, Uniq}
use csci402_projects.Threads.Kernel.{
  Kernel, running, ready, blocked, Stage, in_p, in_acquire, in_wait,
}

-- The lock that a thread in Wait will acquire.
abbrev pub waiting_for : Stage → ℕ
waiting_for (in_wait c l) = l
waiting_for _ = 0

-- What the queues say of thread `t`, at lock `l`, condition `c` and semaphore `s`.
pub record Queued (k : Kernel) (t l c s : ℕ) : Type 0 where
  pub on_lock : mem t (k.locks l).queue ≡ true → (k.status t ≡ blocked) × (k.stage t ≡ in_acquire l)
  pub on_condition :
      mem t (k.conditions c).queue ≡ true
      → (k.status t ≡ blocked) × (k.stage t ≡ in_wait c (waiting_for (k.stage t)))
  pub on_semaphore :
      mem t (k.semaphores s).queue ≡ true → (k.status t ≡ blocked) × (k.stage t ≡ in_p s)
  pub on_ready : mem t k.ready_list ≡ true → k.status t ≡ ready
  pub lock_once : Uniq (k.locks l).queue
  pub condition_once : Uniq (k.conditions c).queue
  pub semaphore_once : Uniq (k.semaphores s).queue
  pub ready_once : Uniq k.ready_list

-- What a lock promises: free exactly if it has no owner, nobody waits for a free lock, the owner does
-- not wait, and a thread that is in Acquire waits for the lock or owns it.
pub record Guards (k : Kernel) (t l : ℕ) : Type 0 where
  pub free_owner : (k.locks l).free ≡ true → (k.locks l).owner_thread ≡ none
  pub owner_free : (k.locks l).free ≡ false → (k.locks l).owner_thread ≢ none
  pub free_queue : (k.locks l).free ≡ true → (k.locks l).queue ≡ []
  pub owner_waits : (k.locks l).owner_thread ≡ some t → mem t (k.locks l).queue ≡ false
  pub acquired :
      k.stage t ≡ in_acquire l
      → (mem t (k.locks l).queue ≡ true) ⊎ ((k.locks l).owner_thread ≡ some t)

-- The two at every thread, lock, condition and semaphore.
pub record Places (k : Kernel) : Type 0 where
  pub queued : (t l c s : ℕ) → Queued k t l c s
  pub guards : (t l : ℕ) → Guards k t l

-- With them, the current thread is marked as running.
pub record Inv (k : Kernel) : Type 0 where
  pub places : Places k
  pub open places use *
  pub runs : (r : ℕ) → k.current ≡ some r → k.status r ≡ running
