-- ===== src/Threads/Examples.antt =====
-- Tests of the kernel's operations, and the theorems at concrete inputs.
use csci402_projects.Base.{ℕ, ◌≡◌, ◌≢◌, true, mem, refl, none, some, [], ◌∷◌, arith, update}
use csci402_projects.Threads.Kernel.{
  Kernel, just_created, running, user, in_acquire, new_semaphore, new_lock, new_condition, fork,
  yield, yield_to, ready_to_run, run, sleep, switch_to,
}
use csci402_projects.Threads.Lock.{acquire, take, wait_for, release, hand_over}
use csci402_projects.Threads.Condition.{broadcast}
use csci402_projects.Threads.Inv.{Inv}
use csci402_projects.Threads.System.{
  calls, forks, Steps, here, next, acquires, releases, yields, perform,
}
use csci402_projects.Threads.Safety.{Steps-Inv}
use csci402_projects.Threads.Ownership.{Owns, Steps-exclude}
use csci402_projects.Threads.Wakeups.{
  current-in_acquire, queue_of, broadcast-tied, broadcast-other_lock,
}

-- The main thread runs, and nothing else has been made.
abbrev boot : Kernel
boot = record {
  current = some 0;
  ready_list = [];
  status = update (λ _. just_created) 0 running;
  stage = λ _. user;
  semaphores = λ _. new_semaphore 0;
  locks = λ _. new_lock;
  conditions = λ _. new_condition;
}

boot-Inv : Inv boot
boot-Inv = record {
  places = record { queued = λ t l c s. ground arith; guards = λ t l. ground arith };
  runs = λ r e. ground arith;
}

-- Thread 1 is made, thread 0 takes lock 5 and yields, and thread 1 waits for the lock.
contended : Kernel
contended = perform (perform (perform (fork boot 1) 0 (acquires 5)) 0 yields) 1 (acquires 5)

contended_reached : Steps boot contended
unfolding contended perform fork ready_to_run acquire take yield yield_to run
contended_reached =
    next
      (next (next (next here (forks 0 1 refl refl refl)) (calls 0 (acquires 5) refl refl refl))
        (calls 0 yields refl refl refl))
      (calls 1 (acquires 5) refl refl refl)

contended_queue :
    ((contended.locks 5).queue ≡ 1 ∷ [])
    × ((contended.locks 5).owner_thread ≡ some 0)
    × (contended.current ≡ some 0)
unfolding contended perform fork ready_to_run acquire take wait_for sleep switch_to yield yield_to
    run
contended_queue = (refl, refl, refl)

Steps-Inv_example : Inv contended
Steps-Inv_example = Steps-Inv contended_reached boot-Inv

-- Thread 0 releases the lock and yields: thread 1 comes back from Acquire.
handed_over : Kernel
handed_over = perform (release contended 0 5) 0 yields

handed_over-Inv : Inv handed_over
unfolding handed_over contended perform fork ready_to_run acquire take wait_for sleep switch_to
    yield yield_to run release hand_over
handed_over-Inv =
    Steps-Inv
      (next (next contended_reached (calls 0 (releases 5) refl refl refl))
        (calls 0 yields refl refl refl))
      boot-Inv

current-in_acquire_run : (handed_over.locks 5).owner_thread ≡ some 1
unfolding handed_over contended perform fork ready_to_run acquire take wait_for sleep switch_to
    yield yield_to run release hand_over
current-in_acquire_run = current-in_acquire handed_over 1 5 handed_over-Inv refl refl

-- Thread 0 has lock 5, yields, and thread 1 asks for the lock.
taken : Kernel
taken = perform (fork boot 1) 0 (acquires 5)

taken_reached : Steps boot taken
unfolding taken fork
taken_reached = next (next here (forks 0 1 refl refl refl)) (calls 0 (acquires 5) refl refl refl)

asked : Steps taken contended
unfolding taken contended perform fork ready_to_run acquire take yield yield_to run
asked = next (next here (calls 0 yields refl refl refl)) (calls 1 (acquires 5) refl refl refl)

Steps-exclude_example :
    Owns 0 5 contended
    × ((t : ℕ) → contended.current ≡ some t → contended.stage t ≡ in_acquire 5 → t ≡ 0)
    × ((t : ℕ)
        → t ≢ 0
        → (mem t ((perform contended t (acquires 5)).locks 5).queue ≡ true)
          × ((perform contended t (acquires 5)).stage t ≡ in_acquire 5))
unfolding asked taken perform fork ready_to_run acquire take
Steps-exclude_example =
    Steps-exclude 0 5 asked (Steps-Inv taken_reached boot-Inv) ((tt, λ e. refl), λ e. refl) refl

-- Threads 2 and 3 wait on condition 7 with lock 5.
abbrev two_waiting : Kernel
two_waiting = record boot {
  conditions = update (λ _. new_condition) 7 (record { waiting_lock = some 5; queue = 2 ∷ 3 ∷ [] });
}

broadcast-tied_example :
    (k' : Kernel) × (broadcast 3 two_waiting 7 (some 5) ≡ some k')
    × (queue_of k' 7 ≡ [])
    × ((k'.conditions 7).waiting_lock ≡ none)
    × (k'.ready_list ≡ 2 ∷ 3 ∷ [])
broadcast-tied_example = broadcast-tied two_waiting 7 5 2 (3 ∷ []) refl refl

broadcast-other_lock_run : broadcast 1000 two_waiting 7 (some 6) ≡ none
broadcast-other_lock_run = broadcast-other_lock 1000 two_waiting 7 6 2 (3 ∷ []) refl refl
