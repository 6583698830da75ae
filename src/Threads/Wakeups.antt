-- ===== src/Threads/Wakeups.antt =====
-- Who runs again, and when: the return from Acquire, and the loop of Broadcast.
use csci402_projects.Base.{
  ℕ, zero, suc, ◌≡◌, refl, sym, ◌∙◌, false, none, some, List, [], ◌∷◌, ◌++◌, arith, length,
  is_empty, ap, if◌then◌else◌,
}
use mathlib.Core.List.{append-nil, append_assoc}
use csci402_projects.Threads.Kernel.{Kernel, in_acquire, ready_to_run}
use csci402_projects.Threads.Condition.{signal, broadcast, wake_head, same_lock}
use csci402_projects.Threads.Inv.{Inv}

-- In a state that meets the invariant, the current thread, if it is still in Acquire for a lock, owns
-- the lock: Acquire returns to the owner alone.
pub current-in_acquire :
    (k : Kernel) (r l : ℕ)
    → Inv k
    → k.current ≡ some r
    → k.stage r ≡ in_acquire l
    → (k.locks l).owner_thread ≡ some r
current-in_acquire k r l inv now at_acquire =
    ground (arith, inv.runs r now, inv.queued r l 0 0, inv.guards r l)

abbrev pub queue_of : Kernel → ℕ → List ℕ
queue_of k c = (k.conditions c).queue

-- One signal of the loop, while the condition is tied to the lock.
signal-tied :
    (k : Kernel) (c l w : ℕ) (rest : List ℕ)
    → queue_of k c ≡ w ∷ rest
    → (k.conditions c).waiting_lock ≡ some l
    → (queue_of (signal k c (some l)) c ≡ rest)
      × ((signal k c (some l)).ready_list ≡ k.ready_list ++ (w ∷ []))
      × (((signal k c (some l)).conditions c).waiting_lock
          ≡ (if is_empty rest then none else some l))
unfolding signal wake_head ready_to_run
signal-tied k c l w rest e tied = ground arith

broadcast_from :
    (ws : List ℕ) (k : Kernel) (c l : ℕ)
    → queue_of k c ≡ ws
    → (k.conditions c).waiting_lock ≡ (if is_empty ws then none else some l)
    → (k' : Kernel) × (broadcast (suc (length ws)) k c (some l) ≡ some k')
      × (queue_of k' c ≡ [])
      × ((k'.conditions c).waiting_lock ≡ none)
      × (k'.ready_list ≡ k.ready_list ++ ws)
unfolding broadcast
broadcast_from [] k c l e tied = (k, rw e refl, e, tied, sym (append-nil k.ready_list))
broadcast_from (w ∷ ws) k c l e tied =
    let (gone, woken, tied') = signal-tied k c l w ws e tied in
    let (k', done, empty, untied, order) = broadcast_from ws (signal k c (some l)) c l gone tied' in
    (
      k',
      rw e done,
      empty,
      untied,
      order ∙ ap (λ xs. xs ++ ws) woken ∙ append_assoc k.ready_list (w ∷ []) ws,
    )

-- Broadcast with the lock that the condition is tied to ends, after as many rounds as threads wait.
-- Then all of them stand at the end of the ready list in the order in which they waited, the queue is
-- empty, and the condition is tied to no lock.
pub broadcast-tied :
    (k : Kernel) (c l w : ℕ) (ws : List ℕ)
    → queue_of k c ≡ w ∷ ws
    → (k.conditions c).waiting_lock ≡ some l
    → (k' : Kernel) × (broadcast (suc (length (w ∷ ws))) k c (some l) ≡ some k')
      × (queue_of k' c ≡ [])
      × ((k'.conditions c).waiting_lock ≡ none)
      × (k'.ready_list ≡ k.ready_list ++ (w ∷ ws))
broadcast-tied k c l w ws e tied = broadcast_from (w ∷ ws) k c l e tied

-- If threads wait on the condition, Broadcast with another lock than the one that it is tied to never
-- ends: no number of rounds is enough.
pub broadcast-other_lock :
    (fuel : ℕ) (k : Kernel) (c l w : ℕ) (ws : List ℕ)
    → queue_of k c ≡ w ∷ ws
    → same_lock (k.conditions c).waiting_lock l ≡ false
    → broadcast fuel k c (some l) ≡ none
unfolding broadcast signal
broadcast-other_lock zero k c l w ws e other = refl
broadcast-other_lock (suc fuel) k c l w ws e other =
    ground (arith, broadcast-other_lock fuel k c l w ws e other)
