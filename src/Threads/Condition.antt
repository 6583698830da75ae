-- ===== src/Threads/Condition.antt =====
-- Condition::Wait, Signal and Broadcast of synch.cc. A null lock is `none`.
use csci402_projects.Base.{
  ℕ, zero, suc, Bool, false, ◌==◌, if◌then◌else◌, Option, none, some, List, [], ◌∷◌, ◌++◌, is_empty,
}
use csci402_projects.Threads.Kernel.{Kernel, in_wait, ready_to_run, sleep, set_condition}
use csci402_projects.Threads.Lock.{release}

-- `waitingLock != conditionLock`
abbrev pub same_lock : Option ℕ → ℕ → Bool
same_lock none l = false
same_lock (some m) l = m == l

-- Thread `t` goes to sleep on `c` after it gave the lock up; it acquires it when it is woken.
unfoldable pub wait_on : Kernel → ℕ → ℕ → ℕ → Kernel
unfolding release sleep
wait_on k t c l =
    let released = release k t l in
    let v = released.conditions c in
    sleep (set_condition released c (record v { queue = v.queue ++ (t ∷ []) })) t (in_wait c l)

-- The lock that the condition is tied to: the first wait ties it.
unfoldable pub wait_tied : Kernel → ℕ → ℕ → ℕ → Option ℕ → Kernel
unfolding wait_on
wait_tied k t c l none =
    wait_on (set_condition k c (record (k.conditions c) { waiting_lock = some l })) t c l
wait_tied k t c l (some m) = if m == l then wait_on k t c l else k

unfoldable pub wait : Kernel → ℕ → ℕ → Option ℕ → Kernel
unfolding wait_tied
wait k t c none = k
wait k t c (some l) = wait_tied k t c l (k.conditions c).waiting_lock

-- The head of the queue is woken; the condition is untied when the queue is empty.
unfoldable pub wake_head : Kernel → ℕ → List ℕ → Kernel
unfolding ready_to_run
wake_head k c [] = k
wake_head k c (t ∷ rest) =
    let v = k.conditions c in
    ready_to_run
      (set_condition k c
        (record v { queue = rest; waiting_lock = if is_empty rest then none else v.waiting_lock }))
      t

unfoldable pub signal : Kernel → ℕ → Option ℕ → Kernel
signal k c none = k
signal k c (some l) =
    let v = k.conditions c in
    if is_empty v.queue then k else if same_lock v.waiting_lock l then wake_head k c v.queue else k

-- The loop of Broadcast with fuel; `none` means that the fuel ran out.
unfoldable pub broadcast : ℕ → Kernel → ℕ → Option ℕ → Option Kernel
broadcast zero k c l = none
broadcast (suc fuel) k c l =
    let rest = broadcast fuel (signal k c l) c l in
    if is_empty (k.conditions c).queue then some k else rest
