-- ===== src/Threads/Semaphore.antt =====
-- Semaphore::P and Semaphore::V of synch.cc. P tests again when it is woken, so another thread may
-- take the value first.
use csci402_projects.Base.{ℕ, suc, ◌-◌, ◌==◌, if◌then◌else◌, List, [], ◌∷◌, ◌++◌}
use csci402_projects.Threads.Kernel.{
  Kernel, user, in_p, ready_to_run, sleep, set_semaphore, set_stage,
}

-- The test of the loop in P, by thread `t`: at the call, and again at each return from Sleep.
unfoldable pub p : Kernel → ℕ → ℕ → Kernel
unfolding sleep
p k t s =
    let v = k.semaphores s in
    if v.value == 0
    then sleep (set_semaphore k s (record v { queue = v.queue ++ (t ∷ []) })) t (in_p s)
    else set_stage (set_semaphore k s (record v { value = v.value - 1 })) t user

unfoldable pub wake_first : Kernel → ℕ → List ℕ → Kernel
unfolding ready_to_run
wake_first k s [] = k
wake_first k s (t ∷ rest) =
    ready_to_run (set_semaphore k s (record (k.semaphores s) { queue = rest })) t

unfoldable pub v : Kernel → ℕ → Kernel
unfolding wake_first
v k s =
    let woken = wake_first k s (k.semaphores s).queue in
    set_semaphore woken s (record (woken.semaphores s) { value = suc (woken.semaphores s).value })
