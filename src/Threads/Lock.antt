-- ===== src/Threads/Lock.antt =====
-- Lock::Acquire and Lock::Release of synch.cc. A released lock goes straight to the thread that has
-- waited longest.
use csci402_projects.Base.{
  ℕ, Bool, true, false, ◌==◌, if◌then◌else◌, Option, none, some, List, [], ◌∷◌, ◌++◌,
}
use csci402_projects.Threads.Kernel.{
  Kernel, user, in_acquire, ready_to_run, sleep, set_lock, set_stage,
}

-- isHeldByCurrentThread
abbrev pub is_held_by : ℕ → Option ℕ → Bool
is_held_by t none = false
is_held_by t (some u) = u == t

-- The lock is free: thread `t` owns it now.
unfoldable pub take : Kernel → ℕ → ℕ → Kernel
take k t l =
    set_stage (set_lock k l (record (k.locks l) { free = false; owner_thread = some t })) t user

-- Another thread owns the lock: `t` waits in its queue.
unfoldable pub wait_for : Kernel → ℕ → ℕ → Kernel
unfolding sleep
wait_for k t l =
    sleep (set_lock k l (record (k.locks l) { queue = (k.locks l).queue ++ (t ∷ []) })) t
      (in_acquire l)

-- Thread `t` calls Acquire on lock `l`.
unfoldable pub acquire : Kernel → ℕ → ℕ → Kernel
acquire k t l =
    if is_held_by t (k.locks l).owner_thread
    then set_stage k t user
    else if (k.locks l).free
    then take k t l
    else wait_for k t l

unfoldable pub hand_over : Kernel → ℕ → List ℕ → Kernel
unfolding ready_to_run
hand_over k l [] = set_lock k l (record (k.locks l) { free = true; owner_thread = none })
hand_over k l (t ∷ rest) =
    ready_to_run (set_lock k l (record (k.locks l) { owner_thread = some t; queue = rest })) t

-- Thread `t` calls Release on lock `l`.
unfoldable pub release : Kernel → ℕ → ℕ → Kernel
release k t l =
    let v = k.locks l in if is_held_by t v.owner_thread then hand_over k l v.queue else k
