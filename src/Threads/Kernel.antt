-- ===== src/Threads/Kernel.antt =====
-- scheduler.cc and thread.cc. A thread is a number. All that is modelled here runs with interrupts
-- off, so one operation is atomic up to the switch in `Sleep`; what a thread still has to do after the
-- switch, which the source keeps on its stack, is its `stage`.
use csci402_projects.Base.{ℕ, Bool, true, Option, none, some, List, [], ◌∷◌, ◌++◌, update}

-- ThreadStatus
pub data Status : Type 0 where
  just_created running ready blocked : Status

-- Where a thread stands that has called an operation which can sleep.
pub data Stage : Type 0 where
  user : Stage
  in_p : (semaphore : ℕ) → Stage
  in_acquire : (lock : ℕ) → Stage
  in_wait : (condition lock : ℕ) → Stage

pub record Semaphore : Type 0 where
  pub value : ℕ
  pub queue : List ℕ

pub record Lock : Type 0 where
  pub free : Bool
  pub owner_thread : Option ℕ
  pub queue : List ℕ

pub record Condition : Type 0 where
  pub waiting_lock : Option ℕ
  pub queue : List ℕ

-- `current` is none while `Sleep` finds nobody ready and waits for an interrupt.
pub record Kernel : Type 0 where
  pub current : Option ℕ
  pub ready_list : List ℕ
  pub status : ℕ → Status
  pub stage : ℕ → Stage
  pub semaphores : ℕ → Semaphore
  pub locks : ℕ → Lock
  pub conditions : ℕ → Condition

abbrev pub new_semaphore : ℕ → Semaphore
new_semaphore initial_value = record { value = initial_value; queue = [] }

abbrev pub new_lock : Lock
new_lock = record { free = true; owner_thread = none; queue = [] }

abbrev pub new_condition : Condition
new_condition = record { waiting_lock = none; queue = [] }

-- Scheduler::ReadyToRun
unfoldable pub ready_to_run : Kernel → ℕ → Kernel
ready_to_run k t = record k {
  status = update k.status t ready;
  ready_list = k.ready_list ++ (t ∷ []);
}

-- Scheduler::Run, up to the switch: the saving of registers and the stack check touch nothing here.
unfoldable pub run : Kernel → ℕ → Kernel
run k t = record k { current = some t; status = update k.status t running }

-- Scheduler::FindNextToRun and Scheduler::Run, or the loop over Idle if nobody is ready.
unfoldable pub switch_to : Kernel → List ℕ → Kernel
unfolding run
switch_to k [] = record k { current = none }
switch_to k (t ∷ rest) = run (record k { ready_list = rest }) t

-- Thread::Sleep of thread `t`, with what is left for it to do.
unfoldable pub sleep : Kernel → ℕ → Stage → Kernel
unfolding switch_to
sleep k t g =
    switch_to (record k { status = update k.status t blocked; stage = update k.stage t g })
      k.ready_list

-- Thread::Yield of thread `t`.
unfoldable pub yield_to : Kernel → ℕ → List ℕ → Kernel
unfolding ready_to_run run
yield_to k t [] = k
yield_to k t (next ∷ rest) = run (ready_to_run (record k { ready_list = rest }) t) next

unfoldable pub yield : Kernel → ℕ → Kernel
unfolding yield_to
yield k t = yield_to k t k.ready_list

-- Thread::Fork of thread `t`, once its stack stands.
unfoldable pub fork : Kernel → ℕ → Kernel
unfolding ready_to_run
fork k t = ready_to_run (record k { stage = update k.stage t user }) t

-- Idle found a thread that an interrupt made ready.
unfoldable pub wake : Kernel → Kernel
unfolding switch_to
wake k = switch_to k k.ready_list

abbrev pub set_semaphore : Kernel → ℕ → Semaphore → Kernel
set_semaphore k s v = record k { semaphores = update k.semaphores s v }

abbrev pub set_lock : Kernel → ℕ → Lock → Kernel
set_lock k l v = record k { locks = update k.locks l v }

abbrev pub set_condition : Kernel → ℕ → Condition → Kernel
set_condition k c v = record k { conditions = update k.conditions c v }

abbrev pub set_stage : Kernel → ℕ → Stage → Kernel
set_stage k t g = record k { stage = update k.stage t g }
