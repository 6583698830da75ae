-- ===== src/Threads/Untouched.antt =====
-- The switch, semaphores and signals leave the locks as they are.
use csci402_projects.Base.{
  ℕ, ◌≡◌, refl, ◌∙◌, ap, Option, none, some, List, [], ◌∷◌, arith, inl, inr, Bool-cases, ◌==◌,
  if◌then◌else◌, is_empty, update, ◌++◌,
}
use csci402_projects.Threads.Kernel.{
  Kernel, Stage, in_p, sleep, yield, yield_to, fork, switch_to, run, ready_to_run, blocked,
  set_semaphore,
}
use csci402_projects.Threads.Semaphore.{p, v, wake_first}
use csci402_projects.Threads.Condition.{signal, wake_head, same_lock}

pub switch_to-locks : (k : Kernel) (rs : List ℕ) → (switch_to k rs).locks ≡ k.locks
unfolding switch_to run
switch_to-locks k [] = refl
switch_to-locks k (t ∷ rest) = refl

abbrev asleep : Kernel → ℕ → Stage → Kernel
asleep k t g = record k { status = update k.status t blocked; stage = update k.stage t g }

pub sleep-locks : (k : Kernel) (t : ℕ) (g : Stage) → (sleep k t g).locks ≡ k.locks
unfolding sleep
sleep-locks k t g = switch_to-locks (asleep k t g) k.ready_list

pub switch_to-stage : (k : Kernel) (rs : List ℕ) → (switch_to k rs).stage ≡ k.stage
unfolding switch_to run
switch_to-stage k [] = refl
switch_to-stage k (t ∷ rest) = refl

pub sleep-stage : (k : Kernel) (t : ℕ) (g : Stage) → (sleep k t g).stage t ≡ g
unfolding sleep
sleep-stage k t g = ap (λ f. f t) (switch_to-stage (asleep k t g) k.ready_list) ∙ ground arith

pub p-locks : (k : Kernel) (t s : ℕ) → (p k t s).locks ≡ k.locks
unfolding p
p-locks k t s = elim (Bool-cases ((k.semaphores s).value == 0)) [
  | inl zero ↦
      let line = (k.semaphores s).queue ++ (t ∷ []) in
      rw zero
        (sleep-locks (set_semaphore k s (record (k.semaphores s) { queue = line })) t (in_p s))
  | inr more ↦ rw more refl
]

pub wake_first-locks : (k : Kernel) (s : ℕ) (qs : List ℕ) → (wake_first k s qs).locks ≡ k.locks
unfolding wake_first ready_to_run
wake_first-locks k s [] = refl
wake_first-locks k s (t ∷ rest) = refl

pub v-locks : (k : Kernel) (s : ℕ) → (v k s).locks ≡ k.locks
unfolding v
v-locks k s = wake_first-locks k s (k.semaphores s).queue

pub signal-locks : (k : Kernel) (c : ℕ) (l : Option ℕ) → (signal k c l).locks ≡ k.locks
unfolding signal wake_head ready_to_run
signal-locks k c none = refl
signal-locks k c (some l) = woken (k.conditions c).queue
  where
    woken :
        (qs : List ℕ)
        → (if is_empty qs
            then k
            else if same_lock (k.conditions c).waiting_lock l
            then wake_head k c qs
            else k).locks
          ≡ k.locks
    woken [] = refl
    woken (t ∷ rest) = elim (Bool-cases (same_lock (k.conditions c).waiting_lock l)) [
      | inl same ↦ rw same refl
      | inr other ↦ rw other refl
    ]

pub yield-locks : (k : Kernel) (t : ℕ) → (yield k t).locks ≡ k.locks
unfolding yield yield_to ready_to_run run
yield-locks k t = to k.ready_list
  where
    to : (rs : List ℕ) → (yield_to k t rs).locks ≡ k.locks
    to [] = refl
    to (n ∷ rest) = refl

pub fork-locks : (k : Kernel) (t : ℕ) → (fork k t).locks ≡ k.locks
unfolding fork ready_to_run
fork-locks k t = refl
