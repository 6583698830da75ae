-- ===== src/Threads/Ownership.antt =====
-- Who owns a lock, over everything that the threads and the interrupts do.
use csci402_projects.Base.{
  ℕ, ◌≡◌, ◌≢◌, sym, ◌∙◌, ap, subst, Bool, true, false, Option, none, some, List, [], ◌∷◌, arith,
  inl, inr, Bool-cases, ◌==◌, mem, mem-append, ◌++◌,
}
use csci402_projects.Threads.Kernel.{
  Kernel, Stage, user, in_p, in_acquire, in_wait, wake, ready_to_run, Lock, set_lock, set_condition,
}
use csci402_projects.Threads.Lock.{acquire, take, wait_for, release, hand_over}
use csci402_projects.Threads.Condition.{wait, wait_tied, wait_on}
use csci402_projects.Threads.Inv.{Inv}
use csci402_projects.Threads.System.{
  Call, p_on, v_on, acquires, releases, waits, signals, yields, finishes, perform, resume, Step,
  calls, forks, resumes, interrupts, wakes, Steps, here, next,
}
use csci402_projects.Threads.Safety.{Steps-Inv}
use csci402_projects.Threads.Untouched.{
  switch_to-locks, sleep-locks, sleep-stage, p-locks, v-locks, signal-locks, yield-locks,
  fork-locks,
}
use csci402_projects.Threads.Wakeups.{current-in_acquire}

abbrev pub Owns : ℕ → ℕ → Kernel → Type 0
Owns r l k = (k.locks l).owner_thread ≡ some r

-- The call gives lock `l` up, if the caller owns it.
abbrev pub gives_up : ℕ → Call → Bool
gives_up l (releases m) = m == l
gives_up l (waits c (some m)) = m == l
gives_up l _ = false

-- The step is not one by which thread `r` gives lock `l` up.
abbrev pub KeepsLock : ℕ → ℕ → {k k' : Kernel} → Step k k' → Type 0
KeepsLock r l (calls t call now at_user e) = t ≡ r → gives_up l call ≡ false
KeepsLock r l _ = Unit

abbrev pub AllKeepLock : ℕ → ℕ → {k k' : Kernel} → Steps k k' → Type 0
AllKeepLock r l here = Unit
AllKeepLock r l (next steps step) = AllKeepLock r l steps × KeepsLock r l step

module _ (r l : ℕ) where
  same-Owns : {f g : ℕ → Lock} → f ≡ g → (g l).owner_thread ≡ some r → (f l).owner_thread ≡ some r
  same-Owns same owns = ap (λ h. (h l).owner_thread) same ∙ owns

  acquire-Owns : (k : Kernel) (t m : ℕ) → Inv k → Owns r l k → Owns r l (acquire k t m)
  unfolding acquire take wait_for
  acquire-Owns k t m inv owns =
      let line = (k.locks m).queue ++ (t ∷ []) in
      let k' = set_lock k m (record (k.locks m) { queue = line }) in
      ground (arith, owns, inv.guards r l, sleep-locks k' t (in_acquire m))

  -- Another thread that asks for the lock waits for it.
  queued-other :
      (k : Kernel) (t : ℕ)
      → Inv k
      → Owns r l k
      → t ≢ r
      → (mem t ((perform k t (acquires l)).locks l).queue ≡ true)
        × ((perform k t (acquires l)).stage t ≡ in_acquire l)
  unfolding perform acquire wait_for
  queued-other k t inv owns other =
      let line = (k.locks l).queue in
      let k' = set_lock k l (record (k.locks l) { queue = line ++ (t ∷ []) }) in
      ground (
        arith,
        owns,
        inv.guards r l,
        mem-append t line t,
        sleep-locks k' t (in_acquire l),
        sleep-stage k' t (in_acquire l),
      )

  hand_over-Owns :
      (k : Kernel) (m : ℕ) (qs : List ℕ)
      → (m == l) ≡ false
      → Owns r l k
      → Owns r l (hand_over k m qs)
  unfolding hand_over ready_to_run
  hand_over-Owns k m [] other owns = ground arith
  hand_over-Owns k m (q ∷ qs) other owns = ground arith

  -- Only the owner can give the lock up.
  release-Owns :
      (k : Kernel) (t m : ℕ) → (t ≡ r → (m == l) ≡ false) → Owns r l k → Owns r l (release k t m)
  unfolding release
  release-Owns k t m keeps owns = ground (arith, owns, hand_over-Owns k m (k.locks m).queue)

  wait_on-Owns :
      (k : Kernel) (t c m : ℕ)
      → (t ≡ r → (m == l) ≡ false)
      → Owns r l k
      → Owns r l (wait_on k t c m)
  unfolding wait_on
  wait_on-Owns k t c m keeps owns =
      let k' = release k t m in
      let line = (k'.conditions c).queue ++ (t ∷ []) in
      same-Owns
        (sleep-locks (set_condition k' c (record (k'.conditions c) { queue = line })) t
          (in_wait c m))
        (release-Owns k t m keeps owns)

  wait-Owns :
      (k : Kernel) (t c : ℕ) (m : Option ℕ)
      → (t ≡ r → gives_up l (waits c m) ≡ false)
      → Owns r l k
      → Owns r l (wait k t c m)
  unfolding wait wait_tied
  wait-Owns k t c none keeps owns = owns
  wait-Owns k t c (some m) keeps owns = tied (k.conditions c).waiting_lock
    where
      tied : (w : Option ℕ) → Owns r l (wait_tied k t c m w)
      tied none =
          wait_on-Owns (set_condition k c (record (k.conditions c) { waiting_lock = some m })) t c m
            keeps owns
      tied (some w) = elim (Bool-cases (w == m)) [
        | inl same ↦ rw same (wait_on-Owns k t c m keeps owns)
        | inr other ↦ rw other owns
      ]

  perform-Owns :
      (k : Kernel) (t : ℕ) (call : Call)
      → Inv k
      → (t ≡ r → gives_up l call ≡ false)
      → Owns r l k
      → Owns r l (perform k t call)
  unfolding perform
  perform-Owns k t (p_on s) inv keeps owns = same-Owns (p-locks k t s) owns
  perform-Owns k t (v_on s) inv keeps owns = same-Owns (v-locks k s) owns
  perform-Owns k t (acquires m) inv keeps owns = acquire-Owns k t m inv owns
  perform-Owns k t (releases m) inv keeps owns = release-Owns k t m keeps owns
  perform-Owns k t (waits c m) inv keeps owns = wait-Owns k t c m keeps owns
  perform-Owns k t (signals c m) inv keeps owns = same-Owns (signal-locks k c m) owns
  perform-Owns k t yields inv keeps owns = same-Owns (yield-locks k t) owns
  perform-Owns k t finishes inv keeps owns = same-Owns (sleep-locks k t user) owns

  resume-Owns : (k : Kernel) (t : ℕ) (g : Stage) → Inv k → Owns r l k → Owns r l (resume k t g)
  unfolding resume
  resume-Owns k t user inv owns = owns
  resume-Owns k t (in_p s) inv owns = same-Owns (p-locks k t s) owns
  resume-Owns k t (in_acquire m) inv owns = owns
  resume-Owns k t (in_wait c m) inv owns = acquire-Owns k t m inv owns

  wake-Owns : (k : Kernel) → Owns r l k → Owns r l (wake k)
  unfolding wake
  wake-Owns k owns = same-Owns (switch_to-locks k k.ready_list) owns

  Step-Owns :
      {k k' : Kernel} (step : Step k k') → Inv k → KeepsLock r l step → Owns r l k → Owns r l k'
  Step-Owns {k} (calls t call now at_user e) inv keeps owns =
      subst (Owns r l) (sym e) (perform-Owns k t call inv keeps owns)
  Step-Owns {k} (forks t u now made e) inv keeps owns =
      subst (Owns r l) (sym e) (same-Owns (fork-locks k u) owns)
  Step-Owns {k} (resumes t now e) inv keeps owns =
      subst (Owns r l) (sym e) (resume-Owns k t (k.stage t) inv owns)
  Step-Owns {k} (interrupts s e) inv keeps owns =
      subst (Owns r l) (sym e) (same-Owns (v-locks k s) owns)
  Step-Owns {k} (wakes idle e) inv keeps owns = subst (Owns r l) (sym e) (wake-Owns k owns)

  Steps-Owns :
      {k k' : Kernel} (steps : Steps k k')
      → Inv k
      → AllKeepLock r l steps
      → Owns r l k
      → Owns r l k'
  Steps-Owns here inv keeps owns = owns
  Steps-Owns (next steps step) inv (kept, keeps) owns =
      Step-Owns step (Steps-Inv steps inv) keeps (Steps-Owns steps inv kept owns)

  -- Mutual exclusion. Let thread r own lock l in a state that meets the invariant, and let the threads
  -- call what they like and interrupts come at any time, but let r itself not call Release on l or Wait
  -- with l. Then r owns l in every state that they reach; no other thread that runs there returns from
  -- an Acquire of l; and if another calls Acquire on l there, it comes to stand in the queue of l and is
  -- no longer at user level.
  pub Steps-exclude :
      {k k' : Kernel} (steps : Steps k k')
      → Inv k
      → AllKeepLock r l steps
      → Owns r l k
      → Owns r l k'
        × ((t : ℕ) → k'.current ≡ some t → k'.stage t ≡ in_acquire l → t ≡ r)
        × ((t : ℕ)
            → t ≢ r
            → (mem t ((perform k' t (acquires l)).locks l).queue ≡ true)
              × ((perform k' t (acquires l)).stage t ≡ in_acquire l))
  Steps-exclude {k} {k'} steps inv kept owns =
      let owns' = Steps-Owns steps inv kept owns in
      let inv' = Steps-Inv steps inv in
      (
        owns',
        λ t now at_acquire. ground (arith, owns', current-in_acquire k' t l inv' now at_acquire),
        λ t other. queued-other k' t inv' owns' other,
      )
