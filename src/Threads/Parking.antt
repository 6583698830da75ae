-- ===== src/Threads/Parking.antt =====
-- A running thread goes into a queue, or on with its work.
use csci402_projects.Base.{
  ℕ, ◌≡◌, ◌≢◌, true, false, some, List, [], ◌∷◌, arith, mem-append, Uniq-append,
}
use csci402_projects.Threads.Kernel.{
  Kernel, just_created, running, user, set_lock, set_condition, set_semaphore, set_stage, fork,
  yield_to,
}
use csci402_projects.Threads.Inv.{Queued, Guards, Places}
use csci402_projects.Threads.Moves.{parked, park_lock, park_condition, park_semaphore}

module _ (k : Kernel) (p : Places k) (r : ℕ) (runs : k.status r ≡ running) where
  -- `r` joins the queue of a lock that it does not own and that is not free.
  park_lock-Queued : (l₀ t l c s : ℕ) → Queued (park_lock k r l₀) t l c s
  park_lock-Queued l₀ t l c s = ground (
    arith,
    p.queued t l c s,
    p.queued r l c s,
    p.queued r l₀ c s,
    mem-append t (k.locks l₀).queue r,
    Uniq-append (k.locks l₀).queue r,
  )

  park_lock-Guards :
      (l₀ t l : ℕ)
      → (k.locks l₀).free ≡ false
      → (k.locks l₀).owner_thread ≢ some r
      → Guards (park_lock k r l₀) t l
  park_lock-Guards l₀ t l held other =
      ground (arith, p.guards t l, p.guards t l₀, mem-append t (k.locks l₀).queue r)

  pub park_lock-Places :
      (l₀ : ℕ)
      → (k.locks l₀).free ≡ false
      → (k.locks l₀).owner_thread ≢ some r
      → Places (park_lock k r l₀)
  park_lock-Places l₀ held other = record {
    queued = λ t l c s. park_lock-Queued l₀ t l c s;
    guards = λ t l. park_lock-Guards l₀ t l held other;
  }

  park_condition-Queued : (c₀ l₀ t l c s : ℕ) → Queued (park_condition k r c₀ l₀) t l c s
  park_condition-Queued c₀ l₀ t l c s = ground (
    arith,
    p.queued t l c s,
    p.queued r l c s,
    p.queued r l c₀ s,
    mem-append t (k.conditions c₀).queue r,
    Uniq-append (k.conditions c₀).queue r,
  )

  park_condition-Guards : (c₀ l₀ t l : ℕ) → Guards (park_condition k r c₀ l₀) t l
  park_condition-Guards c₀ l₀ t l = ground (arith, p.guards t l)

  pub park_condition-Places : (c₀ l₀ : ℕ) → Places (park_condition k r c₀ l₀)
  park_condition-Places c₀ l₀ = record {
    queued = λ t l c s. park_condition-Queued c₀ l₀ t l c s;
    guards = λ t l. park_condition-Guards c₀ l₀ t l;
  }

  park_semaphore-Queued : (s₀ t l c s : ℕ) → Queued (park_semaphore k r s₀) t l c s
  park_semaphore-Queued s₀ t l c s = ground (
    arith,
    p.queued t l c s,
    p.queued r l c s,
    p.queued r l c s₀,
    mem-append t (k.semaphores s₀).queue r,
    Uniq-append (k.semaphores s₀).queue r,
  )

  park_semaphore-Guards : (s₀ t l : ℕ) → Guards (park_semaphore k r s₀) t l
  park_semaphore-Guards s₀ t l = ground (arith, p.guards t l)

  pub park_semaphore-Places : (s₀ : ℕ) → Places (park_semaphore k r s₀)
  park_semaphore-Places s₀ = record {
    queued = λ t l c s. park_semaphore-Queued s₀ t l c s;
    guards = λ t l. park_semaphore-Guards s₀ t l;
  }

  -- `r` returns to its own code.
  set_user-Queued : (t l c s : ℕ) → Queued (set_stage k r user) t l c s
  set_user-Queued t l c s = ground (arith, p.queued t l c s, p.queued r l c s)

  set_user-Guards : (t l : ℕ) → Guards (set_stage k r user) t l
  set_user-Guards t l = ground (arith, p.guards t l)

  pub set_user-Places : Places (set_stage k r user)
  set_user-Places = record {
    queued = λ t l c s. set_user-Queued t l c s;
    guards = λ t l. set_user-Guards t l;
  }

  -- `r` goes to sleep for good.
  park_user-Queued : (t l c s : ℕ) → Queued (parked k r user) t l c s
  park_user-Queued t l c s = ground (arith, p.queued t l c s, p.queued r l c s)

  pub park_user-Places : Places (parked k r user)
  park_user-Places = record {
    queued = park_user-Queued;
    guards = λ t l. ground (arith, p.guards t l);
  }

  -- `r` takes a free lock.
  take_lock-Queued :
      (l₀ t l c s : ℕ)
      → Queued (set_lock k l₀ (record (k.locks l₀) { free = false; owner_thread = some r })) t l c s
  take_lock-Queued l₀ t l c s = ground (arith, p.queued t l c s, p.queued t l₀ c s)

  take_lock-Guards :
      (l₀ t l : ℕ)
      → (k.locks l₀).free ≡ true
      → Guards (set_lock k l₀ (record (k.locks l₀) { free = false; owner_thread = some r })) t l
  take_lock-Guards l₀ t l open_lock = ground (arith, p.guards t l, p.guards t l₀)

  pub take_lock-Places :
      (l₀ : ℕ)
      → (k.locks l₀).free ≡ true
      → Places (set_lock k l₀ (record (k.locks l₀) { free = false; owner_thread = some r }))
  take_lock-Places l₀ open_lock = record {
    queued = λ t l c s. take_lock-Queued l₀ t l c s;
    guards = λ t l. take_lock-Guards l₀ t l open_lock;
  }

  -- `r` goes to the end of the ready list, and its head runs.
  yield_to-Queued :
      (rs : List ℕ) (t l c s : ℕ) → k.ready_list ≡ rs → Queued (yield_to k r rs) t l c s
  unfolding yield_to
  yield_to-Queued [] t l c s e = p.queued t l c s
  yield_to-Queued (n ∷ rest) t l c s e = ground (
    arith,
    p.queued t l c s,
    p.queued r l c s,
    p.queued n l c s,
    mem-append t rest r,
    Uniq-append rest r,
  )

  yield_to-Guards : (rs : List ℕ) (t l : ℕ) → Guards (yield_to k r rs) t l
  unfolding yield_to
  yield_to-Guards [] t l = p.guards t l
  yield_to-Guards (n ∷ rest) t l = ground (arith, p.guards t l)

  pub yield_to-Places : (rs : List ℕ) → k.ready_list ≡ rs → Places (yield_to k r rs)
  yield_to-Places rs e = record {
    queued = λ t l c s. yield_to-Queued rs t l c s e;
    guards = λ t l. yield_to-Guards rs t l;
  }

module _ (k : Kernel) (p : Places k) where
  -- A semaphore changes its value only.
  value-Queued :
      (s₀ n t l c s : ℕ)
      → Queued (set_semaphore k s₀ (record (k.semaphores s₀) { value = n })) t l c s
  value-Queued s₀ n t l c s = ground (arith, p.queued t l c s, p.queued t l c s₀)

  pub value-Places :
      (s₀ n : ℕ) → Places (set_semaphore k s₀ (record (k.semaphores s₀) { value = n }))
  value-Places s₀ n = record {
    queued = λ t l c s. value-Queued s₀ n t l c s;
    guards = λ t l. ground (arith, p.guards t l);
  }

  -- A condition is tied to a lock.
  tie-Queued :
      (c₀ l₀ t l c s : ℕ)
      → Queued (set_condition k c₀ (record (k.conditions c₀) { waiting_lock = some l₀ })) t l c s
  tie-Queued c₀ l₀ t l c s = ground (arith, p.queued t l c s, p.queued t l c₀ s)

  pub tie-Places :
      (c₀ l₀ : ℕ)
      → Places (set_condition k c₀ (record (k.conditions c₀) { waiting_lock = some l₀ }))
  tie-Places c₀ l₀ = record {
    queued = λ t l c s. tie-Queued c₀ l₀ t l c s;
    guards = λ t l. ground (arith, p.guards t l);
  }

  fork-Queued : (u t l c s : ℕ) → k.status u ≡ just_created → Queued (fork k u) t l c s
  unfolding fork
  fork-Queued u t l c s fresh = ground (
    arith,
    p.queued t l c s,
    p.queued u l c s,
    mem-append t k.ready_list u,
    Uniq-append k.ready_list u,
  )

  fork-Guards : (u t l : ℕ) → Guards (fork k u) t l
  unfolding fork
  fork-Guards u t l = ground (arith, p.guards t l)

  pub fork-Places : (u : ℕ) → k.status u ≡ just_created → Places (fork k u)
  fork-Places u fresh = record {
    queued = λ t l c s. fork-Queued u t l c s fresh;
    guards = λ t l. fork-Guards u t l;
  }
