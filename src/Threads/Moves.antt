-- ===== src/Threads/Moves.antt =====
-- The moves that the operations are made of keep every thread in its place.
use csci402_projects.Base.{
  ℕ, ◌≡◌, some, List, [], ◌∷◌, ◌++◌, arith, mem-append, Uniq-append, update,
}
use csci402_projects.Threads.Kernel.{
  Kernel, blocked, Stage, user, in_p, in_acquire, in_wait, switch_to, set_lock, set_condition,
  set_semaphore,
}
use csci402_projects.Threads.Semaphore.{wake_first}
use csci402_projects.Threads.Lock.{hand_over}
use csci402_projects.Threads.Condition.{wake_head}
use csci402_projects.Threads.Inv.{Queued, Guards, Places}

-- Thread `r` blocked in the operation `g`, before the switch.
abbrev pub parked : Kernel → ℕ → Stage → Kernel
parked k r g = record k { status = update k.status r blocked; stage = update k.stage r g }

abbrev pub park_lock : Kernel → ℕ → ℕ → Kernel
park_lock k r l =
    parked (set_lock k l (record (k.locks l) { queue = (k.locks l).queue ++ (r ∷ []) })) r
      (in_acquire l)

abbrev pub park_condition : Kernel → ℕ → ℕ → ℕ → Kernel
park_condition k r c l =
    parked
      (set_condition k c (record (k.conditions c) { queue = (k.conditions c).queue ++ (r ∷ []) })) r
      (in_wait c l)

abbrev pub park_semaphore : Kernel → ℕ → ℕ → Kernel
park_semaphore k r s =
    parked
      (set_semaphore k s (record (k.semaphores s) { queue = (k.semaphores s).queue ++ (r ∷ []) })) r
      (in_p s)

module _ (k : Kernel) (p : Places k) where
  -- A switch to the head of the ready list.
  switch_to-Queued :
      (rs : List ℕ) (t l c s : ℕ) → k.ready_list ≡ rs → Queued (switch_to k rs) t l c s
  unfolding switch_to
  switch_to-Queued [] t l c s e = ground (arith, p.queued t l c s)
  switch_to-Queued (n ∷ rest) t l c s e = ground (arith, p.queued t l c s, p.queued n l c s)

  switch_to-Guards : (rs : List ℕ) (t l : ℕ) → Guards (switch_to k rs) t l
  unfolding switch_to
  switch_to-Guards [] t l = ground (arith, p.guards t l)
  switch_to-Guards (n ∷ rest) t l = ground (arith, p.guards t l)

  pub switch_to-Places : (rs : List ℕ) → k.ready_list ≡ rs → Places (switch_to k rs)
  switch_to-Places rs e = record {
    queued = λ t l c s. switch_to-Queued rs t l c s e;
    guards = λ t l. switch_to-Guards rs t l;
  }

  -- The head of a lock's queue gets the lock and becomes ready; `r` was the owner.
  hand_over-Queued :
      (l₀ : ℕ) (qs : List ℕ) (t l c s : ℕ)
      → (k.locks l₀).queue ≡ qs
      → Queued (hand_over k l₀ qs) t l c s
  unfolding hand_over
  hand_over-Queued l₀ [] t l c s e = ground (arith, p.queued t l c s)
  hand_over-Queued l₀ (w ∷ rest) t l c s e = ground (
    arith,
    p.queued t l c s,
    p.queued t l₀ c s,
    p.queued w l c s,
    p.queued w l₀ c s,
    mem-append t k.ready_list w,
    Uniq-append k.ready_list w,
  )

  hand_over-Guards :
      (l₀ : ℕ) (qs : List ℕ) (r t l : ℕ)
      → (k.locks l₀).queue ≡ qs
      → (k.locks l₀).owner_thread ≡ some r
      → k.stage r ≡ user
      → Guards (hand_over k l₀ qs) t l
  unfolding hand_over
  hand_over-Guards l₀ [] r t l e own at_user = ground (arith, p.guards t l, p.guards t l₀)
  hand_over-Guards l₀ (w ∷ rest) r t l e own at_user =
      ground (arith, p.guards t l, p.guards t l₀, p.queued w l₀ 0 0)

  pub hand_over-Places :
      (l₀ : ℕ) (qs : List ℕ) (r : ℕ)
      → (k.locks l₀).queue ≡ qs
      → (k.locks l₀).owner_thread ≡ some r
      → k.stage r ≡ user
      → Places (hand_over k l₀ qs)
  hand_over-Places l₀ qs r e own at_user = record {
    queued = λ t l c s. hand_over-Queued l₀ qs t l c s e;
    guards = λ t l. hand_over-Guards l₀ qs r t l e own at_user;
  }

  -- The head of a semaphore's queue becomes ready.
  wake_first-Queued :
      (s₀ : ℕ) (qs : List ℕ) (t l c s : ℕ)
      → (k.semaphores s₀).queue ≡ qs
      → Queued (wake_first k s₀ qs) t l c s
  unfolding wake_first
  wake_first-Queued s₀ [] t l c s e = p.queued t l c s
  wake_first-Queued s₀ (w ∷ rest) t l c s e = ground (
    arith,
    p.queued t l c s,
    p.queued t l c s₀,
    p.queued w l c s,
    p.queued w l c s₀,
    mem-append t k.ready_list w,
    Uniq-append k.ready_list w,
  )

  wake_first-Guards : (s₀ : ℕ) (qs : List ℕ) (t l : ℕ) → Guards (wake_first k s₀ qs) t l
  unfolding wake_first
  wake_first-Guards s₀ [] t l = ground (arith, p.guards t l)
  wake_first-Guards s₀ (w ∷ rest) t l = ground (arith, p.guards t l)

  pub wake_first-Places :
      (s₀ : ℕ) (qs : List ℕ) → (k.semaphores s₀).queue ≡ qs → Places (wake_first k s₀ qs)
  wake_first-Places s₀ qs e = record {
    queued = λ t l c s. wake_first-Queued s₀ qs t l c s e;
    guards = λ t l. wake_first-Guards s₀ qs t l;
  }

  -- The head of a condition's queue becomes ready.
  wake_head-Queued :
      (c₀ : ℕ) (qs : List ℕ) (t l c s : ℕ)
      → (k.conditions c₀).queue ≡ qs
      → Queued (wake_head k c₀ qs) t l c s
  unfolding wake_head
  wake_head-Queued c₀ [] t l c s e = p.queued t l c s
  wake_head-Queued c₀ (w ∷ rest) t l c s e = ground (
    arith,
    p.queued t l c s,
    p.queued t l c₀ s,
    p.queued w l c s,
    p.queued w l c₀ s,
    mem-append t k.ready_list w,
    Uniq-append k.ready_list w,
  )

  wake_head-Guards : (c₀ : ℕ) (qs : List ℕ) (t l : ℕ) → Guards (wake_head k c₀ qs) t l
  unfolding wake_head
  wake_head-Guards c₀ [] t l = ground (arith, p.guards t l)
  wake_head-Guards c₀ (w ∷ rest) t l = ground (arith, p.guards t l)

  pub wake_head-Places :
      (c₀ : ℕ) (qs : List ℕ) → (k.conditions c₀).queue ≡ qs → Places (wake_head k c₀ qs)
  wake_head-Places c₀ qs e = record {
    queued = λ t l c s. wake_head-Queued c₀ qs t l c s e;
    guards = λ t l. wake_head-Guards c₀ qs t l;
  }
