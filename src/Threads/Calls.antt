-- ===== src/Threads/Calls.antt =====
-- The operations that a thread calls, and the switch, keep the invariant.
use csci402_projects.Base.{
  ℕ, ◌-◌, ◌≡◌, ◌≢◌, refl, true, false, Option, none, some, List, [], ◌∷◌, arith, inl, inr,
  Bool-cases, ◌==◌, is_empty,
}
use csci402_projects.Threads.Kernel.{
  Kernel, just_created, running, user, sleep, yield, yield_to, fork, wake, switch_to, set_stage,
}
use csci402_projects.Threads.Semaphore.{p, v, wake_first}
use csci402_projects.Threads.Lock.{acquire, take, wait_for, release, hand_over, is_held_by}
use csci402_projects.Threads.Condition.{signal, wake_head, same_lock}
use csci402_projects.Threads.Inv.{Places, Inv}
use csci402_projects.Threads.Moves.{
  parked, park_lock, park_semaphore, switch_to-Places, hand_over-Places, wake_first-Places,
  wake_head-Places,
}
use csci402_projects.Threads.Parking.{
  park_lock-Places, park_semaphore-Places, set_user-Places, take_lock-Places, yield_to-Places,
  value-Places, fork-Places, park_user-Places,
}

-- After a switch the thread that was switched to runs.
switch_to-runs :
    (k : Kernel) (rs : List ℕ) (r : ℕ)
    → (switch_to k rs).current ≡ some r
    → (switch_to k rs).status r ≡ running
unfolding switch_to
switch_to-runs k [] r e = cc
switch_to-runs k (n ∷ rest) r e = ground arith

pub switch_to-Inv : (k : Kernel) → Places k → Inv (switch_to k k.ready_list)
switch_to-Inv k p = record {
  places = switch_to-Places k p k.ready_list refl;
  runs = switch_to-runs k k.ready_list;
}

yield_to-runs :
    (k : Kernel) (r : ℕ) (rs : List ℕ)
    → ((u : ℕ) → k.current ≡ some u → k.status u ≡ running)
    → (u : ℕ) → (yield_to k r rs).current ≡ some u
    → (yield_to k r rs).status u ≡ running
unfolding yield_to
yield_to-runs k r [] h u e = h u e
yield_to-runs k r (n ∷ rest) h u e = ground arith

module _ (k : Kernel) (inv : Inv k) where
  module _ (r : ℕ) (now : k.current ≡ some r) where
    running_now : k.status r ≡ running
    running_now = inv.runs r now

    pub set_user-Inv : Inv (set_stage k r user)
    set_user-Inv = record {
      places = set_user-Places k inv.places r running_now;
      runs = λ u e. inv.runs u e;
    }

    take-Inv : (l : ℕ) → (k.locks l).free ≡ true → Inv (take k r l)
    unfolding take
    take-Inv l open_lock = record {
      places =
          set_user-Places _ (take_lock-Places k inv.places r running_now l open_lock) r running_now;
      runs = λ u e. inv.runs u e;
    }

    wait_for-Inv :
        (l : ℕ)
        → (k.locks l).free ≡ false
        → (k.locks l).owner_thread ≢ some r
        → Inv (wait_for k r l)
    unfolding wait_for
    wait_for-Inv l shut other =
        switch_to-Inv (park_lock k r l) (park_lock-Places k inv.places r running_now l shut other)

    pub acquire-Inv : (l : ℕ) → Inv (acquire k r l)
    unfolding acquire
    acquire-Inv l = elim (Bool-cases (is_held_by r (k.locks l).owner_thread)) [
      | inl held ↦ rw held set_user-Inv
      | inr other ↦ rw other (elim (Bool-cases (k.locks l).free) [
        | inl open_lock ↦ rw open_lock (take-Inv l open_lock)
        | inr shut ↦ rw shut (wait_for-Inv l shut (ground (arith, other)))
      ])
    ]

    pub p-Inv : (s : ℕ) → Inv (p k r s)
    unfolding p
    p-Inv s = elim (Bool-cases ((k.semaphores s).value == 0)) [
      | inl empty ↦ rw empty (
          switch_to-Inv (park_semaphore k r s) (park_semaphore-Places k inv.places r running_now s))
      | inr some_left ↦ rw some_left (record {
        places =
            set_user-Places _ (value-Places k inv.places s ((k.semaphores s).value - 1)) r
              running_now;
        runs = λ u e. inv.runs u e;
      })
    ]

    hand_over-runs :
        (l : ℕ) (qs : List ℕ)
        → (k.locks l).queue ≡ qs
        → (u : ℕ) → (hand_over k l qs).current ≡ some u
        → (hand_over k l qs).status u ≡ running
    unfolding hand_over
    hand_over-runs l [] e u c = inv.runs u c
    hand_over-runs l (w ∷ rest) e u c = ground (arith, inv.runs u c, inv.queued w l 0 0)

    pub release-Inv : (l : ℕ) → k.stage r ≡ user → Inv (release k r l)
    unfolding release
    release-Inv l at_user = elim (Bool-cases (is_held_by r (k.locks l).owner_thread)) [
      | inl held ↦ rw held (record {
        places =
            hand_over-Places k inv.places l (k.locks l).queue r refl (ground (arith, held)) at_user;
        runs = hand_over-runs l (k.locks l).queue refl;
      })
      | inr other ↦ rw other inv
    ]

    pub yield-Inv : Inv (yield k r)
    unfolding yield
    yield-Inv = record {
      places = yield_to-Places k inv.places r running_now k.ready_list refl;
      runs = yield_to-runs k r k.ready_list inv.runs;
    }

    pub finish-Inv : Inv (sleep k r user)
    unfolding sleep
    finish-Inv = switch_to-Inv (parked k r user) (park_user-Places k inv.places r running_now)

    fork-runs :
        (u : ℕ)
        → k.status u ≡ just_created
        → (w : ℕ) → (fork k u).current ≡ some w
        → (fork k u).status w ≡ running
    unfolding fork
    fork-runs u fresh w e = ground (arith, inv.runs w e)

    pub fork-Inv : (u : ℕ) → k.status u ≡ just_created → Inv (fork k u)
    fork-Inv u fresh = record {
      places = fork-Places k inv.places u fresh;
      runs = fork-runs u fresh;
    }

  wake_first-runs :
      (s : ℕ) (qs : List ℕ)
      → (k.semaphores s).queue ≡ qs
      → (u : ℕ) → (wake_first k s qs).current ≡ some u
      → (wake_first k s qs).status u ≡ running
  unfolding wake_first
  wake_first-runs s [] e u c = inv.runs u c
  wake_first-runs s (w ∷ rest) e u c = ground (arith, inv.runs u c, inv.queued w 0 0 s)

  pub v-Inv : (s : ℕ) → Inv (v k s)
  unfolding v
  v-Inv s = record {
    places = value-Places _ (wake_first-Places k inv.places s (k.semaphores s).queue refl) s _;
    runs = wake_first-runs s (k.semaphores s).queue refl;
  }

  wake_head-runs :
      (c : ℕ) (qs : List ℕ)
      → (k.conditions c).queue ≡ qs
      → (u : ℕ) → (wake_head k c qs).current ≡ some u
      → (wake_head k c qs).status u ≡ running
  unfolding wake_head
  wake_head-runs c [] e u n = inv.runs u n
  wake_head-runs c (w ∷ rest) e u n = ground (arith, inv.runs u n, inv.queued w 0 c 0)

  wake_head-Inv : (c : ℕ) → Inv (wake_head k c (k.conditions c).queue)
  wake_head-Inv c = record {
    places = wake_head-Places k inv.places c (k.conditions c).queue refl;
    runs = wake_head-runs c (k.conditions c).queue refl;
  }

  pub signal-Inv : (c : ℕ) (l : Option ℕ) → Inv (signal k c l)
  unfolding signal
  signal-Inv c none = inv
  signal-Inv c (some l) = elim (Bool-cases (is_empty (k.conditions c).queue)) [
    | inl empty ↦ rw empty inv
    | inr waiting ↦ rw waiting (elim (Bool-cases (same_lock (k.conditions c).waiting_lock l)) [
      | inl same ↦ rw same (wake_head-Inv c)
      | inr differs ↦ rw differs inv
    ])
  ]

  pub wake-Inv : Inv (wake k)
  unfolding wake
  wake-Inv = switch_to-Inv k inv.places
