-- ===== src/SystemCalls/Foreign.antt =====
-- A process has no access to the locks and condition variables of another.
use csci402_projects.Base.{
  ℕ, ℤ, minus_one, ◌≡◌, ◌≢◌, ◌⊎◌, inl, inr, true, Option, none, some, Result, ok, arith, refl,
}
use csci402_projects.SystemCalls.Objects.{
  Sys, Objects, Entry, max_locks, max_conditions, entry_at, through_pointer, is_held,
}
use csci402_projects.SystemCalls.Locks.{
  acquire_entry, acquire_syscall, release_entry, release_syscall, destroy_lock_entry, destroy_lock,
}
use csci402_projects.SystemCalls.Conditions.{
  Returned, returned, refused, wait_entries, with_both, with_entries, wait_syscall, signal_entries,
  signal_syscall, broadcast_entries, broadcast_syscall, destroy_condition_entry,
  destroy_condition_at, destroy_condition,
}
use csci402_projects.SystemCalls.Calls.{
  Call, acquires, releases, destroys_lock, destroys_condition, waits, signals, broadcasts,
  creates_lock, creates_condition, perform,
}

-- The index names no entry, or one that was made by another process than that of the thread.
abbrev pub Denied : ℕ → Objects → Sys → ℕ → ℤ → Type 0
Denied limit o s t index =
    (entry_at limit o index ≡ none)
    ⊎ ((e : Entry) × (entry_at limit o index ≡ some e) × (e.process_owner ≢ s.space t))

-- The call names such an index; a lock that is released must still be there.
abbrev pub DeniedCall : Sys → ℕ → Call → Type 0
DeniedCall s t (acquires i) = Denied max_locks s.locks s t i
DeniedCall s t (releases i) =
    Denied max_locks s.locks s t i
    × ((e : Entry) → entry_at max_locks s.locks i ≡ some e → s.locks.alive e.object ≡ true)
DeniedCall s t (destroys_lock i) = Denied max_locks s.locks s t i
DeniedCall s t (destroys_condition i) = Denied max_conditions s.conditions s t i
DeniedCall s t (waits c l) =
    Denied max_conditions s.conditions s t c ⊎ Denied max_locks s.locks s t l
DeniedCall s t (signals c l) =
    Denied max_conditions s.conditions s t c ⊎ Denied max_locks s.locks s t l
DeniedCall s t (broadcasts c l) =
    Denied max_conditions s.conditions s t c ⊎ Denied max_locks s.locks s t l
DeniedCall s t (creates_lock read) = ⊥
DeniedCall s t (creates_condition read) = ⊥

module _ (s : Sys) (t : ℕ) where
  acquire-Denied :
      (i : ℤ) → Denied max_locks s.locks s t i → acquire_syscall s t i ≡ ok (s, minus_one)
  unfolding acquire_syscall acquire_entry
  acquire-Denied i (inl nothing) = ground (arith, nothing)
  acquire-Denied i (inr (e, found, other)) = ground (arith, found)

  release-Denied :
      (i : ℤ)
      → Denied max_locks s.locks s t i
      → ((e : Entry) → entry_at max_locks s.locks i ≡ some e → s.locks.alive e.object ≡ true)
      → release_syscall s t i ≡ ok (s, minus_one)
  unfolding release_syscall release_entry is_held through_pointer
  release-Denied i (inl nothing) there = ground (arith, nothing)
  release-Denied i (inr (e, found, other)) there = ground (arith, found, there e)

  destroy_lock-Denied :
      (i : ℤ) → Denied max_locks s.locks s t i → destroy_lock s t i ≡ ok (s, minus_one)
  unfolding destroy_lock destroy_lock_entry
  destroy_lock-Denied i (inl nothing) = ground (arith, nothing)
  destroy_lock-Denied i (inr (e, found, other)) = ground (arith, found)

  destroy_condition-Denied :
      (i : ℤ) → Denied max_conditions s.conditions s t i → destroy_condition s t i ≡ ok (refused s)
  unfolding destroy_condition destroy_condition_at destroy_condition_entry
  destroy_condition-Denied i (inl nothing) = ground (arith, nothing)
  destroy_condition-Denied i (inr (e, found, other)) = ground (arith, found)

  -- A call on two entries that is refused if one of them is foreign.
  both-Denied :
      (c l : ℤ) (next : Entry → Entry → Result Returned)
      → ((e f : Entry)
          → (e.process_owner ≢ s.space t) ⊎ (f.process_owner ≢ s.space t)
          → next e f ≡ ok (refused s))
      → Denied max_conditions s.conditions s t c ⊎ Denied max_locks s.locks s t l
      → with_entries s c l next ≡ ok (refused s)
  unfolding with_entries
  both-Denied c l next refuses denied =
      tried (entry_at max_conditions s.conditions c) refl (entry_at max_locks s.locks l) refl denied
    where
      tried :
          (a : Option Entry)
          → entry_at max_conditions s.conditions c ≡ a
          → (b : Option Entry) → entry_at max_locks s.locks l ≡ b
          → Denied max_conditions s.conditions s t c ⊎ Denied max_locks s.locks s t l
          → with_both s a b next ≡ ok (refused s)
      tried none at_a b at_b d = refl
      tried (some e) at_a none at_b d = refl
      tried (some e) at_a (some f) at_b (inl (inl nothing)) = absurd (ground (arith, at_a, nothing))
      tried (some e) at_a (some f) at_b (inl (inr (e', found, other))) =
          refuses e f (inl (λ same. other (ground (arith, at_a, found, same))))
      tried (some e) at_a (some f) at_b (inr (inl nothing)) = absurd (ground (arith, at_b, nothing))
      tried (some e) at_a (some f) at_b (inr (inr (f', found, other))) =
          refuses e f (inr (λ same. other (ground (arith, at_b, found, same))))

  wait_entries-Denied :
      (e f : Entry)
      → (e.process_owner ≢ s.space t) ⊎ (f.process_owner ≢ s.space t)
      → wait_entries s t e f ≡ ok (refused s)
  unfolding wait_entries
  wait_entries-Denied e f (inl other) = ground arith
  wait_entries-Denied e f (inr other) = ground arith

  signal_entries-Denied :
      (i : ℤ) (e f : Entry)
      → (e.process_owner ≢ s.space t) ⊎ (f.process_owner ≢ s.space t)
      → signal_entries s t i e f ≡ ok (refused s)
  unfolding signal_entries
  signal_entries-Denied i e f (inl other) = ground arith
  signal_entries-Denied i e f (inr other) = ground arith

  broadcast_entries-Denied :
      (i : ℤ) (e f : Entry)
      → (e.process_owner ≢ s.space t) ⊎ (f.process_owner ≢ s.space t)
      → broadcast_entries s t i e f ≡ ok (refused s)
  unfolding broadcast_entries
  broadcast_entries-Denied i e f (inl other) = ground arith
  broadcast_entries-Denied i e f (inr other) = ground arith

  -- A call with an index that names no entry, or one that another process made, returns -1 and changes
  -- nothing: neither the tables nor the kernel's locks, condition variables and threads. For Release the
  -- lock must not have been deleted.
  pub perform-Denied :
      (call : Call) → DeniedCall s t call → perform s t call ≡ ok (returned s minus_one)
  unfolding perform wait_syscall signal_syscall broadcast_syscall
  perform-Denied (acquires i) d = ground (arith, acquire-Denied i d)
  perform-Denied (releases i) (d, there) = ground (arith, release-Denied i d there)
  perform-Denied (destroys_lock i) d = ground (arith, destroy_lock-Denied i d)
  perform-Denied (destroys_condition i) d = destroy_condition-Denied i d
  perform-Denied (waits c l) d = both-Denied c l (wait_entries s t) wait_entries-Denied d
  perform-Denied (signals c l) d =
      both-Denied c l (signal_entries s t c) (signal_entries-Denied c) d
  perform-Denied (broadcasts c l) d =
      both-Denied c l (broadcast_entries s t c) (broadcast_entries-Denied c) d
  perform-Denied (creates_lock read) d = absurd d
  perform-Denied (creates_condition read) d = absurd d
