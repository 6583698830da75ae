-- ===== src/SystemCalls/Creating.antt =====
-- New locks, and the calls that do not go through a pointer to freed memory.
use csci402_projects.Base.{
  ℕ, ℤ, pos, minus_one, int_eq, leb, ◌≡◌, ◌≢◌, ◌≤◌, ◌<◌, Bool-cases, inl, inr, false, none, some,
  arith, refl, first_below-some, first_below-hit,
}
use csci402_projects.Threads.Kernel.{new_lock}
use csci402_projects.SystemCalls.Objects.{
  Sys, Objects, Entry, max_locks, is_null, find_null, construct, entry_at,
}
use csci402_projects.SystemCalls.Locks.{create_lock_at, create_lock_named, create_lock}
use csci402_projects.SystemCalls.Keeps.{Sounds}

find_null-some :
    (limit : ℕ) (o : Objects) (n : ℕ)
    → n < limit
    → o.entries n ≡ none
    → (i : ℕ) × (find_null limit o ≡ some i) × (i < limit) × (o.entries i ≡ none) × (i ≤ n)
unfolding find_null
find_null-some limit o n lt nothing =
    let (i, found, lt', hit) = first_below-hit (is_null o) limit n lt (ground (arith, nothing)) in
    let (_, _, before) = first_below-some (is_null o) limit i found in
    (
      i,
      found,
      lt',
      ground arith,
      elim (Bool-cases (leb i n)) [
        | inl le ↦ ground arith
        | inr gt ↦ absurd (ground (arith, before n, nothing))
      ],
    )

-- The entry of a new lock.
abbrev new_entry : Sys → ℕ → Entry
new_entry s t = record {
  is_to_be_deleted = false;
  is_deleted = false;
  object = s.locks.fresh;
  process_owner = s.space t;
}

-- With an empty place `n` in a table that is in order, a CreateLock for whose name copyin did not
-- return -1 returns the index of an empty place,
-- not above `n`. The entry there belongs to the process of the caller and is not marked, its lock is
-- free, and all other entries and their locks are as before and share nothing with it.
pub create_lock_lem :
    (s : Sys) (t n : ℕ) (read : ℤ)
    → Sounds s
    → int_eq read minus_one ≡ false
    → n < max_locks
    → s.locks.entries n ≡ none
    → (i : ℕ) × (e : Entry) × (s' : Sys) × (create_lock s t read ≡ (s', pos i))
      × (i ≤ n)
      × (s.locks.entries i ≡ none)
      × (entry_at max_locks s'.locks (pos i) ≡ some e)
      × (e.process_owner ≡ s.space t)
      × (e.is_to_be_deleted ≡ false)
      × (e.is_deleted ≡ false)
      × (s'.kernel.locks e.object ≡ new_lock)
      × ((j : ℕ) (f : Entry)
          → s.locks.entries j ≡ some f
          → (s'.locks.entries j ≡ some f)
            × (e.object ≢ f.object)
            × (s'.kernel.locks f.object ≡ s.kernel.locks f.object))
unfolding create_lock create_lock_named create_lock_at construct entry_at
create_lock_lem s t n read h named lt nothing =
    let (i, found, lt', empty_i, le) = find_null-some max_locks s.locks n lt nothing in
    (
      i,
      new_entry s t,
      (create_lock_at s t (some i)).0,
      ground (arith, found),
      le,
      empty_i,
      ground arith,
      refl,
      refl,
      refl,
      ground arith,
      λ j f at_j. (
        ground (arith, empty_i),
        ground (arith, h.locks.old j f),
        ground (arith, h.locks.old j f),
      ),
    )
