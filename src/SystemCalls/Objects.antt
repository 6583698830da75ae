-- ===== src/SystemCalls/Objects.antt =====
-- The tables of locks and condition variables of userprog/exception.cc. LockX and ConditionX have the
-- same fields, so that one record stands for both; an object is the number of a lock or a condition
-- variable of the kernel.
use csci402_projects.Base.{
  ℕ, suc, ℤ, pos_part, out_of_range, Bool, true, false, ◌==◌, if◌then◌else◌, Option, none, some,
  update, first_from, first_below, Result, ok, fault, dangling,
}
use csci402_projects.Threads.Kernel.{Kernel}
use csci402_projects.Threads.Lock.{is_held_by}

-- MAX_LOCKS and MAX_CONDITIONS
abbrev pub max_locks : ℕ
max_locks = 500

abbrev pub max_conditions : ℕ
max_conditions = 500

pub record Entry : Type 0 where
  pub is_to_be_deleted : Bool
  pub is_deleted : Bool
  pub object : ℕ
  pub process_owner : ℕ

-- A table, with the objects of the heap that were not deleted; `fresh` is the number that the next
-- `new` gives.
pub record Objects : Type 0 where
  pub entries : ℕ → Option Entry
  pub alive : ℕ → Bool
  pub fresh : ℕ

-- `space` is the process of each thread, and `condition_lock` the kernel's lock conditionLock.
pub record Sys : Type 0 where
  pub kernel : Kernel
  pub locks : Objects
  pub conditions : Objects
  pub space : ℕ → ℕ
  pub condition_lock : ℕ

-- The entry at the index; `none` if the index is out of range or nothing was made there.
unfoldable pub entry_at : ℕ → Objects → ℤ → Option Entry
entry_at limit o index = if out_of_range limit index then none else o.entries (pos_part index)

abbrev pub is_null : Objects → ℕ → Bool
is_null o i = elim (o.entries i) [ none ↦ true | some e ↦ false ]

-- The loop that looks for an empty place.
unfoldable pub find_null : ℕ → Objects → Option ℕ
unfolding first_from
find_null limit o = first_below (is_null o) limit

-- constructLockX and constructConditionX for a thread of the process `owner`, at place `i`.
unfoldable pub construct : Objects → ℕ → ℕ → Objects
construct o i owner = record o {
  entries = update o.entries i (
      some (record {
        is_to_be_deleted = false;
        is_deleted = false;
        object = o.fresh;
        process_owner = owner;
      }));
  alive = update o.alive o.fresh true;
  fresh = suc o.fresh;
}

-- The object of the entry is deleted.
unfoldable pub delete_object : Objects → ℕ → Entry → Objects
delete_object o i e = record o {
  entries = update o.entries i (some (record e { is_deleted = true }));
  alive = update o.alive e.object false;
}

-- The entry is marked for deletion.
unfoldable pub mark_entry : Objects → ℕ → Entry → Objects
mark_entry o i e = record o {
  entries = update o.entries i (some (record e { is_to_be_deleted = true }));
}

-- What follows goes through the pointer to the object.
unfoldable pub through_pointer {ℓ} : {A : Type ℓ} → Objects → Entry → Result A → Result A
through_pointer o e next = if o.alive e.object then next else fault dangling

-- `lock->isHeldByCurrentThread()`
unfoldable pub is_held : Sys → ℕ → Entry → Result Bool
unfolding through_pointer
is_held s t e = through_pointer s.locks e (ok (is_held_by t (s.kernel.locks e.object).owner_thread))

-- `processOwner == currentThread->space`
abbrev pub is_own : Sys → ℕ → Entry → Bool
is_own s t e = e.process_owner == s.space t

abbrev pub with_kernel : Sys → Kernel → Sys
with_kernel s k = record s { kernel = k }
