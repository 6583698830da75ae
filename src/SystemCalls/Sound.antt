-- ===== src/SystemCalls/Sound.antt =====
-- The order of the tables of locks and condition variables, and that their changes keep it.
use csci402_projects.Base.{
  ℕ, ◌≡◌, ◌<◌, ℤ, pos_part, Bool, Bool-cases, true, false, ◌==◌, inl, inr, some, update, arith,
  refl,
}
use csci402_projects.SystemCalls.Objects.{
  Objects, Entry, entry_at, construct, delete_object, mark_entry,
}

-- The object of an entry is alive unless the entry says that it was deleted; no two entries share an
-- object.
pub record Sound (o : Objects) : Type 0 where
  pub live :
      (i : ℕ) (e : Entry) → o.entries i ≡ some e → e.is_deleted ≡ false → o.alive e.object ≡ true
  pub old : (i : ℕ) (e : Entry) → o.entries i ≡ some e → e.object < o.fresh
  pub single :
      (i j : ℕ) (e f : Entry)
      → o.entries i ≡ some e
      → o.entries j ≡ some f
      → e.object ≡ f.object
      → i ≡ j

pub entry_at-some :
    (limit : ℕ) (o : Objects) (index : ℤ) (e : Entry)
    → entry_at limit o index ≡ some e
    → o.entries (pos_part index) ≡ some e
unfolding entry_at
entry_at-some limit o index e h = ground arith

pub construct-Sound : (o : Objects) (i owner : ℕ) → Sound o → Sound (construct o i owner)
unfolding construct
construct-Sound o i owner h = record {
  live = λ j e at_j kept. elim (Bool-cases (i == j)) [
    | inl here ↦ ground arith
    | inr there ↦ ground (arith, h.live j e, h.old j e)
  ];
  old = λ j e at_j. elim (Bool-cases (i == j)) [
    | inl here ↦ ground arith
    | inr there ↦ ground (arith, h.old j e)
  ];
  single = λ j k e f at_j at_k same. ground (arith, h.old j e, h.old k f, h.single j k e f);
}

-- One entry gets new marks, and its object is deleted or not.
change-Sound :
    (o : Objects) (i : ℕ) (e e' : Entry) (alive : ℕ → Bool)
    → Sound o
    → o.entries i ≡ some e
    → e'.object ≡ e.object
    → ((n : ℕ) → (n == e.object) ≡ false → alive n ≡ o.alive n)
    → (e'.is_deleted ≡ false → alive e.object ≡ true)
    → Sound (record o { entries = update o.entries i (some e'); alive = alive })
change-Sound o i e e' alive h at_i same others here = record {
  live = λ j f at_j kept. elim (Bool-cases (i == j)) [
    | inl is_i ↦ ground (arith, here)
    | inr other ↦ ground (arith, h.live j f, others f.object, h.single i j e f)
  ];
  old = λ j f at_j. elim (Bool-cases (i == j)) [
    | inl is_i ↦ ground (arith, h.old i e)
    | inr other ↦ ground (arith, h.old j f)
  ];
  single = λ j k f g at_j at_k shared.
      ground (arith, h.single j k f g, h.single i k e g, h.single j i f e);
}

pub delete_object-Sound :
    (o : Objects) (i : ℕ) (e : Entry) → Sound o → o.entries i ≡ some e → Sound (delete_object o i e)
unfolding delete_object
delete_object-Sound o i e h at_i =
    change-Sound o i e (record e { is_deleted = true }) (update o.alive e.object false) h at_i refl
      (λ n other. ground arith) (λ kept. ground arith)

pub mark_entry-Sound :
    (o : Objects) (i : ℕ) (e : Entry) → Sound o → o.entries i ≡ some e → Sound (mark_entry o i e)
unfolding mark_entry
mark_entry-Sound o i e h at_i =
    change-Sound o i e (record e { is_to_be_deleted = true }) o.alive h at_i refl (λ n other. refl)
      (λ kept. h.live i e at_i kept)

pub mark_entry-here :
    (o : Objects) (i : ℕ) (e : Entry)
    → (mark_entry o i e).entries i ≡ some (record e { is_to_be_deleted = true })
unfolding mark_entry
mark_entry-here o i e = ground arith
