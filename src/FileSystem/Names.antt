-- ===== src/FileSystem/Names.antt =====
-- A directory is a map from the first nine characters of a name to a sector.
use csci402_projects.Base.{
  ℕ, zero, suc, ◌≡◌, ◌<◌, Bool-cases, inl, inr, true, false, ◌&&◌, ◌==◌, if◌then◌else◌, Option,
  none, some, [], ◌∷◌, arith, refl, ◌∙◌, ap, first_below, first_from-ext, first_below-some,
  first_below-none, first_below-hit,
}
use csci402_projects.FileSystem.Directory.{
  Name, strncmp_eq, strncpy, Directory, is_named, find_index, sector_at, find, is_empty, fill,
  add_at, add, free_entry, remove, file_name_max_len,
}

strncmp_eq-strncpy : (n : ℕ) (a b : Name) → strncmp_eq n (strncpy n a) b ≡ strncmp_eq n a b
unfolding strncmp_eq strncpy
strncmp_eq-strncpy zero a b = refl
strncmp_eq-strncpy (suc n) [] b = refl
strncmp_eq-strncpy (suc n) (x ∷ a) [] = refl
strncmp_eq-strncpy (suc n) (x ∷ a) (y ∷ b) = ap (λ r. (x == y) && r) (strncmp_eq-strncpy n a b)

strncmp_eq_self : (n : ℕ) (a : Name) → strncmp_eq n a a ≡ true
unfolding strncmp_eq
strncmp_eq_self zero a = refl
strncmp_eq_self (suc n) [] = refl
strncmp_eq_self (suc n) (x ∷ a) = ground (arith, strncmp_eq_self n a)

-- Names that agree compare alike.
strncmp_eq-cong :
    (n : ℕ) (a b c : Name) → strncmp_eq n a b ≡ true → strncmp_eq n c a ≡ strncmp_eq n c b
unfolding strncmp_eq
strncmp_eq-cong zero a b c e = refl
strncmp_eq-cong (suc n) [] [] c e = refl
strncmp_eq-cong (suc n) [] (y ∷ b) c e = absurd (ground arith)
strncmp_eq-cong (suc n) (x ∷ a) [] c e = absurd (ground arith)
strncmp_eq-cong (suc n) (x ∷ a) (y ∷ b) [] e = refl
strncmp_eq-cong (suc n) (x ∷ a) (y ∷ b) (z ∷ c) e = ground (arith, strncmp_eq-cong n a b c)

-- The entry that Add fills is empty, and the directory has no entry of the name.
module _ (d : Directory) (i : ℕ) (name : Name) (sector : ℕ) (inside : i < d.table_size)
    (unused : (d.table i).in_use ≡ false) (new : find_index d name ≡ none) where
  not-named : (k : ℕ) → k < d.table_size → is_named d name k ≡ false
  unfolding find_index
  not-named k lt = first_below-none (is_named d name) d.table_size k new lt

  fill-named :
      (other : Name) (k : ℕ)
      → is_named (fill d i name sector) other k
        ≡ (if i == k then strncmp_eq file_name_max_len name other else is_named d other k)
  unfolding fill
  fill-named other k = elim (Bool-cases (i == k)) [
    | inl here ↦ rw here (strncmp_eq-strncpy file_name_max_len name other)
    | inr there ↦ rw there refl
  ]

  -- The new entry is found under its name.
  find_index-fill :
      (other : Name)
      → strncmp_eq file_name_max_len name other ≡ true
      → find_index (fill d i name sector) other ≡ some i
  unfolding find_index fill
  find_index-fill other same =
      let (j, found, lt, hit) =
        first_below-hit (is_named (fill d i name sector) other) d.table_size i inside
          (ground (arith, fill-named other i, same)) in
      found
      ∙ ap some (
          ground (
            arith,
            fill-named other j,
            hit,
            not-named j lt,
            strncmp_eq-cong file_name_max_len name other (d.table j).name same,
          ))

  find-fill-same :
      (other : Name)
      → strncmp_eq file_name_max_len name other ≡ true
      → find (fill d i name sector) other ≡ some sector
  unfolding find sector_at fill
  find-fill-same other same = ground (arith, find_index-fill other same)

  -- Other names are found as before.
  find_index-fill-other :
      (other : Name)
      → strncmp_eq file_name_max_len name other ≡ false
      → find_index (fill d i name sector) other ≡ find_index d other
  unfolding find_index fill
  find_index-fill-other other differ =
      first_from-ext (is_named (fill d i name sector) other) (is_named d other) 0 d.table_size
        (λ k. ground (arith, fill-named other k, unused, differ))

  sector_at-fill :
      (other : Name) (o : Option ℕ)
      → find_index d other ≡ o
      → sector_at (fill d i name sector) o ≡ sector_at d o
  unfolding sector_at fill find_index
  sector_at-fill other none e = refl
  sector_at-fill other (some j) e =
      let (_, hit, _) = first_below-some (is_named d other) d.table_size j e in
      ground (arith, hit, unused)

  find-fill-other :
      (other : Name)
      → strncmp_eq file_name_max_len name other ≡ false
      → find (fill d i name sector) other ≡ find d other
  unfolding find
  find-fill-other other differ =
      ap (sector_at (fill d i name sector)) (find_index-fill-other other differ)
      ∙ sector_at-fill other (find_index d other) refl

  sector_at-freed :
      (other : Name) (o : Option ℕ)
      → find_index d other ≡ o
      → sector_at (free_entry (fill d i name sector) i) o ≡ sector_at d o
  unfolding sector_at fill free_entry find_index
  sector_at-freed other none e = refl
  sector_at-freed other (some j) e =
      let (_, hit, _) = first_below-some (is_named d other) d.table_size j e in
      ground (arith, hit, unused)

  find_index-freed :
      (other : Name) → find_index (free_entry (fill d i name sector) i) other ≡ find_index d other
  unfolding find_index fill free_entry
  find_index-freed other =
      first_from-ext (is_named (free_entry (fill d i name sector) i) other) (is_named d other) 0
        d.table_size (λ k. ground (arith, unused))

  -- A removal of the new entry gives every name what it had.
  pub find-freed : (other : Name) → find (free_entry (fill d i name sector) i) other ≡ find d other
  unfolding find
  find-freed other =
      ap (sector_at (free_entry (fill d i name sector) i)) (find_index-freed other)
      ∙ sector_at-freed other (find_index d other) refl

  pub remove-fill : remove (fill d i name sector) name ≡ (free_entry (fill d i name sector) i, true)
  unfolding remove
  remove-fill = ground (arith, find_index-fill name (strncmp_eq_self file_name_max_len name))

  pub find-fill_self : find (fill d i name sector) name ≡ some sector
  find-fill_self = find-fill-same name (strncmp_eq_self file_name_max_len name)

pub add-fill :
    (d d' : Directory) (name : Name) (sector : ℕ)
    → add d name sector ≡ (d', true)
    → (i : ℕ) × (i < d.table_size)
      × ((d.table i).in_use ≡ false)
      × (find_index d name ≡ none)
      × (d' ≡ fill d i name sector)
unfolding add
add-fill d d' name sector e = found (find_index d name) refl
  where
    placed :
        find_index d name ≡ none
        → (o : Option ℕ) → first_below (is_empty d) d.table_size ≡ o
        → (i : ℕ) × (i < d.table_size)
          × ((d.table i).in_use ≡ false)
          × (find_index d name ≡ none)
          × (d' ≡ fill d i name sector)
    placed new none at = absurd (ground (arith, new, at, add_at, e))
    placed new (some i) at =
        let (lt, hit, _) = first_below-some (is_empty d) d.table_size i at in
        (i, lt, ground arith, new, ground (arith, new, at, add_at, e))

    found :
        (o : Option ℕ)
        → find_index d name ≡ o
        → (i : ℕ) × (i < d.table_size)
          × ((d.table i).in_use ≡ false)
          × (find_index d name ≡ none)
          × (d' ≡ fill d i name sector)
    found none f = placed f (first_below (is_empty d) d.table_size) refl
    found (some i) f = absurd (ground (arith, f, e))

find-new : (d : Directory) (name : Name) → find_index d name ≡ none → find d name ≡ none
unfolding find sector_at
find-new d name new = ground (arith, new)

-- A directory is a map from names, of which the first nine characters count, to sectors. An Add that
-- succeeds puts the new sector under its name and under every name with the same nine characters, where
-- there was none, and leaves what all other names have.
pub find-add :
    (d d' : Directory) (name other : Name) (sector : ℕ)
    → add d name sector ≡ (d', true)
    → (find d name ≡ none)
      × (find d' other
          ≡ (if strncmp_eq file_name_max_len name other then some sector else find d other))
find-add d d' name other sector e =
    let (i, inside, unused, new, filled) = add-fill d d' name sector e in
    (
      find-new d name new,
      ap (λ x. find x other) filled ∙ (elim (Bool-cases (strncmp_eq file_name_max_len name other)) [
        | inl same ↦ rw same (find-fill-same d i name sector inside unused new other same)
        | inr differ ↦ rw differ (find-fill-other d i name sector inside unused new other differ)
      ]),
    )
