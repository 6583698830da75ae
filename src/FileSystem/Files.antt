-- ===== src/FileSystem/Files.antt =====
-- Files on the disk: a file that is made and removed leaves no trace.
use csci402_projects.Base.{
  ℕ, zero, suc, ℤ, pos, out_of_range, ◌≡◌, ◌≤◌, ◌<◌, Bool, Bool-cases, inl, inr, true, false,
  Option, none, some, update, Result, ok, fault, arith, refl, ◌∙◌, ap,
}
use csci402_projects.FileSystem.Bitmap.{BitMap, bit, mark_bit, clear_bit, clear, test}
use csci402_projects.FileSystem.Bitmap
use csci402_projects.FileSystem.Bits.{find_lem, bit-mark_bit, bit-clear_bit}
use csci402_projects.FileSystem.FileHeader.{
  FileHeader, num_direct, sectors_for, allocate, deallocate, deallocate_from,
}
use csci402_projects.FileSystem.FileHeader
use csci402_projects.FileSystem.Allocation.{allocate_lem}
use csci402_projects.FileSystem.RoundTrip.{deallocate-allocate}
use csci402_projects.FileSystem.Directory.{
  Name, Directory, find_index, find, fill, add, remove, free_entry, Disk, flush, create_in, create,
  remove_in, remove_file,
}
use csci402_projects.FileSystem.Names.{add-fill, find-freed, remove-fill, find-fill_self}

clear-size : (m m' : BitMap) (i : ℤ) → clear m i ≡ ok m' → m'.num_bits ≡ m.num_bits
unfolding clear clear_bit
clear-size m m' i e = elim (Bool-cases (out_of_range m.num_bits i)) [
  | inl out ↦ absurd (ground (arith, e, out))
  | inr inside ↦ ground (arith, e, inside)
]

-- Deallocate leaves the size of the bitmap.
deallocate_from-size :
    (h : FileHeader) (m m' : BitMap) (i left : ℕ)
    → deallocate_from h m i left ≡ ok m'
    → m'.num_bits ≡ m.num_bits
unfolding deallocate_from
deallocate_from-size h m m' i zero e = ground (arith, e)
deallocate_from-size h m m' i (suc left) e =
    at_sector (FileHeader.sector_at h i) refl (λ m₁. deallocate_from-size h m₁ m' (suc i) left)
  where
    Rest : Type 0
    Rest = (m₁ : BitMap) → deallocate_from h m₁ (suc i) left ≡ ok m' → m'.num_bits ≡ m₁.num_bits

    cleared :
        (k : ℤ)
        → FileHeader.sector_at h i ≡ ok k
        → test m k ≡ ok true
        → (r : Result BitMap) → clear m k ≡ r
        → Rest
        → m'.num_bits ≡ m.num_bits
    cleared k f u (fault reason) c rest = absurd (ground (arith, f, u, c, e))
    cleared k f u (ok m₁) c rest = rest m₁ (ground (arith, f, u, c, e)) ∙ clear-size m m₁ k c

    tested :
        (k : ℤ)
        → FileHeader.sector_at h i ≡ ok k
        → (r : Result Bool) → test m k ≡ r
        → Rest
        → m'.num_bits ≡ m.num_bits
    tested k f (fault reason) u rest = absurd (ground (arith, f, u, e))
    tested k f (ok false) u rest = absurd (ground (arith, f, u, e))
    tested k f (ok true) u rest = cleared k f u (clear m k) refl rest

    at_sector : (r : Result ℤ) → FileHeader.sector_at h i ≡ r → Rest → m'.num_bits ≡ m.num_bits
    at_sector (fault reason) f rest = absurd (ground (arith, f, e))
    at_sector (ok k) f rest = tested k f (test m k) refl rest

-- What Create did, when it succeeded: the header went to a free sector, and the name to an empty entry.
record Created (memory : FileHeader) (s s' : Disk) (name : Name) (size : ℕ) : Type 0 where
  sector : ℕ
  entry : ℕ
  header : FileHeader
  map : BitMap
  inside : sector < s.free_map.num_bits
  unused : bit s.free_map sector ≡ false
  entry_inside : entry < s.directory.table_size
  entry_unused : (s.directory.table entry).in_use ≡ false
  new : find_index s.directory name ≡ none
  allocated : allocate memory (mark_bit s.free_map sector) size ≡ ok (header, map, true)
  written : s' ≡ record {
    directory = fill s.directory entry name sector;
    free_map = map;
    headers = update s.headers sector header;
  }

module _ (memory : FileHeader) (s s' : Disk) (name : Name) (size : ℕ)
    (e : create memory s name size ≡ ok (s', true)) where
  flushed :
      (j : ℕ) (d : Directory)
      → j < s.free_map.num_bits
      → bit s.free_map j ≡ false
      → find s.directory name ≡ none
      → Bitmap.find s.free_map ≡ ok (mark_bit s.free_map j, some j)
      → add s.directory name j ≡ (d, true)
      → (r : Result (FileHeader × BitMap × Bool)) → allocate memory (mark_bit s.free_map j) size ≡ r
      → Created memory s s' name size
  unfolding create create_in flush
  flushed j d lt unused nothing found put (fault reason) a =
      absurd (ground (arith, nothing, found, put, a, e))
  flushed j d lt unused nothing found put (ok (h, m, false)) a =
      absurd (ground (arith, nothing, found, put, a, e))
  flushed j d lt unused nothing found put (ok (h, m, true)) a =
      let (i, lt_i, empty_i, new, filled) = add-fill s.directory d name j put in
      record {
        sector = j;
        entry = i;
        header = h;
        map = m;
        inside = lt;
        unused = unused;
        entry_inside = lt_i;
        entry_unused = empty_i;
        new = new;
        allocated = a;
        written = ground (arith, nothing, found, put, a, e, filled);
      }

  added :
      (j : ℕ)
      → j < s.free_map.num_bits
      → bit s.free_map j ≡ false
      → find s.directory name ≡ none
      → Bitmap.find s.free_map ≡ ok (mark_bit s.free_map j, some j)
      → (r : Directory × Bool) → add s.directory name j ≡ r
      → Created memory s s' name size
  unfolding create create_in
  added j lt unused nothing found (d, false) put = absurd (ground (arith, nothing, found, put, e))
  added j lt unused nothing found (d, true) put =
      flushed j d lt unused nothing found put (allocate memory (mark_bit s.free_map j) size) refl

  create-Created : Created memory s s' name size
  unfolding create create_in
  create-Created = looked (find s.directory name) refl
    where
      looked : (o : Option ℕ) → find s.directory name ≡ o → Created memory s s' name size
      looked (some i) f = absurd (ground (arith, f, e))
      looked none f = elim (find_lem s.free_map) [
        | inl (j, lt, (le, unused, before), found) ↦
            added j lt unused f found (add s.directory name j) refl
        | inr (all, found) ↦ absurd (ground (arith, f, found, e))
      ]

-- After the header is freed as well.
bits-freed :
    (m m' : BitMap) (j x : ℕ)
    → bit m j ≡ false
    → ((k : ℕ) → bit m' k ≡ bit (mark_bit m j) k)
    → bit (clear_bit m' j) x ≡ bit m x
bits-freed m m' j x unused same = ground (arith, bit-clear_bit m' j x, same x, bit-mark_bit m j x)

clear-ok : (m : BitMap) (j : ℕ) → j < m.num_bits → clear m (pos j) ≡ ok (clear_bit m j)
unfolding clear
clear-ok m j lt = ground arith

allocate-size :
    (h h' : FileHeader) (m m' : BitMap) (size : ℕ)
    → sectors_for size ≤ num_direct
    → allocate h m size ≡ ok (h', m', true)
    → m'.num_bits ≡ m.num_bits
allocate-size h h' m m' size fits e = elim (allocate_lem h m size fits) [
  | inl (full, (h₁, e')) ↦ absurd (ground (arith, e, e'))
  | inr (h₁, m₁, e', bytes, sectors, f) ↦ ground (arith, e, e', f.size)
]

deallocate-size :
    (h : FileHeader) (m m' : BitMap) → deallocate h m ≡ ok m' → m'.num_bits ≡ m.num_bits
unfolding deallocate
deallocate-size h m m' e = deallocate_from-size h m m' 0 h.num_sectors e

mark_bit-size : (m : BitMap) (j : ℕ) → (mark_bit m j).num_bits ≡ m.num_bits
unfolding mark_bit
mark_bit-size m j = refl

-- The disk after Create, and the one after Remove.
abbrev with_file : Disk → Directory → BitMap → ℕ → FileHeader → Disk
with_file s d m j h = record { directory = d; free_map = m; headers = update s.headers j h }

abbrev without_file : Disk → Directory → BitMap → Disk
without_file s d m = record s { directory = d; free_map = m }

-- The steps of Remove.
remove_file-steps :
    (s : Disk) (name : Name) (d d' : Directory) (j : ℕ) (h : FileHeader) (m m' : BitMap)
    → find d name ≡ some j
    → deallocate h m ≡ ok m'
    → j < m'.num_bits
    → remove d name ≡ (d', true)
    → remove_file (with_file s d m j h) name
      ≡ ok (without_file (with_file s d m j h) d' (clear_bit m' j), true)
unfolding remove_file remove_in
remove_file-steps s name d d' j h m m' found freed lt removed =
    ground (arith, found, freed, clear-ok m' j lt, removed)

-- Let the file fit into one header. When Create of a file succeeds, a Remove of its name right after it
-- succeeds; then the same sectors are free as before the two, and the directory gives every name what it
-- gave before.
pub remove_file-create :
    (memory : FileHeader) (s s' : Disk) (name : Name) (size : ℕ)
    → sectors_for size ≤ num_direct
    → create memory s name size ≡ ok (s', true)
    → (s'' : Disk) × (remove_file s' name ≡ ok (s'', true))
      × ((j : ℕ) → bit s''.free_map j ≡ bit s.free_map j)
      × ((other : Name) → find s''.directory other ≡ find s.directory other)
remove_file-create memory s s' name size fits e =
    let c = create-Created memory s s' name size e in
    let marked = mark_bit s.free_map c.sector in
    let d = fill s.directory c.entry name c.sector in
    let made = with_file s d c.map c.sector c.header in
    let (m, freed, bits) = deallocate-allocate memory c.header marked c.map size fits c.allocated in
    let same_size =
      deallocate-size c.header c.map m freed
      ∙ allocate-size memory c.header marked c.map size fits c.allocated
      ∙ mark_bit-size s.free_map c.sector in
    let cleared = without_file made (free_entry d c.entry) (clear_bit m c.sector) in
    (
      cleared,
      ap (λ x. remove_file x name) c.written
          ∙ remove_file-steps s name d (free_entry d c.entry) c.sector c.header c.map m
              (find-fill_self s.directory c.entry name c.sector c.entry_inside c.entry_unused c.new)
              freed (ground (arith, same_size, c.inside))
              (remove-fill s.directory c.entry name c.sector c.entry_inside c.entry_unused c.new),
      λ j. bits-freed s.free_map m c.sector j c.unused bits,
      λ other.
          find-freed s.directory c.entry name c.sector c.entry_inside c.entry_unused c.new other,
    )
