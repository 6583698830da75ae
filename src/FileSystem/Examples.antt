-- ===== src/FileSystem/Examples.antt =====
-- Tests of bitmaps and file headers, and the theorems at concrete inputs.
use csci402_projects.Base.{
  update, ℕ, ◌⊎◌, ◌≡◌, ◌<◌, refl, pos, true, false, ◌==◌, none, some, ok, fault, out_of_bounds,
  arith, Bool, Result, [], ◌∷◌,
}
use csci402_projects.FileSystem.Bitmap.{
  num_clear, num_clear_from, BitMap, bit, mark_bit, find, find_from, test, mark, new_bitmap,
}
use csci402_projects.FileSystem.FileHeader.{
  allocate_from, set_sector, deallocate, FileHeader, allocate,
}
use csci402_projects.FileSystem.RoundTrip.{deallocate-allocate}
use csci402_projects.FileSystem.Directory.{
  Name, Directory, Disk, add, add_at, fill, find_index, strncmp_eq, create, remove_file,
}
use csci402_projects.FileSystem.Directory
use csci402_projects.FileSystem.Names.{find-add}
use csci402_projects.FileSystem.Files.{remove_file-create}
use csci402_projects.FileSystem.Bits.{First, find_lem, new_bitmap_lem, free}
use csci402_projects.FileSystem.Allocation.{Filled, allocate_lem, allocate-too_large}

-- Three bits, of which the first is marked.
abbrev small : BitMap
small = record { num_bits = 3; map = λ w b. b == 0 }

find_lem_run :
    ((j : ℕ) × (j < 3) × First small 0 j × (find small ≡ ok (mark_bit small j, some j)))
    ⊎ (((k : ℕ) → k < 3 → bit small k ≡ true) × (find small ≡ ok (small, none)))
find_lem_run = find_lem small

find_second : find small ≡ ok (mark_bit small 1, some 1)
unfolding find find_from test mark bit
find_second = refl

new_small :
    (m : BitMap) × (new_bitmap (λ w b. true) 3 ≡ ok m)
    × (m.num_bits ≡ 3)
    × ((j : ℕ) → j < 3 → bit m j ≡ false)
new_small = new_bitmap_lem (λ w b. true) 3

abbrev empty_header : FileHeader
empty_header = record { num_bytes = 0; num_sectors = 0; data_sectors = λ _. pos 0 }

allocate_lem_example :
    ((free small < 2)
      × ((h' : FileHeader) × (allocate empty_header small 200 ≡ ok (h', small, false))))
    ⊎ ((h' : FileHeader) × (m' : BitMap) × (allocate empty_header small 200 ≡ ok (h', m', true))
        × (h'.num_bytes ≡ 200)
        × (h'.num_sectors ≡ 2)
        × Filled empty_header small 0 2 h' m')
allocate_lem_example = allocate_lem empty_header small 200 (omega arith)

-- Thirty-two clear bits.
abbrev all_clear : BitMap
all_clear = record { num_bits = 32; map = λ w b. false }

free-all_clear : free all_clear ≡ 32
unfolding bit
free-all_clear = refl

allocate-too_large_run : allocate empty_header all_clear 3969 ≡ fault out_of_bounds
unfolding bit
allocate-too_large_run = allocate-too_large empty_header all_clear 3969 (omega arith) (omega arith)

-- The header and the bitmap after a file of two sectors.
abbrev two_sectors : FileHeader
two_sectors = record {
  num_bytes = 200;
  num_sectors = 2;
  data_sectors = update (update (λ _. pos 0) 0 (pos 1)) 1 (pos 2);
}

abbrev all_taken : BitMap
all_taken = mark_bit (mark_bit small 1) 2

allocate_two : allocate empty_header small 200 ≡ ok (two_sectors, all_taken, true)
unfolding allocate allocate_from num_clear num_clear_from find find_from test mark bit set_sector
    mark_bit
allocate_two = refl

deallocate-allocate_example :
    (m'' : BitMap) × (deallocate two_sectors all_taken ≡ ok m'')
    × ((j : ℕ) → bit m'' j ≡ bit small j)
deallocate-allocate_example =
    deallocate-allocate empty_header two_sectors small all_taken 200 (omega arith) allocate_two

-- A directory of two entries, which are empty.
abbrev empty_directory : Directory
empty_directory = record {
  table_size = 2;
  table = λ i. record { in_use = false; sector = 0; name = [] };
}

with_seven : Directory
with_seven = (add empty_directory (7 ∷ 8 ∷ []) 5).0

added-seven : add empty_directory (7 ∷ 8 ∷ []) 5 ≡ (with_seven, true)
unfolding add find_index with_seven
added-seven = refl

find-add_example :
    (Directory.find empty_directory (7 ∷ 8 ∷ []) ≡ none)
    × (Directory.find with_seven (7 ∷ []) ≡ none)
unfolding strncmp_eq find_index Directory.find
find-add_example = find-add empty_directory with_seven (7 ∷ 8 ∷ []) (7 ∷ []) 5 added-seven

abbrev empty_disk : Disk
empty_disk = record {
  directory = empty_directory;
  free_map = all_clear;
  headers = λ sector. empty_header;
}

abbrev disk_of : Disk → Result (Disk × Bool) → Disk
disk_of s (ok r) = r.0
disk_of s (fault reason) = s

-- After a file of one sector.
with_file : Disk
with_file = disk_of empty_disk (create empty_header empty_disk (7 ∷ 8 ∷ []) 100)

created-file : create empty_header empty_disk (7 ∷ 8 ∷ []) 100 ≡ ok (with_file, true)
unfolding create Directory.find find_index find find_from test mark bit allocate allocate_from
    num_clear num_clear_from set_sector mark_bit with_file
created-file = refl

remove_file-create_example :
    (s'' : Disk) × (remove_file with_file (7 ∷ 8 ∷ []) ≡ ok (s'', true))
    × ((j : ℕ) → bit s''.free_map j ≡ bit all_clear j)
    × ((other : Name) → Directory.find s''.directory other ≡ Directory.find empty_directory other)
remove_file-create_example =
    remove_file-create empty_header empty_disk with_file (7 ∷ 8 ∷ []) 100 (omega arith) created-file
