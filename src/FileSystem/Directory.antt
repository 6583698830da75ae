-- ===== src/FileSystem/Directory.antt =====
-- `Directory` of filesys/directory.cc, and the operations `Create` and `Remove` of filesys/filesys.cc on
-- the directory, the bitmap of free sectors and the file headers of the disk.
use csci402_projects.Base.{
  ℕ, zero, suc, pos, Bool, true, false, ◌&&◌, not, ◌==◌, if◌then◌else◌, Option, none, some, List,
  [], ◌∷◌, update, Result, ok, ◌>>=◌, first_from, first_below,
}
use csci402_projects.FileSystem.Bitmap.{BitMap}
use csci402_projects.FileSystem.Bitmap
use csci402_projects.FileSystem.FileHeader.{FileHeader, allocate, deallocate}

-- FileNameMaxLen
abbrev pub file_name_max_len : ℕ
file_name_max_len = 9

-- A name is its characters before the final null.
abbrev pub Name : Type 0
Name = List ℕ

-- `!strncmp(a, b, n)`
unfoldable pub strncmp_eq : ℕ → Name → Name → Bool
strncmp_eq zero a b = true
strncmp_eq (suc n) [] [] = true
strncmp_eq (suc n) [] (y ∷ b) = false
strncmp_eq (suc n) (x ∷ a) [] = false
strncmp_eq (suc n) (x ∷ a) (y ∷ b) = (x == y) && strncmp_eq n a b

-- What strncpy of `n` characters leaves.
unfoldable pub strncpy : ℕ → Name → Name
strncpy zero a = []
strncpy (suc n) [] = []
strncpy (suc n) (x ∷ a) = x ∷ strncpy n a

pub record DirectoryEntry : Type 0 where
  pub in_use : Bool
  pub sector : ℕ
  pub name : Name

pub record Directory : Type 0 where
  pub table_size : ℕ
  pub table : ℕ → DirectoryEntry

abbrev pub is_named : Directory → Name → ℕ → Bool
is_named d name i = (d.table i).in_use && strncmp_eq file_name_max_len (d.table i).name name

-- `none` is -1.
unfoldable pub find_index : Directory → Name → Option ℕ
unfolding first_from
find_index d name = first_below (is_named d name) d.table_size

unfoldable pub sector_at : Directory → Option ℕ → Option ℕ
sector_at d none = none
sector_at d (some i) = some (d.table i).sector

unfoldable pub find : Directory → Name → Option ℕ
unfolding sector_at
find d name = sector_at d (find_index d name)

abbrev pub is_empty : Directory → ℕ → Bool
is_empty d i = not (d.table i).in_use

-- The entry that Add fills.
unfoldable pub fill : Directory → ℕ → Name → ℕ → Directory
fill d i name new_sector = record d {
  table =
      update d.table i
        (record { in_use = true; sector = new_sector; name = strncpy file_name_max_len name });
}

unfoldable pub add_at : Directory → Option ℕ → Name → ℕ → Directory × Bool
unfolding fill
add_at d none name new_sector = (d, false)
add_at d (some i) name new_sector = (fill d i name new_sector, true)

unfoldable pub add : Directory → Name → ℕ → Directory × Bool
unfolding add_at first_from
add d name new_sector = elim (find_index d name) [
  | some i ↦ (d, false)
  | none ↦ add_at d (first_below (is_empty d) d.table_size) name new_sector
]

unfoldable pub free_entry : Directory → ℕ → Directory
free_entry d i = record d { table = update d.table i (record (d.table i) { in_use = false }) }

unfoldable pub remove : Directory → Name → Directory × Bool
unfolding free_entry
remove d name = elim (find_index d name) [ none ↦ (d, false) | some i ↦ (free_entry d i, true) ]

-- What the disk holds: the file of the directory, the file of the bitmap, and in each sector a header.
pub record Disk : Type 0 where
  pub directory : Directory
  pub free_map : BitMap
  pub headers : ℕ → FileHeader

-- All went well, and the three are written back; or the data does not fit, and nothing is.
unfoldable pub flush : Disk → Directory → ℕ → FileHeader × BitMap × Bool → Disk × Bool
flush s d sector (h, m, allocated) =
    if allocated
    then (record { directory = d; free_map = m; headers = update s.headers sector h }, true)
    else (s, false)

-- With a sector for the header. `memory` is what the new FileHeader happens to hold.
unfoldable pub create_in : FileHeader → Disk → Name → ℕ → BitMap → Option ℕ → Result (Disk × Bool)
unfolding add flush
create_in memory s name initial_size m none = ok (s, false)
create_in memory s name initial_size m (some sector) =
    let added = add s.directory name sector in
    if not added.1
    then ok (s, false)
    else (allocate memory m initial_size >>= λ r. ok (flush s added.0 sector r))

unfoldable pub create : FileHeader → Disk → Name → ℕ → Result (Disk × Bool)
unfolding create_in
create memory s name initial_size = elim (find s.directory name) [
  | some i ↦ ok (s, false)
  | none ↦ (Bitmap.find s.free_map >>= λ r. create_in memory s name initial_size r.0 r.1)
]

-- The file whose header is in the sector is removed.
unfoldable pub remove_in : Disk → Name → ℕ → Result (Disk × Bool)
unfolding remove
remove_in s name sector = deallocate (s.headers sector) s.free_map >>= λ m.
    Bitmap.clear m (pos sector) >>= λ m'.
    ok (record s { directory = (remove s.directory name).0; free_map = m' }, true)

unfoldable pub remove_file : Disk → Name → Result (Disk × Bool)
unfolding remove_in
remove_file s name = elim (find s.directory name) [
  | none ↦ ok (s, false)
  | some sector ↦ remove_in s name sector
]
