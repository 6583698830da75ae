-- ===== src/FileSystem/FileHeader.antt =====
-- `FileHeader` of filesys/filehdr.cc: Allocate, Deallocate, ByteToSector and FileLength. A file size
-- and an offset are taken as they are used, not negative.
use csci402_projects.Base.{
  ℕ, zero, suc, ◌+◌, ◌/◌, ◌%◌, ℤ, pos, minus_one, Bool, true, false, ltb, if◌then◌else◌, Option,
  none, some, update, Result, ok, fault, out_of_bounds, assertion, ◌>>=◌,
}
use csci402_projects.FileSystem.Bitmap.{BitMap, find, num_clear, test, clear}

abbrev pub sector_size : ℕ
sector_size = 128

-- NumDirect: what fits into a sector beside two integers.
abbrev pub num_direct : ℕ
num_direct = 30

pub record FileHeader : Type 0 where
  pub num_bytes : ℕ
  pub num_sectors : ℕ
  pub data_sectors : ℕ → ℤ

-- divRoundUp(n, SectorSize)
abbrev pub sectors_for : ℕ → ℕ
sectors_for n = n / sector_size + (if ltb 0 (n % sector_size) then 1 else 0)

-- The result of Find as a number.
abbrev pub to_sector : Option ℕ → ℤ
to_sector none = minus_one
to_sector (some i) = pos i

-- `dataSectors[i] = s`
unfoldable pub set_sector : FileHeader → ℕ → ℤ → Result FileHeader
set_sector h i s =
    if ltb i num_direct
    then ok (record h { data_sectors = update h.data_sectors i s })
    else fault out_of_bounds

-- The loop of Allocate from sector `i`.
unfoldable pub allocate_from : FileHeader → BitMap → ℕ → ℕ → Result (FileHeader × BitMap)
allocate_from h m i zero = ok (h, m)
allocate_from h m i (suc left) =
    (find m >>= λ r. set_sector h i (to_sector r.1) >>= λ h'. allocate_from h' r.0 (suc i) left)

unfoldable pub allocate : FileHeader → BitMap → ℕ → Result (FileHeader × BitMap × Bool)
unfolding allocate_from
allocate h m file_size =
    let h₁ = record h { num_bytes = file_size; num_sectors = sectors_for file_size } in
    (num_clear m >>= λ c.
    if ltb c (sectors_for file_size)
    then ok (h₁, m, false)
    else (allocate_from h₁ m 0 (sectors_for file_size) >>= λ r. ok (r.0, r.1, true)))

unfoldable pub sector_at : FileHeader → ℕ → Result ℤ
sector_at h i = if ltb i num_direct then ok (h.data_sectors i) else fault out_of_bounds

-- The loop of Deallocate from sector `i`.
unfoldable pub deallocate_from : FileHeader → BitMap → ℕ → ℕ → Result BitMap
deallocate_from h m i zero = ok m
deallocate_from h m i (suc left) =
    (sector_at h i >>= λ s. test m s >>= λ used.
    if used then (clear m s >>= λ m'. deallocate_from h m' (suc i) left) else fault assertion)

unfoldable pub deallocate : FileHeader → BitMap → Result BitMap
deallocate h m = deallocate_from h m 0 h.num_sectors

unfoldable pub byte_to_sector : FileHeader → ℕ → Result ℤ
byte_to_sector h offset = sector_at h (offset / sector_size)

abbrev pub file_length : FileHeader → ℕ
file_length h = h.num_bytes
