-- ===== src/FileSystem/Allocation.antt =====
-- Files and the bitmap of free sectors: what Allocate takes.
use csci402_projects.Base.{
  ℕ, zero, suc, ◌+◌, ◌≡◌, ◌≢◌, ◌∙◌, ◌⊎◌, ◌≤◌, ◌<◌, refl, pos, true, false, ltb, ok, fault,
  out_of_bounds, arith, Bool-cases, inl, inr, update, ◌==◌,
}
use csci402_projects.FileSystem.Bitmap.{BitMap, bit, mark_bit}
use csci402_projects.FileSystem.Bits.{free, bit-mark_bit, free-mark_bit, find-free, num_clear_lem}
use csci402_projects.FileSystem.FileHeader.{
  FileHeader, num_direct, sectors_for, set_sector, allocate_from, allocate,
}

-- Entry `k` of the header is a sector that was free in the old map and is not in the new one.
abbrev pub Taken : BitMap → FileHeader → BitMap → ℕ → Type 0
Taken m h' m' k =
    (j : ℕ) × (h'.data_sectors k ≡ pos j) × (j < m.num_bits) × (bit m j ≡ false) × (bit m' j ≡ true)

-- The entries from `i` on, `left` of them, were filled with different free sectors.
pub record Filled (h : FileHeader) (m : BitMap) (i left : ℕ) (h' : FileHeader) (m' : BitMap)
    : Type 0 where
  pub size : m'.num_bits ≡ m.num_bits
  pub used_up : free m' + left ≡ free m
  pub kept : (j : ℕ) → bit m j ≡ true → bit m' j ≡ true
  pub marked_new :
      (j : ℕ)
      → bit m' j ≡ true
      → (bit m j ≡ true) ⊎ ((k : ℕ) × (i ≤ k) × (k < i + left) × (h'.data_sectors k ≡ pos j))
  pub before : (k : ℕ) → k < i → h'.data_sectors k ≡ h.data_sectors k
  pub taken : (k : ℕ) → i ≤ k → k < i + left → Taken m h' m' k
  pub different : (k l : ℕ) → i ≤ k → k < l → l < i + left → h'.data_sectors k ≢ h'.data_sectors l

num_bits-mark_bit : (m : BitMap) (i : ℕ) → (mark_bit m i).num_bits ≡ m.num_bits
unfolding mark_bit
num_bits-mark_bit m i = refl

abbrev with_sector : FileHeader → ℕ → ℕ → FileHeader
with_sector h i j = record h { data_sectors = update h.data_sectors i (pos j) }

-- One more entry in front.
Filled-step :
    (h : FileHeader) (m : BitMap) (i left j : ℕ) (h' : FileHeader) (m' : BitMap)
    → j < m.num_bits
    → bit m j ≡ false
    → Filled (with_sector h i j) (mark_bit m j) (suc i) left h' m'
    → Filled h m i (suc left) h' m'
Filled-step h m i left j h' m' inside clear_j f = record {
  size = f.size ∙ num_bits-mark_bit m j;
  used_up = ground (arith, f.used_up, free-mark_bit m j inside clear_j);
  kept = λ k marked. f.kept k (ground (arith, bit-mark_bit m j k));
  marked_new = λ n marked. elim (f.marked_new n marked) [
    | inl old ↦ elim (Bool-cases (n == j)) [
      | inl here ↦ inr (i, omega arith, omega arith, ground (arith, f.before i))
      | inr there ↦ inl (ground (arith, bit-mark_bit m j n))
    ]
    | inr (k, le, lt, e) ↦ inr (k, omega arith, omega arith, e)
  ];
  before = λ k lt. ground (arith, f.before k);
  taken = λ k le lt. elim (Bool-cases (i == k)) [
    | inl here ↦ (
      j,
      ground (arith, f.before i),
      inside,
      clear_j,
      f.kept j (ground (arith, bit-mark_bit m j j)),
    )
    | inr there ↦
        let (n, e, lt', clear_n, used) = f.taken k (ground arith) (omega arith) in
        (n, e, ground (arith, num_bits-mark_bit m j), ground (arith, bit-mark_bit m j n), used)
  ];
  different = λ k l le lt lt' e. elim (Bool-cases (i == k)) [
    | inl here ↦
        let (n, e', lt'', clear_n, used) = f.taken l (ground arith) (omega arith) in
        ground (arith, f.before i, bit-mark_bit m j n)
    | inr there ↦ f.different k l (ground arith) lt (omega arith) e
  ];
}

Filled-empty : (h : FileHeader) (m : BitMap) (i : ℕ) → Filled h m i 0 h m
Filled-empty h m i = record {
  size = refl;
  used_up = omega arith;
  kept = λ j marked. marked;
  marked_new = λ j marked. inl marked;
  before = λ k lt. refl;
  taken = λ k le lt. absurd (omega arith);
  different = λ k l le lt lt' e. omega arith;
}

-- The loop of Allocate, with room in the header and in the bitmap.
allocate_from_lem :
    (h : FileHeader) (m : BitMap) (i left : ℕ)
    → i + left ≤ num_direct
    → left ≤ free m
    → (h' : FileHeader) × (m' : BitMap) × (allocate_from h m i left ≡ ok (h', m'))
      × (h'.num_bytes ≡ h.num_bytes)
      × (h'.num_sectors ≡ h.num_sectors)
      × Filled h m i left h' m'
unfolding allocate_from set_sector
allocate_from_lem h m i zero fits room = (h, m, refl, refl, refl, Filled-empty h m i)
allocate_from_lem h m i (suc left) fits room =
    let (j, inside, clear_j, e) = find-free m (omega arith) in
    let one_less = free-mark_bit m j inside clear_j in
    let (h', m', done, bytes, sectors, f) =
      allocate_from_lem (with_sector h i j) (mark_bit m j) (suc i) left (omega arith)
        (omega arith) in
    (
      h',
      m',
      ground (arith, e, done),
      bytes,
      sectors,
      Filled-step h m i left j h' m' inside clear_j f,
    )

-- Let the file fit into one header. If there are fewer free sectors than it needs, Allocate says so
-- and takes none. Otherwise it succeeds: the header has the size and as many entries as the size
-- needs, each a sector that was free and is marked now, no two the same; no sector that was in use is
-- freed, and exactly that many sectors fewer are free.
pub allocate_lem :
    (h : FileHeader) (m : BitMap) (size : ℕ)
    → sectors_for size ≤ num_direct
    → ((free m < sectors_for size) × ((h' : FileHeader) × (allocate h m size ≡ ok (h', m, false))))
      ⊎ ((h' : FileHeader) × (m' : BitMap) × (allocate h m size ≡ ok (h', m', true))
          × (h'.num_bytes ≡ size)
          × (h'.num_sectors ≡ sectors_for size)
          × Filled h m 0 (sectors_for size) h' m')
unfolding allocate
allocate_lem h m size fits = elim (Bool-cases (ltb (free m) (sectors_for size))) [
  | inl full ↦ inl (ground arith, (sized, rw (num_clear_lem m, full) refl))
  | inr room ↦
      let (h', m', done, bytes, sectors, f) =
        allocate_from_lem sized m 0 (sectors_for size) (omega arith) (ground arith) in
      inr (h', m', rw (num_clear_lem m, room, done) refl, bytes, sectors, refilled h' m' f)
]
  where
    sized : FileHeader
    sized = record h { num_bytes = size; num_sectors = sectors_for size }

    refilled :
        (h' : FileHeader) (m' : BitMap)
        → Filled sized m 0 (sectors_for size) h' m'
        → Filled h m 0 (sectors_for size) h' m'
    refilled h' m' f = record {
      size = f.size;
      used_up = f.used_up;
      kept = f.kept;
      marked_new = f.marked_new;
      before = f.before;
      taken = f.taken;
      different = f.different;
    }

allocate_from-overflow :
    (h : FileHeader) (m : BitMap) (i left : ℕ)
    → i ≤ num_direct
    → num_direct < i + left
    → left ≤ free m
    → allocate_from h m i left ≡ fault out_of_bounds
unfolding allocate_from set_sector
allocate_from-overflow h m i zero start beyond room = absurd (omega arith)
allocate_from-overflow h m i (suc left) start beyond room =
    let (j, inside, clear_j, e) = find-free m (omega arith) in
    let one_less = free-mark_bit m j inside clear_j in
    elim (Bool-cases (ltb i num_direct)) [
      | inl lt ↦ ground (
        arith,
        e,
        allocate_from-overflow (with_sector h i j) (mark_bit m j) (suc i) left (ground arith)
            (omega arith) (omega arith),
      )
      | inr ge ↦ ground (arith, e)
    ]

-- Allocate with enough free sectors for a file that needs more than the header has entries writes
-- outside the header, instead of refusing.
pub allocate-too_large :
    (h : FileHeader) (m : BitMap) (size : ℕ)
    → num_direct < sectors_for size
    → sectors_for size ≤ free m
    → allocate h m size ≡ fault out_of_bounds
unfolding allocate
allocate-too_large h m size large room = ground (
  arith,
  num_clear_lem m,
  allocate_from-overflow (record h { num_bytes = size; num_sectors = sectors_for size }) m 0
      (sectors_for size) (omega arith) (omega arith) room,
)
