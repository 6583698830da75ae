-- ===== src/FileSystem/Bits.antt =====
-- What the operations do to the bits of a bitmap.
use csci402_projects.Base.{
  ℕ, zero, suc, ◌⊎◌, ◌+◌, ◌/◌, ◌%◌, ◌≡◌, ◌∙◌, ◌≤◌, ◌<◌, refl, true, false, ◌&&◌, ◌||◌, not, ◌==◌,
  if◌then◌else◌, none, some, ok, arith, ltb, leb, Bool-cases, inl, inr,
}
use csci402_projects.FileSystem.Bitmap.{
  BitMap, Word, bit, mark_bit, clear_bit, mark, clear, test, clear_from, new_bitmap, find_from,
  find, num_clear_from, num_clear,
}

-- Two bits with one word and one place in it are one bit.
same_bit : (n j : ℕ) → ((j / 32 == n / 32) && (j % 32 == n % 32)) ≡ (j == n)
same_bit n j = ground arith

pub bit-mark_bit : (m : BitMap) (n j : ℕ) → bit (mark_bit m n) j ≡ (bit m j || (j == n))
unfolding bit mark_bit
bit-mark_bit m n j = ground (arith, same_bit n j)

pub bit-clear_bit : (m : BitMap) (n j : ℕ) → bit (clear_bit m n) j ≡ (bit m j && not (j == n))
unfolding bit clear_bit
bit-clear_bit m n j = ground (arith, same_bit n j)

-- How many of the bits from `i` on, `left` of them, are clear.
abbrev pub free_in : BitMap → ℕ → ℕ → ℕ
free_in m i zero = 0
free_in m i (suc left) = (if bit m i then 0 else 1) + free_in m (suc i) left

abbrev pub free : BitMap → ℕ
free m = free_in m 0 m.num_bits

num_clear_from_lem :
    (m : BitMap) (i left : ℕ)
    → i + left ≤ m.num_bits
    → num_clear_from m i left ≡ ok (free_in m i left)
unfolding num_clear_from test
num_clear_from_lem m i zero fits = refl
num_clear_from_lem m i (suc left) fits =
    ground (arith, num_clear_from_lem m (suc i) left (omega arith))

-- NumClear never fails, and counts the clear bits.
pub num_clear_lem : (m : BitMap) → num_clear m ≡ ok (free m)
unfolding num_clear
num_clear_lem m = num_clear_from_lem m 0 m.num_bits (omega arith)

-- Marking a clear bit makes one less, if it is among those counted.
free_in-mark_bit :
    (m : BitMap) (n i left : ℕ)
    → bit m n ≡ false
    → free_in (mark_bit m n) i left + (if leb i n && ltb n (i + left) then 1 else 0)
      ≡ free_in m i left
free_in-mark_bit m n i zero clear_n = ground arith
free_in-mark_bit m n i (suc left) clear_n =
    ground (arith, bit-mark_bit m n i, free_in-mark_bit m n (suc i) left clear_n)

pub free-mark_bit :
    (m : BitMap) (n : ℕ) → n < m.num_bits → bit m n ≡ false → suc (free (mark_bit m n)) ≡ free m
unfolding mark_bit
free-mark_bit m n inside clear_n = ground (arith, free_in-mark_bit m n 0 m.num_bits clear_n)

-- Bit `j` is the first clear one from `i` on.
abbrev pub First : BitMap → ℕ → ℕ → Type 0
First m i j = (i ≤ j) × (bit m j ≡ false) × ((k : ℕ) → i ≤ k → k < j → bit m k ≡ true)

find_from_lem :
    (m : BitMap) (i left : ℕ)
    → i + left ≤ m.num_bits
    → ((j : ℕ) × (j < i + left) × First m i j × (find_from m i left ≡ ok (mark_bit m j, some j)))
      ⊎ (((k : ℕ) → i ≤ k → k < i + left → bit m k ≡ true) × (find_from m i left ≡ ok (m, none)))
unfolding find_from test mark
find_from_lem m i zero fits = inr ((λ k le lt. absurd (omega arith)), refl)
find_from_lem m i (suc left) fits = elim (Bool-cases (bit m i)) [
  | inr unused ↦
      inl (i, omega arith, (omega arith, unused, λ k le lt. absurd (omega arith)), ground arith)
  | inl used ↦ elim (find_from_lem m (suc i) left (omega arith)) [
    | inl (j, lt, (le, clear_j, before), e) ↦ inl (
      j,
      omega arith,
      (omega arith, clear_j, λ k le' lt'. ground (arith, before k)),
      ground arith,
    )
    | inr (all, e) ↦ inr ((λ k le lt. ground (arith, all k)), ground arith)
  ]
]

-- Find never fails. It marks the first clear bit, and only that, and gives its number; or it changes
-- nothing and gives none, and then every bit is marked.
pub find_lem :
    (m : BitMap)
    → ((j : ℕ) × (j < m.num_bits) × First m 0 j × (find m ≡ ok (mark_bit m j, some j)))
      ⊎ (((k : ℕ) → k < m.num_bits → bit m k ≡ true) × (find m ≡ ok (m, none)))
unfolding find
find_lem m = elim (find_from_lem m 0 m.num_bits (omega arith)) [
  | inl (j, lt, first, e) ↦ inl (j, omega arith, first, e)
  | inr (all, e) ↦ inr ((λ k lt. all k (omega arith) (omega arith)), e)
]

all_marked :
    (m : BitMap) (i left : ℕ)
    → ((k : ℕ) → i ≤ k → k < i + left → bit m k ≡ true)
    → free_in m i left ≡ 0
all_marked m i zero all = refl
all_marked m i (suc left) all = ground (
  arith,
  all i (omega arith) (omega arith),
  all_marked m (suc i) left (λ k le lt. all k (omega arith) (omega arith)),
)

-- With a clear bit, Find has a result.
pub find-free :
    (m : BitMap)
    → 0 < free m
    → (j : ℕ) × (j < m.num_bits) × (bit m j ≡ false) × (find m ≡ ok (mark_bit m j, some j))
find-free m room = elim (find_lem m) [
  | inl (j, lt, (le, clear_j, before), e) ↦ (j, lt, clear_j, e)
  | inr (all, e) ↦
      let none_left = all_marked m 0 m.num_bits (λ k le lt. all k (omega arith)) in
      absurd (omega arith)
]

pub num_bits-clear_bit : (m : BitMap) (i : ℕ) → (clear_bit m i).num_bits ≡ m.num_bits
unfolding clear_bit
num_bits-clear_bit m i = refl

clear_from_lem :
    (m : BitMap) (i left : ℕ)
    → i + left ≤ m.num_bits
    → (m' : BitMap) × (clear_from m i left ≡ ok m')
      × (m'.num_bits ≡ m.num_bits)
      × ((j : ℕ) → bit m' j ≡ (bit m j && not (leb i j && ltb j (i + left))))
unfolding clear_from clear
clear_from_lem m i zero fits = (m, refl, refl, λ j. ground arith)
clear_from_lem m i (suc left) fits =
    let same_size = num_bits-clear_bit m i in
    let (m', e, same, bits) = clear_from_lem (clear_bit m i) (suc i) left (ground arith) in
    (m', ground (arith, e), same ∙ same_size, λ j. ground (arith, bits j, bit-clear_bit m i j))

-- Whatever the memory of a new bitmap holds, the constructor does not fail, and every bit is clear.
pub new_bitmap_lem :
    (memory : ℕ → Word) (nitems : ℕ)
    → (m : BitMap) × (new_bitmap memory nitems ≡ ok m)
      × (m.num_bits ≡ nitems)
      × ((j : ℕ) → j < nitems → bit m j ≡ false)
unfolding new_bitmap
new_bitmap_lem memory nitems =
    let (m, e, same, bits) =
      clear_from_lem (record { num_bits = nitems; map = memory }) 0 nitems (omega arith) in
    (m, e, same, λ j lt. ground (arith, bits j))
