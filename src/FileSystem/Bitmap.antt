-- ===== src/FileSystem/Bitmap.antt =====
-- `BitMap` of userprog/bitmap.cc. The map is an array of words of 32 bits, and a word is a function of
-- the number of the bit: `1 << k` is the word with bit k alone, and `|`, `&` and `~` work on each bit.
use csci402_projects.Base.{
  ℕ, zero, suc, ◌/◌, ◌%◌, ℤ, pos, pos_part, out_of_range, Bool, ◌&&◌, ◌||◌, not, ◌==◌,
  if◌then◌else◌, Option, none, some, update, Result, ok, fault, assertion, ◌>>=◌,
}

abbrev pub Word : Type 0
Word = ℕ → Bool

pub record BitMap : Type 0 where
  pub num_bits : ℕ
  pub map : ℕ → Word

-- BitsInWord
abbrev pub bits_in_word : ℕ
bits_in_word = 32

abbrev pub one_bit : ℕ → Word
one_bit k = λ b. b == k

-- The bit of number `n` in the array.
unfoldable pub bit : BitMap → ℕ → Bool
bit m n = m.map (n / bits_in_word) (n % bits_in_word)

abbrev pub set_word : BitMap → ℕ → Word → BitMap
set_word m i w = record m { map = update m.map i w }

unfoldable pub mark_bit : BitMap → ℕ → BitMap
mark_bit m n =
    set_word m (n / bits_in_word) (λ b. m.map (n / bits_in_word) b || one_bit (n % bits_in_word) b)

unfoldable pub clear_bit : BitMap → ℕ → BitMap
clear_bit m n =
    set_word m (n / bits_in_word)
      (λ b. m.map (n / bits_in_word) b && not (one_bit (n % bits_in_word) b))

unfoldable pub mark : BitMap → ℤ → Result BitMap
mark m which =
    if out_of_range m.num_bits which then fault assertion else ok (mark_bit m (pos_part which))

unfoldable pub clear : BitMap → ℤ → Result BitMap
clear m which =
    if out_of_range m.num_bits which then fault assertion else ok (clear_bit m (pos_part which))

unfoldable pub test : BitMap → ℤ → Result Bool
test m which =
    if out_of_range m.num_bits which then fault assertion else ok (bit m (pos_part which))

-- The loop of the constructor from bit `i`, with `left` rounds to go.
unfoldable pub clear_from : BitMap → ℕ → ℕ → Result BitMap
clear_from m i zero = ok m
clear_from m i (suc left) = clear m (pos i) >>= λ m'. clear_from m' (suc i) left

-- BitMap::BitMap, over what the new array happens to hold.
unfoldable pub new_bitmap : (ℕ → Word) → ℕ → Result BitMap
new_bitmap memory nitems = clear_from (record { num_bits = nitems; map = memory }) 0 nitems

-- The loop of Find; `none` is -1.
unfoldable pub find_from : BitMap → ℕ → ℕ → Result (BitMap × Option ℕ)
find_from m i zero = ok (m, none)
find_from m i (suc left) =
    let rest = find_from m (suc i) left in
    (test m (pos i) >>= λ used. if used then rest else (mark m (pos i) >>= λ m'. ok (m', some i)))

unfoldable pub find : BitMap → Result (BitMap × Option ℕ)
find m = find_from m 0 m.num_bits

unfoldable pub num_clear_from : BitMap → ℕ → ℕ → Result ℕ
num_clear_from m i zero = ok 0
num_clear_from m i (suc left) =
    let rest = num_clear_from m (suc i) left in
    (test m (pos i) >>= λ used. rest >>= λ n. ok (if used then n else suc n))

unfoldable pub num_clear : BitMap → Result ℕ
num_clear m = num_clear_from m 0 m.num_bits
