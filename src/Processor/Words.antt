-- ===== src/Processor/Words.antt =====
-- The arithmetic of C's `int` that machine/mipssim.cc uses. A value is its pattern of 32 bits, a
-- number below 2^32, and a sum, a product or a shift keeps the low 32 bits.
use csci402_projects.Base.{
  ℕ, zero, suc, ◌+◌, ◌-◌, ◌*◌, ◌/◌, ◌%◌, Bool, not, ltb, leb, if◌then◌else◌,
}

abbrev pub word_limit : ℕ
word_limit = 4294967296

-- SIGN_BIT
abbrev pub sign_bit : ℕ
sign_bit = 2147483648

-- `x & SIGN_BIT`, which is `x < 0`
abbrev pub negative : ℕ → Bool
negative x = leb sign_bit x

-- `(x ^ y) & SIGN_BIT`
abbrev pub signs_differ : ℕ → ℕ → Bool
signs_differ x y = if negative x then not (negative y) else negative y

abbrev pub add : ℕ → ℕ → ℕ
add x y = (x + y) % word_limit

-- `-x`
abbrev pub negate : ℕ → ℕ
negate x = (word_limit - x) % word_limit

abbrev pub subtract : ℕ → ℕ → ℕ
subtract x y = (x + (word_limit - y)) % word_limit

-- `~x`
abbrev pub complement : ℕ → ℕ
complement x = word_limit - 1 - x

abbrev pub magnitude : ℕ → ℕ
magnitude x = if negative x then negate x else x

-- `x < y` on `int`
abbrev pub less_signed : ℕ → ℕ → Bool
less_signed x y = ltb (add x sign_bit) (add y sign_bit)

-- `x << 1`
abbrev pub double : ℕ → ℕ
double x = 2 * x % word_limit

-- `x >> 1` on `int`: the sign stays.
abbrev pub half : ℕ → ℕ
half x = if negative x then x / 2 + sign_bit else x / 2

-- `x << n`
unfoldable pub shift_left : ℕ → ℕ → ℕ
shift_left x zero = x
shift_left x (suc n) = double (shift_left x n)

-- `x >> n` on `int`
unfoldable pub shift_right : ℕ → ℕ → ℕ
shift_right x zero = x
shift_right x (suc n) = half (shift_right x n)

-- C's `/` and `%` on `int`, which round towards zero, where the quotient is an `int`.
abbrev pub quotient : ℕ → ℕ → ℕ
quotient x y = let q = magnitude x / magnitude y in if signs_differ x y then negate q else q

abbrev pub remainder : ℕ → ℕ → ℕ
remainder x y = let m = magnitude x % magnitude y in if negative x then negate m else m

-- IndexToAddr
abbrev pub index_to_addr : ℕ → ℕ
index_to_addr x = double (double x)

-- The sign of a 16-bit field: `extra |= 0xffff0000` when `extra & 0x8000`.
abbrev pub extend_half : ℕ → ℕ
extend_half x = if leb 32768 x then x + 4294901760 else x

-- `value |= 0xffffff00` when `value & 0x80`, else `value &= 0xff`.
abbrev pub extend_byte : ℕ → ℕ
extend_byte x = if leb 128 x then x + 4294967040 else x
