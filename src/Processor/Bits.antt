-- ===== src/Processor/Bits.antt =====
-- Bounds of the operations on bits that machine/mipssim.cc uses: words stay words.
use Prim.Native.Nat.{
  min, max, bit_and, bit_or, bit_xor, digits, differ, bit_and-bitwise, bit_or-bitwise,
  bit_xor-bitwise,
}
use native.Mathlib.Nat.{pow-succ'}
use csci402_projects.Base.{ℕ, zero, suc, ◌/◌, ◌%◌, ◌^◌, ◌≤◌, ◌<◌, subst, sym, arith}
use csci402_projects.Processor.Words.{word_limit}

-- An operation on digits gives numbers of at most as many digits.
digits_lt :
    (z : ℕ → ℕ) (f : ℕ → ℕ → ℕ)
    → ((b : ℕ) → z b ≤ b)
    → ((x y : ℕ) → x < 2 → y < 2 → f x y < 2)
    → (k n a b : ℕ) → a < 2 ^ k
    → b < 2 ^ k
    → digits z f n a b < 2 ^ k
digits_lt z f hz hf k zero a b ha hb = omega (arith, hz b)
digits_lt z f hz hf k (suc n) zero b ha hb = omega (arith, hz b)
digits_lt z f hz hf zero (suc n) (suc a) b ha hb = absurd (omega arith)
digits_lt z f hz hf (suc k) (suc n) (suc a) b ha hb = omega (
  arith,
  digits_lt z f hz hf k n (suc a / 2) (b / 2) (omega (arith, pow-succ' 2 k))
      (omega (arith, pow-succ' 2 k)),
  hf (suc a % 2) (b % 2) (omega arith) (omega arith),
  pow-succ' 2 k,
)

differ_lt : (x y : ℕ) → x < 2 → y < 2 → differ x y < 2
differ_lt zero y hx hy = hy
differ_lt (suc x) zero hx hy = hx
differ_lt (suc x) (suc y) hx hy = differ_lt x y (omega arith) (omega arith)

module _ (a b : ℕ) (ha : a < word_limit) (hb : b < word_limit) where
  pub bit_and_lt : bit_and a b < word_limit
  bit_and_lt =
      subst (λ (n : ℕ). n < word_limit) (sym (bit_and-bitwise a b))
        (digits_lt _ min (λ b. omega arith) (λ x y hx hy. omega arith) 32 a a b ha hb)

  pub bit_or_lt : bit_or a b < word_limit
  bit_or_lt =
      subst (λ (n : ℕ). n < word_limit) (sym (bit_or-bitwise a b))
        (digits_lt _ max (λ b. omega arith) (λ x y hx hy. omega arith) 32 a a b ha hb)

  pub bit_xor_lt : bit_xor a b < word_limit
  bit_xor_lt =
      subst (λ (n : ℕ). n < word_limit) (sym (bit_xor-bitwise a b))
        (digits_lt _ differ (λ b. omega arith) differ_lt 32 a a b ha hb)
