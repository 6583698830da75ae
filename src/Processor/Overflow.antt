-- ===== src/Processor/Overflow.antt =====
-- The additions and the subtraction of machine/mipssim.cc that trap: an independent description of
-- them on integers, and the proof that the tests of the signs agree with it.
use csci402_projects.Base.{
  ℕ, ◌+◌, ◌-◌, ◌<◌, ◌≡◌, refl, ap, ◌∙◌, Bool, true, false, ◌&&◌, not, ltb, leb, if◌then◌else◌, ℤ,
  pos, negsuc, Result, ok, arith, Bool-cases, inl, inr,
}
use csci402_projects.Processor.Words.{word_limit, sign_bit, negative, signs_differ, add, subtract}
use csci402_projects.Processor.Registers.{Registers, Instruction, op_add, op_addi, op_sub}
use csci402_projects.Processor.Execute.{
  Effect, raises, sets, overflow_exception, sum_overflows, difference_overflows, compute,
}

-- The integer that a word stands for, and the word of an integer.
abbrev pub to_int : ℕ → ℤ
to_int x = if negative x then negsuc (word_limit - 1 - x) else pos x

abbrev pub of_int : ℤ → ℕ
of_int (pos n) = n
of_int (negsuc n) = word_limit - 1 - n

-- `m - n`
abbrev pub difference : ℕ → ℕ → ℤ
difference m n = if leb n m then pos (m - n) else negsuc (n - m - 1)

infixl 60 ◌+ℤ◌
abbrev pub ◌+ℤ◌ : ℤ → ℤ → ℤ
pos m +ℤ pos n = pos (m + n)
pos m +ℤ negsuc n = difference m (n + 1)
negsuc m +ℤ pos n = difference n (m + 1)
negsuc m +ℤ negsuc n = negsuc (m + n + 1)

infixl 60 ◌-ℤ◌
abbrev pub ◌-ℤ◌ : ℤ → ℤ → ℤ
pos m -ℤ pos n = difference m n
pos m -ℤ negsuc n = pos (m + n + 1)
negsuc m -ℤ pos n = negsuc (m + n)
negsuc m -ℤ negsuc n = difference n m

-- The integer is an `int`.
abbrev pub fits : ℤ → Bool
fits (pos n) = ltb n sign_bit
fits (negsuc n) = ltb n sign_bit

-- What an instruction that traps on overflow does with its exact result.
abbrev pub exactly : Registers → ℕ → ℤ → Result Effect
exactly r reg z = if fits z then ok (sets r reg (of_int z)) else ok (raises r overflow_exception 0)

-- A test for overflow that agrees with the integers, and a result that agrees without overflow.
record Agrees (over : Bool) (result : ℕ) (z : ℤ) : Type 0 where
  test : over ≡ not (fits z)
  same : over ≡ false → result ≡ of_int z

Agrees-exactly :
    (r : Registers) (reg : ℕ) (over : Bool) (result : ℕ) (z : ℤ)
    → Agrees over result z
    → (if over then ok (raises r overflow_exception 0) else ok (sets r reg result))
      ≡ exactly r reg z
Agrees-exactly r reg over result z h = elim (Bool-cases (fits z)) [
  | inl f ↦
      let o : over ≡ false = h.test ∙ ap not f in
      rw (o, f) (ap (λ (v : ℕ). ok (sets r reg v)) (h.same o))
  | inr f ↦ let o : over ≡ true = h.test ∙ ap not f in rw (o, f) refl
]

module _ (x y : ℕ) (hx : x < word_limit) (hy : y < word_limit) where
  sum-Agrees : Agrees (sum_overflows x y) (add x y) (to_int x +ℤ to_int y)
  sum-Agrees = record { test = ground arith; same = λ h. ground arith }

  difference-Agrees : Agrees (difference_overflows x y) (subtract x y) (to_int x -ℤ to_int y)
  difference-Agrees = record { test = ground arith; same = λ h. ground arith }

-- The test of ADDI, which compares the sign of the sum with that of the other operand.
addi-Agrees :
    (x y : ℕ)
    → x < word_limit
    → y < word_limit
    → Agrees (not (signs_differ x y) && signs_differ y (add x y)) (add x y) (to_int x +ℤ to_int y)
addi-Agrees x y hx hy = record { test = ground arith; same = λ h. ground arith }

-- On operands that are words ADD, ADDI and SUB compute the sum and the difference of the integers
-- that the words stand for: the result is set when it is an `int`, and otherwise the instruction
-- raises an overflow exception and sets no register.
pub compute-exactly :
    (r : Registers) (i : Instruction)
    → r i.rs < word_limit
    → r i.rt < word_limit
    → i.extra < word_limit
    → (compute op_add r i ≡ exactly r i.rd (to_int (r i.rs) +ℤ to_int (r i.rt)))
      × (compute op_addi r i ≡ exactly r i.rt (to_int (r i.rs) +ℤ to_int i.extra))
      × (compute op_sub r i ≡ exactly r i.rd (to_int (r i.rs) -ℤ to_int (r i.rt)))
unfolding compute
compute-exactly r i hs ht he = (
  Agrees-exactly r i.rd _ _ _ (sum-Agrees _ _ hs ht),
  Agrees-exactly r i.rt _ _ _ (addi-Agrees _ _ hs he),
  Agrees-exactly r i.rd _ _ _ (difference-Agrees _ _ hs ht),
)
