-- ===== src/Processor/Multiply.antt =====
-- `Mult` of machine/mipssim.cc: shift and add, on two words for the result and two for the shifted
-- factor.
use csci402_projects.Base.{
  ℕ, zero, suc, ◌+◌, ◌/◌, ◌%◌, Bool, ◌&&◌, ◌||◌, ◌==◌, ltb, leb, if◌then◌else◌,
}
use csci402_projects.Processor.Words.{
  sign_bit, signs_differ, add, complement, magnitude, double, half,
}

-- The result, as the words at `hiPtr` and `loPtr`.
pub record Product : Type 0 where
  pub hi : ℕ
  pub lo : ℕ

-- `lo += bLo; if (lo < bLo) hi += 1; hi += bHi;`
abbrev pub accumulate : Product → ℕ → ℕ → Product
accumulate p b_hi b_lo =
    let lo = add p.lo b_lo in
    record { hi = add (if ltb lo b_lo then add p.hi 1 else p.hi) b_hi; lo = lo }

-- `bHi <<= 1; if (bLo & 0x80000000) bHi |= 1;`
abbrev pub carry_left : ℕ → ℕ → ℕ
carry_left b_hi b_lo = if leb sign_bit b_lo then double b_hi + 1 else double b_hi

-- The loop, with `n` rounds to go.
unfoldable pub mult_loop : ℕ → ℕ → ℕ → ℕ → Product → Product
mult_loop zero a b_hi b_lo p = p
mult_loop (suc n) a b_hi b_lo p =
    let added = if a % 2 == 1 then accumulate p b_hi b_lo else p in
    let rest = mult_loop n (half a) (carry_left b_hi b_lo) (double b_lo) added in
    if a % 2 == 1 && a / 2 == 0 then added else rest

-- `hi = ~hi; lo = ~lo; lo++; if (lo == 0) hi++;`
abbrev pub complement_product : Product → Product
complement_product p =
    let lo = add (complement p.lo) 1 in
    record { hi = if lo == 0 then add (complement p.hi) 1 else complement p.hi; lo = lo }

abbrev pub zero_product : Product
zero_product = record { hi = 0; lo = 0 }

unfoldable pub mult : ℕ → ℕ → Bool → Product
unfolding mult_loop
mult a b signed_arith =
    let a' = if signed_arith then magnitude a else a in
    let b' = if signed_arith then magnitude b else b in
    let p = mult_loop 32 a' 0 b' zero_product in
    if a == 0 || b == 0
    then zero_product
    else if signed_arith && signs_differ a b
    then complement_product p
    else p
