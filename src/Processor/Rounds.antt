-- ===== src/Processor/Rounds.antt =====
-- The rounds of `Mult` of machine/mipssim.cc: what the loop adds, modulo the double word.
use native.Mathlib.Nat.{
  mul_assoc, mul-add, mod-add-mod, add-mul-mod_self_left, mod-lt, mod-eq_of_lt, mod-add-div,
  pow-succ', one-le-pow,
}
use csci402_projects.Base.{
  ℕ, zero, suc, ◌+◌, ◌-◌, ◌*◌, ◌/◌, ◌%◌, ◌^◌, ◌<◌, ◌≡◌, refl, sym, ◌∙◌, ap, Bool, true, false, ◌&&◌,
  ◌==◌, if◌then◌else◌, arith, Bool-cases, inl, inr,
}
use csci402_projects.Processor.Words.{word_limit, sign_bit, negative, double, half}
use csci402_projects.Processor.Multiply.{
  Product, accumulate, carry_left, mult_loop, complement_product,
}

abbrev pub wide_limit : ℕ
wide_limit = 18446744073709551616

abbrev pub value : Product → ℕ
value p = p.hi * word_limit + p.lo

-- Both words of a product are words.
pub record IsProduct (p : Product) : Type 0 where
  pub high : p.hi < word_limit
  pub low : p.lo < word_limit

-- The number that the low `n` bits of `a` form, when `a` is shifted like an `int`.
unfoldable pub bits : ℕ → ℕ → ℕ
bits zero a = 0
bits (suc n) a = a % 2 + 2 * bits n (half a)

module _ (p : Product) (b_hi b_lo : ℕ) (hp : IsProduct p) (h1 : b_hi < word_limit)
    (h2 : b_lo < word_limit) where
  accumulate-IsProduct : IsProduct (accumulate p b_hi b_lo)
  accumulate-IsProduct = record { high = ground arith; low = ground arith }

  accumulate-value :
      value (accumulate p b_hi b_lo) ≡ (value p + (b_hi * word_limit + b_lo)) % wide_limit
  accumulate-value = let a = hp.high in let b = hp.low in ground arith

carry_left-value :
    (b_hi b_lo : ℕ)
    → b_hi < word_limit
    → b_lo < word_limit
    → carry_left b_hi b_lo * word_limit + double b_lo ≡ 2 * (b_hi * word_limit + b_lo) % wide_limit
carry_left-value b_hi b_lo h1 h2 = ground arith

pub carry_left_lt : (b_hi b_lo : ℕ) → carry_left b_hi b_lo < word_limit
carry_left_lt b_hi b_lo = ground arith

pub half_lt : (a : ℕ) → a < word_limit → half a < word_limit
half_lt a h = ground arith

pub complement_product-value :
    (p : Product) → IsProduct p → value (complement_product p) ≡ (wide_limit - value p) % wide_limit
complement_product-value p h = let a = h.high in let b = h.low in ground arith

pub complement_product-IsProduct : (p : Product) → IsProduct p → IsProduct (complement_product p)
complement_product-IsProduct p h =
    let a = h.high in let b = h.low in record { high = ground arith; low = ground arith }

-- A factor may be reduced first.
pub mul-mod_in : (x r y m : ℕ) → (x + r * (y % m)) % m ≡ (x + r * y) % m
mul-mod_in x r y m =
    let whole : r * (y % m) + m * (r * (y / m)) ≡ r * y =
      omega (arith, mul-add r (y % m) (m * (y / m)), ap (λ (z : ℕ). r * z) (mod-add-div y m)) in
    sym (add-mul-mod_self_left (x + r * (y % m)) m (r * (y / m)))
    ∙ ap (λ (z : ℕ). z % m) (omega arith)

-- One round: what was added, and the doubled factor.
round-mod : (m x d r b : ℕ) → ((x + d * b) % m + r * (2 * b % m)) % m ≡ (x + (d + 2 * r) * b) % m
round-mod m x d r b =
    mod-add-mod (x + d * b) m (r * (2 * b % m))
    ∙ mul-mod_in (x + d * b) r (2 * b) m
    ∙ ap (λ (z : ℕ). z % m) (omega arith)

bits-zero : (n : ℕ) → bits n 0 ≡ 0
unfolding bits
bits-zero zero = refl
bits-zero (suc n) = omega (arith, bits-zero n)

-- What a round adds.
abbrev added : ℕ → ℕ → ℕ → Product → Product
added a b_hi b_lo p = if a % 2 == 1 then accumulate p b_hi b_lo else p

pub if-IsProduct :
    (b : Bool) (p q : Product) → IsProduct p → IsProduct q → IsProduct (if b then p else q)
if-IsProduct true p q hp hq = hp
if-IsProduct false p q hp hq = hq

module _ (a b_hi b_lo : ℕ) (p : Product) (hp : IsProduct p) (h1 : b_hi < word_limit)
    (h2 : b_lo < word_limit) where
  added-IsProduct : IsProduct (added a b_hi b_lo p)
  added-IsProduct = if-IsProduct (a % 2 == 1) _ _ (accumulate-IsProduct p b_hi b_lo hp h1 h2) hp

  added-value :
      value (added a b_hi b_lo p) ≡ (value p + a % 2 * (b_hi * word_limit + b_lo)) % wide_limit
  added-value =
      let total : ℕ → ℕ = λ d. (value p + d * (b_hi * word_limit + b_lo)) % wide_limit in
      elim (Bool-cases (a % 2 == 1)) [
        | inl odd ↦ rw odd (
            let one : value (accumulate p b_hi b_lo) ≡ total 1 =
              omega (arith, accumulate-value p b_hi b_lo hp h1 h2) in
            one ∙ ap total (let d : 1 ≡ a % 2 = ground arith in d))
        | inr even ↦
            let x = hp.high in
            let y = hp.low in
            rw even (
              let none : value p ≡ total 0 = omega arith in
              none ∙ ap total (let d : 0 ≡ a % 2 = ground arith in d))
      ]

pub mult_loop-IsProduct :
    (n a b_hi b_lo : ℕ) (p : Product)
    → IsProduct p
    → b_hi < word_limit
    → b_lo < word_limit
    → IsProduct (mult_loop n a b_hi b_lo p)
unfolding mult_loop
mult_loop-IsProduct zero a b_hi b_lo p hp h1 h2 = hp
mult_loop-IsProduct (suc n) a b_hi b_lo p hp h1 h2 =
    let now = added-IsProduct a b_hi b_lo p hp h1 h2 in
    if-IsProduct (a % 2 == 1 && a / 2 == 0) _ _ now (
      mult_loop-IsProduct n (half a) (carry_left b_hi b_lo) (double b_lo) (added a b_hi b_lo p) now
        (carry_left_lt b_hi b_lo) (omega arith))

-- The loop adds the product of the bits that are left and the shifted factor.
pub mult_loop-value :
    (n a b_hi b_lo : ℕ) (p : Product)
    → IsProduct p
    → a < word_limit
    → b_hi < word_limit
    → b_lo < word_limit
    → value (mult_loop n a b_hi b_lo p)
      ≡ (value p + bits n a * (b_hi * word_limit + b_lo)) % wide_limit
unfolding mult_loop bits
mult_loop-value zero a b_hi b_lo p hp h0 h1 h2 = let x = hp.high in let y = hp.low in omega arith
mult_loop-value (suc n) a b_hi b_lo p hp h0 h1 h2 =
    let now = added-IsProduct a b_hi b_lo p hp h1 h2 in
    let sum = added-value a b_hi b_lo p hp h1 h2 in
    let total : ℕ → ℕ = λ d. (value p + d * (b_hi * word_limit + b_lo)) % wide_limit in
    elim (Bool-cases (a % 2 == 1 && a / 2 == 0)) [
      | inl last ↦
          let nothing : bits n (half a) ≡ 0 =
            ap (bits n) (let d : half a ≡ 0 = ground arith in d) ∙ bits-zero n in
          rw last (
            sum
            ∙ ap total (let d : a % 2 ≡ a % 2 + 2 * bits n (half a) = omega (arith, nothing) in d))
      | inr more ↦ rw more (
          mult_loop-value n (half a) (carry_left b_hi b_lo) (double b_lo) (added a b_hi b_lo p) now
            (half_lt a h0) (carry_left_lt b_hi b_lo) (omega arith)
          ∙ ap
              (λ (x : ℕ).
                (x + bits n (half a) * (carry_left b_hi b_lo * word_limit + double b_lo))
                % wide_limit)
              sum
          ∙ ap (λ (x : ℕ). (total (a % 2) + bits n (half a) * x) % wide_limit)
              (carry_left-value b_hi b_lo h1 h2)
          ∙ round-mod wide_limit (value p) (a % 2) (bits n (half a)) (b_hi * word_limit + b_lo))
    ]

-- Shifting like an `int` keeps the bits that are left.
half-mod : (m q a : ℕ) → m * q ≡ sign_bit → half a % m ≡ a / 2 % m
half-mod m q a e = elim (Bool-cases (negative a)) [
  | inl neg ↦ rw (neg, sym e) (add-mul-mod_self_left (a / 2) m q)
  | inr pos ↦ rw pos refl
]

mod_double : (m a : ℕ) → 0 < m → a % (2 * m) ≡ a % 2 + 2 * (a / 2 % m)
mod_double m a h =
    let rest = a % 2 + 2 * (a / 2 % m) in
    let whole : rest + 2 * m * (a / 2 / m) ≡ a = omega (arith, mod-add-div (a / 2) m) in
    ap (λ (x : ℕ). x % (2 * m)) (sym whole)
    ∙ add-mul-mod_self_left rest (2 * m) (a / 2 / m)
    ∙ mod-eq_of_lt (omega (arith, mod-lt (a / 2) h))

bits-mod : (n q a : ℕ) → a < word_limit → 2 ^ n * q ≡ word_limit → bits n a ≡ a % 2 ^ n
unfolding bits
bits-mod zero q a h e = omega arith
bits-mod (suc n) q a h e =
    let same : 2 * (2 ^ n * q) ≡ word_limit =
      sym (mul_assoc 2 (2 ^ n) q) ∙ ap (λ (z : ℕ). z * q) (sym (pow-succ' 2 n)) ∙ e in
    rw (pow-succ' 2 n) (
      omega (
        arith,
        bits-mod n (2 * q) (half a) (half_lt a h) (omega (arith, same)),
        half-mod (2 ^ n) q a (omega (arith, same)),
        mod_double (2 ^ n) a (one-le-pow n 2 (omega arith)),
      ))

pub bits_all : (a : ℕ) → a < word_limit → bits 32 a ≡ a
bits_all a h = bits-mod 32 1 a h refl ∙ mod-eq_of_lt h
