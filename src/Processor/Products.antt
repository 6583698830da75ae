-- ===== src/Processor/Products.antt =====
-- Proofs about `Mult` of machine/mipssim.cc: its shifts and additions give the product.
use native.Mathlib.Nat.{mul_comm, mul-add, add-mul}
use csci402_projects.Base.{
  ℕ, ◌+◌, ◌-◌, ◌*◌, ◌%◌, ◌<◌, ◌≤◌, ◌≡◌, refl, sym, ◌∙◌, ap, Bool, true, false, ◌&&◌, ◌||◌, not,
  ◌==◌, if◌then◌else◌, arith, Bool-cases, inl, inr,
}
use csci402_projects.Processor.Words.{word_limit, negative, signs_differ, magnitude}
use csci402_projects.Processor.Multiply.{Product, mult_loop, complement_product, zero_product, mult}
use csci402_projects.Processor.Rounds.{
  wide_limit, value, IsProduct, complement_product-value, complement_product-IsProduct,
  if-IsProduct, mult_loop-IsProduct, mult_loop-value, bits_all,
}

zero_product-IsProduct : IsProduct zero_product
zero_product-IsProduct = record { high = omega arith; low = omega arith }

-- The loop on two words gives their product.
loop-value :
    (a b : ℕ)
    → a < word_limit
    → b < word_limit
    → value (mult_loop 32 a 0 b zero_product) ≡ a * b % wide_limit
loop-value a b ha hb = omega (
  arith,
  mult_loop-value 32 a 0 b zero_product zero_product-IsProduct ha (omega arith) hb,
  ap (λ (z : ℕ). z * b % wide_limit) (bits_all a ha),
)

module _ (a b : ℕ) (signed : Bool) (ha : a < word_limit) (hb : b < word_limit) where
  abbrev factor : ℕ → ℕ
  factor x = if signed then magnitude x else x

  factor_lt : (x : ℕ) → x < word_limit → factor x < word_limit
  factor_lt x h = ground arith

  pub mult-IsProduct : IsProduct (mult a b signed)
  unfolding mult
  mult-IsProduct =
      let found =
        mult_loop-IsProduct 32 (factor a) 0 (factor b) zero_product zero_product-IsProduct
          (omega arith) (factor_lt b hb) in
      if-IsProduct (a == 0 || b == 0) _ _ zero_product-IsProduct
        (if-IsProduct (signed && signs_differ a b) _ _ (complement_product-IsProduct _ found) found)

-- The word as a number of 64 bits, with its sign if it has one.
unfoldable pub extended : Bool → ℕ → ℕ
extended signed x = if signed && negative x then x + 18446744069414584320 else x

-- Modulo 2^64 a product with one negative factor, and with two.
negated_one :
    (x y : ℕ)
    → x ≤ wide_limit
    → (wide_limit - x) * y % wide_limit ≡ (wide_limit - x * y % wide_limit) % wide_limit
negated_one x y h =
    let both : (wide_limit - x) * y + x * y ≡ wide_limit * y =
      sym (add-mul (wide_limit - x) x y) ∙ ap (λ (z : ℕ). z * y) (omega arith) in
    omega (arith, both)

negated_both :
    (x y : ℕ)
    → x ≤ wide_limit
    → y ≤ wide_limit
    → (wide_limit - x) * (wide_limit - y) % wide_limit ≡ x * y % wide_limit
negated_both x y hx hy =
    let v = wide_limit - y in
    let first : (wide_limit - x) * v + x * v ≡ wide_limit * v =
      sym (add-mul (wide_limit - x) x v) ∙ ap (λ (z : ℕ). z * v) (omega arith) in
    let second : x * v + x * y ≡ x * wide_limit =
      sym (mul-add x v y) ∙ ap (λ (z : ℕ). x * z) (omega arith) in
    omega (arith, first, second)

extended-magnitude :
    (x : ℕ)
    → x < word_limit
    → extended true x ≡ (if negative x then wide_limit - magnitude x else magnitude x)
unfolding extended
extended-magnitude x h = ground arith

magnitude_le : (x : ℕ) → x < word_limit → magnitude x ≤ wide_limit
magnitude_le x h = ground arith

-- A product of numbers with signs is that of their magnitudes, with the sign.
signed_product :
    (b c : Bool) (x y : ℕ)
    → x ≤ wide_limit
    → y ≤ wide_limit
    → (if b then wide_limit - x else x) * (if c then wide_limit - y else y) % wide_limit ≡ (
        if (if b then not c else c)
        then (wide_limit - x * y % wide_limit) % wide_limit
        else x * y % wide_limit)
signed_product true true x y hx hy = negated_both x y hx hy
signed_product true false x y hx hy = negated_one x y hx
signed_product false true x y hx hy =
    ap (λ (z : ℕ). z % wide_limit) (mul_comm x (wide_limit - y))
    ∙ negated_one y x hy
    ∙ ap (λ (z : ℕ). (wide_limit - z % wide_limit) % wide_limit) (mul_comm y x)
signed_product false false x y hx hy = refl

extended-product :
    (x y : ℕ)
    → x < word_limit
    → y < word_limit
    → extended true x * extended true y % wide_limit ≡ (
        if signs_differ x y
        then (wide_limit - magnitude x * magnitude y % wide_limit) % wide_limit
        else magnitude x * magnitude y % wide_limit)
extended-product x y hx hy =
    ap (λ (z : ℕ). z * extended true y % wide_limit) (extended-magnitude x hx)
    ∙ ap
        (λ (z : ℕ). (if negative x then wide_limit - magnitude x else magnitude x) * z % wide_limit)
        (extended-magnitude y hy)
    ∙ signed_product (negative x) (negative y) (magnitude x) (magnitude y) (magnitude_le x hx)
        (magnitude_le y hy)

extended-zero : (signed : Bool) (x : ℕ) → (x == 0) ≡ true → extended signed x ≡ 0
unfolding extended
extended-zero true x h = ground arith
extended-zero false x h = ground arith

zero_factor :
    (signed : Bool) (a b : ℕ)
    → (a == 0 || b == 0) ≡ true
    → 0 ≡ extended signed a * extended signed b % wide_limit
zero_factor signed a b h = elim (Bool-cases (a == 0)) [
  | inl z ↦
      omega (arith, ap (λ (x : ℕ). x * extended signed b % wide_limit) (extended-zero signed a z))
  | inr z ↦
      let w : (b == 0) ≡ true = ground arith in
      sym (
        ap (λ (x : ℕ). extended signed a * x % wide_limit) (extended-zero signed b w) ∙ omega arith)
]

-- The value with the sign of the result.
signed-value :
    (differ : Bool) (p : Product)
    → IsProduct p
    → value (if differ then complement_product p else p)
      ≡ (if differ then (wide_limit - value p) % wide_limit else value p)
signed-value true p h = complement_product-value p h
signed-value false p h = refl

value-if :
    (b : Bool) (p q : Product) (n : ℕ)
    → (b ≡ true → value p ≡ n)
    → value q ≡ n
    → value (if b then p else q) ≡ n
value-if true p q n hp hq = hp refl
value-if false p q n hp hq = hq

-- `Mult` gives the product of its factors, as a double word: with their signs when it is asked to.
pub mult-product :
    (a b : ℕ) (signed : Bool)
    → a < word_limit
    → b < word_limit
    → value (mult a b signed) ≡ extended signed a * extended signed b % wide_limit
unfolding mult extended
mult-product a b true ha hb =
    let p = mult_loop 32 (magnitude a) 0 (magnitude b) zero_product in
    let ma = factor_lt a b true ha hb a ha in
    let mb = factor_lt a b true ha hb b hb in
    let total = loop-value (magnitude a) (magnitude b) ma mb in
    let hp : IsProduct p =
      mult_loop-IsProduct 32 (magnitude a) 0 (magnitude b) zero_product zero_product-IsProduct
        (omega arith) mb in
    value-if (a == 0 || b == 0) zero_product _ _ (zero_factor true a b) (
      signed-value (signs_differ a b) p hp
      ∙ ap (λ (z : ℕ). if signs_differ a b then (wide_limit - z) % wide_limit else z) total
      ∙ sym (extended-product a b ha hb))
mult-product a b false ha hb =
    value-if (a == 0 || b == 0) zero_product _ _ (zero_factor false a b) (loop-value a b ha hb)
