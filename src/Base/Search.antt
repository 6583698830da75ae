-- ===== src/Base/Search.antt =====
-- The loop that stops at the first index that passes a test.
use Prim.Native.Nat.{ℕ, zero, suc, ◌+◌, ◌≤◌, ◌<◌}
use mathlib.Core.Path.{◌≡◌, refl, subst}
use mathlib.Core.Bool.{Bool, true, false}
use mathlib.Core.Option.{Option, none, some}
use mathlib.Core.Logic.{inl, inr}
use native.Mathlib.Omega.{arith}
use csci402_projects.Base.Tests.{if◌then◌else◌, Bool-cases, Option-cases}

-- The first index from `i` on, with `left` rounds to go; `none` is -1.
unfoldable pub first_from : (ℕ → Bool) → ℕ → ℕ → Option ℕ
first_from test i zero = none
first_from test i (suc left) =
    let rest = first_from test (suc i) left in if test i then some i else rest

-- What the loop found: the first index that passes, or that none does.
abbrev pub IsFirst : (ℕ → Bool) → ℕ → ℕ → Option ℕ → Type 0
IsFirst test i n none = (k : ℕ) → i ≤ k → k < n → test k ≡ false
IsFirst test i n (some j) =
    (i ≤ j) × (j < n) × (test j ≡ true) × ((k : ℕ) → i ≤ k → k < j → test k ≡ false)

first_from-IsFirst :
    (test : ℕ → Bool) (i left n : ℕ) → i + left ≡ n → IsFirst test i n (first_from test i left)
unfolding first_from
first_from-IsFirst test i zero n end = λ k le lt. absurd (omega arith)
first_from-IsFirst test i (suc left) n end = elim (Bool-cases (test i)) [
  | inl hit ↦ rw hit (omega arith, omega arith, hit, λ k le lt. absurd (omega arith))
  | inr miss ↦ rw miss (
      later (first_from test (suc i) left) (first_from-IsFirst test (suc i) left n (omega arith))
        miss)
]
  where
    later : (r : Option ℕ) → IsFirst test (suc i) n r → test i ≡ false → IsFirst test i n r
    later none all miss = λ k le lt. ground (arith, all k)
    later (some j) (le, lt, hit, before) miss =
        (omega arith, lt, hit, λ k le' lt'. ground (arith, before k))

-- The loop over the indices below `n`.
abbrev pub first_below : (ℕ → Bool) → ℕ → Option ℕ
first_below test n = first_from test 0 n

pub first_below-IsFirst : (test : ℕ → Bool) (n : ℕ) → IsFirst test 0 n (first_below test n)
first_below-IsFirst test n = first_from-IsFirst test 0 n n (omega arith)

module _ (test : ℕ → Bool) (n : ℕ) where
  pub first_below-some :
      (i : ℕ)
      → first_below test n ≡ some i
      → (i < n) × (test i ≡ true) × ((k : ℕ) → k < i → test k ≡ false)
  first_below-some i e =
      let (_, lt, hit, before) = subst (IsFirst test 0 n) e (first_below-IsFirst test n) in
      (lt, hit, λ k lt'. before k (omega arith) lt')

  pub first_below-none : (i : ℕ) → first_below test n ≡ none → i < n → test i ≡ false
  first_below-none i e lt =
      subst (IsFirst test 0 n) e (first_below-IsFirst test n) i (omega arith) lt

  -- An index passes.
  pub first_below-hit :
      (i : ℕ)
      → i < n
      → test i ≡ true
      → (j : ℕ) × (first_below test n ≡ some j) × (j < n) × (test j ≡ true)
  first_below-hit i lt hit = elim (Option-cases (first_below test n)) [
    | inl e ↦ absurd (ground (arith, first_below-none i e lt))
    | inr (j, e) ↦ let (lt', hit', _) = first_below-some j e in (j, e, lt', hit')
  ]

-- Two tests that agree find the same.
pub first_from-ext :
    (test test' : ℕ → Bool) (i left : ℕ)
    → ((k : ℕ) → test k ≡ test' k)
    → first_from test i left ≡ first_from test' i left
unfolding first_from
first_from-ext test test' i zero same = refl
first_from-ext test test' i (suc left) same =
    rw (same i) rw (first_from-ext test test' (suc i) left same) refl
