-- ===== src/Base/Members.antt =====
-- Membership of a number in a list as a Boolean test, and lists with no number twice.
use Prim.Native.Nat.{ℕ}
use mathlib.Core.Path.{◌≡◌, refl}
use mathlib.Core.Bool.{Bool, false, ◌||◌}
use mathlib.Core.List.{List, [], ◌∷◌, ◌++◌}
use native.Mathlib.Omega.{arith}
use csci402_projects.Base.Tests.{◌==◌}

abbrev pub mem : ℕ → List ℕ → Bool
mem t [] = false
mem t (x ∷ xs) = (x == t) || mem t xs

abbrev pub Uniq : List ℕ → Type 0
Uniq [] = Unit
Uniq (x ∷ xs) = (mem x xs ≡ false) × Uniq xs

pub mem-append : (t : ℕ) (xs : List ℕ) (u : ℕ) → mem t (xs ++ (u ∷ [])) ≡ (mem t xs || (u == t))
mem-append t [] u = ground arith
mem-append t (x ∷ xs) u = ground (arith, mem-append t xs u)

pub Uniq-append : (xs : List ℕ) (t : ℕ) → Uniq xs → mem t xs ≡ false → Uniq (xs ++ (t ∷ []))
Uniq-append [] t u h = (refl, tt)
Uniq-append (x ∷ xs) t u h = ground (arith, Uniq-append xs t u.1, mem-append x xs t)
