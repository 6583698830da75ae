-- ===== src/Base/Results.antt =====
-- Results of code that may run into undefined behaviour: an access outside a table, or through a
-- null pointer, or to memory that was freed, an ASSERT that fails, or a division that overflows, is a
-- fault, and nothing is said of what happens after it.
use mathlib.Core.Path.{◌≡◌, refl, sym, subst}
use mathlib.Core.Bool.{Bool, true, false}
use csci402_projects.Base.Tests.{if◌then◌else◌}

pub data Fault : Type 0 where
  out_of_bounds : Fault
  null_pointer : Fault
  assertion : Fault
  dangling : Fault
  overflow : Fault

pub data Result {ℓ} (T : Type ℓ) : Type ℓ where
  fault : (reason : Fault) → Result T
  ok : (value : T) → Result T

-- What follows a fault does not run.
infixl 5 ◌>>=◌
abbrev pub ◌>>=◌ {ℓ κ} : {T : Type ℓ} {U : Type κ} → Result T → (T → Result U) → Result U
fault reason >>= next = fault reason
ok value >>= next = next value

-- The result of code that faults exactly when the test holds.
abbrev pub Meets {ℓ} : {A : Type ℓ} → Bool → (A → Type 0) → Result A → Type 0
Meets test P (fault reason) = test ≡ true
Meets test P (ok x) = (test ≡ false) × P x

-- With the value that the code gives.
pub Meets-value :
    {A : Type 0} (test : Bool) (P : A → Type 0) (r : Result A)
    → Meets test P r
    → Meets test (λ x. P x × (r ≡ ok x)) r
Meets-value test P (fault reason) h = h
Meets-value test P (ok x) h = (h.0, (h.1, refl))

-- Code after code that does not fault.
pub Meets-next {ℓ κ} :
    {A : Type ℓ} {B : Type κ} (test : Bool) {P : A → Type 0} (Q : B → Type 0) (r : Result A)
    (next : A → Result B)
    → Meets false P r
    → ((x : A) → P x → Meets test Q (next x))
    → Meets test Q (r >>= next)
Meets-next test Q (ok x) next h rest = rest x h.1
Meets-next test Q (fault reason) next h rest = cc

pub if-cases {ℓ κ} :
    {A : Type ℓ} (P : A → Type κ) (b : Bool) {x y : A}
    → (b ≡ true → P x)
    → (b ≡ false → P y)
    → P (if b then x else y)
if-cases P true px py = px refl
if-cases P false px py = py refl

pub Meets-weaken {ℓ} :
    {A : Type ℓ} (test : Bool) {P : A → Type 0} (Q : A → Type 0) (r : Result A)
    → ((x : A) → P x → Q x)
    → Meets test P r
    → Meets test Q r
Meets-weaken test Q (fault reason) weaker h = h
Meets-weaken test Q (ok x) weaker h = (h.0, weaker x h.1)

-- Code that does not fault after code that may.
pub Meets-before {ℓ κ} :
    {A : Type ℓ} {B : Type κ} (test : Bool) {P : A → Type 0} (Q : B → Type 0) (r : Result A)
    (next : A → Result B)
    → Meets test P r
    → ((x : A) → P x → Meets false Q (next x))
    → Meets test Q (r >>= next)
Meets-before test Q (ok x) next h rest = subst (λ b. Meets b Q (next x)) (sym h.0) (rest x h.1)
Meets-before test Q (fault reason) next h rest = h
