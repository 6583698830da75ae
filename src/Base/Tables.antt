-- ===== src/Base/Tables.antt =====
-- Tables as functions of the index, with an update at one index.
use Prim.Native.Nat.{ℕ}
use mathlib.Core.Path.{◌≡◌}
use mathlib.Core.Logic.{◌≢◌, inl, inr}
use native.Mathlib.Omega.{arith}
use csci402_projects.Base.Tests.{◌==◌, if◌then◌else◌, Bool-cases}

module _ {ℓ} {A : Type ℓ} where
  abbrev pub update : (ℕ → A) → ℕ → A → ℕ → A
  update f i a j = if i == j then a else f j

  pub update_self : (f : ℕ → A) (i : ℕ) (a : A) → update f i a i ≡ a
  update_self f i a = ground arith

  pub update_other : (f : ℕ → A) (i j : ℕ) (a : A) → i ≢ j → update f i a j ≡ f j
  update_other f i j a h = ground arith

-- A field of an updated table.
pub map-update {ℓ κ} :
    {A : Type ℓ} {B : Type κ} (f : A → B) (t : ℕ → A) (i : ℕ) (a : A) (j : ℕ)
    → f (update t i a j) ≡ update (λ k. f (t k)) i (f a) j
map-update f t i a j = elim (Bool-cases (i == j)) [ inl here ↦ rw here | inr there ↦ rw there ]
