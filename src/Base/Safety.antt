-- ===== src/Base/Safety.antt =====
-- Runs without a fault. A loop that met the end of its fuel has not faulted.
use mathlib.Core.Path.{◌≡◌, refl}
use mathlib.Core.Logic.{◌⊎◌, inl, inr}
use mathlib.Core.Bool.{Bool, true, false}
use hdfmonkey.Base.Runs.{Run, ok, fault, out_of_fuel, Cmd, and_then}
use hdfmonkey.Base.Int.{ℤ, pos, negsuc}
use Prim.Native.Nat.{ℕ}

-- The run has not faulted, and `q` holds of its result and the state that it leaves.
abbrev pub holds : {S A : Type 0} → (A → S → Bool) → Run S A → Bool
holds q (ok a s) = q a s
holds q fault = false
holds q out_of_fuel = true

abbrev pub anything : {S A : Type 0} → A → S → Bool
anything a s = true

pub ℤ-cases : (z : ℤ) → ((n : ℕ) × (z ≡ pos n)) ⊎ ((n : ℕ) × (z ≡ negsuc n))
ℤ-cases (pos n) = inl (n, refl)
ℤ-cases (negsuc n) = inr (n, refl)

-- What follows a run without a fault.
pub bind_safe :
    {S A B : Type 0} (q : A → S → Bool) (p : B → S → Bool) (r : Run S A) (k : A → Cmd S B)
    → holds q r ≡ true
    → ((a : A) (s : S) → q a s ≡ true → holds p (k a s) ≡ true)
    → holds p (and_then r k) ≡ true
bind_safe q p (ok a s) k h next = next a s h
bind_safe q p fault k h next = cc
bind_safe q p out_of_fuel k h next = refl
