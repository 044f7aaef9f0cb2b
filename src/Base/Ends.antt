-- ===== src/Base/Ends.antt =====
-- Runs whose loops end by themselves, well or in a fault, and not with their fuel.
use mathlib.Core.Path.{◌≡◌, refl}
use mathlib.Core.Bool.{Bool, true, false}
use hdfmonkey.Base.Runs.{Run, ok, fault, out_of_fuel, Cmd, and_then}
use hdfmonkey.Base.Safety.{holds}

-- The run has not met the end of its fuel; `q` holds of its result, if there is one.
abbrev pub ends : {S A : Type 0} → (A → Bool) → Run S A → Bool
ends q (ok a s) = q a
ends q fault = true
ends q out_of_fuel = false

abbrev pub whatever : {A : Type 0} → A → Bool
whatever a = true

pub bind_ends :
    {S A B : Type 0} (q : A → Bool) (p : B → Bool) (r : Run S A) (k : A → Cmd S B)
    → ends q r ≡ true
    → ((a : A) (s : S) → q a ≡ true → ends p (k a s) ≡ true)
    → ends p (and_then r k) ≡ true
bind_ends q p (ok a s) k h next = next a s h
bind_ends q p fault k h next = refl
bind_ends q p out_of_fuel k h next = cc

-- A run that neither faults nor meets the end of its fuel returns.
pub returns :
    {S A : Type 0} (q : A → S → Bool) (r : Run S A)
    → holds q r ≡ true
    → ends whatever r ≡ true
    → (a : A) × (s : S) × (r ≡ ok a s) × (q a s ≡ true)
returns q (ok a s) h e = (a, s, refl, h)
returns q fault h e = cc
returns q out_of_fuel h e = cc
