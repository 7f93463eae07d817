-- ===== src/Prelude/Outcome.antt =====
-- The pair of a value and an error that Go's fallible functions return, of which one is meant.
use mathlib.Core.Path.{◌≡◌, refl}
use mathlib.Core.Logic.{◌⊎◌, inl, inr}

pub data Result (E A : Type 0) : Type 0 where
  ok : A → Result E A
  failed : E → Result E A

pub Result-cases :
    {E A : Type 0} (r : Result E A) → ((a : A) × (r ≡ ok a)) ⊎ ((e : E) × (r ≡ failed e))
Result-cases (ok a) = inl (a, refl)
Result-cases (failed e) = inr (e, refl)
