-- ===== src/Common/Inversion.antt =====
-- What a run that returned says of its parts.
use noba_server.Common.Base.{◌≡◌, refl, ◌⊎◌, inl, inr}
use noba_server.Common.Exception.{Exception}
use noba_server.Common.Action.{Result, ok, err}

pub Result-cases {ℓ} :
    {A : Type ℓ} (r : Result A) → ((a : A) × (r ≡ ok a)) ⊎ ((e : Exception) × (r ≡ err e))
Result-cases (ok a) = inl (a, refl)
Result-cases (err e) = inr (e, refl)
