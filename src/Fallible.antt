-- ===== src/Fallible.antt =====
-- Code that can panic or fail, `Outcome (Result E A)`.
use shulker.Prelude.{◌≡◌, refl}
use shulker.Outcome.{Outcome, ok, panicked, running}
use shulker.Result.{Result}

-- `?` after a step that can also panic.
abbrev pub and_then {ℓ κ μ} :
    {E : Type ℓ} {A : Type κ} {B : Type μ}
    → Outcome (Result E A)
    → (A → Outcome (Result E B))
    → Outcome (Result E B)
and_then (ok (Result.ok a)) next = next a
and_then (ok (Result.err e)) next = ok (Result.err e)
and_then panicked next = panicked
and_then running next = running

-- Inversion of a successful `?`.
pub and_then-eq-ok {ℓ κ μ} :
    {E : Type ℓ} {A : Type κ} {B : Type μ} (first : Outcome (Result E A))
    (next : A → Outcome (Result E B)) {result : B}
    → and_then first next ≡ ok (Result.ok result)
    → (middle : A) × (first ≡ ok (Result.ok middle)) × (next middle ≡ ok (Result.ok result))
and_then-eq-ok (ok (Result.ok a)) next h = (a, refl, h)
and_then-eq-ok (ok (Result.err e)) next h = cc
and_then-eq-ok panicked next h = cc
and_then-eq-ok running next h = cc
