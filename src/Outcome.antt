-- ===== src/Outcome.antt =====
-- The result of a computation that can panic (an `unwrap` of nothing) or, on fuel, be still running.
use shulker.Prelude.{◌≡◌, refl, Bool, true, false, Option, none, some, if◌then◌else◌}

pub data Outcome {ℓ} (A : Type ℓ) : Type ℓ where
  ok : A → Outcome A
  panicked : Outcome A
  running : Outcome A

infixl 5 ◌>>=◌
abbrev pub ◌>>=◌ {ℓ κ} : {A : Type ℓ} {B : Type κ} → Outcome A → (A → Outcome B) → Outcome B
ok result >>= next = next result
panicked >>= next = panicked
running >>= next = running

-- `Option::unwrap`.
abbrev pub unwrap {ℓ} : {A : Type ℓ} → Option A → Outcome A
unwrap none = panicked
unwrap (some a) = ok a

-- Inversion of a successful bind, and of a successful `unwrap`.
pub >>=-eq-ok {ℓ κ} :
    {A : Type ℓ} {B : Type κ} (first : Outcome A) (next : A → Outcome B) {result : B}
    → (first >>= next) ≡ ok result
    → (middle : A) × (first ≡ ok middle) × (next middle ≡ ok result)
>>=-eq-ok (ok middle) next h = (middle, refl, h)
>>=-eq-ok panicked next h = cc
>>=-eq-ok running next h = cc

pub unwrap-eq-ok {ℓ} : {A : Type ℓ} (o : Option A) {a : A} → unwrap o ≡ ok a → o ≡ some a
unwrap-eq-ok none h = cc
unwrap-eq-ok (some a) h = cc

pub ok-injective {ℓ} : {A : Type ℓ} {a b : A} → ok a ≡ ok b → a ≡ b
ok-injective h = cc

pub if-ok_total {ℓ} :
    {A : Type ℓ} (b : Bool) (x y : A) → (r : A) × ((if b then ok x else ok y) ≡ ok r)
if-ok_total true x y = (x, refl)
if-ok_total false x y = (y, refl)
