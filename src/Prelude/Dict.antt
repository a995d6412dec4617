-- ===== src/Prelude/Dict.antt =====
-- String-keyed maps (`HashMap<String, V>`, `BTreeMap<String, V>`) as association lists. The order
-- of the entries stands for the iteration order, which the code never relies on.
use Prim.Native.String.{String}
use mathlib.Core.Path.{◌≡◌, refl, ◌∙◌}
use mathlib.Core.Bool.{Bool, true, false}
use mathlib.Core.List.{List, [], ◌∷◌}
use mathlib.Core.Option.{Option, none, some}
use mathlib.Core.Logic.{inl, inr}
use native.Mathlib.Omega.{arith}
use text.Mathlib.Text.{◌==◌}
use text.Mathlib.TextEquality.{eq_iff}
use shulker.Prelude.Tests.{if◌then◌else◌, Bool-cases}

abbrev pub Dict {ℓ} : Type ℓ → Type ℓ
Dict V = List (String × V)

module _ {ℓ} {V : Type ℓ} where
  unfoldable pub get : String → Dict V → Option V
  get k [] = none
  get k ((j, v) ∷ m) = if j == k then some v else get k m

  unfoldable pub insert : String → V → Dict V → Dict V
  insert k v [] = (k, v) ∷ []
  insert k v ((j, w) ∷ m) = if j == k then (k, v) ∷ m else (j, w) ∷ insert k v m

  unfoldable pub remove : String → Dict V → Dict V
  remove k [] = []
  remove k ((j, v) ∷ m) = let rest = remove k m in if j == k then rest else (j, v) ∷ rest

  abbrev pub is_some : Option V → Bool
  is_some none = false
  is_some (some v) = true

  unfoldable pub contains_key : String → Dict V → Bool
  unfolding get
  contains_key k m = is_some (get k m)

  -- `extend`: the entries of the second map win.
  unfoldable pub extend : Dict V → Dict V → Dict V
  unfolding insert
  extend m [] = m
  extend m ((k, v) ∷ more) = extend (insert k v m) more

  pub get-nil : (k : String) → get k ([]) ≡ none
  unfolding get
  get-nil k = refl

  pub get-insert :
      (k j : String) (v : V) (m : Dict V)
      → get j (insert k v m) ≡ (if k == j then some v else get j m)
  unfolding get insert
  get-insert key j v [] = refl
  get-insert key j v ((i, w) ∷ rest) =
      ground (arith, get-insert key j v rest, eq_iff key j, eq_iff i key, eq_iff i j)

  pub get-remove :
      (k j : String) (m : Dict V) → get j (remove k m) ≡ (if k == j then none else get j m)
  unfolding get remove
  get-remove k j [] = ground arith
  get-remove k j ((i, w) ∷ m) = ground (arith, eq_iff k j, eq_iff i k, eq_iff i j, get-remove k j m)

  get-other :
      (k j : String) (w : V) (m : Dict V)
      → get k ((j, w) ∷ m) ≡ none
      → (j == k ≡ false) × (get k m ≡ none)
  unfolding get
  get-other k j w m h = elim (Bool-cases (j == k)) [ inl e ↦ cc | inr e ↦ (e, rw e at h) ]

  -- A key that the second map does not have keeps its value.
  pub get-extend :
      (k : String) (m more : Dict V) → get k more ≡ none → get k (extend m more) ≡ get k m
  unfolding extend
  get-extend k m [] h = refl
  get-extend k m ((j, w) ∷ more) h =
      let (differs, absent) = get-other k j w more h in
      get-extend k (insert j w m) more absent ∙ get-insert j k w m ∙ rw differs refl

pub ruleset dict_laws = (get-nil, get-insert, get-remove)
