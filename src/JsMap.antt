-- ===== src/JsMap.antt =====
-- JavaScript's `Map`: entries in insertion order. A `Set` is the list of its keys.
pub mod Laws
use metrice.Base.{
  ℕ, Bool, true, false, Option, none, some, List, [], ◌∷◌, if◌then◌else◌, Eq, length,
}

module _ {ℓ} {K V : Type ℓ} ⦃e : Eq K⦄ where
  -- m.get(k)
  unfoldable pub get : K → List (K × V) → Option V
  get k [] = none
  get k ((j, v) ∷ m) = if e.beq j k then some v else get k m

  -- m.has(k)
  unfoldable pub has : K → List (K × V) → Bool
  has k [] = false
  has k ((j, v) ∷ m) = if e.beq j k then true else has k m

  -- m.set(k, v): a present key keeps its place, a new one goes to the end.
  unfoldable pub set : K → V → List (K × V) → List (K × V)
  set k v [] = (k, v) ∷ []
  set k v ((j, w) ∷ m) = if e.beq j k then (j, v) ∷ m else (j, w) ∷ set k v m

  -- m.delete(k)
  unfoldable pub delete : K → List (K × V) → List (K × V)
  delete k [] = []
  delete k ((j, w) ∷ m) = if e.beq j k then m else (j, w) ∷ delete k m
