-- ===== src/JsMap/Defs.antt =====
-- The operations of `Map`.
use canvassync.Prelude.{
  ℕ, suc, ◌≡◌, Bool, true, false, Option, none, some, List, [], ◌∷◌, map, if◌then◌else◌, Key, ◌==◌,
}

abbrev pub JsMap {ℓ κ} : Type ℓ → Type κ → Type (ℓ ⊔ κ)
JsMap K V = List (K × V)

module _ {ℓ κ} {K : Type ℓ} {V : Type κ} where
  -- new Map()
  abbrev pub empty : JsMap K V
  empty = []

  -- [...m.values()] and [...m.keys()]
  abbrev pub values : JsMap K V → List V
  values = map (λ e. e.1)

  abbrev pub keys : JsMap K V → List K
  keys = map (λ e. e.0)

  -- m.size
  unfoldable pub size : JsMap K V → ℕ
  size [] = 0
  size (_ ∷ m) = suc (size m)

module _ {ℓ κ} {K : Type ℓ} {V : Type κ} ⦃e : Key K⦄ where
  -- m.get(k)
  unfoldable pub get : JsMap K V → K → Option V
  get [] k = none
  get ((j, v) ∷ m) k = if j == k then some v else get m k

  -- m.has(k)
  unfoldable pub has : JsMap K V → K → Bool
  has [] k = false
  has ((j, v) ∷ m) k = if j == k then true else has m k

  -- m.set(k, v)
  unfoldable pub set : JsMap K V → K → V → JsMap K V
  set [] k v = (k, v) ∷ []
  set ((j, w) ∷ m) k v = let rest = set m k v in if j == k then (j, v) ∷ m else (j, w) ∷ rest

  -- m.delete(k)
  unfoldable pub delete : JsMap K V → K → JsMap K V
  delete [] k = []
  delete ((j, w) ∷ m) k = let rest = delete m k in if j == k then m else (j, w) ∷ rest

  -- No key stands twice: what the operations keep.
  abbrev pub IsMap : JsMap K V → Type 0
  IsMap [] = Unit
  IsMap ((k, v) ∷ m) = (has m k ≡ false) × IsMap m
