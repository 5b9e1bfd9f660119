-- ===== src/JsMap/Laws.antt =====
-- The laws of `Map` that its clients use.
use canvassync.Prelude.{
  ◌+◌, ◌≡◌, refl, true, false, none, some, [], ◌∷◌, arith, if◌then◌else◌, Key, ◌==◌, matches_refl,
  Bool-cases, inl, inr, All, ◌++◌, ◌||◌,
}
use canvassync.JsMap.Defs.{JsMap, get, set, delete, has, size, IsMap}

module _ {ℓ κ} {K : Type ℓ} {V : Type κ} ⦃e : Key K⦄ where
  pub get-set :
      (m : JsMap K V) (k j : K) (v : V) → get (set m k v) j ≡ (if k == j then some v else get m j)
  unfolding get set
  get-set [] k j v = refl
  get-set ((i, w) ∷ m) k j v =
      ground (arith, e.matches_iff k j, e.matches_iff i k, e.matches_iff i j, get-set m k j v)

  pub has-set :
      (m : JsMap K V) (k j : K) (v : V) → has (set m k v) j ≡ (if k == j then true else has m j)
  unfolding has set
  has-set [] k j v = refl
  has-set ((i, w) ∷ m) k j v =
      ground (arith, e.matches_iff k j, e.matches_iff i k, e.matches_iff i j, has-set m k j v)

  pub get_of_has : (m : JsMap K V) (k : K) → has m k ≡ false → get m k ≡ none
  unfolding has get
  get_of_has [] k h = refl
  get_of_has ((i, w) ∷ m) k h = ground (arith, get_of_has m k)

  pub has-eq-get :
      (m : JsMap K V) (k : K) → has m k ≡ elim (get m k) [ none ↦ false | some _ ↦ true ]
  unfolding has get
  has-eq-get [] k = refl
  has-eq-get ((i, w) ∷ m) k = ground (arith, has-eq-get m k)

  pub get-delete :
      (m : JsMap K V) (k j : K) → IsMap m → get (delete m k) j ≡ (if k == j then none else get m j)
  unfolding get delete
  get-delete [] k j h = ground arith
  get-delete ((i, w) ∷ m) k j (fresh, h) = ground (
    arith,
    e.matches_iff k j,
    e.matches_iff i k,
    e.matches_iff i j,
    get-delete m k j h,
    get_of_has m i fresh,
  )

  pub has-delete :
      (m : JsMap K V) (k j : K) → IsMap m → has (delete m k) j ≡ (if k == j then false else has m j)
  unfolding has delete
  has-delete [] k j h = ground arith
  has-delete ((i, w) ∷ m) k j (fresh, h) =
      ground (arith, e.matches_iff k j, e.matches_iff i k, e.matches_iff i j, has-delete m k j h)

  pub set-IsMap : (m : JsMap K V) (k : K) (v : V) → IsMap m → IsMap (set m k v)
  unfolding set has
  set-IsMap [] k v h = (refl, tt)
  set-IsMap ((i, w) ∷ m) k v (fresh, h) = elim (Bool-cases (i == k)) [
    | inl same ↦ rw same (fresh, h)
    | inr other ↦
        rw other
          (ground (arith, has-set m k i v, e.matches_iff k i, e.matches_iff i k), set-IsMap m k v h)
  ]

  pub delete-IsMap : (m : JsMap K V) (k : K) → IsMap m → IsMap (delete m k)
  unfolding delete
  delete-IsMap [] k h = h
  delete-IsMap ((i, w) ∷ m) k (fresh, h) = elim (Bool-cases (i == k)) [
    | inl same ↦ rw same h
    | inr other ↦
        rw other (ground (arith, has-delete m k i h, e.matches_iff k i), delete-IsMap m k h)
  ]

  pub get-set_self : (m : JsMap K V) (k : K) (v : V) → get (set m k v) k ≡ some v
  get-set_self m k v = rw (get-set m k k v) (rw (matches_refl k))

  pub size-set :
      (m : JsMap K V) (k : K) (v : V) → size (set m k v) ≡ (if has m k then size m else size m + 1)
  unfolding size set has
  size-set [] k v = omega arith
  size-set ((i, w) ∷ m) k v = ground (arith, size-set m k v)

  pub size-delete :
      (m : JsMap K V) (k : K)
      → size m ≡ (if has m k then size (delete m k) + 1 else size (delete m k))
  unfolding size delete has
  size-delete [] k = refl
  size-delete ((i, w) ∷ m) k = ground (arith, size-delete m k)

  pub All-set {μ} :
      (P : K × V → Type μ) (m : JsMap K V) (k : K) (v : V) → All P m → P (k, v) → All P (set m k v)
  unfolding set
  All-set P [] k v h p = (p, tt)
  All-set P ((j, w) ∷ m) k v (q, h) p = elim (Bool-cases (j == k)) [
    | inl same ↦ let at_j : P (j, v) = rw ((e.matches_iff j k).0 same) p in rw same (at_j, h)
    | inr other ↦ rw other (q, All-set P m k v h p)
  ]

  pub All-delete {μ} : (P : K × V → Type μ) (m : JsMap K V) (k : K) → All P m → All P (delete m k)
  unfolding delete
  All-delete P [] k h = h
  All-delete P ((j, w) ∷ m) k (q, h) = elim (Bool-cases (j == k)) [
    | inl same ↦ rw same h
    | inr other ↦ rw other (q, All-delete P m k h)
  ]

  pub All-get {μ} :
      (P : K × V → Type μ) (m : JsMap K V) (k : K) (v : V) → All P m → get m k ≡ some v → P (k, v)
  unfolding get
  All-get P [] k v h g = cc
  All-get P ((j, w) ∷ m) k v (q, h) g = elim (Bool-cases (j == k)) [
    | inl same ↦
        let found : w ≡ v = ground (arith, same) in
        rw (← (e.matches_iff j k).0 same) (rw (← found) q)
    | inr other ↦ All-get P m k v h (ground (arith, other))
  ]

  -- Setting a key that is not there puts the entry last.
  pub set_fresh : (m : JsMap K V) (k : K) (v : V) → has m k ≡ false → set m k v ≡ m ++ (k, v) ∷ []
  unfolding set has
  set_fresh [] k v h = refl
  set_fresh ((j, w) ∷ m) k v h = ground (arith, set_fresh m k v)

  pub has-append : (m n : JsMap K V) (k : K) → has (m ++ n) k ≡ (has m k || has n k)
  unfolding has
  has-append [] n k = refl
  has-append ((j, w) ∷ m) n k = ground (arith, has-append m n k)
