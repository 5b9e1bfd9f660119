-- ===== src/JsMap/Nested.antt =====
-- A map of maps whose inner maps are made by the first write and dropped with their last entry.
use mathlib.Core.Path.{subst, subst⁻¹}
use canvassync.Prelude.{
  ◌≡◌, refl, true, Option, none, some, [], ◌∷◌, arith, if◌then◌else◌, Key, ◌==◌, Bool-cases,
  Option-cases, inl, inr, nat_beq,
}
use canvassync.JsMap.Defs.{JsMap, empty, get, set, delete, size, IsMap}
use canvassync.JsMap.Laws.{get-set, get-delete, set-IsMap, delete-IsMap}

module _ {κ μ} {K : Type κ} {V : Type μ} where
  abbrev pub inner : Option (JsMap K V) → JsMap K V
  inner none = empty
  inner (some m) = m

module _ {κ μ} {K : Type κ} {V : Type μ} ⦃e : Key K⦄ where
  get_of_size_zero : (i : JsMap K V) (k : K) → nat_beq (size i) 0 ≡ true → get i k ≡ none
  unfolding get size
  get_of_size_zero [] k h = refl
  get_of_size_zero (x ∷ i) k h = ground arith

module _ {ℓ κ μ} {R : Type ℓ} {K : Type κ} {V : Type μ} ⦃r : Key R⦄ ⦃e : Key K⦄ where
  -- `if (!m.has(a)) m.set(a, new Map()); m.get(a).set(k, v)`
  unfoldable pub set_in : JsMap R (JsMap K V) → R → K → V → JsMap R (JsMap K V)
  set_in m a k v = set m a (set (inner (get m a)) k v)

  -- What is left of an inner map goes back, or the outer entry goes.
  abbrev put_back : JsMap R (JsMap K V) → R → JsMap K V → JsMap R (JsMap K V)
  put_back m a i = if nat_beq (size i) 0 then delete m a else set m a i

  -- `const i = m.get(a); if (i) { i.delete(k); if (i.size === 0) m.delete(a) }`
  unfoldable pub delete_in : JsMap R (JsMap K V) → R → K → JsMap R (JsMap K V)
  unfolding size
  delete_in m a k = elim (get m a) [ none ↦ m | some i ↦ put_back m a (delete i k) ]

  -- `m.get(a)?.get(k)`
  abbrev pub get_in : JsMap R (JsMap K V) → R → K → Option V
  get_in m a k = get (inner (get m a)) k

  -- Keys stand once, outside and inside.
  pub record IsNested (m : JsMap R (JsMap K V)) : Type (ℓ ⊔ κ ⊔ μ) where
    pub outer_map : IsMap m
    pub inner_maps : (a : R) → IsMap (inner (get m a))

  pub get_in-set_in :
      (m : JsMap R (JsMap K V)) (a b : R) (k j : K) (v : V)
      → get_in (set_in m a k v) b j
        ≡ (if a == b then (if k == j then some v else get_in m b j) else get_in m b j)
  unfolding set_in
  get_in-set_in m a b k j v = ground (
    arith,
    r.matches_iff a b,
    get-set m a b (set (inner (get m a)) k v),
    get-set (inner (get m a)) k j v,
  )

  pub get_in-delete_in :
      (m : JsMap R (JsMap K V)) (a b : R) (k j : K)
      → IsNested m
      → get_in (delete_in m a k) b j
        ≡ (if a == b then (if k == j then none else get_in m b j) else get_in m b j)
  unfolding delete_in get
  get_in-delete_in m a b k j v = elim (Option-cases (get m a)) [
    | inl gone ↦ ground (arith, gone, r.matches_iff a b)
    | inr (i, here) ↦
        let own : IsMap i =
          subst (λ (o : Option (JsMap K V)). IsMap (inner o)) here (v.inner_maps a) in
        ground (
          arith,
          here,
          r.matches_iff a b,
          get-delete i k j own,
          get-delete m a b v.outer_map,
          get-set m a b (delete i k),
          get_of_size_zero (delete i k) j,
        )
  ]

  set-IsNested :
      (m : JsMap R (JsMap K V)) (a : R) (i : JsMap K V)
      → IsMap i
      → IsNested m
      → IsNested (set m a i)
  set-IsNested m a i own h = record {
    outer_map = set-IsMap m a i h.outer_map;
    inner_maps = λ b.
        subst⁻¹ (λ (o : Option (JsMap K V)). IsMap (inner o)) (get-set m a b i)
          (elim (Bool-cases (a == b)) [
            | inl here ↦ rw here own
            | inr there ↦ rw there (h.inner_maps b)
          ]);
  }

  delete-IsNested : (m : JsMap R (JsMap K V)) (a : R) → IsNested m → IsNested (delete m a)
  delete-IsNested m a h = record {
    outer_map = delete-IsMap m a h.outer_map;
    inner_maps = λ b.
        subst⁻¹ (λ (o : Option (JsMap K V)). IsMap (inner o)) (get-delete m a b h.outer_map)
          (elim (Bool-cases (a == b)) [
            | inl here ↦ rw here tt
            | inr there ↦ rw there (h.inner_maps b)
          ]);
  }

  pub set_in-IsNested :
      (m : JsMap R (JsMap K V)) (a : R) (k : K) (v : V) → IsNested m → IsNested (set_in m a k v)
  unfolding set_in
  set_in-IsNested m a k v h =
      set-IsNested m a (set (inner (get m a)) k v)
        (set-IsMap (inner (get m a)) k v (h.inner_maps a)) h

  pub delete_in-IsNested :
      (m : JsMap R (JsMap K V)) (a : R) (k : K) → IsNested m → IsNested (delete_in m a k)
  unfolding delete_in
  delete_in-IsNested m a k h = elim (Option-cases (get m a)) [
    | inl gone ↦ rw (gone, delete_in) h
    | inr (i, here) ↦
        let own : IsMap i =
          subst (λ (o : Option (JsMap K V)). IsMap (inner o)) here (h.inner_maps a) in
        rw (here, delete_in)
          (elim (Bool-cases (nat_beq (size (delete i k)) 0)) [
            | inl none_left ↦ rw none_left (delete-IsNested m a h)
            | inr some_left ↦ rw some_left (set-IsNested m a (delete i k) (delete-IsMap i k own) h)
          ])
  ]

  pub empty-IsNested : IsNested empty
  unfolding get
  empty-IsNested = record { outer_map = tt; inner_maps = λ b. tt }

module _ {κ μ} {K : Type κ} {V : Type μ} where
  nil_of_size_zero : (i : JsMap K V) → nat_beq (size i) 0 ≡ true → i ≡ []
  unfolding size
  nil_of_size_zero [] h = refl
  nil_of_size_zero (x ∷ i) h = absurd (ground arith)

module _ {ℓ κ μ} {R : Type ℓ} {K : Type κ} {V : Type μ} ⦃r : Key R⦄ ⦃e : Key K⦄ where
  pub inner-set_in :
      (m : JsMap R (JsMap K V)) (a b : R) (k : K) (v : V)
      → inner (get (set_in m a k v) b)
        ≡ (if a == b then set (inner (get m b)) k v else inner (get m b))
  unfolding set_in
  inner-set_in m a b k v =
      ground (arith, r.matches_iff a b, get-set m a b (set (inner (get m a)) k v))

  pub inner-delete_in :
      (m : JsMap R (JsMap K V)) (a b : R) (k : K)
      → IsNested m
      → inner (get (delete_in m a k) b)
        ≡ (if a == b then delete (inner (get m b)) k else inner (get m b))
  unfolding delete_in delete
  inner-delete_in m a b k h = elim (Option-cases (get m a)) [
    | inl gone ↦ ground (arith, gone, r.matches_iff a b)
    | inr (i, here) ↦ ground (
      arith,
      here,
      r.matches_iff a b,
      get-delete m a b h.outer_map,
      get-set m a b (delete i k),
      nil_of_size_zero (delete i k),
    )
  ]
