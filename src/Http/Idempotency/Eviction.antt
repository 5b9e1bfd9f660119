-- ===== src/Http/Idempotency/Eviction.antt =====
-- idempotency.middleware.ts: what pruneExpiredEntries keeps.
use canvassync.Prelude.{
  ℕ, ◌≤◌, String, true, false, none, some, [], ◌∷◌, leb, string_key, ◌≡◌, refl, arith, ◌==◌,
  Bool-cases, Option-cases, inl, inr, All, ◌∙◌,
}
use canvassync.JsMap
use canvassync.JsMap.{JsMap, IsMap}
use canvassync.JsMap.Laws.{size-delete, delete-IsMap, has-delete, get-delete}
use canvassync.Http.Idempotency.Store.{IdempotencyState, evict}
use canvassync.Http.Idempotency.Sorting.{Store, pendings, CachedFirst, pendings-All}

module _ {B : Type 0} where
  pub evict-IsMap :
      (max_entries : ℕ) (es store : Store B) → IsMap store → IsMap (evict max_entries es store)
  unfolding evict
  evict-IsMap max_entries [] store v = v
  evict-IsMap max_entries (e ∷ es) store v =
      elim (Bool-cases (leb (JsMap.size store) max_entries)) [
        | inl few ↦ rw few v
        | inr many ↦
            rw many (evict-IsMap max_entries es (JsMap.delete store e.0) (delete-IsMap store e.0 v))
      ]

  -- Eviction only takes away.
  pub get-evict :
      (max_entries : ℕ) (es store : Store B) (k : String) (st : IdempotencyState B)
      → IsMap store
      → JsMap.get (evict max_entries es store) k ≡ some st
      → JsMap.get store k ≡ some st
  unfolding evict
  get-evict max_entries [] store k st v g = g
  get-evict max_entries (e ∷ es) store k st v g = ground (
    arith,
    get-evict max_entries es (JsMap.delete store e.0) k st (delete-IsMap store e.0 v),
    get-delete store e.0 k v,
  )

  -- The keys of the store are among those of the list.
  abbrev pub Covers : Store B → Store B → Type 0
  Covers es store = (k : String) → JsMap.has store k ≡ true → JsMap.has es k ≡ true

  size_of_uncovered : (store : Store B) → Covers [] store → JsMap.size store ≡ 0
  unfolding JsMap.has JsMap.size
  size_of_uncovered [] cover = refl
  size_of_uncovered (e ∷ store) cover =
      absurd (ground (arith, cover e.0, string_key.matches_iff e.0 e.0))

  Covers-delete :
      (e : String × IdempotencyState B) (es store : Store B)
      → IsMap store
      → Covers (e ∷ es) store
      → Covers es (JsMap.delete store e.0)
  unfolding JsMap.has
  Covers-delete e es store v cover k h = ground (arith, cover k, has-delete store e.0 k v)

  pub size-evict :
      (max_entries : ℕ) (es store : Store B)
      → IsMap store
      → Covers es store
      → JsMap.size (evict max_entries es store) ≤ max_entries
  unfolding evict
  size-evict max_entries [] store v cover = omega (arith, size_of_uncovered store cover)
  size-evict max_entries (e ∷ es) store v cover = ground (
    arith,
    size-evict max_entries es (JsMap.delete store e.0) (delete-IsMap store e.0 v)
        (Covers-delete e es store v cover),
  )

  -- The entries of the list stand in the store.
  abbrev pub Stands : Store B → String × IdempotencyState B → Type 0
  Stands store e = JsMap.has store e.0 ≡ true

  Stands-delete :
      (k : String) (es store : Store B)
      → IsMap store
      → JsMap.has es k ≡ false
      → All (Stands store) es
      → All (Stands (JsMap.delete store k)) es
  unfolding JsMap.has
  Stands-delete k [] store v fresh h = tt
  Stands-delete k (e ∷ es) store v fresh (here, h) = (
    ground (
      arith,
      has-delete store k e.0 v,
      string_key.matches_iff k e.0,
      string_key.matches_iff e.0 k,
    ),
    Stands-delete k es store v (ground arith) h,
  )

  -- An entry that has no response survives while those without one fit.
  pub evict_keeps :
      (max_entries : ℕ) (es store : Store B) (k : String)
      → IsMap store
      → IsMap es
      → All (Stands store) es
      → CachedFirst es
      → JsMap.size store ≤ JsMap.size es
      → pendings es ≤ max_entries
      → ((st : IdempotencyState B) → JsMap.get es k ≡ some st → st.cached ≡ none)
      → JsMap.get (evict max_entries es store) k ≡ JsMap.get store k
  unfolding evict JsMap.get JsMap.has JsMap.size
  evict_keeps max_entries [] store k v w stands first fits few uncached = refl
  evict_keeps max_entries (e ∷ es) store k v (fresh, w) (here, stands) (last, first) fits few
        uncached =
      elim (Bool-cases (leb (JsMap.size store) max_entries)) [
        | inl small ↦ rw small refl
        | inr large ↦ elim (Option-cases e.1.cached) [
          | inl u ↦ absurd (ground (arith, pendings-All es (last u)))
          | inr (c, cached) ↦
              let other : (e.0 == k) ≡ false = ground (arith, uncached e.1) in
              let kept =
                evict_keeps max_entries es (JsMap.delete store e.0) k (delete-IsMap store e.0 v) w
                  (Stands-delete e.0 es store v fresh stands) first
                  (ground (arith, size-delete store e.0)) (ground arith)
                  (λ st g. uncached st (ground arith)) in
              rw large (kept ∙ ground (arith, get-delete store e.0 k v))
        ]
      ]
