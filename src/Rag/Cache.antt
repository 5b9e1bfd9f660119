-- ===== src/Rag/Cache.antt =====
-- The two caches of apps/http-backend/src/utils/rag.ts: `queryVectorCache` and `suggestionCache`.
use canvassync.Prelude.{
  ℕ, ◌<◌, ◌≤◌, String, true, Option, none, some, List, [], ◌∷◌, ◌≡◌, refl, inl, inr, foldl, leb,
  string_key, if◌then◌else◌, Bool-cases, Option-cases, matches_refl, arith,
}
use canvassync.JsMap.{JsMap, empty, get, set, delete, has, size}
use canvassync.JsMap.Laws.{get-set_self, size-set, size-delete}

abbrev pub query_cache_max : ℕ
query_cache_max = 200

abbrev pub suggestion_cache_max : ℕ
suggestion_cache_max = 100

module _ {ℓ} {V : Type ℓ} where
  -- cache.delete(cache.keys().next().value)
  unfoldable pub drop_oldest : JsMap String V → JsMap String V
  drop_oldest [] = []
  drop_oldest ((key, value) ∷ rest) = delete ((key, value) ∷ rest) key

  unfoldable pub remember : (max : ℕ) → JsMap String V → String → V → JsMap String V
  unfolding drop_oldest
  remember max cache key value =
      set (if leb max (size cache) then drop_oldest cache else cache) key value

  -- `embedQuery` for a query that is trimmed and in lower case: `answer` is the first vector of the
  -- service, if there is one.
  unfoldable pub embed_query :
      JsMap String V → String → (answer : Option V) → Option V × JsMap String V
  unfolding remember
  embed_query cache key answer = elim (get cache key) [
    | some vector ↦ (some vector, cache)
    | none ↦ elim answer [
      | none ↦ (none, cache)
      | some vector ↦ (some vector, remember query_cache_max cache key vector)
    ]
  ]

  -- The cache after a series of queries, each with the answer that the service would give.
  unfoldable pub query_cache : List (String × Option V) → JsMap String V
  unfolding embed_query
  query_cache queries =
      foldl (λ (cache : JsMap String V) (q : String × Option V). (embed_query cache q.0 q.1).1)
        empty queries

  shrinks :
      (cache : JsMap String V) (key : String)
      → has cache key ≡ true
      → size (delete cache key) < size cache
  shrinks cache key h = ground (arith, size-delete cache key)

  drop_oldest-size :
      (cache : JsMap String V) → 0 < size cache → size (drop_oldest cache) < size cache
  unfolding drop_oldest has
  drop_oldest-size [] h = absurd (unfold size in omega arith)
  drop_oldest-size ((key, value) ∷ rest) h =
      let whole : JsMap String V = (key, value) ∷ rest in
      shrinks whole key (rw (matches_refl key) refl)

  remember-size :
      (max : ℕ) (cache : JsMap String V) (key : String) (value : V)
      → 0 < max
      → size cache ≤ max
      → size (remember max cache key value) ≤ max
  unfolding remember
  remember-size max cache key value pos h = elim (Bool-cases (leb max (size cache))) [
    | inl full ↦
        rw full (ground (arith, size-set (drop_oldest cache) key value, drop_oldest-size cache))
    | inr room ↦ rw room (ground (arith, size-set cache key value))
  ]

  embed_query-size :
      (cache : JsMap String V) (key : String) (answer : Option V)
      → size cache ≤ 200
      → size (embed_query cache key answer).1 ≤ 200
  unfolding embed_query
  embed_query-size cache key answer h = elim (Option-cases (get cache key)) [
    | inr (vector, e) ↦ rw (e, embed_query) h
    | inl e ↦
        rw (e, embed_query)
          (elim (Option-cases answer) [
            | inl none_given ↦ rw none_given h
            | inr (vector, given) ↦ rw given (remember-size 200 cache key vector (omega arith) h)
          ])
  ]

  query_cache_from-size :
      (cache : JsMap String V) (queries : List (String × Option V))
      → size cache ≤ 200
      → size (
          foldl
            (λ (c : JsMap String V) (q : String × Option V). (embed_query c q.0 q.1).1)
            cache
            queries)
        ≤ 200
  query_cache_from-size cache [] h = h
  query_cache_from-size cache ((key, answer) ∷ queries) h =
      query_cache_from-size (embed_query cache key answer).1 queries
        (embed_query-size cache key answer h)

  cached :
      (cache : JsMap String V) (key : String) (answer : Option V) (vector : V)
      → get cache key ≡ some vector
      → embed_query cache key answer ≡ (some vector, cache)
  unfolding embed_query
  cached cache key answer vector h = rw (h, embed_query) refl

  get-after :
      (cache : JsMap String V) (key : String) (answer : Option V) (vector : V)
      → (embed_query cache key answer).0 ≡ some vector
      → get (embed_query cache key answer).1 key ≡ some vector
  unfolding embed_query remember
  get-after cache key none vector h = elim (Option-cases (get cache key)) [
    | inr (w, e) ↦ ground arith
    | inl e ↦ ground arith
  ]
  get-after cache key (some v) vector h = elim (Option-cases (get cache key)) [
    | inr (w, e) ↦ ground arith
    | inl e ↦
        ground
          (arith, get-set_self (if leb 200 (size cache) then drop_oldest cache else cache) key v)
  ]

  embed_query-again :
      (cache : JsMap String V) (key : String) (answer answer' : Option V) (vector : V)
      → (embed_query cache key answer).0 ≡ some vector
      → embed_query (embed_query cache key answer).1 key answer'
        ≡ (some vector, (embed_query cache key answer).1)
  embed_query-again cache key answer answer' vector h =
      cached (embed_query cache key answer).1 key answer' vector
        (get-after cache key answer vector h)

  -- After any series of queries the cache of query vectors holds at most 200; a query that is
  -- given a vector is given the same one when it comes again at once, and the cache stays as it
  -- is.
  pub query_cache_bounded :
      (queries : List (String × Option V)) (key : String) (answer answer' : Option V) (vector : V)
      → (embed_query (query_cache queries) key answer).0 ≡ some vector
      → (size (query_cache queries) ≤ 200)
        × (embed_query (embed_query (query_cache queries) key answer).1 key answer'
            ≡ (some vector, (embed_query (query_cache queries) key answer).1))
  unfolding query_cache
  query_cache_bounded queries key answer answer' vector h = (
    query_cache_from-size empty queries (unfold size in omega arith),
    embed_query-again (query_cache queries) key answer answer' vector h,
  )
