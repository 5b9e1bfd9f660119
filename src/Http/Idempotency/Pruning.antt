-- ===== src/Http/Idempotency/Pruning.antt =====
-- idempotency.middleware.ts: what pruneExpiredEntries leaves in the store.
use canvassync.Prelude.{
  ℕ, ◌+◌, ◌≤◌, String, Bool, false, not, ◌&&◌, Option, none, some, [], ◌∷◌, leb, if◌then◌else◌,
  string_key, ◌≡◌, refl, arith, Bool-cases, inl, inr, All, All-select, Option-cases, select, true,
  ◌∙◌,
}
use canvassync.JsMap
use canvassync.JsMap.{JsMap, IsMap}
use canvassync.JsMap.Laws.{get_of_has}
use canvassync.Http.Idempotency.Store.{
  IdempotencyState, PendingEntry, drop_dead, is_expired, is_empty, sort_entries, evict,
  prune_expired_entries,
}
use canvassync.Http.Idempotency.Sorting.{
  Store, pendings, All-sort, sort-CachedFirst, pendings-sort, size-sort, has-sort, get-sort,
  sort-IsMap,
}
use canvassync.Http.Idempotency.Eviction.{evict-IsMap, get-evict, size-evict, evict_keeps, Stands}

module _ {B : Type 0} where
  -- What the first loop leaves.
  abbrev lives : ℕ → IdempotencyState B → Bool
  lives now st = not (is_expired now st) && not (is_empty st)

  abbrev alive : ℕ → Option (IdempotencyState B) → Option (IdempotencyState B)
  alive now none = none
  alive now (some st) = if lives now st then some st else none

  has-drop :
      (now : ℕ) (m : Store B) (k : String)
      → JsMap.has m k ≡ false
      → JsMap.has (drop_dead now m) k ≡ false
  unfolding drop_dead JsMap.has
  has-drop now [] k h = refl
  has-drop now (e ∷ m) k h = ground (arith, has-drop now m k)

  drop-IsMap : (now : ℕ) (m : Store B) → IsMap m → IsMap (drop_dead now m)
  unfolding drop_dead
  drop-IsMap now [] v = tt
  drop-IsMap now (e ∷ m) (fresh, v) = elim (Bool-cases (lives now e.1)) [
    | inl kept ↦ rw kept (has-drop now m e.0 fresh, drop-IsMap now m v)
    | inr dropped ↦ rw dropped (drop-IsMap now m v)
  ]

  get-drop :
      (now : ℕ) (m : Store B) (k : String)
      → IsMap m
      → JsMap.get (drop_dead now m) k ≡ alive now (JsMap.get m k)
  unfolding drop_dead JsMap.get
  get-drop now [] k v = refl
  get-drop now (e ∷ m) k (fresh, v) = ground (
    arith,
    get-drop now m k v,
    get_of_has (drop_dead now m) k,
    has-drop now m k,
    string_key.matches_iff e.0 k,
  )

  pendings-drop : (now : ℕ) (m : Store B) → pendings (drop_dead now m) ≤ pendings m
  unfolding drop_dead
  pendings-drop now [] = omega arith
  pendings-drop now (e ∷ m) = ground (arith, pendings-drop now m)

  pub size-drop : (now : ℕ) (m : Store B) → JsMap.size (drop_dead now m) ≤ JsMap.size m
  unfolding drop_dead JsMap.size
  size-drop now [] = omega arith
  size-drop now (e ∷ m) = ground (arith, size-drop now m)

  Stands-cons :
      (e : String × IdempotencyState B) (m es : Store B)
      → All (Stands m) es
      → All (Stands (e ∷ m)) es
  unfolding JsMap.has
  Stands-cons e m [] h = tt
  Stands-cons e m (f ∷ es) (p, h) = (ground arith, Stands-cons e m es h)

  Stands-self : (m : Store B) → All (Stands m) m
  unfolding JsMap.has
  Stands-self [] = tt
  Stands-self (e ∷ m) =
      (ground (arith, string_key.matches_iff e.0 e.0), Stands-cons e m m (Stands-self m))

  -- What is true of a store after pruning, by the store before.
  pub record IsPruned (max_entries now : ℕ) (before after : Store B) : Type 0 where
    pub is_map : IsMap after
    pub small : JsMap.size after ≤ max_entries
    pub unchanged :
        (k : String) (st : IdempotencyState B)
        → JsMap.get after k ≡ some st
        → (JsMap.get before k ≡ some st) × (is_expired now st ≡ false)
    pub in_flight :
        (k : String) (st : IdempotencyState B) (p : PendingEntry)
        → pendings before ≤ max_entries
        → JsMap.get before k ≡ some st
        → st.cached ≡ none
        → st.pending ≡ some p
        → JsMap.get after k ≡ some st
    pub with_room :
        (k : String)
        → JsMap.size (drop_dead now before) ≤ max_entries
        → JsMap.get after k ≡ alive now (JsMap.get before k)

  evicted : (max_entries now : ℕ) → Store B → Store B
  evicted max_entries now m = evict max_entries (sort_entries (drop_dead now m)) (drop_dead now m)

  prune_few :
      (max_entries now : ℕ) (m : Store B)
      → IsMap m
      → JsMap.size (drop_dead now m) ≤ max_entries
      → IsPruned max_entries now m (drop_dead now m)
  unfolding is_expired is_empty
  prune_few max_entries now m v small = record {
    is_map = drop-IsMap now m v;
    small = small;
    unchanged = λ k st g. ground (arith, get-drop now m k v);
    in_flight = λ k st p few g c q. ground (arith, get-drop now m k v);
    with_room = λ k h. get-drop now m k v;
  }

  evicted_in_flight :
      (max_entries now : ℕ) (m : Store B) (k : String) (st : IdempotencyState B)
      → IsMap m
      → pendings m ≤ max_entries
      → JsMap.get (drop_dead now m) k ≡ some st
      → st.cached ≡ none
      → JsMap.get (evicted max_entries now m) k ≡ some st
  unfolding evicted
  evicted_in_flight max_entries now m k st v few g c =
      let kept = drop_dead now m in
      let w = drop-IsMap now m v in
      evict_keeps max_entries (sort_entries kept) kept k w (sort-IsMap kept w)
        (All-sort (Stands kept) kept (Stands-self kept)) (sort-CachedFirst kept)
        (omega (arith, size-sort kept)) (omega (arith, pendings-sort kept, pendings-drop now m))
        (λ st' g'. ground (arith, get-sort kept k w))
      ∙ g

  prune_many :
      (max_entries now : ℕ) (m : Store B)
      → IsMap m
      → max_entries + 1 ≤ JsMap.size (drop_dead now m)
      → IsPruned max_entries now m (evicted max_entries now m)
  unfolding evicted is_expired is_empty
  prune_many max_entries now m v large =
      let kept = drop_dead now m in
      let w = drop-IsMap now m v in
      record {
        is_map = evict-IsMap max_entries (sort_entries kept) kept w;
        small = size-evict max_entries (sort_entries kept) kept w (λ k h. has-sort kept k ∙ h);
        unchanged = λ k st g.
            ground
              (arith, get-evict max_entries (sort_entries kept) kept k st w g, get-drop now m k v);
        in_flight = λ k st p few g c q.
            evicted_in_flight max_entries now m k st v few (ground (arith, get-drop now m k v)) c;
        with_room = λ k h. absurd (omega arith);
      }

  pub prune_expired_entries-IsPruned :
      (max_entries now : ℕ) (m : Store B)
      → IsMap m
      → IsPruned max_entries now m (prune_expired_entries max_entries now m)
  unfolding prune_expired_entries evicted
  prune_expired_entries-IsPruned max_entries now m v =
      elim (Bool-cases (leb (JsMap.size (drop_dead now m)) max_entries)) [
        | inl small ↦ rw small (prune_few max_entries now m v (ground arith))
        | inr large ↦ rw large (prune_many max_entries now m v (ground arith))
      ]

  -- An entry of a request in flight.
  abbrev pub is_in_flight : String × IdempotencyState B → Bool
  is_in_flight e = elim e.1.cached [
    | none ↦ elim e.1.pending [ none ↦ false | some p ↦ true ]
    | some c ↦ false
  ]

  still_found :
      (e : String × IdempotencyState B) (m es : Store B)
      → JsMap.has es e.0 ≡ false
      → All (λ f. JsMap.get m f.0 ≡ some f.1) es
      → All (λ f. JsMap.get (e ∷ m) f.0 ≡ some f.1) es
  unfolding JsMap.get JsMap.has
  still_found e m [] fresh h = tt
  still_found e m (f ∷ es) fresh (g, h) = (
    ground (arith, string_key.matches_iff e.0 f.0, string_key.matches_iff f.0 e.0),
    still_found e m es (ground arith) h,
  )

  all_found : (m : Store B) → IsMap m → All (λ e. JsMap.get m e.0 ≡ some e.1) m
  unfolding JsMap.get
  all_found [] v = tt
  all_found (e ∷ m) (fresh, v) =
      (ground (arith, string_key.matches_iff e.0 e.0), still_found e m m fresh (all_found m v))

  -- Pruning a store in which no key stands twice, and whose entries without a response fit into
  -- it, leaves at most the permitted number of entries, and leaves the entry of every request in
  -- flight, if there are any, as it is.
  pub prune_expired_entries_keeps :
      (max_entries now : ℕ) (m : Store B)
      → IsMap m
      → pendings m ≤ max_entries
      → (JsMap.size (prune_expired_entries max_entries now m) ≤ max_entries)
        × All
            (λ e. JsMap.get (prune_expired_entries max_entries now m) e.0 ≡ some e.1)
            (select is_in_flight m)
  prune_expired_entries_keeps max_entries now m v few =
      let pruned = prune_expired_entries-IsPruned max_entries now m v in
      (
        pruned.small,
        All-select (λ e. JsMap.get m e.0 ≡ some e.1)
            (λ e. JsMap.get (prune_expired_entries max_entries now m) e.0 ≡ some e.1) is_in_flight m
            (λ e waits found. elim (Option-cases e.1.pending) [
              | inl absent ↦ ground (arith, waits, absent)
              | inr (p, there) ↦ pruned.in_flight e.0 e.1 p few found (ground (arith, waits)) there
            ])
            (all_found m v),
      )
