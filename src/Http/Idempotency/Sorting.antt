-- ===== src/Http/Idempotency/Sorting.antt =====
-- idempotency.middleware.ts: the entries as they are sorted for eviction, those in flight last.
use canvassync.Prelude.{
  ℕ, suc, String, true, false, none, some, [], ◌∷◌, All, string_key, ◌≡◌, refl, arith, Bool-cases,
  inl, inr, ◌∙◌,
}
use canvassync.JsMap
use canvassync.JsMap.{JsMap, IsMap}
use canvassync.Http.Idempotency.Store.{IdempotencyState, expires_first, insert_entry, sort_entries}

abbrev pub Store : Type 0 → Type 0
Store B = JsMap String (IdempotencyState B)

module _ {B : Type 0} where
  abbrev pub IsUncached : String × IdempotencyState B → Type 0
  IsUncached e = e.1.cached ≡ none

  -- The entries without a response.
  abbrev pub pendings : Store B → ℕ
  pendings [] = 0
  pendings ((k, st) ∷ m) = elim st.cached [ none ↦ suc (pendings m) | some c ↦ pendings m ]

  -- After an entry without a response, no entry has one.
  abbrev pub CachedFirst : Store B → Type 0
  CachedFirst [] = Unit
  CachedFirst (e ∷ es) = (IsUncached e → All IsUncached es) × CachedFirst es

  pub pendings-All : (es : Store B) → All IsUncached es → pendings es ≡ JsMap.size es
  unfolding JsMap.size
  pendings-All [] h = refl
  pendings-All (e ∷ es) (u, h) = ground (arith, u, pendings-All es h)

  All-insert :
      (P : String × IdempotencyState B → Type 0) (e : String × IdempotencyState B) (es : Store B)
      → P e
      → All P es
      → All P (insert_entry e es)
  unfolding insert_entry
  All-insert P e [] p h = (p, tt)
  All-insert P e (f ∷ es) p (q, h) = elim (Bool-cases (expires_first e.1 f.1)) [
    | inl first ↦ rw first (p, (q, h))
    | inr later ↦ rw later (q, All-insert P e es p h)
  ]

  pub All-sort :
      (P : String × IdempotencyState B → Type 0) (es : Store B) → All P es → All P (sort_entries es)
  unfolding sort_entries
  All-sort P [] h = tt
  All-sort P (e ∷ es) (p, h) = All-insert P e (sort_entries es) p (All-sort P es h)

  IsUncached-after :
      (e f : String × IdempotencyState B)
      → IsUncached e
      → expires_first e.1 f.1 ≡ true
      → IsUncached f
  unfolding expires_first
  IsUncached-after e f u first = ground arith

  IsUncached-last :
      (e f : String × IdempotencyState B) → IsUncached f → expires_first e.1 f.1 ≡ true
  unfolding expires_first
  IsUncached-last e f u = ground arith

  insert-CachedFirst :
      (e : String × IdempotencyState B) (es : Store B)
      → CachedFirst es
      → CachedFirst (insert_entry e es)
  unfolding insert_entry
  insert-CachedFirst e [] h = (λ u. tt, tt)
  insert-CachedFirst e (f ∷ es) (g, h) = elim (Bool-cases (expires_first e.1 f.1)) [
    | inl first ↦
        rw first (λ u. (IsUncached-after e f u first, g (IsUncached-after e f u first)), (g, h))
    | inr later ↦
        rw later (λ u. absurd (ground (arith, IsUncached-last e f u)), insert-CachedFirst e es h)
  ]

  pub sort-CachedFirst : (es : Store B) → CachedFirst (sort_entries es)
  unfolding sort_entries
  sort-CachedFirst [] = tt
  sort-CachedFirst (e ∷ es) = insert-CachedFirst e (sort_entries es) (sort-CachedFirst es)

  pendings-insert :
      (e : String × IdempotencyState B) (es : Store B)
      → pendings (insert_entry e es) ≡ pendings (e ∷ es)
  unfolding insert_entry
  pendings-insert e [] = refl
  pendings-insert e (f ∷ es) = ground (arith, pendings-insert e es)

  pub pendings-sort : (es : Store B) → pendings (sort_entries es) ≡ pendings es
  unfolding sort_entries
  pendings-sort [] = refl
  pendings-sort (e ∷ es) = ground (arith, pendings-insert e (sort_entries es), pendings-sort es)

  size-insert :
      (e : String × IdempotencyState B) (es : Store B)
      → JsMap.size (insert_entry e es) ≡ suc (JsMap.size es)
  unfolding insert_entry JsMap.size
  size-insert e [] = refl
  size-insert e (f ∷ es) = ground (arith, size-insert e es)

  pub size-sort : (es : Store B) → JsMap.size (sort_entries es) ≡ JsMap.size es
  unfolding sort_entries JsMap.size
  size-sort [] = refl
  size-sort (e ∷ es) = ground (arith, size-insert e (sort_entries es), size-sort es)

  get-insert :
      (e : String × IdempotencyState B) (es : Store B) (k : String)
      → JsMap.has es e.0 ≡ false
      → JsMap.get (insert_entry e es) k ≡ JsMap.get (e ∷ es) k
  unfolding insert_entry JsMap.get JsMap.has
  get-insert e [] k h = refl
  get-insert e (f ∷ es) k h = ground (
    arith,
    get-insert e es k,
    string_key.matches_iff e.0 k,
    string_key.matches_iff f.0 k,
    string_key.matches_iff f.0 e.0,
  )

  has-insert :
      (e : String × IdempotencyState B) (es : Store B) (k : String)
      → JsMap.has (insert_entry e es) k ≡ JsMap.has (e ∷ es) k
  unfolding insert_entry JsMap.has
  has-insert e [] k = refl
  has-insert e (f ∷ es) k = ground (arith, has-insert e es k)

  pub has-sort : (es : Store B) (k : String) → JsMap.has (sort_entries es) k ≡ JsMap.has es k
  unfolding sort_entries JsMap.has
  has-sort [] k = refl
  has-sort (e ∷ es) k = ground (arith, has-insert e (sort_entries es) k, has-sort es k)

  pub get-sort :
      (es : Store B) (k : String) → IsMap es → JsMap.get (sort_entries es) k ≡ JsMap.get es k
  unfolding sort_entries JsMap.get
  get-sort [] k h = refl
  get-sort (e ∷ es) k (fresh, h) =
      ground (arith, get-insert e (sort_entries es) k, has-sort es e.0, get-sort es k h)

  insert-IsMap :
      (e : String × IdempotencyState B) (es : Store B)
      → JsMap.has es e.0 ≡ false
      → IsMap es
      → IsMap (insert_entry e es)
  unfolding insert_entry JsMap.has
  insert-IsMap e [] fresh h = (refl, tt)
  insert-IsMap e (f ∷ es) fresh (g, h) = elim (Bool-cases (expires_first e.1 f.1)) [
    | inl first ↦ rw first (fresh, (g, h))
    | inr later ↦ rw later (
      ground (
        arith,
        has-insert e es f.0,
        string_key.matches_iff f.0 e.0,
        string_key.matches_iff e.0 f.0,
      ),
      insert-IsMap e es (ground arith) h,
    )
  ]

  pub sort-IsMap : (es : Store B) → IsMap es → IsMap (sort_entries es)
  unfolding sort_entries
  sort-IsMap [] h = tt
  sort-IsMap (e ∷ es) (fresh, h) =
      insert-IsMap e (sort_entries es) (has-sort es e.0 ∙ fresh) (sort-IsMap es h)
