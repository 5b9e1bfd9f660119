-- ===== src/Crdt/Roundtrip.antt =====
-- canvas-crdt.ts: what a client sends after an edit, and what the register of an id makes of it.
use canvassync.Prelude.{
  ℕ, ◌<◌, ◌≤◌, String, ◌≡◌, ◌⊎◌, inl, inr, refl, Bool, true, false, not, ◌&&◌, Option, none, some,
  List, [], ◌∷◌, arith, ◌==◌, string_key, any, if◌then◌else◌, Bool-cases, ◌∙◌, ap,
}
use mathlib.Core.Path.{subst}
use canvassync.Collation.{Collator}
use canvassync.JsValue.{JsValue}
use canvassync.JsMap
use canvassync.JsMap.{JsMap}
use canvassync.Crdt.{
  CanvasCrdtMetadata, Shape, get_canvas_crdt_metadata, with_canvas_crdt_metadata, restamp,
}
use canvassync.Crdt.Order.{Newer-refl, Newer-of_lt, not-Newer-of_lt}
use canvassync.Crdt.Cell.{Cell, absent, alive, dead, put, del, step, run}
use canvassync.Crdt.Load.{shown}
use canvassync.Crdt.Refinement.{deletions_at, shapes_at}
use canvassync.Crdt.Reconcile.{
  has_id, deletions_of, content_changed, reconcile_shape, reconcile_shapes, deleted_ids,
}

-- The shape that a register shows.
abbrev pub live : Cell → Option Shape
live (alive s) = some s
live _ = none

-- The stamp of a register lies within a bound.
abbrev pub IsBelow : ℕ → Cell → Type 0
IsBelow bound absent = Unit
IsBelow bound (alive s) = (get_canvas_crdt_metadata s).clock ≤ bound
IsBelow bound (dead g) = g.clock ≤ bound

abbrev pub IsUnique : List Shape → Type 0
IsUnique [] = Unit
IsUnique (s ∷ ss) = (has_id s.id ss ≡ false) × IsUnique ss

-- The stamp of a shape that was sent: that of the shape it was made from, or beyond the bound.
abbrev pub Wins : ℕ → Option Shape → Shape → Type 0
Wins bound none s = bound < (get_canvas_crdt_metadata s).clock
Wins bound (some p) s =
    (get_canvas_crdt_metadata s ≡ get_canvas_crdt_metadata p)
    ⊎ (bound < (get_canvas_crdt_metadata s).clock)

module _ (id : String) where
  abbrev pub listed : List String → Bool
  listed = any (λ i. i == id)

  pub shown_of_not_has : (ss : List Shape) → has_id id ss ≡ false → shown id ss ≡ none
  unfolding has_id
  shown_of_not_has [] h = refl
  shown_of_not_has (s ∷ ss) h = ground (arith, shown_of_not_has ss)

  -- The deleted ids are those of the previous shapes that the next ones lack.
  pub listed-deleted_ids :
      (previous next : List Shape)
      → listed (deleted_ids previous next) ≡ (has_id id previous && not (has_id id next))
  unfolding deleted_ids has_id
  listed-deleted_ids [] next = refl
  listed-deleted_ids (s ∷ ss) next =
      ground (arith, listed-deleted_ids ss next, string_key.matches_iff s.id id)

  pub deletions_at_of_not_listed :
      (g : CanvasCrdtMetadata) (ids : List String)
      → listed ids ≡ false
      → deletions_at id (deletions_of (some g) ids) ≡ []
  unfolding deletions_of
  deletions_at_of_not_listed g [] h = refl
  deletions_at_of_not_listed g (i ∷ ids) h = ground (arith, deletions_at_of_not_listed g ids)

module _ (collator : Collator) (id : String) (bound : ℕ) where
  step-del :
      (c : Cell) (g : CanvasCrdtMetadata)
      → IsBelow bound c
      → bound < g.clock
      → step collator c (del g) ≡ dead g
  unfolding step
  step-del absent g h lt = refl
  step-del (alive p) g h lt = ground (arith, Newer-of_lt collator g (get_canvas_crdt_metadata p))
  step-del (dead g') g h lt = ground (arith, Newer-of_lt collator g g')

  abbrev pub deleting : CanvasCrdtMetadata → List String → Cell → Option Shape
  deleting g ids c = live (run collator c (deletions_at id (deletions_of (some g) ids)))

  live-dead : (g : CanvasCrdtMetadata) (ids : List String) → deleting g ids (dead g) ≡ none
  unfolding deletions_of step
  live-dead g [] = refl
  live-dead g (i ∷ ids) = ground (arith, live-dead g ids, Newer-refl collator g)

  -- A delete beyond the bound leaves nothing to show.
  pub live-deletions :
      (c : Cell) (g : CanvasCrdtMetadata) (ids : List String)
      → IsBelow bound c
      → bound < g.clock
      → deleting g ids c ≡ (if listed id ids then none else live c)
  unfolding deletions_of
  live-deletions c g [] h lt = refl
  live-deletions c g (i ∷ ids) h lt = elim (Bool-cases (i == id)) [
    | inl here ↦ rw here (ap (deleting g ids) (step-del c g h lt) ∙ live-dead g ids)
    | inr there ↦ rw there (live-deletions c g ids h lt)
  ]

  pub live-put :
      (c : Cell) (s : Shape)
      → IsBelow bound c
      → Wins bound (live c) s
      → run collator c (put s ∷ []) ≡ alive (restamp s)
  unfolding step
  live-put absent s b w = refl
  live-put (alive p) s b w = ground (
    arith,
    Newer-refl collator (get_canvas_crdt_metadata s),
    Newer-of_lt collator (get_canvas_crdt_metadata s) (get_canvas_crdt_metadata p),
  )
  live-put (dead g) s b w = ground (arith, not-Newer-of_lt collator g (get_canvas_crdt_metadata s))

-- What a list of shapes sends for an id: nothing, or one put.
pub data Sends (bound : ℕ) (id : String) (base : Option Shape) (next sent : List Shape)
    : Type 0 where
  nothing :
      has_id id next ≡ false
      → shapes_at id sent ≡ []
      → shown id sent ≡ none
      → Sends bound id base next sent
  one_put :
      (s : Shape)
      → has_id id next ≡ true
      → shapes_at id sent ≡ put s ∷ []
      → shown id sent ≡ some s
      → restamp s ≡ s
      → Wins bound base s
      → Sends bound id base next sent

module _ (bound : ℕ) (id : String) (previous : JsMap String Shape) where
  cons-Sends :
      (s : Shape) (ss : List Shape) (s' : Shape) (ss' : List Shape)
      → s'.id ≡ s.id
      → restamp s' ≡ s'
      → has_id s.id ss ≡ false
      → Wins bound (JsMap.get previous s.id) s'
      → Sends bound id (JsMap.get previous id) ss ss'
      → Sends bound id (JsMap.get previous id) (s ∷ ss) (s' ∷ ss')
  unfolding has_id
  cons-Sends s ss s' ss' own stamped fresh wins (nothing a b c) = elim (Bool-cases (s.id == id)) [
    | inl here ↦ one_put s' (ground arith) (ground arith) (ground arith) stamped (
        subst (λ k. Wins bound (JsMap.get previous k) s') ((string_key.matches_iff s.id id).0 here)
          wins)
    | inr there ↦ nothing (ground arith) (ground arith) (ground arith)
  ]
  cons-Sends s ss s' ss' own stamped fresh wins (one_put t a b c d w) =
      elim (Bool-cases (s.id == id)) [
        | inl here ↦ absurd (ground (arith, (string_key.matches_iff s.id id).0 here))
        | inr there ↦ one_put t (ground arith) (ground arith) (ground arith) d w
      ]

module _ (stringify : JsValue → String) {S : Type 0} (next_clock : S → ℕ × S) (bound : ℕ)
    (Ahead : S → Type 0)
    (ahead : (st : S) → Ahead st → (bound < (next_clock st).0) × Ahead (next_clock st).1)
    (client_id : String) where
  pub reconcile_shape_lem :
      (base : Option Shape) (s : Shape) (st : S)
      → Ahead st
      → ((reconcile_shape stringify next_clock client_id base s st).0.id ≡ s.id)
        × (restamp (reconcile_shape stringify next_clock client_id base s st).0
            ≡ (reconcile_shape stringify next_clock client_id base s st).0)
        × Wins bound base (reconcile_shape stringify next_clock client_id base s st).0
        × Ahead (reconcile_shape stringify next_clock client_id base s st).1
  unfolding reconcile_shape with_canvas_crdt_metadata restamp
  reconcile_shape_lem none s st h = (refl, refl, (ahead st h).0, (ahead st h).1)
  reconcile_shape_lem (some p) s st h =
      elim (Bool-cases (content_changed stringify next_clock (some p) s)) [
        | inl changed ↦ rw changed (refl, refl, inr (ahead st h).0, (ahead st h).1)
        | inr same ↦ rw same (refl, refl, inl refl, h)
      ]

  abbrev pub sent : JsMap String Shape → List Shape → S → List Shape
  sent previous next st = (reconcile_shapes stringify next_clock client_id previous next st).0

  pub sends :
      (previous : JsMap String Shape) (next : List Shape) (st : S) (id : String)
      → IsUnique next
      → Ahead st
      → Sends bound id (JsMap.get previous id) next (sent previous next st)
  unfolding reconcile_shapes has_id
  sends previous [] st id u h = nothing refl refl refl
  sends previous (s ∷ ss) st id (fresh, u) h =
      let (s', st') =
        reconcile_shape stringify next_clock client_id (JsMap.get previous s.id) s st in
      let (own, stamped, wins, h') = reconcile_shape_lem (JsMap.get previous s.id) s st h in
      cons-Sends bound id previous s ss s' (sent previous ss st') own stamped fresh wins
        (sends previous ss st' id u h')
