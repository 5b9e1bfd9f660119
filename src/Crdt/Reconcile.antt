-- ===== src/Crdt/Reconcile.antt =====
-- reconcileLocalCanvasCrdtSnapshot of packages/common/src/canvas-crdt.ts: a client stamps what it
-- changed. `nextClock` is a callback with a state of its own, and `JSON.stringify` is the language's:
-- both are parameters. The deletions are those that the server makes of the client's message.
use canvassync.Prelude.{
  ℕ, String, Bool, not, Option, none, some, List, [], ◌∷◌, map, foldl, ◌==◌, string_key, any,
  select, if◌then◌else◌,
}
use canvassync.JsValue.{JsValue}
use canvassync.JsMap
use canvassync.JsMap.{JsMap}
use canvassync.Crdt.{
  CanvasCrdtMetadata, Shape, CanvasCrdtDeletion, get_canvas_crdt_metadata,
  with_canvas_crdt_metadata, stable_value, shape_value,
}

pub record Reconciled : Type 0 where
  pub shapes : List Shape
  pub deleted_shape_ids : List String
  pub deletion_meta : Option CanvasCrdtMetadata

-- new Map(previousShapes.map((shape) => [shape.id, shape]))
unfoldable pub by_id : List Shape → JsMap String Shape
by_id shapes = foldl (λ m s. JsMap.set m s.id s) JsMap.empty shapes

-- new Set(nextShapes.map((shape) => shape.id)).has(id)
unfoldable pub has_id : String → List Shape → Bool
has_id id shapes = any (λ s. s.id == id) shapes

unfoldable pub deleted_ids : List Shape → List Shape → List String
deleted_ids previous next = map (λ s. s.id) (select (λ s. not (has_id s.id next)) previous)

-- `deletionMeta && deletedShapeIds ? deletedShapeIds.map((id) => ({ id, meta })) : []`
unfoldable pub deletions_of : Option CanvasCrdtMetadata → List String → List CanvasCrdtDeletion
deletions_of none ids = []
deletions_of (some stamp) ids = map (λ id. record { id = id; stamp = stamp }) ids

module _ (stringify : JsValue → String) {S : Type 0} (next_clock : S → ℕ × S) where
  unfoldable pub get_canvas_shape_content_hash : Shape → String
  get_canvas_shape_content_hash s = stringify (stable_value (shape_value s))

  -- `!previous || hash(previous) !== hash(shape)`
  unfoldable pub content_changed : Option Shape → Shape → Bool
  unfolding get_canvas_shape_content_hash
  content_changed none s = Bool.true
  content_changed (some p) s =
      not (get_canvas_shape_content_hash p == get_canvas_shape_content_hash s)

  -- The metadata that an unchanged shape keeps.
  abbrev pub kept_meta : Option Shape → Shape → CanvasCrdtMetadata
  kept_meta none s = get_canvas_crdt_metadata s
  kept_meta (some p) s = get_canvas_crdt_metadata p

  -- The callback of `nextShapes.map`.
  unfoldable pub reconcile_shape : String → Option Shape → Shape → S → Shape × S
  unfolding content_changed
  reconcile_shape client_id previous s st =
      if content_changed previous s
      then (
        with_canvas_crdt_metadata s (record { clock = (next_clock st).0; client_id = client_id }),
        (next_clock st).1,
      )
      else (with_canvas_crdt_metadata s (kept_meta previous s), st)

  unfoldable pub reconcile_shapes : String → JsMap String Shape → List Shape → S → List Shape × S
  unfolding reconcile_shape
  reconcile_shapes client_id previous [] st = ([], st)
  reconcile_shapes client_id previous (s ∷ ss) st =
      let (s', st') = reconcile_shape client_id (JsMap.get previous s.id) s st in
      let (ss', st'') = reconcile_shapes client_id previous ss st' in (s' ∷ ss', st'')

  unfoldable pub deletion_stamp : String → List String → S → Option CanvasCrdtMetadata × S
  deletion_stamp client_id [] st = (none, st)
  deletion_stamp client_id (id ∷ ids) st =
      (some (record { clock = (next_clock st).0; client_id = client_id }), (next_clock st).1)

  unfoldable pub reconcile_local_canvas_crdt_snapshot :
      List Shape → List Shape → String → S → Reconciled × S
  unfolding by_id has_id reconcile_shapes deletion_stamp deleted_ids
  reconcile_local_canvas_crdt_snapshot previous next client_id st =
      let (shapes, st') = reconcile_shapes client_id (by_id previous) next st in
      let ids = deleted_ids previous next in
      let (stamp, st'') = deletion_stamp client_id ids st' in
      (record { shapes = shapes; deleted_shape_ids = ids; deletion_meta = stamp }, st'')
