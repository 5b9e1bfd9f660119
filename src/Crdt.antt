-- ===== src/Crdt.antt =====
-- packages/common/src/canvas-crdt.ts: last-writer-wins merging of canvas snapshots.
-- A shape is the object that the engine draws: its id, its `__crdt` property (`undefined` if it has
-- none) and its other own properties, which this code only hashes and carries along.
-- Clocks are natural numbers: the code truncates them and lifts them to 0 wherever it stores one.
-- The order in which an object lists integer-like keys is not modelled: keys stay as sorted.
pub mod Order
pub mod Cell
pub mod Valid
pub mod Load
pub mod Refinement
pub mod Convergence
pub mod Replica
pub mod Reconcile
pub mod Roundtrip
pub mod Edit
mod Tests
pub mod Monotone
use canvassync.Prelude.{
  ℕ, String, Bool, true, false, not, ◌||◌, ◌&&◌, Option, none, some, List, [], ◌∷◌, map, foldl,
  nat_beq, if◌then◌else◌, ◌==◌, string_key,
}
use canvassync.Prelude.Int.{ℤ, sub_ℕ, nonneg}
use canvassync.Collation.{Collator, utf16, compare_units}
use canvassync.JsValue.{
  JsNumber, nan, infinite, finite, JsValue, undefined, null, bool, num, str, arr, obj, Items, nil,
  cons, Props, end, prop, property,
}
use canvassync.JsMap
use canvassync.JsMap.{JsMap}

pub record CanvasCrdtMetadata : Type 0 where
  pub clock : ℕ
  pub client_id : String

pub record Shape : Type 0 where
  pub id : String
  pub crdt : JsValue
  pub rest : Props

pub record CanvasCrdtDeletion : Type 0 where
  pub id : String
  pub stamp : CanvasCrdtMetadata

abbrev pub server_base_meta : CanvasCrdtMetadata
server_base_meta = record { clock = 0; client_id = "server" }

-- The tests on `clock` and `clientId`, and Math.max(0, Math.trunc(clock)).
unfoldable pub stamp_of : JsValue → JsValue → Option CanvasCrdtMetadata
stamp_of (num (finite negative whole frac)) (str client_id) =
    some (record { clock = if negative then 0 else whole; client_id = client_id })
stamp_of _ _ = none

unfoldable pub normalize_metadata : JsValue → Option CanvasCrdtMetadata
unfolding stamp_of
normalize_metadata (obj ps) = stamp_of (property "clock" ps) (property "clientId" ps)
normalize_metadata _ = none

unfoldable pub get_canvas_crdt_metadata : Shape → CanvasCrdtMetadata
unfolding normalize_metadata property
get_canvas_crdt_metadata s = elim (normalize_metadata s.crdt) [
  | none ↦ server_base_meta
  | some stamp ↦ stamp
]

unfoldable pub with_canvas_crdt_metadata : Shape → CanvasCrdtMetadata → Shape
with_canvas_crdt_metadata s stamp = record s {
  crdt =
      obj (
        prop "clock" (num (finite false stamp.clock 0))
          (prop "clientId" (str stamp.client_id) end));
}

-- Object.keys(value).sort(), with the values that go with the keys.
unfoldable pub insert_prop : String → JsValue → Props → Props
insert_prop k v end = prop k v end
insert_prop k v (prop j w ps) =
    if nonneg (compare_units (utf16 j) (utf16 k))
    then prop k v (prop j w ps)
    else prop j w (insert_prop k v ps)

unfoldable mutual
  pub stable_value : JsValue → JsValue
  stable_value (arr xs) = arr (stable_items xs)
  stable_value (obj ps) = obj (stable_props ps)
  stable_value v = v

  pub stable_items : Items → Items
  stable_items nil = nil
  stable_items (cons v xs) = cons (stable_value v) (stable_items xs)

  pub stable_props : Props → Props
  stable_props end = end
  stable_props (prop k v ps) =
      let w = stable_value v in
      let rest = stable_props ps in if k == "__crdt" then rest else insert_prop k w rest

-- The shape as the object that it is.
unfoldable pub shape_value : Shape → JsValue
shape_value s = obj (prop "id" (str s.id) (prop "__crdt" s.crdt s.rest))

module _ (collator : Collator) where
  unfoldable pub compare_canvas_crdt_metadata : CanvasCrdtMetadata → CanvasCrdtMetadata → ℤ
  compare_canvas_crdt_metadata left right =
      if not (nat_beq left.clock right.clock)
      then sub_ℕ left.clock right.clock
      else collator.locale_compare left.client_id right.client_id

  unfoldable pub is_canvas_crdt_newer_or_equal : CanvasCrdtMetadata → CanvasCrdtMetadata → Bool
  unfolding compare_canvas_crdt_metadata
  is_canvas_crdt_newer_or_equal incoming existing =
      nonneg (compare_canvas_crdt_metadata incoming existing)

-- The two maps that `mergeCanvasCrdtSnapshot` builds up.
pub record MergeState : Type 0 where
  pub merged : JsMap String Shape
  pub tombstones : JsMap String CanvasCrdtMetadata

-- merged.set(shape.id, withCanvasCrdtMetadata(shape, getCanvasCrdtMetadata(shape)))
unfoldable pub restamp : Shape → Shape
unfolding with_canvas_crdt_metadata get_canvas_crdt_metadata
restamp s = with_canvas_crdt_metadata s (get_canvas_crdt_metadata s)

unfoldable pub load_shape : JsMap String Shape → Shape → JsMap String Shape
load_shape m s = JsMap.set m s.id (restamp s)

unfoldable pub load_shapes : List Shape → JsMap String Shape
unfolding load_shape
load_shapes shapes = foldl load_shape JsMap.empty shapes

-- `existing ? getCanvasCrdtMetadata(existing) : tombstones.get(id)`
unfoldable pub existing_meta : Option Shape → Option CanvasCrdtMetadata → Option CanvasCrdtMetadata
existing_meta none tombstone = tombstone
existing_meta (some s) tombstone = some (get_canvas_crdt_metadata s)

module _ (collator : Collator) where
  -- `!known || isCanvasCrdtNewerOrEqual(stamp, known)`
  unfoldable pub supersedes : CanvasCrdtMetadata → Option CanvasCrdtMetadata → Bool
  supersedes stamp none = true
  supersedes stamp (some known) = is_canvas_crdt_newer_or_equal collator stamp known

  -- `known && isCanvasCrdtNewerOrEqual(known, stamp)`
  unfoldable pub is_buried : Option CanvasCrdtMetadata → CanvasCrdtMetadata → Bool
  is_buried none stamp = false
  is_buried (some known) stamp = is_canvas_crdt_newer_or_equal collator known stamp

  -- The body of the loop over `deletions`.
  unfoldable pub apply_deletion : MergeState → CanvasCrdtDeletion → MergeState
  unfolding existing_meta supersedes
  apply_deletion st d =
      if supersedes d.stamp
        (existing_meta (JsMap.get st.merged d.id) (JsMap.get st.tombstones d.id))
      then record {
        merged = JsMap.delete st.merged d.id;
        tombstones = JsMap.set st.tombstones d.id d.stamp;
      }
      else st

  -- The body of the loop over `incomingShapes`.
  unfoldable pub apply_incoming : MergeState → Shape → MergeState
  unfolding existing_meta supersedes is_buried
  apply_incoming st s =
      if is_buried (JsMap.get st.tombstones s.id) (get_canvas_crdt_metadata s)
      then st
      else if supersedes (get_canvas_crdt_metadata s)
          (existing_meta (JsMap.get st.merged s.id) none)
      then record {
        merged =
            JsMap.set st.merged s.id (with_canvas_crdt_metadata s (get_canvas_crdt_metadata s));
        tombstones = JsMap.delete st.tombstones s.id;
      }
      else st

  -- What `mergeCanvasCrdtSnapshot` holds when its loops are done.
  unfoldable pub merge_state :
      List Shape
      → List Shape
      → List CanvasCrdtDeletion
      → JsMap String CanvasCrdtMetadata
      → MergeState
  merge_state current incoming deletions current_tombstones =
      foldl apply_incoming
        (foldl apply_deletion
          (record { merged = load_shapes current; tombstones = current_tombstones }) deletions)
        incoming

  unfoldable pub merge_canvas_crdt_snapshot :
      List Shape
      → List Shape
      → List CanvasCrdtDeletion
      → JsMap String CanvasCrdtMetadata
      → List Shape × JsMap String CanvasCrdtMetadata
  unfolding merge_state
  merge_canvas_crdt_snapshot current incoming deletions current_tombstones =
      let st = merge_state current incoming deletions current_tombstones in
      (JsMap.values st.merged, st.tombstones)
