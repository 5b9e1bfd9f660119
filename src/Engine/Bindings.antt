-- ===== src/Engine/Bindings.antt =====
-- packages/canvas-engine/src/store.ts: the endpoints of connectors that are bound to shapes.
-- `snap` is connectorSnapEnabled.
use canvassync.Prelude.{
  String, Bool, true, false, not, ◌&&◌, ◌||◌, Option, none, some, List, [], ◌∷◌, map, any,
  if◌then◌else◌, ◌==◌, string_key,
}
use canvassync.JsMap
use canvassync.JsMap.{JsMap}
use canvassync.Engine.Shapes.{Number, Ends, EndpointBinding, Body, line, arrow, Shape}
use canvassync.Engine.Geometry.{Points, convert_to_points}

module _ {N : Type 0} where
  abbrev pub is_connector : Body N → Bool
  is_connector (line e) = true
  is_connector (arrow e) = true
  is_connector _ = false

  unfoldable pub is_bindable_target : Shape N → Bool
  is_bindable_target s = not (is_connector s.body)

  -- `excludeId ?? null` is the id of no shape, or an id.
  abbrev is_excluded : Option String → Shape N → Bool
  is_excluded none s = false
  is_excluded (some id) s = s.id == id

  abbrev pub on_ends : (Ends N → Ends N) → Body N → Body N
  on_ends f (line e) = line (f e)
  on_ends f (arrow e) = arrow (f e)
  on_ends f body = body

  -- new Map(shapes.map((shape) => [shape.id, shape])), added to a map.
  unfoldable pub index_shapes : JsMap String (Shape N) → List (Shape N) → JsMap String (Shape N)
  index_shapes m [] = m
  index_shapes m (s ∷ shapes) = index_shapes (JsMap.set m s.id s) shapes

  unfoldable pub shape_by_id : List (Shape N) → JsMap String (Shape N)
  unfolding index_shapes
  shape_by_id shapes = index_shapes JsMap.empty shapes

  abbrev pub unbound : Ends N → Ends N
  unbound e = record e { start_binding = none; end_binding = none }

  abbrev pub moved_to : Option (N × N) → N × N → N × N
  moved_to none p = p
  moved_to (some q) p = q

  -- `binding && !point ? undefined : binding`
  abbrev pub still_bound : Option (N × N) → Option (EndpointBinding N) → Option (EndpointBinding N)
  still_bound none b = none
  still_bound (some q) b = b

  abbrev pub with_body : (Body N → Body N) → Shape N → Shape N
  with_body f s = record s { body = f s.body }

module _ {N : Type 0} (num : Number N) where
  unfoldable pub clamp01 : N → N
  clamp01 value = num.max (num.of_nat 0) (num.min (num.of_nat 1) value)

  unfoldable pub get_relative_binding_for_point : Shape N → (x y : N) → EndpointBinding N
  unfolding clamp01 convert_to_points
  get_relative_binding_for_point s x y =
      let box = convert_to_points num s.body in
      let width = num.max (num.of_nat 1) (num.minus box.x2 box.x1) in
      let height = num.max (num.of_nat 1) (num.minus box.y2 box.y1) in
      record {
        shape_id = s.id;
        rel_x = clamp01 (num.over (num.minus x box.x1) width);
        rel_y = clamp01 (num.over (num.minus y box.y1) height);
      }

  -- The point of an anchor in a shape's box.
  unfoldable pub project : EndpointBinding N → Shape N → N × N
  unfolding clamp01 convert_to_points
  project b target =
      let box = convert_to_points num target.body in
      let width = num.minus box.x2 box.x1 in
      let height = num.minus box.y2 box.y1 in
      (
        num.plus box.x1 (num.times (clamp01 b.rel_x) width),
        num.plus box.y1 (num.times (clamp01 b.rel_y) height),
      )

  unfoldable pub get_point_from_binding :
      Option (EndpointBinding N) → JsMap String (Shape N) → Option (N × N)
  unfolding is_bindable_target project
  get_point_from_binding none shapes = none
  get_point_from_binding (some b) shapes = elim (JsMap.get shapes b.shape_id) [
    | none ↦ none
    | some target ↦ if is_bindable_target target then some (project b target) else none
  ]

  abbrev connector_snap_tolerance : N
  connector_snap_tolerance = num.of_nat 10

  unfoldable pub is_inside : Points N → (x y : N) → Bool
  is_inside box x y =
      let t = connector_snap_tolerance in
      (num.at_most (num.minus box.x1 t) x && num.at_most x (num.plus box.x2 t))
      && num.at_most (num.minus box.y1 t) y
      && num.at_most y (num.plus box.y2 t)

  -- The loop from the last shape to the first.
  unfoldable pub top_shape_at : (x y : N) → Option String → List (Shape N) → Option (Shape N)
  unfolding is_bindable_target is_inside convert_to_points
  top_shape_at x y excluded [] = none
  top_shape_at x y excluded (s ∷ shapes) =
      let above = top_shape_at x y excluded shapes in
      let here =
        not (is_excluded excluded s || not (is_bindable_target s))
        && is_inside (convert_to_points num s.body) x y in
      elim above [ some t ↦ some t | none ↦ if here then some s else none ]

  unfoldable pub reproject : JsMap String (Shape N) → Ends N → Ends N
  unfolding get_point_from_binding
  reproject shapes e =
      let start_point = get_point_from_binding e.start_binding shapes in
      let end_point = get_point_from_binding e.end_binding shapes in
      let (x1, y1) = moved_to start_point (e.x1, e.y1) in
      let (x2, y2) = moved_to end_point (e.x2, e.y2) in
      record {
        x1 = x1;
        y1 = y1;
        x2 = x2;
        y2 = y2;
        start_binding = still_bound start_point e.start_binding;
        end_binding = still_bound end_point e.end_binding;
      }

module _ {N : Type 0} (num : Number N) (snap : Bool) where
  unfoldable pub find_top_bindable_shape_at_point :
      List (Shape N) → (x y : N) → Option String → Option (Shape N)
  unfolding top_shape_at
  find_top_bindable_shape_at_point shapes x y excluded =
      if not snap then none else top_shape_at num x y excluded shapes

  abbrev binding_at : List (Shape N) → String → (x y : N) → Option (EndpointBinding N)
  binding_at shapes id x y = elim (find_top_bindable_shape_at_point shapes x y (some id)) [
    | none ↦ none
    | some target ↦ some (get_relative_binding_for_point num target x y)
  ]

  unfoldable pub attach_connector_bindings : List (Shape N) → (id : String) → Ends N → Ends N
  unfolding find_top_bindable_shape_at_point get_relative_binding_for_point
  attach_connector_bindings shapes id e = if not snap then unbound e else record e {
    start_binding = binding_at shapes id e.x1 e.y1;
    end_binding = binding_at shapes id e.x2 e.y2;
  }

  -- The callback of the `map`.
  unfoldable pub refresh_shape : List String → List (Shape N) → Shape N → Shape N
  unfolding attach_connector_bindings
  refresh_shape ids shapes s =
      if any (λ id. id == s.id) ids
      then with_body (on_ends (attach_connector_bindings shapes s.id)) s
      else s

  -- Without ids, every shape stays as it is.
  unfoldable pub refresh_bindings_for_connector_ids : List String → List (Shape N) → List (Shape N)
  unfolding refresh_shape
  refresh_bindings_for_connector_ids ids shapes = map (refresh_shape ids shapes) shapes

  unfoldable pub apply_connector_bindings : List (Shape N) → List (Shape N)
  unfolding shape_by_id reproject
  apply_connector_bindings shapes =
      let connected = if not snap then unbound else reproject num (shape_by_id shapes) in
      map (with_body (on_ends connected)) shapes
