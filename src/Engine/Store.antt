-- ===== src/Engine/Store.antt =====
-- packages/canvas-engine/src/store.ts: dispatch. The `updates` of MOVE_SHAPE are what the spread
-- makes of a shape, that is a function on shapes.
use canvassync.Prelude.{
  String, Bool, false, not, ◌||◌, Option, none, some, List, [], ◌∷◌, ◌++◌, map, any, find, select,
  foldl, if◌then◌else◌, ◌==◌, string_key,
}
use canvassync.Engine.Shapes.{
  Number, Box, Ends, FreehandPoint, Body, rect, rhombus, circle, line, arrow, text, freehand, Shape,
}
use canvassync.Engine.State.{CanvasState, set_shapes}
use canvassync.Engine.Geometry.{Points, convert_to_points}
use canvassync.Engine.Bindings.{
  is_connector, with_body, clamp01, refresh_bindings_for_connector_ids, apply_connector_bindings,
}

pub data Action (N : Type 0) : Type 0 where
  add_shape : Shape N → Action N
  delete_shapes : (ids : List String) → Action N
  move_shape :
      (id : String) (updates : Shape N → Shape N) (skip_connector_binding_refresh : Bool) → Action N
  move_shapes : (ids : List String) (dx dy : N) → Action N
  nudge_shapes : (ids : List String) (dx dy : N) → Action N

abbrev pub is_selected : List String → String → Bool
is_selected ids id = any (λ i. i == id) ids

abbrev pub is_child_of : String → Option String → Bool
is_child_of parent_id none = false
is_child_of parent_id (some p) = p == parent_id

module _ {N : Type 0} where
  abbrev pub shape_with_id : String → List (Shape N) → Option (Shape N)
  shape_with_id id = find (λ s. s.id == id)

module _ {N : Type 0} (num : Number N) where
  -- `Math.max(1, b - a)`
  abbrev span : N → N → N
  span a b = num.max (num.of_nat 1) (num.minus b a)

  -- The box of a child text after its parent's box has changed.
  unfoldable pub carry_box : (prev next : Points N) → Box N → Box N
  unfolding clamp01
  carry_box prev next b =
      let prev_width = span prev.x1 prev.x2 in
      let prev_height = span prev.y1 prev.y2 in
      let next_width = span next.x1 next.x2 in
      let next_height = span next.y1 next.y2 in
      let rel_x = clamp01 num (num.over (num.minus b.x prev.x1) prev_width) in
      let rel_y = clamp01 num (num.over (num.minus b.y prev.y1) prev_height) in
      let rel_width = clamp01 num (num.over b.width prev_width) in
      let rel_height = clamp01 num (num.over b.height prev_height) in
      let x = num.plus next.x1 (num.times rel_x next_width) in
      let y = num.plus next.y1 (num.times rel_y next_height) in
      let least = num.of_nat 8 in
      let max_width = num.max least (num.minus next.x2 x) in
      let max_height = num.max least (num.minus next.y2 y) in
      record {
        x = x;
        y = y;
        width = num.max least (num.min (num.times rel_width next_width) max_width);
        height = num.max least (num.min (num.times rel_height next_height) max_height);
      }

  -- The callback of the `map` in syncTextChildrenToParent.
  unfoldable pub carry_child :
      (prev next : Points N) (parent_id : String) (skip_ids : List String)
      → Shape N
      → Body N
      → Body N
  unfolding carry_box
  carry_child prev next parent_id skip_ids s (text b font_size content parent) =
      if not (is_child_of parent_id parent) || is_selected skip_ids s.id
      then text b font_size content parent
      else text (carry_box prev next b) font_size content parent
  carry_child prev next parent_id skip_ids s body = body

  unfoldable pub sync_text_children_to_parent :
      (prev_shapes next_shapes : List (Shape N)) (parent_id : String) (skip_ids : List String)
      → List (Shape N)
  unfolding carry_child convert_to_points
  sync_text_children_to_parent prev_shapes next_shapes parent_id skip_ids =
      elim (shape_with_id parent_id prev_shapes) [
        | none ↦ next_shapes
        | some prev_parent ↦ elim (shape_with_id parent_id next_shapes) [
          | none ↦ next_shapes
          | some next_parent ↦
              map
                (λ (s : Shape N).
                  with_body
                    (carry_child (convert_to_points num prev_parent.body)
                      (convert_to_points num next_parent.body) parent_id skip_ids s)
                    s)
                next_shapes
        ]
      ]

  abbrev shift_box : (dx dy : N) → Box N → Box N
  shift_box dx dy b = record b { x = num.plus b.x dx; y = num.plus b.y dy }

  abbrev shift_ends : (dx dy : N) → Ends N → Ends N
  shift_ends dx dy e = record e {
    x1 = num.plus e.x1 dx;
    y1 = num.plus e.y1 dy;
    x2 = num.plus e.x2 dx;
    y2 = num.plus e.y2 dy;
  }

  -- The callback on the points makes new ones of `x` and `y` alone.
  unfoldable pub shift_point : (dx dy : N) → FreehandPoint N → FreehandPoint N
  shift_point dx dy p = record { x = num.plus p.x dx; y = num.plus p.y dy; t = none }

  unfoldable pub shift_body : (dx dy : N) → Body N → Body N
  unfolding shift_point
  shift_body dx dy (rect b) = rect (shift_box dx dy b)
  shift_body dx dy (rhombus b) = rhombus (shift_box dx dy b)
  shift_body dx dy (circle cx cy rx ry) = circle (num.plus cx dx) (num.plus cy dy) rx ry
  shift_body dx dy (text b font_size content parent_id) =
      text (shift_box dx dy b) font_size content parent_id
  shift_body dx dy (freehand points) = freehand (map (shift_point dx dy) points)
  shift_body dx dy (line e) = line (shift_ends dx dy e)
  shift_body dx dy (arrow e) = arrow (shift_ends dx dy e)

module _ {N : Type 0} (num : Number N) (snap : Bool) where
  -- MOVE_SHAPES and NUDGE_SHAPES, which have the same code.
  unfoldable pub shifted : List String → (dx dy : N) → List (Shape N) → List (Shape N)
  unfolding shift_body sync_text_children_to_parent refresh_bindings_for_connector_ids
  shifted ids dx dy shapes =
      let moved =
        map
          (λ (s : Shape N). if is_selected ids s.id then with_body (shift_body num dx dy) s else s)
          shapes in
      let synced =
        foldl (λ next parent_id. sync_text_children_to_parent num shapes next parent_id ids) moved
          ids in
      apply_connector_bindings num snap (refresh_bindings_for_connector_ids num snap ids synced)

  -- ADD_SHAPE
  unfoldable pub added : Shape N → List (Shape N) → List (Shape N)
  unfolding refresh_bindings_for_connector_ids
  added shape shapes =
      let appended = shapes ++ shape ∷ [] in
      let refreshed = refresh_bindings_for_connector_ids num snap (shape.id ∷ []) appended in
      apply_connector_bindings num snap (if is_connector shape.body then refreshed else appended)

  -- MOVE_SHAPE
  unfoldable pub updated : String → (Shape N → Shape N) → Bool → List (Shape N) → List (Shape N)
  unfolding sync_text_children_to_parent refresh_bindings_for_connector_ids
  updated id updates skip_connector_binding_refresh shapes =
      let moved = map (λ (s : Shape N). if s.id == id then updates s else s) shapes in
      let synced = sync_text_children_to_parent num shapes moved id [] in
      let refreshed = refresh_bindings_for_connector_ids num snap (id ∷ []) synced in
      apply_connector_bindings num snap
        (if skip_connector_binding_refresh then synced else refreshed)

  -- DELETE_SHAPES
  unfoldable pub deleted : List String → List (Shape N) → List (Shape N)
  deleted ids shapes =
      apply_connector_bindings num snap (select (λ s. not (is_selected ids s.id)) shapes)

  unfoldable pub next_shapes : Action N → List (Shape N) → List (Shape N)
  unfolding added updated shifted deleted
  next_shapes (add_shape shape) shapes = added shape shapes
  next_shapes (delete_shapes ids) shapes = deleted ids shapes
  next_shapes (move_shape id updates skip) shapes = updated id updates skip shapes
  next_shapes (move_shapes ids dx dy) shapes = shifted ids dx dy shapes
  next_shapes (nudge_shapes ids dx dy) shapes = shifted ids dx dy shapes

  unfoldable pub dispatch : Action N → CanvasState N → CanvasState N
  unfolding next_shapes set_shapes
  dispatch action state = set_shapes num (next_shapes action state.present) state
