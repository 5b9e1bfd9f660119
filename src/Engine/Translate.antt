-- ===== src/Engine/Translate.antt =====
-- packages/canvas-engine/src/diagram: translateShape and reattachConnectors of tidy.ts, and applyMoves
-- of arrange.ts.
use canvassync.Prelude.{
  String, Bool, false, ◌||◌, Option, none, some, List, map, if◌then◌else◌, ◌==◌, string_key,
}
use canvassync.JsMap
use canvassync.JsMap.{JsMap}
use canvassync.Engine.Shapes.{
  Number, Box, Ends, EndpointBinding, FreehandPoint, Body, rect, rhombus, circle, line, arrow, text,
  freehand, Shape,
}
use canvassync.Engine.Geometry.{convert_to_points}
use canvassync.Engine.Bindings.{on_ends, with_body, shape_by_id}

pub record Shift (N : Type 0) : Type 0 where
  pub dx : N
  pub dy : N

module _ {N : Type 0} where
  abbrev pub parent_of : Body N → Option String
  parent_of (text b font_size content parent_id) = parent_id
  parent_of _ = none

  abbrev bound_to : JsMap String (Shift N) → Option (EndpointBinding N) → Bool
  bound_to moves none = false
  bound_to moves (some b) = JsMap.has moves b.shape_id

  unfoldable pub touches_moved : JsMap String (Shift N) → Ends N → Bool
  touches_moved moves e = bound_to moves e.start_binding || bound_to moves e.end_binding

module _ {N : Type 0} (num : Number N) where
  abbrev translate_box : (dx dy : N) → Box N → Box N
  translate_box dx dy b = record b { x = num.plus b.x dx; y = num.plus b.y dy }

  abbrev translate_ends : (dx dy : N) → Ends N → Ends N
  translate_ends dx dy e = record e {
    x1 = num.plus e.x1 dx;
    y1 = num.plus e.y1 dy;
    x2 = num.plus e.x2 dx;
    y2 = num.plus e.y2 dy;
  }

  abbrev translate_point : (dx dy : N) → FreehandPoint N → FreehandPoint N
  translate_point dx dy p = record p { x = num.plus p.x dx; y = num.plus p.y dy }

  unfoldable pub translate_body : (dx dy : N) → Body N → Body N
  translate_body dx dy (rect b) = rect (translate_box dx dy b)
  translate_body dx dy (rhombus b) = rhombus (translate_box dx dy b)
  translate_body dx dy (text b font_size content parent_id) =
      text (translate_box dx dy b) font_size content parent_id
  translate_body dx dy (circle cx cy rx ry) = circle (num.plus cx dx) (num.plus cy dy) rx ry
  translate_body dx dy (line e) = line (translate_ends dx dy e)
  translate_body dx dy (arrow e) = arrow (translate_ends dx dy e)
  translate_body dx dy (freehand points) = freehand (map (translate_point dx dy) points)

  unfoldable pub attach_point :
      JsMap String (Shape N) → Option (EndpointBinding N) → (fallback : N × N) → N × N
  unfolding convert_to_points
  attach_point shapes none fallback = fallback
  attach_point shapes (some b) fallback = elim (JsMap.get shapes b.shape_id) [
    | none ↦ fallback
    | some target ↦
        let box = convert_to_points num target.body in
        (
          num.plus box.x1 (num.times b.rel_x (num.minus box.x2 box.x1)),
          num.plus box.y1 (num.times b.rel_y (num.minus box.y2 box.y1)),
        )
  ]

  unfoldable pub reattach_ends : JsMap String (Shape N) → Ends N → Ends N
  unfolding attach_point
  reattach_ends shapes e =
      let (x1, y1) = attach_point shapes e.start_binding (e.x1, e.y1) in
      let (x2, y2) = attach_point shapes e.end_binding (e.x2, e.y2) in
      record e { x1 = x1; y1 = y1; x2 = x2; y2 = y2 }

  abbrev reattach : JsMap String (Shift N) → JsMap String (Shape N) → Ends N → Ends N
  reattach moves shapes e = if touches_moved moves e then reattach_ends shapes e else e

  -- `movedIds` are the keys of the moves.
  unfoldable pub reattach_connectors : JsMap String (Shift N) → List (Shape N) → List (Shape N)
  unfolding touches_moved reattach_ends
  reattach_connectors moves shapes =
      map (with_body (on_ends (reattach moves (shape_by_id shapes)))) shapes

  -- `parentId && moves.get(parentId)`
  abbrev parent_move : JsMap String (Shift N) → Option String → Option (Shift N)
  parent_move moves none = none
  parent_move moves (some p) = if p == "" then none else JsMap.get moves p

  abbrev translate_by : Option (Shift N) → Shape N → Shape N
  translate_by none s = s
  translate_by (some m) s = with_body (translate_body m.dx m.dy) s

  unfoldable pub apply_move : JsMap String (Shift N) → Shape N → Shape N
  unfolding translate_body
  apply_move moves s = elim (JsMap.get moves s.id) [
    | some own ↦ translate_by (some own) s
    | none ↦ translate_by (parent_move moves (parent_of s.body)) s
  ]

  unfoldable pub apply_moves : JsMap String (Shift N) → List (Shape N) → List (Shape N)
  unfolding apply_move reattach_connectors
  apply_moves moves shapes = reattach_connectors moves (map (apply_move moves) shapes)
