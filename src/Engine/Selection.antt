-- ===== src/Engine/Selection.antt =====
-- packages/canvas-engine/src/interaction/selection.ts: the selection by a box.
use canvassync.Prelude.{
  String, Bool, false, ◌&&◌, List, [], ◌∷◌, all, any, select, ◌==◌, string_key,
}
use canvassync.Engine.Shapes.{Number, Box, FreehandPoint, Body, freehand, Shape}
use canvassync.Engine.Geometry.{Points, convert_to_points}

module _ {N : Type 0} (num : Number N) where
  unfoldable pub has_dragged : (start_x start_y end_x end_y : N) → Bool
  has_dragged start_x start_y end_x end_y =
      let dx = num.minus end_x start_x in
      let dy = num.minus end_y start_y in
      num.below (num.of_nat 9) (num.plus (num.times dx dx) (num.times dy dy))

  unfoldable pub get_selection_box : (x1 y1 x2 y2 : N) → Box N
  get_selection_box x1 y1 x2 y2 = record {
    x = num.min x1 x2;
    y = num.min y1 y2;
    width = num.abs (num.minus x2 x1);
    height = num.abs (num.minus y2 y1);
  }

  abbrev is_within : Box N → Points N → Bool
  is_within box p =
      (num.at_most box.x p.x1 && num.at_most p.x2 (num.plus box.x box.width))
      && num.at_most box.y p.y1
      && num.at_most p.y2 (num.plus box.y box.height)

  abbrev point_of : FreehandPoint N → Points N
  point_of p = record { x1 = p.x; y1 = p.y; x2 = p.x; y2 = p.y }

  unfoldable pub is_shape_inside_box : Body N → Box N → Bool
  unfolding convert_to_points
  is_shape_inside_box (freehand []) box = false
  is_shape_inside_box (freehand (p ∷ ps)) box = all (λ q. is_within box (point_of q)) (p ∷ ps)
  is_shape_inside_box body box = is_within box (convert_to_points num body)

module _ {N : Type 0} where
  unfoldable pub get_selected_shapes_by_ids : List (Shape N) → List String → List (Shape N)
  get_selected_shapes_by_ids shapes selected_ids =
      select (λ s. any (λ id. id == s.id) selected_ids) shapes
