-- ===== src/Engine/Geometry.antt =====
-- packages/canvas-engine/src/geometry.ts: the box that bounds a shape.
use canvassync.Prelude.{List, [], ◌∷◌, map, foldl}
use canvassync.Engine.Shapes.{
  Number, Box, Ends, FreehandPoint, Body, rect, rhombus, circle, line, arrow, text, freehand,
  finite_or,
}

pub record Points (N : Type 0) : Type 0 where
  pub x1 : N
  pub y1 : N
  pub x2 : N
  pub y2 : N

module _ {N : Type 0} (num : Number N) where
  unfoldable pub normalized_rect_bounds : Box N → Points N
  unfolding finite_or
  normalized_rect_bounds b =
      let zero = num.of_nat 0 in
      let x = finite_or num b.x zero in
      let y = finite_or num b.y zero in
      let x2 = num.plus x (finite_or num b.width zero) in
      let y2 = num.plus y (finite_or num b.height zero) in
      record { x1 = num.min x x2; y1 = num.min y y2; x2 = num.max x x2; y2 = num.max y y2 }

  unfoldable pub ends_bounds : Ends N → Points N
  unfolding finite_or
  ends_bounds e = record {
    x1 = finite_or num e.x1 (num.of_nat 0);
    y1 = finite_or num e.y1 (num.of_nat 0);
    x2 = finite_or num e.x2 (num.of_nat 0);
    y2 = finite_or num e.y2 (num.of_nat 0);
  }

  -- Math.min and Math.max over the points go from left to right.
  unfoldable pub points_bounds : List (FreehandPoint N) → Points N
  points_bounds [] =
      let zero = num.of_nat 0 in record { x1 = zero; y1 = zero; x2 = zero; y2 = zero }
  points_bounds (p ∷ ps) = record {
    x1 = foldl num.min p.x (map (λ (q : FreehandPoint N). q.x) ps);
    y1 = foldl num.min p.y (map (λ (q : FreehandPoint N). q.y) ps);
    x2 = foldl num.max p.x (map (λ (q : FreehandPoint N). q.x) ps);
    y2 = foldl num.max p.y (map (λ (q : FreehandPoint N). q.y) ps);
  }

  unfoldable pub circle_bounds : (center_x center_y radius_x radius_y : N) → Points N
  unfolding finite_or
  circle_bounds center_x center_y radius_x radius_y =
      let zero = num.of_nat 0 in
      let cx = finite_or num center_x zero in
      let cy = finite_or num center_y zero in
      let rx = num.abs (finite_or num radius_x zero) in
      let ry = num.abs (finite_or num radius_y zero) in
      record {
        x1 = num.minus cx rx;
        y1 = num.minus cy ry;
        x2 = num.plus cx rx;
        y2 = num.plus cy ry;
      }

  unfoldable pub convert_to_points : Body N → Points N
  unfolding normalized_rect_bounds ends_bounds points_bounds circle_bounds
  convert_to_points (rect b) = normalized_rect_bounds b
  convert_to_points (rhombus b) = normalized_rect_bounds b
  convert_to_points (circle cx cy rx ry) = circle_bounds cx cy rx ry
  convert_to_points (line e) = ends_bounds e
  convert_to_points (arrow e) = ends_bounds e
  convert_to_points (text b font_size content parent_id) = normalized_rect_bounds b
  convert_to_points (freehand points) = points_bounds points
