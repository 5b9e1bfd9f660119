-- ===== src/Engine/Resize.antt =====
-- packages/canvas-engine/src/geometry.ts: resizing by a handle.
use canvassync.Prelude.{Bool, not, none, List, map, if◌then◌else◌}
use canvassync.Engine.Shapes.{
  Number, Box, Ends, FreehandPoint, Body, rect, rhombus, circle, line, arrow, text, freehand,
}
use canvassync.Engine.Geometry.{Points, convert_to_points}
use canvassync.Engine.Handles.{
  Handle, top_left, top_right, bottom_left, bottom_right, left, right, top, bottom, start, end,
  is_corner_handle, drag, fixed_corner, dragged_corner, from_corners,
}

-- The object that convertBackToShape and resizeShape return, by its properties; `unchanged` is the
-- shape itself.
pub data Updates (N : Type 0) : Type 0 where
  boxed : Box N → Updates N
  round : (center_x center_y radius_x radius_y : N) → Updates N
  ended : Points N → Updates N
  written : Box N → (font_size : N) → Updates N
  drawn : List (FreehandPoint N) → Updates N
  unchanged : Updates N

module _ {N : Type 0} (num : Number N) where
  unfoldable pub normalize : Points N → Points N
  normalize p = record {
    x1 = num.min p.x1 p.x2;
    y1 = num.min p.y1 p.y2;
    x2 = num.max p.x1 p.x2;
    y2 = num.max p.y1 p.y2;
  }

  abbrev half : N → N
  half n = num.over n (num.of_nat 2)

  abbrev points_box : Points N → Box N
  points_box p = record {
    x = p.x1;
    y = p.y1;
    width = num.minus p.x2 p.x1;
    height = num.minus p.y2 p.y1;
  }

  -- The box and the font of a text that is made as high as these points.
  unfoldable pub resize_text : Points N → Box N → (font_size : N) → Updates N
  resize_text p b font_size =
      let least = num.of_nat 8 in
      let height = num.max least (num.minus p.y2 p.y1) in
      let scale = num.over height (num.max (num.of_nat 1) b.height) in
      written
        (record {
          x = p.x1;
          y = p.y1;
          width = num.max least (num.minus p.x2 p.x1);
          height = height;
        })
        (num.max least (num.times font_size scale))

  unfoldable pub convert_back_to_shape : Body N → Points N → Updates N
  unfolding resize_text
  convert_back_to_shape (rect b) p = boxed (points_box p)
  convert_back_to_shape (rhombus b) p = boxed (points_box p)
  convert_back_to_shape (circle cx cy rx ry) p =
      round (half (num.plus p.x1 p.x2)) (half (num.plus p.y1 p.y2)) (half (num.minus p.x2 p.x1))
        (half (num.minus p.y2 p.y1))
  convert_back_to_shape (line e) p = ended p
  convert_back_to_shape (arrow e) p = ended p
  convert_back_to_shape (text b font_size content parent_id) p = resize_text p b font_size
  convert_back_to_shape (freehand points) p = drawn points

  -- `centerX * 2 - x`
  abbrev mirrored : (center x : N) → N
  mirrored center x = num.minus (num.times center (num.of_nat 2)) x

  -- The `switch` on the handle, where the centre stays.
  unfoldable pub drag_from_center : Handle → (x y center_x center_y : N) → Points N → Points N
  drag_from_center top_left x y cx cy p = record p {
    x1 = x;
    y1 = y;
    x2 = mirrored cx x;
    y2 = mirrored cy y;
  }
  drag_from_center top_right x y cx cy p = record p {
    x2 = x;
    y1 = y;
    x1 = mirrored cx x;
    y2 = mirrored cy y;
  }
  drag_from_center bottom_left x y cx cy p = record p {
    x1 = x;
    y2 = y;
    x2 = mirrored cx x;
    y1 = mirrored cy y;
  }
  drag_from_center bottom_right x y cx cy p = record p {
    x2 = x;
    y2 = y;
    x1 = mirrored cx x;
    y1 = mirrored cy y;
  }
  drag_from_center left x y cx cy p = record p { x1 = x; x2 = mirrored cx x }
  drag_from_center right x y cx cy p = record p { x2 = x; x1 = mirrored cx x }
  drag_from_center top x y cx cy p = record p { y1 = y; y2 = mirrored cy y }
  drag_from_center bottom x y cx cy p = record p { y2 = y; y1 = mirrored cy y }
  drag_from_center start x y cx cy p = p
  drag_from_center end x y cx cy p = p

  unfoldable pub square_from_center : (center_x center_y : N) → Points N → Points N
  square_from_center cx cy p =
      let size = num.max (num.abs (num.minus p.x2 p.x1)) (num.abs (num.minus p.y2 p.y1)) in
      record {
        x1 = num.minus cx (half size);
        y1 = num.minus cy (half size);
        x2 = num.plus cx (half size);
        y2 = num.plus cy (half size);
      }

  -- `delta || 1`
  abbrev or_one : N → N
  or_one delta = if num.truthy delta then delta else num.of_nat 1

  unfoldable pub square_corner : Handle → (original dragged : Points N) → Points N
  unfolding fixed_corner dragged_corner from_corners
  square_corner handle original p =
      let (u, v) = fixed_corner handle original in
      let (x, y) = dragged_corner handle p in
      let delta_x = num.minus x u in
      let delta_y = num.minus y v in
      let size = num.max (num.abs delta_x) (num.abs delta_y) in
      from_corners handle
        (
          num.plus u (num.times (num.sign (or_one delta_x)) size),
          num.plus v (num.times (num.sign (or_one delta_y)) size),
        )
        (u, v)

  unfoldable pub resized_points :
      Handle → (x y : N) (from_center preserve_aspect : Bool) → Points N → Points N
  unfolding drag drag_from_center square_from_center square_corner normalize
  resized_points handle x y from_center preserve_aspect original =
      let cx = half (num.plus original.x1 original.x2) in
      let cy = half (num.plus original.y1 original.y2) in
      let dragged =
        if from_center
        then drag_from_center handle x y cx cy original
        else drag handle x y original in
      normalize (
        if not preserve_aspect
        then dragged
        else if from_center
        then square_from_center cx cy dragged
        else if is_corner_handle handle
        then square_corner handle original dragged
        else dragged)

  -- The points of a drawing, from one box into another; their times are not carried over.
  unfoldable pub resize_point : (source target : Points N) → FreehandPoint N → FreehandPoint N
  resize_point source target p =
      let one = num.of_nat 1 in
      let width = num.max one (num.minus source.x2 source.x1) in
      let height = num.max one (num.minus source.y2 source.y1) in
      let target_width = num.minus target.x2 target.x1 in
      let target_height = num.minus target.y2 target.y1 in
      record {
        x = num.plus target.x1 (num.times (num.over (num.minus p.x source.x1) width) target_width);
        y =
            num.plus target.y1
              (num.times (num.over (num.minus p.y source.y1) height) target_height);
        t = none;
      }

  abbrev resize_ends : Handle → (x y : N) → Ends N → Updates N
  resize_ends start x y e = ended (record { x1 = x; y1 = y; x2 = e.x2; y2 = e.y2 })
  resize_ends end x y e = ended (record { x1 = e.x1; y1 = e.y1; x2 = x; y2 = y })
  resize_ends _ x y e = unchanged

  abbrev fit : Body N → Points N → Updates N
  fit (text b font_size content parent_id) p = resize_text p b font_size
  fit (freehand points) p =
      drawn (map (resize_point (convert_to_points num (freehand points)) p) points)
  fit body p = convert_back_to_shape body p

  unfoldable pub resize_shape :
      Body N → Handle → (x y : N) (from_center preserve_aspect : Bool) → Updates N
  unfolding convert_to_points resized_points resize_text resize_point convert_back_to_shape
  resize_shape (line e) handle x y from_center preserve_aspect = resize_ends handle x y e
  resize_shape (arrow e) handle x y from_center preserve_aspect = resize_ends handle x y e
  resize_shape body handle x y from_center preserve_aspect =
      fit body (resized_points handle x y from_center preserve_aspect (convert_to_points num body))
