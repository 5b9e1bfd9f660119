-- ===== src/Engine/Handles.antt =====
-- packages/canvas-engine/src/geometry.ts: the handles of a shape, and what they drag.
use canvassync.Prelude.{Bool, true, false, if◌then◌else◌}
use canvassync.Engine.Geometry.{Points}

pub data Handle : Type 0 where
  top_left top_right bottom_left bottom_right : Handle
  left right top bottom : Handle
  start end : Handle

abbrev pub is_corner_handle : Handle → Bool
is_corner_handle top_left = true
is_corner_handle top_right = true
is_corner_handle bottom_left = true
is_corner_handle bottom_right = true
is_corner_handle _ = false

-- The sides that a handle drags.
abbrev pub drags_left : Handle → Bool
drags_left top_left = true
drags_left bottom_left = true
drags_left left = true
drags_left _ = false

abbrev pub drags_top : Handle → Bool
drags_top top_left = true
drags_top top_right = true
drags_top top = true
drags_top _ = false

module _ {N : Type 0} where
  -- The `switch` on the handle, where the other side stays.
  unfoldable pub drag : Handle → (x y : N) → Points N → Points N
  drag top_left x y p = record p { x1 = x; y1 = y }
  drag top_right x y p = record p { x2 = x; y1 = y }
  drag bottom_left x y p = record p { x1 = x; y2 = y }
  drag bottom_right x y p = record p { x2 = x; y2 = y }
  drag left x y p = record p { x1 = x }
  drag right x y p = record p { x2 = x }
  drag top x y p = record p { y1 = y }
  drag bottom x y p = record p { y2 = y }
  drag start x y p = p
  drag end x y p = p

  -- The corner opposite to a handle, `fixedX` and `fixedY`.
  unfoldable pub fixed_corner : Handle → Points N → N × N
  fixed_corner handle p =
      (if drags_left handle then p.x2 else p.x1, if drags_top handle then p.y2 else p.y1)

  -- The corner that the handle drags.
  unfoldable pub dragged_corner : Handle → Points N → N × N
  dragged_corner handle p =
      (if drags_left handle then p.x1 else p.x2, if drags_top handle then p.y1 else p.y2)

  -- The points with this corner dragged and that one fixed.
  unfoldable pub from_corners : Handle → (dragged fixed : N × N) → Points N
  from_corners handle (x, y) (u, v) = record {
    x1 = if drags_left handle then x else u;
    y1 = if drags_top handle then y else v;
    x2 = if drags_left handle then u else x;
    y2 = if drags_top handle then v else y;
  }
