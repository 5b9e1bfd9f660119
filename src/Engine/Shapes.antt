-- ===== src/Engine/Shapes.antt =====
-- packages/canvas-engine/src/types.ts, and normalizeShapes of state.ts. A numeric field holds a
-- value of `N`, `undefined` and the non-finite numbers among them; the arithmetic on these is the
-- language's and a parameter.
use canvassync.Prelude.{
  ℕ, String, Bool, not, ◌&&◌, ◌||◌, Option, none, some, List, [], ◌∷◌, map, any, if◌then◌else◌,
  ◌==◌, string_key,
}
use canvassync.JsValue.{Props}

pub record Number (N : Type 0) : Type 0 where
  pub is_finite : N → Bool
  pub plus : N → N → N
  pub minus : N → N → N
  pub times : N → N → N
  pub over : N → N → N
  pub min : N → N → N
  pub max : N → N → N
  pub abs : N → N
  pub sign : N → N
  pub same : N → N → Bool
  pub at_most : N → N → Bool
  pub below : N → N → Bool
  pub truthy : N → Bool
  pub of_nat : ℕ → N
  pub nan : N

pub record Box (N : Type 0) : Type 0 where
  pub x : N
  pub y : N
  pub width : N
  pub height : N

-- An endpoint's anchor in the box of a shape.
pub record EndpointBinding (N : Type 0) : Type 0 where
  pub shape_id : String
  pub rel_x : N
  pub rel_y : N

pub record Ends (N : Type 0) : Type 0 where
  pub x1 : N
  pub y1 : N
  pub x2 : N
  pub y2 : N
  pub start_binding : Option (EndpointBinding N)
  pub end_binding : Option (EndpointBinding N)

pub record FreehandPoint (N : Type 0) : Type 0 where
  pub x : N
  pub y : N
  pub t : Option N

-- The fields of each type of shape. The `text` is none where it is no string.
pub data Body (N : Type 0) : Type 0 where
  rect : Box N → Body N
  rhombus : Box N → Body N
  circle : (center_x center_y radius_x radius_y : N) → Body N
  line : Ends N → Body N
  arrow : Ends N → Body N
  text : Box N → (font_size : N) (content : Option String) (parent_id : Option String) → Body N
  freehand : List (FreehandPoint N) → Body N

-- `style` holds the other own properties, which are carried along.
pub record Shape (N : Type 0) : Type 0 where
  pub id : String
  pub style : Props
  pub body : Body N

-- `typeof shape.text === "string" ? shape.text : ""`
abbrev pub content_of : Option String → String
content_of none = ""
content_of (some s) = s

module _ {N : Type 0} where
  -- new Set(normalized.map((shape) => shape.id)).has(id)
  unfoldable pub known_id : List (Shape N) → String → Bool
  known_id shapes id = any (λ s. s.id == id) shapes

  abbrev known_parent : List (Shape N) → Option String → Option String
  known_parent shapes none = none
  known_parent shapes (some p) =
      if p == "" then some p else if known_id shapes p then some p else none

  abbrev pub keep_parent : List (Shape N) → Body N → Body N
  keep_parent shapes (text b font_size content parent_id) =
      text b font_size content (known_parent shapes parent_id)
  keep_parent shapes body = body

  -- The callback of the second `map`.
  unfoldable pub drop_unknown_parent : List (Shape N) → Shape N → Shape N
  unfolding known_id
  drop_unknown_parent shapes s = record s { body = keep_parent shapes s.body }

module _ {N : Type 0} (num : Number N) where
  unfoldable pub finite_or : N → N → N
  finite_or value fallback = if num.is_finite value then value else fallback

  unfoldable pub normalize_rect_like : ℕ → Box N → Box N
  unfolding finite_or
  normalize_rect_like min_span b =
      let span = num.of_nat min_span in
      let x = finite_or b.x (num.of_nat 0) in
      let y = finite_or b.y (num.of_nat 0) in
      let x2 = num.plus x (finite_or b.width span) in
      let y2 = num.plus y (finite_or b.height span) in
      record {
        x = num.min x x2;
        y = num.min y y2;
        width = num.max span (num.abs (num.minus x2 x));
        height = num.max span (num.abs (num.minus y2 y));
      }

  unfoldable pub normalize_radius : N → N
  unfolding finite_or
  normalize_radius r = num.max (num.of_nat 1) (num.abs (finite_or r (num.of_nat 1)))

  unfoldable pub normalize_ends : Ends N → Ends N
  unfolding finite_or
  normalize_ends e =
      let x1 = finite_or e.x1 (num.of_nat 0) in
      let y1 = finite_or e.y1 (num.of_nat 0) in
      let x2_raw = finite_or e.x2 (num.plus x1 (num.of_nat 1)) in
      let y2 = finite_or e.y2 y1 in
      record e {
        x1 = x1;
        y1 = y1;
        x2 =
            if num.same x1 x2_raw && num.same y1 y2 then num.plus x2_raw (num.of_nat 1) else x2_raw;
        y2 = y2;
      }

  abbrev finite_time : Option N → Option N
  finite_time none = none
  finite_time (some t) = if num.is_finite t then some t else none

  -- The callbacks of `map` and `filter` on the points.
  unfoldable pub normalize_points : List (FreehandPoint N) → List (FreehandPoint N)
  unfolding finite_or
  normalize_points [] = []
  normalize_points (p ∷ ps) =
      let rest = normalize_points ps in
      let x = finite_or p.x num.nan in
      let y = finite_or p.y num.nan in
      if not (num.is_finite x) || not (num.is_finite y)
      then rest
      else record { x = x; y = y; t = finite_time p.t } ∷ rest

  -- The default of a text's box, before it is treated as a rectangle.
  unfoldable pub text_box : Box N → Box N
  unfolding finite_or
  text_box b = record {
    x = finite_or b.x (num.of_nat 0);
    y = finite_or b.y (num.of_nat 0);
    width = finite_or b.width (num.of_nat 24);
    height = finite_or b.height (num.of_nat 16);
  }

  unfoldable pub normalize_body : Body N → Body N
  unfolding finite_or normalize_rect_like normalize_radius normalize_ends text_box normalize_points
  normalize_body (rect b) = rect (normalize_rect_like 1 b)
  normalize_body (rhombus b) = rhombus (normalize_rect_like 1 b)
  normalize_body (circle cx cy rx ry) =
      circle (finite_or cx (num.of_nat 0)) (finite_or cy (num.of_nat 0)) (normalize_radius rx)
        (normalize_radius ry)
  normalize_body (line e) = line (normalize_ends e)
  normalize_body (arrow e) = arrow (normalize_ends e)
  normalize_body (text b font_size content parent_id) =
      text (normalize_rect_like 8 (text_box b))
        (num.max (num.of_nat 8) (finite_or font_size (num.of_nat 16))) (some (content_of content))
        parent_id
  normalize_body (freehand points) = freehand (normalize_points points)

  unfoldable pub normalize_shape : Shape N → Shape N
  unfolding normalize_body
  normalize_shape s = record s { body = normalize_body s.body }

  unfoldable pub normalize_shapes : List (Shape N) → List (Shape N)
  unfolding normalize_shape drop_unknown_parent
  normalize_shapes shapes =
      let normalized = map normalize_shape shapes in map (drop_unknown_parent normalized) normalized
