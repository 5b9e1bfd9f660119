-- ===== src/Engine/Arrange.antt =====
-- packages/canvas-engine/src/diagram/arrange.ts: aligning and distributing the selected shapes.
use canvassync.Prelude.{
  String, Bool, false, not, ◌&&◌, ◌||◌, Option, none, some, List, [], ◌∷◌, map, select, foldl,
  length, ltb, if◌then◌else◌, ◌==◌, string_key,
}
use canvassync.JsMap
use canvassync.JsMap.{JsMap}
use canvassync.Engine.Shapes.{Number, Shape}
use canvassync.Engine.Geometry.{Points, convert_to_points}
use canvassync.Engine.Bindings.{is_connector}
use canvassync.Engine.Store.{is_selected}
use canvassync.Engine.Translate.{Shift, parent_of, apply_moves}

pub data AlignMode : Type 0 where
  left hcenter right top vcenter bottom : AlignMode

pub data DistributeAxis : Type 0 where
  horizontal vertical : DistributeAxis

pub record Item (N : Type 0) : Type 0 where
  pub shape : Shape N
  pub points : Points N

abbrev rides : List String → Option String → Bool
rides ids none = false
rides ids (some p) = not (p == "") && is_selected ids p

module _ {N : Type 0} where
  -- The callback of the `filter`: no connector, and no text on a selected parent.
  unfoldable pub is_item : List String → Shape N → Bool
  is_item ids s =
      is_selected ids s.id && not (is_connector s.body) && not (rides ids (parent_of s.body))

  unfoldable pub start_of : DistributeAxis → Item N → N
  start_of horizontal i = i.points.x1
  start_of vertical i = i.points.y1

  unfoldable pub end_of : DistributeAxis → Item N → N
  end_of horizontal i = i.points.x2
  end_of vertical i = i.points.y2

  abbrev last_of : Item N → List (Item N) → Item N
  last_of i [] = i
  last_of i (j ∷ is) = last_of j is

module _ {N : Type 0} (num : Number N) where
  unfoldable pub collect_items : List String → List (Shape N) → List (Item N)
  unfolding is_item convert_to_points
  collect_items ids shapes =
      map (λ (s : Shape N). record { shape = s; points = convert_to_points num s.body })
        (select (is_item ids) shapes)

  abbrev is_zero : N → Bool
  is_zero n = num.same n (num.of_nat 0)

  -- `if (dx !== 0 || dy !== 0) moves.set(id, { dx, dy })`
  abbrev note_move : JsMap String (Shift N) → Item N → Shift N → JsMap String (Shift N)
  note_move moves i m =
      if not (is_zero m.dx) || not (is_zero m.dy) then JsMap.set moves i.shape.id m else moves

  abbrev middle : N → N → N
  middle a b = num.over (num.plus a b) (num.of_nat 2)

  -- The move of an item, by the bounds of all of them.
  unfoldable pub align_shift : AlignMode → (bounds item : Points N) → Shift N
  align_shift left p q = record { dx = num.minus p.x1 q.x1; dy = num.of_nat 0 }
  align_shift right p q = record { dx = num.minus p.x2 q.x2; dy = num.of_nat 0 }
  align_shift hcenter p q = record {
    dx = num.minus (middle p.x1 p.x2) (middle q.x1 q.x2);
    dy = num.of_nat 0;
  }
  align_shift top p q = record { dx = num.of_nat 0; dy = num.minus p.y1 q.y1 }
  align_shift bottom p q = record { dx = num.of_nat 0; dy = num.minus p.y2 q.y2 }
  align_shift vcenter p q = record {
    dx = num.of_nat 0;
    dy = num.minus (middle p.y1 p.y2) (middle q.y1 q.y2);
  }

  abbrev joined : Points N → Item N → Points N
  joined p i = record {
    x1 = num.min p.x1 i.points.x1;
    y1 = num.min p.y1 i.points.y1;
    x2 = num.max p.x2 i.points.x2;
    y2 = num.max p.y2 i.points.y2;
  }

  abbrev moved_or_none : JsMap String (Shift N) → List (Shape N) → Option (List (Shape N))
  moved_or_none [] shapes = none
  moved_or_none (m ∷ moves) shapes = some (apply_moves num (m ∷ moves) shapes)

  abbrev align_items : AlignMode → List (Item N) → List (Shape N) → Option (List (Shape N))
  align_items mode (i ∷ j ∷ is) shapes =
      let bounds = foldl joined i.points (j ∷ is) in
      moved_or_none
        (foldl (λ moves k. note_move moves k (align_shift mode bounds k.points)) JsMap.empty
          (i ∷ j ∷ is))
        shapes
  align_items mode _ shapes = none

  unfoldable pub align_shapes : List (Shape N) → List String → AlignMode → Option (List (Shape N))
  unfolding collect_items align_shift apply_moves
  align_shapes shapes ids mode = align_items mode (collect_items ids shapes) shapes

  -- `sort((a, b) => start(a) - start(b))`, which is stable.
  unfoldable pub insert_item : DistributeAxis → Item N → List (Item N) → List (Item N)
  unfolding start_of
  insert_item axis i [] = i ∷ []
  insert_item axis i (j ∷ is) =
      let rest = insert_item axis i is in
      if num.at_most (start_of axis i) (start_of axis j) then i ∷ j ∷ is else j ∷ rest

  unfoldable pub sort_items : DistributeAxis → List (Item N) → List (Item N)
  unfolding insert_item
  sort_items axis [] = []
  sort_items axis (i ∷ is) = insert_item axis i (sort_items axis is)

  abbrev axis_shift : DistributeAxis → N → Shift N
  axis_shift horizontal delta = record { dx = delta; dy = num.of_nat 0 }
  axis_shift vertical delta = record { dx = num.of_nat 0; dy = delta }

  -- The loop with its cursor.
  unfoldable pub spread :
      DistributeAxis
      → (gap cursor : N) → List (Item N)
      → JsMap String (Shift N)
      → JsMap String (Shift N)
  unfolding start_of end_of
  spread axis gap cursor [] moves = moves
  spread axis gap cursor (i ∷ is) moves =
      let delta = num.minus cursor (start_of axis i) in
      let size = num.minus (end_of axis i) (start_of axis i) in
      spread axis gap (num.plus cursor (num.plus size gap)) is
        (if is_zero delta then moves else JsMap.set moves i.shape.id (axis_shift axis delta))

  abbrev size_on : DistributeAxis → Item N → N
  size_on axis i = num.minus (end_of axis i) (start_of axis i)

  abbrev distribute_sorted :
      DistributeAxis → List (Item N) → List (Shape N) → Option (List (Shape N))
  distribute_sorted axis [] shapes = none
  distribute_sorted axis (first ∷ is) shapes =
      let total = foldl (λ sum i. num.plus sum (size_on axis i)) (num.of_nat 0) (first ∷ is) in
      let span = num.minus (end_of axis (last_of first is)) (start_of axis first) in
      let gap = num.over (num.minus span total) (num.of_nat (length is)) in
      moved_or_none (spread axis gap (start_of axis first) (first ∷ is) JsMap.empty) shapes

  unfoldable pub distribute_shapes :
      List (Shape N) → List String → DistributeAxis → Option (List (Shape N))
  unfolding collect_items sort_items spread start_of end_of apply_moves
  distribute_shapes shapes ids axis =
      let items = collect_items ids shapes in
      if ltb (length items) 3 then none else distribute_sorted axis (sort_items axis items) shapes
