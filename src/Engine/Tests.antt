-- ===== src/Engine/Tests.antt =====
-- A text inside a rectangle, over numbers that stop at 0.
use canvassync.Prelude.{
  ℕ, ◌+◌, ◌-◌, ◌*◌, ◌/◌, leb, ltb, max, min, true, false, none, some, map, select, ◌==◌, string_key,
  List, [], ◌∷◌, ◌≡◌, refl, nat_beq, length, foldl,
}
use canvassync.JsValue.{end}
use canvassync.Engine.Store.{add_shape, delete_shapes, added, dispatch}
use canvassync.Engine.Targets.{IsBound}
use canvassync.Engine.Bound.{dispatch-IsBound}
use canvassync.JsMap
use canvassync.Engine.Bindings.{apply_connector_bindings}
use canvassync.Engine.Ids.{ids_of, ids_after, dispatch-ids}
use canvassync.Engine.Shapes.{Number, Box, rect, arrow, text, Shape, normalize_shapes}
use canvassync.Engine.State.{CanvasState}
use canvassync.Engine.Parents.{IsClosed, normalize_shapes-IsClosed}
use canvassync.Engine.History.{
  undoing, redoing, move, timeline, timeline-moves, undo_times, set_all, IsBack, undo_times-IsBack,
}

abbrev natural : Number ℕ
natural = record {
  is_finite = λ n. true;
  plus = λ a b. a + b;
  minus = λ a b. a - b;
  times = λ a b. a * b;
  over = λ a b. a / b;
  at_most = leb;
  below = ltb;
  truthy = λ n. leb 1 n;
  sign = λ n. min n 1;
  min = λ a b. min a b;
  max = λ a b. max a b;
  abs = λ n. n;
  same = nat_beq;
  of_nat = λ n. n;
  nan = 0;
}

abbrev box : Box ℕ
box = record { x = 1; y = 2; width = 0; height = 9 }

abbrev frame : Shape ℕ
frame = record { id = "frame"; style = end; body = rect box }

abbrev label : Shape ℕ
label = record { id = "label"; style = end; body = text box 12 (some "hello") (some "frame") }

abbrev shapes : List (Shape ℕ)
shapes = frame ∷ label ∷ []

abbrev state : CanvasState ℕ
state = record {
  past = (frame ∷ []) ∷ [];
  present = shapes;
  future = (label ∷ []) ∷ [];
  listeners = [];
  read_only = false;
  notified = [];
}

normalize_shapes-IsClosed_example :
    IsClosed (normalize_shapes natural (label ∷ [])) (normalize_shapes natural (label ∷ []))
normalize_shapes-IsClosed_example = normalize_shapes-IsClosed natural (label ∷ [])

timeline-moves_example :
    timeline (foldl move state (undoing ∷ undoing ∷ redoing ∷ [])) ≡ timeline state
timeline-moves_example = timeline-moves state (undoing ∷ undoing ∷ redoing ∷ [])

undo_times-IsBack_example :
    IsBack natural state
      (undo_times (length (shapes ∷ [] ∷ [])) (set_all natural (shapes ∷ [] ∷ []) state))
undo_times-IsBack_example = undo_times-IsBack natural (shapes ∷ [] ∷ []) state refl

abbrev view : CanvasState ℕ
view = record state { read_only = true }

abbrev pointer : Shape ℕ
pointer = record {
  id = "pointer";
  style = end;
  body =
      arrow
        (record { x1 = 1; y1 = 2; x2 = 100; y2 = 100; start_binding = none; end_binding = none });
}

dispatch-IsBound_example : IsBound (dispatch natural true (add_shape pointer) state).present
dispatch-IsBound_example = dispatch-IsBound natural true (add_shape pointer) state refl

dispatch-ids_example :
    ids_of (dispatch natural true (delete_shapes ("frame" ∷ [])) state).present
    ≡ ids_after {N = ℕ} (delete_shapes ("frame" ∷ [])) ("frame" ∷ "label" ∷ [])
dispatch-ids_example = dispatch-ids natural true (delete_shapes ("frame" ∷ [])) state refl tt

-- The arrow's start is bound to the frame, and its end to nothing.
pointer_bound :
    map
      (λ (s : Shape ℕ). s.body)
      (select (λ s. s.id == "pointer") (added natural true pointer (frame ∷ [])))
    ≡ arrow (record {
      x1 = 1;
      y1 = 2;
      x2 = 100;
      y2 = 100;
      start_binding = some (record { shape_id = "frame"; rel_x = 0; rel_y = 0 });
      end_binding = none;
    })
      ∷ []
unfolding added apply_connector_bindings JsMap.get JsMap.set
pointer_bound = refl
