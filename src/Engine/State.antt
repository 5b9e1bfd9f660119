-- ===== src/Engine/State.antt =====
-- CanvasState of packages/canvas-engine/src/state.ts. The arrays of past and future states are
-- lists with their end first. A listener is a number, its identity; `notified` holds the calls.
use canvassync.Prelude.{ℕ, Bool, List, [], ◌∷◌, ◌++◌, map, if◌then◌else◌, nat_key}
use canvassync.JsMap
use canvassync.JsMap.{JsMap}
use canvassync.Engine.Shapes.{Number, Shape, normalize_shapes}

pub record CanvasState (N : Type 0) : Type 0 where
  pub past : List (List (Shape N))
  pub present : List (Shape N)
  pub future : List (List (Shape N))
  pub listeners : JsMap ℕ (Unit {0})
  pub read_only : Bool
  pub notified : List (ℕ × List (Shape N))

module _ {N : Type 0} where
  unfoldable pub notify_change : CanvasState N → CanvasState N
  notify_change s = record s {
    notified = s.notified ++ map (λ listener. (listener, s.present)) (JsMap.keys s.listeners);
  }

  unfoldable pub set_read_only : Bool → CanvasState N → CanvasState N
  set_read_only value s = record s { read_only = value }

  abbrev undo_to : List (List (Shape N)) → CanvasState N → CanvasState N
  undo_to [] s = s
  undo_to (prev ∷ past) s =
      notify_change (record s { past = past; present = prev; future = s.present ∷ s.future })

  unfoldable pub undo : CanvasState N → CanvasState N
  unfolding notify_change
  undo s = if s.read_only then s else undo_to s.past s

  abbrev redo_to : List (List (Shape N)) → CanvasState N → CanvasState N
  redo_to [] s = s
  redo_to (next ∷ future) s =
      notify_change (record s { past = s.present ∷ s.past; present = next; future = future })

  unfoldable pub redo : CanvasState N → CanvasState N
  unfolding notify_change
  redo s = if s.read_only then s else redo_to s.future s

  unfoldable pub subscribe : ℕ → CanvasState N → CanvasState N
  subscribe listener s = record s { listeners = JsMap.set s.listeners listener tt }

  unfoldable pub unsubscribe : ℕ → CanvasState N → CanvasState N
  unsubscribe listener s = record s { listeners = JsMap.delete s.listeners listener }

module _ {N : Type 0} (num : Number N) where
  unfoldable pub set_shapes : List (Shape N) → CanvasState N → CanvasState N
  unfolding notify_change normalize_shapes
  set_shapes new_shapes s =
      if s.read_only
      then s
      else notify_change (record s {
        past = s.present ∷ s.past;
        present = normalize_shapes num new_shapes;
        future = [];
      })

  unfoldable pub hydrate_shapes : List (Shape N) → CanvasState N → CanvasState N
  unfolding notify_change normalize_shapes
  hydrate_shapes shapes s =
      notify_change (record s { past = []; present = normalize_shapes num shapes; future = [] })
