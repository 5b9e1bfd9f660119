-- ===== src/Engine/Bound.antt =====
-- store.ts: what the bindings of connectors name after a dispatch.
use canvassync.Prelude.{
  Bool, true, false, Option, none, some, List, [], ◌∷◌, map, string_key, ◌≡◌, refl, All, All-map,
  Bool-cases, Option-cases, inl, inr,
}
use canvassync.JsMap
use canvassync.JsMap.{JsMap}
use canvassync.Engine.Shapes.{
  Number, Ends, EndpointBinding, Body, rect, rhombus, circle, line, arrow, text, freehand, Shape,
  normalize_body, normalize_shape, normalize_shapes, drop_unknown_parent, keep_parent,
  normalize_ends,
}
use canvassync.Engine.State.{CanvasState, set_shapes, notify_change}
use canvassync.Engine.Bindings.{
  is_connector, is_bindable_target, on_ends, with_body, shape_by_id, get_point_from_binding,
  reproject, unbound, still_bound, apply_connector_bindings,
}
use canvassync.Engine.Store.{
  Action, add_shape, delete_shapes, move_shape, move_shapes, nudge_shapes, added, updated, shifted,
  deleted, next_shapes, dispatch,
}
use canvassync.Engine.Targets.{
  Bound, EndsBound, IsBound, Keeps, EndsBound-map, IsBound-map, shape_by_id-target,
  is_connector-on_ends, is_connector-keep_parent, is_connector-normalize,
}

module _ {N : Type 0} (num : Number N) where
  still-Bound :
      (shapes : List (Shape N)) (b : Option (EndpointBinding N))
      → Bound shapes (still_bound (get_point_from_binding num b (shape_by_id shapes)) b)
  unfolding get_point_from_binding is_bindable_target
  still-Bound shapes none = tt
  still-Bound shapes (some b) = elim (Option-cases (JsMap.get (shape_by_id shapes) b.shape_id)) [
    | inl gone ↦ rw (get_point_from_binding, gone) tt
    | inr (t, here) ↦ elim (Bool-cases (is_connector t.body)) [
      | inl connector ↦ rw (get_point_from_binding, here, connector) tt
      | inr bindable ↦
          rw (get_point_from_binding, here, bindable)
            (shape_by_id-target shapes b.shape_id t here bindable)
    ]
  ]

  reproject-EndsBound :
      (shapes : List (Shape N)) (body : Body N)
      → EndsBound shapes (on_ends (reproject num (shape_by_id shapes)) body)
  unfolding reproject
  reproject-EndsBound shapes (line e) =
      (still-Bound shapes e.start_binding, still-Bound shapes e.end_binding)
  reproject-EndsBound shapes (arrow e) =
      (still-Bound shapes e.start_binding, still-Bound shapes e.end_binding)
  reproject-EndsBound shapes (rect b) = tt
  reproject-EndsBound shapes (rhombus b) = tt
  reproject-EndsBound shapes (circle cx cy rx ry) = tt
  reproject-EndsBound shapes (text b font_size content parent_id) = tt
  reproject-EndsBound shapes (freehand points) = tt

  unbound-EndsBound :
      (shapes : List (Shape N)) (body : Body N) → EndsBound shapes (on_ends unbound body)
  unbound-EndsBound shapes (line e) = (tt, tt)
  unbound-EndsBound shapes (arrow e) = (tt, tt)
  unbound-EndsBound shapes (rect b) = tt
  unbound-EndsBound shapes (rhombus b) = tt
  unbound-EndsBound shapes (circle cx cy rx ry) = tt
  unbound-EndsBound shapes (text b font_size content parent_id) = tt
  unbound-EndsBound shapes (freehand points) = tt

  on_ends-Keeps : (f : Ends N → Ends N) → Keeps (with_body (on_ends f))
  on_ends-Keeps f s = (refl, is_connector-on_ends f s.body)

  All-trivial : (shapes : List (Shape N)) → All (λ s. Unit {0}) shapes
  All-trivial [] = tt
  All-trivial (s ∷ shapes) = (tt, All-trivial shapes)

  pub apply_connector_bindings-IsBound :
      (snap : Bool) (shapes : List (Shape N)) → IsBound (apply_connector_bindings num snap shapes)
  unfolding apply_connector_bindings
  apply_connector_bindings-IsBound true shapes =
      let f : Shape N → Shape N = with_body (on_ends (reproject num (shape_by_id shapes))) in
      All-map (λ s. Unit {0}) (λ s. EndsBound (map f shapes) s.body) f shapes
        (λ s u.
          EndsBound-map f shapes (f s).body (on_ends-Keeps (reproject num (shape_by_id shapes)))
            (reproject-EndsBound shapes s.body))
        (All-trivial shapes)
  apply_connector_bindings-IsBound false shapes =
      let f : Shape N → Shape N = with_body (on_ends unbound) in
      All-map (λ s. Unit {0}) (λ s. EndsBound (map f shapes) s.body) f shapes
        (λ s u.
          EndsBound-map f shapes (f s).body (on_ends-Keeps unbound)
            (unbound-EndsBound shapes s.body))
        (All-trivial shapes)

  normalize-EndsBound :
      (shapes : List (Shape N)) (body : Body N)
      → EndsBound shapes body
      → EndsBound shapes (normalize_body num body)
  unfolding normalize_body normalize_ends
  normalize-EndsBound shapes (line e) h = h
  normalize-EndsBound shapes (arrow e) h = h
  normalize-EndsBound shapes (rect b) h = tt
  normalize-EndsBound shapes (rhombus b) h = tt
  normalize-EndsBound shapes (circle cx cy rx ry) h = tt
  normalize-EndsBound shapes (text b font_size content parent_id) h = tt
  normalize-EndsBound shapes (freehand points) h = tt

  keep_parent-EndsBound :
      (shapes known : List (Shape N)) (body : Body N)
      → EndsBound shapes body
      → EndsBound shapes (keep_parent known body)
  keep_parent-EndsBound shapes known (line e) h = h
  keep_parent-EndsBound shapes known (arrow e) h = h
  keep_parent-EndsBound shapes known (rect b) h = tt
  keep_parent-EndsBound shapes known (rhombus b) h = tt
  keep_parent-EndsBound shapes known (circle cx cy rx ry) h = tt
  keep_parent-EndsBound shapes known (text b font_size content parent_id) h = tt
  keep_parent-EndsBound shapes known (freehand points) h = tt

  normalize-Keeps : Keeps (normalize_shape num)
  unfolding normalize_shape
  normalize-Keeps s = (refl, is_connector-normalize num s.body)

  drop-Keeps : (known : List (Shape N)) → Keeps (drop_unknown_parent known)
  unfolding drop_unknown_parent
  drop-Keeps known s = (refl, is_connector-keep_parent known s.body)

  normalize_shapes-IsBound :
      (shapes : List (Shape N)) → IsBound shapes → IsBound (normalize_shapes num shapes)
  unfolding normalize_shapes normalize_shape drop_unknown_parent
  normalize_shapes-IsBound shapes h =
      let normalized = map (normalize_shape num) shapes in
      IsBound-map (drop_unknown_parent normalized) normalized (drop-Keeps normalized)
        (λ s b. keep_parent-EndsBound normalized normalized s.body b)
        (IsBound-map (normalize_shape num) shapes normalize-Keeps
          (λ s b. normalize-EndsBound shapes s.body b) h)

  next_shapes-IsBound :
      (snap : Bool) (action : Action N) (shapes : List (Shape N))
      → IsBound (next_shapes num snap action shapes)
  unfolding next_shapes added updated shifted deleted
  next_shapes-IsBound snap (add_shape shape) shapes = apply_connector_bindings-IsBound snap _
  next_shapes-IsBound snap (delete_shapes ids) shapes = apply_connector_bindings-IsBound snap _
  next_shapes-IsBound snap (move_shape id updates skip) shapes =
      apply_connector_bindings-IsBound snap _
  next_shapes-IsBound snap (move_shapes ids dx dy) shapes = apply_connector_bindings-IsBound snap _
  next_shapes-IsBound snap (nudge_shapes ids dx dy) shapes = apply_connector_bindings-IsBound snap _

  -- After any action on a canvas that is not read-only, whether snapping is on or off, every
  -- binding of a connector's end names a shape that is there and is no connector.
  pub dispatch-IsBound :
      (snap : Bool) (action : Action N) (state : CanvasState N)
      → state.read_only ≡ false
      → IsBound (dispatch num snap action state).present
  unfolding dispatch set_shapes notify_change
  dispatch-IsBound snap action state writable = rw writable (
      normalize_shapes-IsBound (next_shapes num snap action state.present)
        (next_shapes-IsBound snap action state.present))
