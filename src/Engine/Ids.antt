-- ===== src/Engine/Ids.antt =====
-- store.ts: which shapes there are after a dispatch.
use canvassync.Prelude.{
  arith, String, Bool, false, not, List, [], ◌∷◌, ◌++◌, map, select, foldl, any, if◌then◌else◌,
  ◌==◌, string_key, ◌≡◌, refl, ap, ◌∙◌, Bool-cases, Option-cases, inl, inr,
}
use canvassync.Engine.Shapes.{Number, Shape, normalize_shape, normalize_shapes, drop_unknown_parent}
use canvassync.JsMap.{JsMap}
use canvassync.Engine.Translate.{Shift, apply_move, apply_moves, reattach_connectors}
use canvassync.Engine.State.{CanvasState, set_shapes, notify_change}
use canvassync.Engine.Bindings.{
  is_connector, refresh_shape, refresh_bindings_for_connector_ids, apply_connector_bindings,
}
use canvassync.Engine.Store.{
  Action, add_shape, delete_shapes, move_shape, move_shapes, nudge_shapes, is_selected,
  shape_with_id, sync_text_children_to_parent, added, updated, shifted, deleted, next_shapes,
  dispatch,
}

module _ {N : Type 0} where
  abbrev pub ids_of : List (Shape N) → List String
  ids_of = map (λ (s : Shape N). s.id)

  -- The updates of a MOVE_SHAPE do not touch the id.
  abbrev pub KeepsIds : Action N → Type 0
  KeepsIds (move_shape id updates skip) = (s : Shape N) → (updates s).id ≡ s.id
  KeepsIds _ = Unit

  -- The ids that an action leaves of these.
  abbrev pub ids_after : Action N → List String → List String
  ids_after (add_shape shape) ids = ids ++ shape.id ∷ []
  ids_after (delete_shapes gone) ids = select (λ id. not (is_selected gone id)) ids
  ids_after _ ids = ids

  ids-map :
      (f : Shape N → Shape N) (shapes : List (Shape N))
      → ((s : Shape N) → (f s).id ≡ s.id)
      → ids_of (map f shapes) ≡ ids_of shapes
  ids-map f [] h = refl
  ids-map f (s ∷ shapes) h = rw (h s, ids-map f shapes h) refl

  ids-append : (xs ys : List (Shape N)) → ids_of (xs ++ ys) ≡ ids_of xs ++ ids_of ys
  ids-append [] ys = refl
  ids-append (x ∷ xs) ys = ap (λ r. x.id ∷ r) (ids-append xs ys)

  ids-select :
      (gone : List String) (shapes : List (Shape N))
      → ids_of (select (λ s. not (is_selected gone s.id)) shapes)
        ≡ select (λ id. not (is_selected gone id)) (ids_of shapes)
  ids-select gone [] = refl
  ids-select gone (s ∷ shapes) = elim (Bool-cases (is_selected gone s.id)) [
    | inl chosen ↦ rw chosen (ids-select gone shapes)
    | inr other ↦ rw other (ap (λ r. s.id ∷ r) (ids-select gone shapes))
  ]

module _ {N : Type 0} (num : Number N) where
  ids-sync :
      (prev next : List (Shape N)) (parent_id : String) (skip : List String)
      → ids_of (sync_text_children_to_parent num prev next parent_id skip) ≡ ids_of next
  unfolding sync_text_children_to_parent
  ids-sync prev next parent_id skip = elim (Option-cases (shape_with_id parent_id prev)) [
    | inl gone ↦ rw (sync_text_children_to_parent, gone) refl
    | inr (p, here) ↦ elim (Option-cases (shape_with_id parent_id next)) [
      | inl gone ↦ rw (sync_text_children_to_parent, here, gone) refl
      | inr (q, there) ↦ rw (sync_text_children_to_parent, here, there) (ids-map _ next (λ s. refl))
    ]
  ]

  ids-sync_all :
      (parents skip : List String) (prev next : List (Shape N))
      → ids_of (foldl (λ n p. sync_text_children_to_parent num prev n p skip) next parents)
        ≡ ids_of next
  ids-sync_all [] skip prev next = refl
  ids-sync_all (p ∷ parents) skip prev next =
      ids-sync_all parents skip prev (sync_text_children_to_parent num prev next p skip)
      ∙ ids-sync prev next p skip

  ids-normalize : (shapes : List (Shape N)) → ids_of (normalize_shapes num shapes) ≡ ids_of shapes
  unfolding normalize_shapes normalize_shape drop_unknown_parent
  ids-normalize shapes =
      ids-map _ (map (normalize_shape num) shapes) (λ s. refl) ∙ ids-map _ shapes (λ s. refl)

module _ {N : Type 0} (num : Number N) (snap : Bool) where
  ids-apply :
      (shapes : List (Shape N)) → ids_of (apply_connector_bindings num snap shapes) ≡ ids_of shapes
  unfolding apply_connector_bindings
  ids-apply shapes = ids-map _ shapes (λ s. refl)

  refresh_keeps :
      (ids : List String) (shapes : List (Shape N)) (s : Shape N)
      → (refresh_shape num snap ids shapes s).id ≡ s.id
  unfolding refresh_shape
  refresh_keeps ids shapes s = elim (Bool-cases (any (λ id. id == s.id) ids)) [
    | inl chosen ↦ rw chosen refl
    | inr other ↦ rw other refl
  ]

  ids-refresh :
      (ids : List String) (shapes : List (Shape N))
      → ids_of (refresh_bindings_for_connector_ids num snap ids shapes) ≡ ids_of shapes
  unfolding refresh_bindings_for_connector_ids
  ids-refresh ids shapes = ids-map _ shapes (refresh_keeps ids shapes)

  ids-added :
      (shape : Shape N) (shapes : List (Shape N))
      → ids_of (added num snap shape shapes) ≡ ids_of shapes ++ shape.id ∷ []
  unfolding added
  ids-added shape shapes =
      let appended = shapes ++ shape ∷ [] in
      ids-apply _ ∙ elim (Bool-cases (is_connector shape.body)) [
        | inl connector ↦
            rw connector (ids-refresh (shape.id ∷ []) appended ∙ ids-append shapes (shape ∷ []))
        | inr other ↦ rw other (ids-append shapes (shape ∷ []))
      ]

  ids-updated :
      (id : String) (updates : Shape N → Shape N) (skip : Bool) (shapes : List (Shape N))
      → ((s : Shape N) → (updates s).id ≡ s.id)
      → ids_of (updated num snap id updates skip shapes) ≡ ids_of shapes
  unfolding updated
  ids-updated id updates skip shapes keeps =
      let moved : List (Shape N) = map (λ s. if s.id == id then updates s else s) shapes in
      let synced = sync_text_children_to_parent num shapes moved id [] in
      let same : ids_of synced ≡ ids_of shapes =
        ids-sync num shapes moved id []
        ∙ ids-map _ shapes (λ s. elim (Bool-cases (s.id == id)) [
          | inl own ↦ rw own (keeps s)
          | inr other ↦ rw other refl
        ]) in
      ids-apply _ ∙ elim (Bool-cases skip) [
        | inl skips ↦ rw skips same
        | inr refreshes ↦ rw refreshes (ids-refresh (id ∷ []) synced ∙ same)
      ]

  ids-shifted :
      (ids : List String) (dx dy : N) (shapes : List (Shape N))
      → ids_of (shifted num snap ids dx dy shapes) ≡ ids_of shapes
  unfolding shifted
  ids-shifted ids dx dy shapes =
      ids-apply _
      ∙ ids-refresh ids _
      ∙ ids-sync_all num ids ids shapes _
      ∙ ids-map _ shapes (λ s. elim (Bool-cases (is_selected ids s.id)) [
        | inl chosen ↦ rw chosen refl
        | inr other ↦ rw other refl
      ])

  next_shapes-ids :
      (action : Action N) (shapes : List (Shape N))
      → KeepsIds action
      → ids_of (next_shapes num snap action shapes) ≡ ids_after action (ids_of shapes)
  unfolding next_shapes deleted
  next_shapes-ids (add_shape shape) shapes keeps = ids-added shape shapes
  next_shapes-ids (delete_shapes ids) shapes keeps = ids-apply _ ∙ ids-select ids shapes
  next_shapes-ids (move_shape id updates skip) shapes keeps =
      ids-updated id updates skip shapes keeps
  next_shapes-ids (move_shapes ids dx dy) shapes keeps = ids-shifted ids dx dy shapes
  next_shapes-ids (nudge_shapes ids dx dy) shapes keeps = ids-shifted ids dx dy shapes

  -- On a canvas that is not read-only, adding a shape puts its id last, deleting takes away the
  -- given ids, and moving, nudging and updates that keep ids leave the ids as they are and in
  -- their order.
  pub dispatch-ids :
      (action : Action N) (state : CanvasState N)
      → state.read_only ≡ false
      → KeepsIds action
      → ids_of (dispatch num snap action state).present ≡ ids_after action (ids_of state.present)
  unfolding dispatch set_shapes notify_change
  dispatch-ids action state writable keeps =
      rw writable (ids-normalize num _ ∙ next_shapes-ids action state.present keeps)

module _ {N : Type 0} (num : Number N) where
  apply_move_keeps :
      (moves : JsMap String (Shift N)) (s : Shape N) → (apply_move num moves s).id ≡ s.id
  unfolding apply_move
  apply_move_keeps moves s = ground arith

  apply_moves-ids :
      (moves : JsMap String (Shift N)) (shapes : List (Shape N))
      → ids_of (apply_moves num moves shapes) ≡ ids_of shapes
  unfolding apply_moves reattach_connectors
  apply_moves-ids moves shapes =
      ids-map _ (map (apply_move num moves) shapes) (λ s. refl)
      ∙ ids-map (apply_move num moves) shapes (apply_move_keeps moves)
