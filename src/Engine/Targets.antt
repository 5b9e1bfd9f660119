-- ===== src/Engine/Targets.antt =====
-- store.ts: the shapes that a connector can be bound to, before and after a map over the shapes.
use canvassync.Prelude.{
  String, Bool, true, false, not, ◌&&◌, Option, none, some, List, [], ◌∷◌, map, any, ◌==◌,
  string_key, ◌≡◌, refl, ◌∙◌, arith, All, All-map, Bool-cases, ◌⊎◌, inl, inr,
}
use canvassync.JsMap
use canvassync.JsMap.{JsMap}
use canvassync.JsMap.Laws.{get-set}
use canvassync.Engine.Shapes.{
  Number, Ends, EndpointBinding, Body, rect, rhombus, circle, line, arrow, text, freehand, Shape,
  normalize_body, keep_parent,
}
use canvassync.Engine.Bindings.{is_connector, on_ends, index_shapes, shape_by_id}

module _ {N : Type 0} where
  -- A shape with this id that is no connector.
  abbrev pub is_target : String → Shape N → Bool
  is_target id s = s.id == id && not (is_connector s.body)

  abbrev pub has_target : List (Shape N) → String → Bool
  has_target shapes id = any (is_target id) shapes

  abbrev pub Bound : List (Shape N) → Option (EndpointBinding N) → Type 0
  Bound shapes none = Unit
  Bound shapes (some b) = has_target shapes b.shape_id ≡ true

  abbrev pub EndsBound : List (Shape N) → Body N → Type 0
  EndsBound shapes (line e) = Bound shapes e.start_binding × Bound shapes e.end_binding
  EndsBound shapes (arrow e) = Bound shapes e.start_binding × Bound shapes e.end_binding
  EndsBound shapes _ = Unit

  -- Every binding names a shape that is there and is no connector.
  abbrev pub IsBound : List (Shape N) → Type 0
  IsBound shapes = All (λ s. EndsBound shapes s.body) shapes

  -- The id and the kind of a shape stay.
  abbrev pub Keeps : (Shape N → Shape N) → Type 0
  Keeps f = (s : Shape N) → ((f s).id ≡ s.id) × (is_connector (f s).body ≡ is_connector s.body)

  has_target-map :
      (f : Shape N → Shape N) (shapes : List (Shape N)) (id : String)
      → Keeps f
      → has_target (map f shapes) id ≡ has_target shapes id
  has_target-map f [] id k = refl
  has_target-map f (s ∷ shapes) id k = rw ((k s).0, (k s).1, has_target-map f shapes id k) refl

  Bound-map :
      (f : Shape N → Shape N) (shapes : List (Shape N)) (b : Option (EndpointBinding N))
      → Keeps f
      → Bound shapes b
      → Bound (map f shapes) b
  Bound-map f shapes none k h = tt
  Bound-map f shapes (some b) k h = has_target-map f shapes b.shape_id k ∙ h

  pub EndsBound-map :
      (f : Shape N → Shape N) (shapes : List (Shape N)) (body : Body N)
      → Keeps f
      → EndsBound shapes body
      → EndsBound (map f shapes) body
  EndsBound-map f shapes (line e) k (h, g) =
      (Bound-map f shapes e.start_binding k h, Bound-map f shapes e.end_binding k g)
  EndsBound-map f shapes (arrow e) k (h, g) =
      (Bound-map f shapes e.start_binding k h, Bound-map f shapes e.end_binding k g)
  EndsBound-map f shapes (rect b) k h = tt
  EndsBound-map f shapes (rhombus b) k h = tt
  EndsBound-map f shapes (circle cx cy rx ry) k h = tt
  EndsBound-map f shapes (text b font_size content parent_id) k h = tt
  EndsBound-map f shapes (freehand points) k h = tt

  -- What a map that keeps ids, kinds and bindings leaves.
  pub IsBound-map :
      (f : Shape N → Shape N) (shapes : List (Shape N))
      → Keeps f
      → ((s : Shape N) → EndsBound shapes s.body → EndsBound shapes (f s).body)
      → IsBound shapes
      → IsBound (map f shapes)
  IsBound-map f shapes k g h =
      All-map (λ s. EndsBound shapes s.body) (λ s. EndsBound (map f shapes) s.body) f shapes
        (λ s b. EndsBound-map f shapes (f s).body k (g s b)) h

  index-target :
      (m : JsMap String (Shape N)) (shapes : List (Shape N)) (k : String) (t : Shape N)
      → JsMap.get (index_shapes m shapes) k ≡ some t
      → is_connector t.body ≡ false
      → (has_target shapes k ≡ true) ⊎ (JsMap.get m k ≡ some t)
  unfolding index_shapes
  index-target m [] k t g bindable = inr g
  index-target m (s ∷ shapes) k t g bindable =
      elim (index-target (JsMap.set m s.id s) shapes k t g bindable) [
        | inl later ↦ inl (ground arith)
        | inr here ↦ elim (Bool-cases (s.id == k)) [
          | inl own ↦
              let same : s ≡ t = ground (arith, get-set m s.id k s) in
              inl (rw (own, same, bindable) refl)
          | inr other ↦ inr (ground (arith, get-set m s.id k s))
        ]
      ]

  pub shape_by_id-target :
      (shapes : List (Shape N)) (k : String) (t : Shape N)
      → JsMap.get (shape_by_id shapes) k ≡ some t
      → is_connector t.body ≡ false
      → has_target shapes k ≡ true
  unfolding shape_by_id JsMap.get
  shape_by_id-target shapes k t g bindable =
      ground (arith, index-target JsMap.empty shapes k t g bindable)

  pub is_connector-on_ends :
      (f : Ends N → Ends N) (body : Body N) → is_connector (on_ends f body) ≡ is_connector body
  is_connector-on_ends f (line e) = refl
  is_connector-on_ends f (arrow e) = refl
  is_connector-on_ends f (rect b) = refl
  is_connector-on_ends f (rhombus b) = refl
  is_connector-on_ends f (circle cx cy rx ry) = refl
  is_connector-on_ends f (text b font_size content parent_id) = refl
  is_connector-on_ends f (freehand points) = refl

  pub is_connector-keep_parent :
      (known : List (Shape N)) (body : Body N)
      → is_connector (keep_parent known body) ≡ is_connector body
  is_connector-keep_parent known (line e) = refl
  is_connector-keep_parent known (arrow e) = refl
  is_connector-keep_parent known (rect b) = refl
  is_connector-keep_parent known (rhombus b) = refl
  is_connector-keep_parent known (circle cx cy rx ry) = refl
  is_connector-keep_parent known (text b font_size content parent_id) = refl
  is_connector-keep_parent known (freehand points) = refl

  pub is_connector-normalize :
      (num : Number N) (body : Body N) → is_connector (normalize_body num body) ≡ is_connector body
  unfolding normalize_body
  is_connector-normalize num (line e) = refl
  is_connector-normalize num (arrow e) = refl
  is_connector-normalize num (rect b) = refl
  is_connector-normalize num (rhombus b) = refl
  is_connector-normalize num (circle cx cy rx ry) = refl
  is_connector-normalize num (text b font_size content parent_id) = refl
  is_connector-normalize num (freehand points) = refl
