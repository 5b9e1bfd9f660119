-- ===== src/Engine/Parents.antt =====
-- state.ts, normalizeShapes: the parents of texts.
use canvassync.Prelude.{
  String, true, Option, none, some, List, [], ◌∷◌, ◌≡◌, refl, map, All, inl, inr, ◌⊎◌, Bool-cases,
  ◌==◌, string_key, ◌||◌, ap, ◌∙◌,
}
use canvassync.Engine.Shapes.{
  Number, Body, text, rect, rhombus, circle, line, arrow, freehand, Shape, known_id, keep_parent,
  drop_unknown_parent, normalize_shape, normalize_shapes,
}

module _ {N : Type 0} where
  abbrev parent_of : Body N → Option String
  parent_of (text b font_size content parent_id) = parent_id
  parent_of _ = none

  -- A parent id that is neither absent nor empty is the id of one of the shapes.
  abbrev IsKnown : List (Shape N) → Option String → Type 0
  IsKnown shapes none = Unit
  IsKnown shapes (some p) = ((p == "") ≡ true) ⊎ (known_id shapes p ≡ true)

  abbrev pub IsClosed : List (Shape N) → List (Shape N) → Type 0
  IsClosed shapes = All (λ (s : Shape N). IsKnown shapes (parent_of s.body))

  known_id_kept :
      (known shapes : List (Shape N)) (id : String)
      → known_id (map (drop_unknown_parent known) shapes) id ≡ known_id shapes id
  unfolding known_id drop_unknown_parent
  known_id_kept known [] id = refl
  known_id_kept known (s ∷ ss) id = ap (λ b. (s.id == id) || b) (known_id_kept known ss id)

  keep_parent-IsKnown :
      (known shapes : List (Shape N)) (body : Body N)
      → ((id : String) → known_id shapes id ≡ known_id known id)
      → IsKnown shapes (parent_of (keep_parent known body))
  keep_parent-IsKnown known shapes (text b font_size content none) same = tt
  keep_parent-IsKnown known shapes (text b font_size content (some p)) same =
      elim (Bool-cases (p == "")) [
        | inl blank ↦ rw blank (inl blank)
        | inr given ↦ rw given (elim (Bool-cases (known_id known p)) [
          | inl there ↦ rw there (inr (same p ∙ there))
          | inr gone ↦ rw gone tt
        ])
      ]
  keep_parent-IsKnown known shapes (rect b) same = tt
  keep_parent-IsKnown known shapes (rhombus b) same = tt
  keep_parent-IsKnown known shapes (circle cx cy rx ry) same = tt
  keep_parent-IsKnown known shapes (line e) same = tt
  keep_parent-IsKnown known shapes (arrow e) same = tt
  keep_parent-IsKnown known shapes (freehand points) same = tt

  dropped-IsClosed :
      (known all rest : List (Shape N))
      → ((id : String) → known_id all id ≡ known_id known id)
      → IsClosed all (map (drop_unknown_parent known) rest)
  unfolding drop_unknown_parent
  dropped-IsClosed known all [] same = tt
  dropped-IsClosed known all (s ∷ ss) same =
      (keep_parent-IsKnown known all s.body same, dropped-IsClosed known all ss same)

-- In normalized shapes, the parent id of every text is absent, empty, or the id of one of the
-- shapes.
pub normalize_shapes-IsClosed :
    {N : Type 0} (num : Number N) (shapes : List (Shape N))
    → IsClosed (normalize_shapes num shapes) (normalize_shapes num shapes)
unfolding normalize_shapes
normalize_shapes-IsClosed num shapes =
    let normalized = map (normalize_shape num) shapes in
    dropped-IsClosed normalized (map (drop_unknown_parent normalized) normalized) normalized
      (known_id_kept normalized normalized)
