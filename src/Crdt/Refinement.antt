-- ===== src/Crdt/Refinement.antt =====
-- mergeCanvasCrdtSnapshot at one id: the two maps and the passes over the deletions and the incoming
-- shapes, next to `Cell.run`.
use canvassync.Prelude.{
  String, ◌≡◌, List, [], ◌∷◌, ◌++◌, foldl, arith, refl, string_key, ◌==◌, if◌then◌else◌,
}
use canvassync.Collation.{Collator}
use canvassync.JsMap
use canvassync.JsMap.{JsMap, IsMap}
use canvassync.JsMap.Laws.{get-set, get-delete}
use canvassync.Crdt.{Shape, CanvasCrdtDeletion, MergeState, apply_deletion, apply_incoming, restamp}
use canvassync.Crdt.Cell.{Cell, Event, put, del, cell_of, step, run}
use canvassync.Crdt.Valid.{IsValid, apply_deletion-IsValid, apply_incoming-IsValid}

-- The register of one id in the two maps.
abbrev pub cell_at : MergeState → String → Cell
cell_at st id = cell_of (JsMap.get st.merged id) (JsMap.get st.tombstones id)

-- The events of one id in a snapshot: its deletions, then its shapes.
abbrev pub deletions_at : String → List CanvasCrdtDeletion → List Event
deletions_at id [] = []
deletions_at id (d ∷ ds) =
    let rest = deletions_at id ds in if d.id == id then del d.stamp ∷ rest else rest

abbrev pub shapes_at : String → List Shape → List Event
shapes_at id [] = []
shapes_at id (s ∷ ss) = let rest = shapes_at id ss in if s.id == id then put s ∷ rest else rest

abbrev pub events_at : String → List Shape → List CanvasCrdtDeletion → List Event
events_at id incoming deletions = deletions_at id deletions ++ shapes_at id incoming

module _ (collator : Collator) where
  cell_at-apply_deletion :
      (st : MergeState) (d : CanvasCrdtDeletion) (id : String)
      → IsValid st
      → cell_at (apply_deletion collator st d) id
        ≡ (if d.id == id then step collator (cell_at st id) (del d.stamp) else cell_at st id)
  unfolding apply_deletion step
  cell_at-apply_deletion st d id v = ground (
    arith,
    string_key.matches_iff d.id id,
    get-delete st.merged d.id id v.merged_map,
    get-set st.tombstones d.id id d.stamp,
  )

  cell_at-apply_incoming :
      (st : MergeState) (s : Shape) (id : String)
      → IsValid st
      → cell_at (apply_incoming collator st s) id
        ≡ (if s.id == id then step collator (cell_at st id) (put s) else cell_at st id)
  unfolding apply_incoming step restamp
  cell_at-apply_incoming st s id v = ground (
    arith,
    string_key.matches_iff s.id id,
    get-set st.merged s.id id (restamp s),
    get-delete st.tombstones s.id id v.tombstones_map,
    v.apart id,
  )

  pub cell_at-deletions :
      (st : MergeState) (ds : List CanvasCrdtDeletion) (id : String)
      → IsValid st
      → cell_at (foldl (apply_deletion collator) st ds) id
        ≡ run collator (cell_at st id) (deletions_at id ds)
  cell_at-deletions st [] id v = refl
  cell_at-deletions st (d ∷ ds) id v = ground (
    arith,
    cell_at-apply_deletion st d id v,
    cell_at-deletions (apply_deletion collator st d) ds id (apply_deletion-IsValid collator st d v),
  )

  pub cell_at-incoming :
      (st : MergeState) (ss : List Shape) (id : String)
      → IsValid st
      → cell_at (foldl (apply_incoming collator) st ss) id
        ≡ run collator (cell_at st id) (shapes_at id ss)
  cell_at-incoming st [] id v = refl
  cell_at-incoming st (s ∷ ss) id v = ground (
    arith,
    cell_at-apply_incoming st s id v,
    cell_at-incoming (apply_incoming collator st s) ss id (apply_incoming-IsValid collator st s v),
  )
