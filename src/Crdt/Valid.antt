-- ===== src/Crdt/Valid.antt =====
-- The invariant of the two maps that a merge builds: each holds a key once, a shape stands under
-- its own id with its metadata written out, and no id is both alive and buried.
use canvassync.Prelude.{
  String, ◌≡◌, ◌⊎◌, inl, inr, none, List, [], ◌∷◌, foldl, arith, Bool-cases, All, string_key,
}
use canvassync.Collation.{Collator}
use canvassync.JsMap
use canvassync.JsMap.{JsMap, IsMap}
use canvassync.JsMap.Laws.{get-set, get-delete, set-IsMap, delete-IsMap, All-set, All-delete}
use canvassync.Crdt.{
  Shape, CanvasCrdtDeletion, MergeState, apply_deletion, apply_incoming, load_shape, load_shapes,
  restamp, supersedes, is_buried, existing_meta, get_canvas_crdt_metadata,
}
use canvassync.Crdt.Cell.{id-restamp, restamp-restamp}

-- A shape under its own id, with its metadata normalised.
abbrev pub IsEntry : String × Shape → Type 0
IsEntry e = (e.1.id ≡ e.0) × (restamp e.1 ≡ e.1)

restamp-IsEntry : (s : Shape) → IsEntry (s.id, restamp s)
restamp-IsEntry s = (id-restamp s, restamp-restamp s)

pub record IsValid (st : MergeState) : Type 0 where
  pub merged_map : IsMap st.merged
  pub tombstones_map : IsMap st.tombstones
  pub entries : All IsEntry st.merged
  pub apart : (id : String) → (JsMap.get st.merged id ≡ none) ⊎ (JsMap.get st.tombstones id ≡ none)

module _ (st : MergeState) (v : IsValid st) where
  bury-IsValid :
      (d : CanvasCrdtDeletion)
      → IsValid (record {
        merged = JsMap.delete st.merged d.id;
        tombstones = JsMap.set st.tombstones d.id d.stamp;
      })
  bury-IsValid d = record {
    merged_map = delete-IsMap st.merged d.id v.merged_map;
    tombstones_map = set-IsMap st.tombstones d.id d.stamp v.tombstones_map;
    entries = All-delete IsEntry st.merged d.id v.entries;
    apart = λ id. ground (
      arith,
      get-delete st.merged d.id id v.merged_map,
      get-set st.tombstones d.id id d.stamp,
      v.apart id,
    );
  }

  store-IsValid :
      (s : Shape)
      → IsValid (record {
        merged = JsMap.set st.merged s.id (restamp s);
        tombstones = JsMap.delete st.tombstones s.id;
      })
  store-IsValid s = record {
    merged_map = set-IsMap st.merged s.id (restamp s) v.merged_map;
    tombstones_map = delete-IsMap st.tombstones s.id v.tombstones_map;
    entries = All-set IsEntry st.merged s.id (restamp s) v.entries (restamp-IsEntry s);
    apart = λ id. ground (
      arith,
      get-set st.merged s.id id (restamp s),
      get-delete st.tombstones s.id id v.tombstones_map,
      v.apart id,
    );
  }

module _ (collator : Collator) where
  pub apply_deletion-IsValid :
      (st : MergeState) (d : CanvasCrdtDeletion)
      → IsValid st
      → IsValid (apply_deletion collator st d)
  unfolding apply_deletion
  apply_deletion-IsValid st d v =
      elim (Bool-cases (
        supersedes collator d.stamp
          (existing_meta (JsMap.get st.merged d.id) (JsMap.get st.tombstones d.id)))) [
            | inl wins ↦ rw wins (bury-IsValid st v d)
            | inr loses ↦ rw loses v
          ]

  pub apply_incoming-IsValid :
      (st : MergeState) (s : Shape) → IsValid st → IsValid (apply_incoming collator st s)
  unfolding apply_incoming restamp
  apply_incoming-IsValid st s v =
      elim (Bool-cases
        (is_buried collator (JsMap.get st.tombstones s.id) (get_canvas_crdt_metadata s))) [
          | inl buried ↦ rw buried v
          | inr free ↦
              rw free
                (elim (Bool-cases (
                  supersedes collator (get_canvas_crdt_metadata s)
                    (existing_meta (JsMap.get st.merged s.id) none))) [
                      | inl wins ↦ rw wins (store-IsValid st v s)
                      | inr loses ↦ rw loses v
                    ])
        ]

  pub deletions-IsValid :
      (st : MergeState) (ds : List CanvasCrdtDeletion)
      → IsValid st
      → IsValid (foldl (apply_deletion collator) st ds)
  deletions-IsValid st [] v = v
  deletions-IsValid st (d ∷ ds) v =
      deletions-IsValid (apply_deletion collator st d) ds (apply_deletion-IsValid st d v)

  pub incoming-IsValid :
      (st : MergeState) (ss : List Shape)
      → IsValid st
      → IsValid (foldl (apply_incoming collator) st ss)
  incoming-IsValid st [] v = v
  incoming-IsValid st (s ∷ ss) v =
      incoming-IsValid (apply_incoming collator st s) ss (apply_incoming-IsValid st s v)

-- What loading a list of shapes establishes.
pub record IsLoaded (m : JsMap String Shape) : Type 0 where
  pub loaded_map : IsMap m
  pub loaded_entries : All IsEntry m

fold-IsLoaded :
    (m : JsMap String Shape) (ss : List Shape) → IsLoaded m → IsLoaded (foldl load_shape m ss)
unfolding load_shape
fold-IsLoaded m [] h = h
fold-IsLoaded m (s ∷ ss) h = fold-IsLoaded (load_shape m s) ss (record {
  loaded_map = set-IsMap m s.id (restamp s) h.loaded_map;
  loaded_entries = All-set IsEntry m s.id (restamp s) h.loaded_entries (restamp-IsEntry s);
})

pub load_shapes-IsLoaded : (ss : List Shape) → IsLoaded (load_shapes ss)
unfolding load_shapes
load_shapes-IsLoaded ss =
    fold-IsLoaded JsMap.empty ss (record { loaded_map = tt; loaded_entries = tt })
