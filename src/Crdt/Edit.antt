-- ===== src/Crdt/Edit.antt =====
-- The round trip of an edit: reconcile on the client, merge on the server.
use mathlib.Core.List.{append-nil}
use mathlib.Core.Path.{subst}
use canvassync.Prelude.{
  ℕ, ◌<◌, String, ◌≡◌, inl, inr, refl, Bool, true, false, ◌++◌, Option, none, some, List, [], ◌∷◌,
  arith, string_key, All, if◌then◌else◌, Bool-cases, ◌∙◌, ap, sym, foldl,
}
use canvassync.Collation.{Collator}
use canvassync.JsValue.{JsValue}
use canvassync.JsMap
use canvassync.JsMap.{JsMap}
use canvassync.Crdt.{CanvasCrdtMetadata, Shape, load_shape, load_shapes, restamp}
use canvassync.Crdt.Cell.{Cell, Event, cell_of, run}
use canvassync.Crdt.Valid.{IsEntry}
use canvassync.Crdt.Load.{shown, shown-values}
use canvassync.Crdt.Refinement.{deletions_at, shapes_at, events_at}
use canvassync.Crdt.Reconcile.{
  Reconciled, by_id, has_id, deletions_of, deletion_stamp, deleted_ids, reconcile_shapes,
  reconcile_local_canvas_crdt_snapshot,
}
use canvassync.Crdt.Replica.{Replica, Snapshot, IsReplica, cell, receive, cell-receive}
use canvassync.Crdt.Roundtrip.{
  live, IsBelow, IsUnique, Sends, nothing, one_put, listed, shown_of_not_has, reconcile_shape_lem,
  listed-deleted_ids, deletions_at_of_not_listed, live-deletions, live-put, sends,
}

abbrev IsStamped : Shape → Type 0
IsStamped s = restamp s ≡ s

IsStamped-values : (m : JsMap String Shape) → All IsEntry m → All IsStamped (JsMap.values m)
IsStamped-values [] e = tt
IsStamped-values ((k, s) ∷ m) ((own, stamped), es) = (stamped, IsStamped-values m es)

by_id_onto :
    (m : JsMap String Shape) (ss : List Shape)
    → All IsStamped ss
    → foldl (λ (n : JsMap String Shape) s. JsMap.set n s.id s) m ss ≡ foldl load_shape m ss
unfolding load_shape
by_id_onto m [] h = refl
by_id_onto m (s ∷ ss) (p, h) =
    by_id_onto (JsMap.set m s.id s) ss h
    ∙ ap (λ (t : Shape). foldl load_shape (JsMap.set m s.id t) ss) (sym p)

live-cell_of : (o : Option Shape) (g : Option CanvasCrdtMetadata) → live (cell_of o g) ≡ o
live-cell_of none none = refl
live-cell_of none (some g) = refl
live-cell_of (some s) g = refl

-- The client looks a shape up as a replica shows it.
get-by_id :
    (r : Replica) (id : String) → IsReplica r → JsMap.get (by_id r.shapes) id ≡ live (cell r id)
unfolding by_id load_shapes
get-by_id r id v =
    ap (λ (m : JsMap String Shape). JsMap.get m id)
      (by_id_onto JsMap.empty r.shapes
        (subst (All IsStamped) v.listed (IsStamped-values (load_shapes r.shapes) v.maps.entries)))
    ∙ sym (shown-values (load_shapes r.shapes) id v.maps.entries)
    ∙ ap (shown id) v.listed
    ∙ sym (live-cell_of (shown id r.shapes) (JsMap.get r.tombstones id))

-- The message that a client sends, as the server reads it.
abbrev pub message : Reconciled → Snapshot
message out = record {
  incoming = out.shapes;
  deletions = deletions_of out.deletion_meta out.deleted_shape_ids;
}

no_deletions :
    (id : String) (stamp : Option CanvasCrdtMetadata) (ids : List String)
    → listed id ids ≡ false
    → deletions_at id (deletions_of stamp ids) ≡ []
no_deletions id none ids h = unfold deletions_of in refl
no_deletions id (some g) ids h = deletions_at_of_not_listed id g ids h

module _ (collator : Collator) (id : String) (bound : ℕ) (c : Cell) (below : IsBelow bound c) where
  live-gone :
      (stamp : Option CanvasCrdtMetadata) (ids : List String)
      → (listed id ids ≡ false → live c ≡ none)
      → (listed id ids ≡ true → (g : CanvasCrdtMetadata) × (stamp ≡ some g) × (bound < g.clock))
      → live (run collator c (deletions_at id (deletions_of stamp ids))) ≡ none
  live-gone stamp ids gone marked = elim (Bool-cases (listed id ids)) [
    | inl h ↦
        let (g, is_g, lt) = marked h in
        ap
          (λ (o : Option CanvasCrdtMetadata).
            live (run collator c (deletions_at id (deletions_of o ids))))
          is_g
        ∙ live-deletions collator id bound c g ids below lt
        ∙ ap (λ (b : Bool). if b then none else live c) h
    | inr h ↦
        ap (λ (l : List Event). live (run collator c l)) (no_deletions id stamp ids h) ∙ gone h
  ]

  -- The passes of a merge over the deletions of an edit, and then over its shapes.
  live-edit :
      (stamp : Option CanvasCrdtMetadata) (ids : List String) (next out : List Shape)
      → Sends bound id (live c) next out
      → (has_id id next ≡ true → listed id ids ≡ false)
      → (has_id id next ≡ false → listed id ids ≡ false → live c ≡ none)
      → (listed id ids ≡ true → (g : CanvasCrdtMetadata) × (stamp ≡ some g) × (bound < g.clock))
      → live (run collator c (events_at id out (deletions_of stamp ids))) ≡ shown id out
  live-edit stamp ids next out (nothing a b d) kept gone marked =
      rw (b, append-nil) (live-gone stamp ids (gone a) marked ∙ sym d)
  live-edit stamp ids next out (one_put s a b d e w) kept gone marked =
      ap (λ (l : List Event). live (run collator c (l ++ shapes_at id out)))
        (no_deletions id stamp ids (kept a))
      ∙ ap (λ (l : List Event). live (run collator c l)) b
      ∙ ap live (live-put collator id bound c s below w)
      ∙ ap some e
      ∙ sym d

module _ (collator : Collator) (stringify : JsValue → String) {S : Type 0} (next_clock : S → ℕ × S)
    (bound : ℕ) (Ahead : S → Type 0)
    (ahead : (st : S) → Ahead st → (bound < (next_clock st).0) × Ahead (next_clock st).1)
    (client_id : String) where
  sends_state :
      (previous : JsMap String Shape) (next : List Shape) (st : S)
      → Ahead st
      → Ahead (reconcile_shapes stringify next_clock client_id previous next st).1
  unfolding reconcile_shapes
  sends_state previous [] st h = h
  sends_state previous (s ∷ ss) st h =
      sends_state previous ss _
        (reconcile_shape_lem stringify next_clock bound Ahead ahead client_id
          (JsMap.get previous s.id) s st h).3

  stamp_marks :
      (id : String) (ids : List String) (st : S)
      → Ahead st
      → listed id ids ≡ true
      → (g : CanvasCrdtMetadata) × ((deletion_stamp stringify next_clock client_id ids st).0
          ≡ some g)
        × (bound < g.clock)
  unfolding deletion_stamp
  stamp_marks id [] st h l = cc
  stamp_marks id (i ∷ ids) st h l = (_, refl, (ahead st h).0)

  -- A client whose previous shapes are a well-formed replica's, and whose clock runs ahead of the
  -- replica's stamp of the id, reconciles its next shapes, each with an id of its own; the replica
  -- that takes in the message shows at the id the very shape that the client has there, or none.
  pub receive-reconcile :
      (r : Replica) (next : List Shape) (st : S) (id : String)
      → IsReplica r
      → IsBelow bound (cell r id)
      → IsUnique next
      → Ahead st
      → shown id
          (receive collator r (
            message
              (reconcile_local_canvas_crdt_snapshot stringify next_clock r.shapes next client_id
                st).0)).shapes
        ≡ shown id
            (reconcile_local_canvas_crdt_snapshot stringify next_clock r.shapes next client_id
              st).0.shapes
  unfolding reconcile_local_canvas_crdt_snapshot
  receive-reconcile r next st id v below u h =
      let (out, st') = reconcile_shapes stringify next_clock client_id (by_id r.shapes) next st in
      let ids = deleted_ids r.shapes next in
      let (stamp, _) = deletion_stamp stringify next_clock client_id ids st' in
      let m : Snapshot = record { incoming = out; deletions = deletions_of stamp ids } in
      sym (
        live-cell_of (shown id (receive collator r m).shapes)
          (JsMap.get (receive collator r m).tombstones id))
      ∙ ap live (cell-receive collator r m id v)
      ∙ live-edit collator id bound (cell r id) below stamp ids next out
          (subst (λ o. Sends bound id o next out) (get-by_id r id v)
            (sends stringify next_clock bound Ahead ahead client_id (by_id r.shapes) next st id u
              h))
          (λ a. ground (arith, listed-deleted_ids id r.shapes next))
          (λ a b.
            live-cell_of (shown id r.shapes) (JsMap.get r.tombstones id)
            ∙ shown_of_not_has id r.shapes (ground (arith, listed-deleted_ids id r.shapes next)))
          (stamp_marks id ids st' (sends_state (by_id r.shapes) next st h))
