-- ===== src/Crdt/Monotone.antt =====
-- canvas-crdt.ts: the stamps of an id over a merge.
use canvassync.Prelude.{String, List, [], ◌∷◌, arith}
use mathlib.Core.Path.{subst⁻¹}
use canvassync.Collation.{Collator}
use canvassync.Crdt.{CanvasCrdtMetadata, get_canvas_crdt_metadata}
use canvassync.Crdt.Order.{Newer, Newer-total, Newer-trans}
use canvassync.Crdt.Cell.{Cell, absent, alive, dead, Event, put, del, step, run, get-restamp}
use canvassync.Crdt.Refinement.{events_at}
use canvassync.Crdt.Replica.{Replica, Snapshot, IsReplica, cell, receive, cell-receive}

module _ (collator : Collator) where
  -- The register holds a stamp that is newer than, or equal to, the given one.
  abbrev pub Reaches : CanvasCrdtMetadata → Cell → Type 0
  Reaches g absent = ⊥
  Reaches g (alive s) = Newer collator (get_canvas_crdt_metadata s) g
  Reaches g (dead d) = Newer collator d g

  step-Reaches :
      (g : CanvasCrdtMetadata) (c : Cell) (e : Event) → Reaches g c → Reaches g (step collator c e)
  unfolding step
  step-Reaches g absent e h = absurd h
  step-Reaches g (alive t) (put s) h = ground (
    arith,
    get-restamp s,
    Newer-trans collator (get_canvas_crdt_metadata s) (get_canvas_crdt_metadata t) g,
  )
  step-Reaches g (alive t) (del d) h =
      ground (arith, Newer-trans collator d (get_canvas_crdt_metadata t) g)
  step-Reaches g (dead d) (put s) h = ground (
    arith,
    get-restamp s,
    Newer-trans collator (get_canvas_crdt_metadata s) d g,
    Newer-total collator (get_canvas_crdt_metadata s) d,
  )
  step-Reaches g (dead d) (del d') h = ground (arith, Newer-trans collator d' d g)

  run-Reaches :
      (g : CanvasCrdtMetadata) (c : Cell) (es : List Event)
      → Reaches g c
      → Reaches g (run collator c es)
  run-Reaches g c [] h = h
  run-Reaches g c (e ∷ es) h = run-Reaches g (step collator c e) es (step-Reaches g c e h)

  -- Once a well-formed replica shows or buries an id under a stamp, a merge does not take that id
  -- back to an older stamp, or forget it.
  pub receive-Reaches :
      (r : Replica) (m : Snapshot) (id : String) (g : CanvasCrdtMetadata)
      → IsReplica r
      → Reaches g (cell r id)
      → Reaches g (cell (receive collator r m) id)
  receive-Reaches r m id g v h =
      subst⁻¹ (Reaches g) (cell-receive collator r m id v)
        (run-Reaches g (cell r id) (events_at id m.incoming m.deletions) h)
