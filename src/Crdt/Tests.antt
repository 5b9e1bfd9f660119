-- ===== src/Crdt/Tests.antt =====
-- Concrete replicas, snapshots and clients.
use mathlib.Core.List.{Mem, Memᴰ, Permᴰ}
use mathlib.Core.List.Memᴰ
use mathlib.Core.HLevel.{→_prop, Unit-prop}
use mathlib.Core.Path.{subst⁻¹}
use text.Mathlib.TextEquality.{IsScalar-prop}
use canvassync.Prelude.{ℕ, ◌+◌, ◌<◌, String, ◌≡◌, refl, List, [], ◌∷◌, arith, All, inl, string_key}
use canvassync.Collation.{compare_units, code_unit_collator}
use canvassync.JsMap
use canvassync.JsValue.{JsValue, undefined, end}
use canvassync.Crdt.{
  CanvasCrdtMetadata, Shape, get_canvas_crdt_metadata, with_canvas_crdt_metadata, load_shapes,
  merge_canvas_crdt_snapshot, apply_incoming, is_canvas_crdt_newer_or_equal,
}
use canvassync.Crdt.Cell.{Event, put, del, run}
use canvassync.Crdt.Refinement.{events_at}
use canvassync.Crdt.Load.{shown}
use canvassync.Crdt.Convergence.{Compatible}
use canvassync.Crdt.Reconcile.{has_id, reconcile_local_canvas_crdt_snapshot}
use canvassync.Crdt.Replica.{
  Replica, Snapshot, IsReplica, cell, events_of, receive, receive_all, receive-IsReplica,
  cell-receive, convergence,
}
use canvassync.Crdt.Edit.{message, receive-reconcile}
use canvassync.Crdt.Monotone.{Reaches, receive-Reaches}

Shape_set : IsSet Shape
Shape_set = hlevel IsScalar-prop

Compatible-prop : (e f : Event) → IsProp (Compatible code_unit_collator e f)
Compatible-prop (put s) (put t) = →_prop (→_prop (Shape_set _ _))
Compatible-prop (put s) (del t) = Unit-prop
Compatible-prop (del s) (put t) = Unit-prop
Compatible-prop (del s) (del t) = hlevel IsScalar-prop

lookup : (P : Event → Type 0) {e : Event} (es : List Event) → All P es → Memᴰ e es → P e
lookup P [] ps m = absurd (Memᴰ.not-nil m)
lookup P (e ∷ es) (p, ps) (Memᴰ.head q) = subst⁻¹ P q p
lookup P (e ∷ es) (p, ps) (Memᴰ.tail m) = lookup P es ps m

compatible :
    (es : List Event)
    → All (λ e. All (λ f. Compatible code_unit_collator e f) es) es
    → (e f : Event) → Mem e es
    → Mem f es
    → Compatible code_unit_collator e f
compatible es h e f m n =
    ∥∥₁_rec (Compatible-prop e f)
      (λ a. ∥∥₁_rec (Compatible-prop e f) (λ b. lookup _ es (lookup _ es h a) b) n) m

abbrev bare : String → Shape
bare id = record { id = id; crdt = undefined; rest = end }

abbrev stamp : ℕ → String → CanvasCrdtMetadata
stamp clock client_id = record { clock = clock; client_id = client_id }

abbrev stamped : String → ℕ → String → Shape
stamped id clock client_id = with_canvas_crdt_metadata (bare id) (stamp clock client_id)

abbrev empty_replica : Replica
empty_replica = record { shapes = []; tombstones = [] }

empty_replica-IsReplica : IsReplica empty_replica
unfolding load_shapes JsMap.get
empty_replica-IsReplica = record {
  maps = record { merged_map = tt; tombstones_map = tt; entries = tt; apart = λ id. inl refl };
  listed = refl;
}

-- Ann puts two shapes, Bob deletes one of them later.
abbrev ann_puts : Snapshot
ann_puts = record { incoming = stamped "a" 1 "ann" ∷ stamped "b" 1 "ann" ∷ []; deletions = [] }

abbrev bob_deletes : Snapshot
bob_deletes = record { incoming = []; deletions = record { id = "a"; stamp = stamp 2 "bob" } ∷ [] }

abbrev ann_replica : Replica
ann_replica = receive code_unit_collator empty_replica ann_puts

cell-receive_example :
    cell (receive code_unit_collator ann_replica bob_deletes) "a"
    ≡ run code_unit_collator (cell ann_replica "a") (events_at "a" [] bob_deletes.deletions)
cell-receive_example =
    cell-receive code_unit_collator ann_replica bob_deletes "a"
      (receive-IsReplica code_unit_collator empty_replica ann_puts empty_replica-IsReplica)

puts_and_deletes :
    All
      (λ e.
        All (λ f. Compatible code_unit_collator e f) (events_of "a" (ann_puts ∷ bob_deletes ∷ [])))
      (events_of "a" (ann_puts ∷ bob_deletes ∷ []))
unfolding with_canvas_crdt_metadata
puts_and_deletes = ((λ _ _. refl, (tt, tt)), ((tt, (λ _ _. refl, tt)), tt))

convergence_example :
    cell (receive_all code_unit_collator empty_replica (ann_puts ∷ bob_deletes ∷ [])) "a"
    ≡ cell (receive_all code_unit_collator empty_replica (bob_deletes ∷ ann_puts ∷ [])) "a"
convergence_example =
    convergence code_unit_collator empty_replica (ann_puts ∷ bob_deletes ∷ [])
      (bob_deletes ∷ ann_puts ∷ []) "a" empty_replica-IsReplica ∣ Permᴰ.swap refl refl ∣₁
      (compatible (events_of "a" (ann_puts ∷ bob_deletes ∷ [])) puts_and_deletes)

receive-Reaches_example :
    Reaches code_unit_collator
      (stamp 1 "ann")
      (cell (receive code_unit_collator ann_replica bob_deletes) "a")
unfolding receive merge_canvas_crdt_snapshot apply_incoming JsMap.get load_shapes JsMap.delete
    JsMap.set with_canvas_crdt_metadata is_canvas_crdt_newer_or_equal get_canvas_crdt_metadata
    compare_units
receive-Reaches_example =
    receive-Reaches code_unit_collator ann_replica bob_deletes "a" (stamp 1 "ann")
      (receive-IsReplica code_unit_collator empty_replica ann_puts empty_replica-IsReplica) refl

-- Bob draws a third shape and removes the first one, with a clock that starts at 2.
abbrev no_text : JsValue → String
no_text v = ""

abbrev tick : ℕ → ℕ × ℕ
tick n = (n, n + 1)

abbrev bob_next : List Shape
bob_next = stamped "b" 1 "ann" ∷ bare "c" ∷ []

receive-reconcile_example :
    shown "c"
      (receive code_unit_collator ann_replica (
        message
          (reconcile_local_canvas_crdt_snapshot no_text tick ann_replica.shapes bob_next "bob"
            2).0)).shapes
    ≡ shown "c"
        (reconcile_local_canvas_crdt_snapshot no_text tick ann_replica.shapes bob_next "bob"
          2).0.shapes
unfolding receive merge_canvas_crdt_snapshot apply_incoming JsMap.get load_shapes JsMap.delete
    JsMap.set with_canvas_crdt_metadata is_canvas_crdt_newer_or_equal get_canvas_crdt_metadata
    compare_units has_id
receive-reconcile_example =
    receive-reconcile code_unit_collator no_text tick 1 (λ n. 1 < n) (λ n h. (h, ground arith))
      "bob" ann_replica bob_next 2 "c"
      (receive-IsReplica code_unit_collator empty_replica ann_puts empty_replica-IsReplica) tt
      (refl, (refl, tt)) (omega arith)
