-- ===== src/Crdt/Replica.antt =====
-- A replica takes in one snapshot after another: the shapes and tombstones that a merge returns
-- are those that the next one starts from (roomSyncState and roomCrdtTombstones on the server).
use mathlib.Core.List.{Permᴰ, Perm, Mem, append_assoc}
use mathlib.Core.List.Permᴰ
use mathlib.Core.Logic.{∥∥₁_map}
use canvassync.Prelude.{
  String, ◌≡◌, Option, List, [], ◌∷◌, ◌++◌, foldl, foldl-append, ◌∙◌, ap, refl, sym, string_key,
}
use canvassync.Collation.{Collator}
use canvassync.JsMap
use canvassync.JsMap.{JsMap}
use canvassync.Crdt.{
  CanvasCrdtMetadata, Shape, CanvasCrdtDeletion, MergeState, load_shapes, merge_state,
  merge_canvas_crdt_snapshot,
}
use canvassync.Crdt.Cell.{Cell, Event, cell_of, step, run}
use canvassync.Crdt.Valid.{IsValid, deletions-IsValid, incoming-IsValid}
use canvassync.Crdt.Load.{shown, shown-values, load_shapes-values}
use canvassync.Crdt.Refinement.{
  cell_at, events_at, deletions_at, shapes_at, cell_at-deletions, cell_at-incoming,
}
use canvassync.Crdt.Convergence.{Compatible, run-perm}

pub record Replica : Type 0 where
  pub shapes : List Shape
  pub tombstones : JsMap String CanvasCrdtMetadata

pub record Snapshot : Type 0 where
  pub incoming : List Shape
  pub deletions : List CanvasCrdtDeletion

-- The maps that a merge starts from.
abbrev pub loaded : Replica → MergeState
loaded r = record { merged = load_shapes r.shapes; tombstones = r.tombstones }

-- What a client sees of an id: the shape with it, or its tombstone.
abbrev pub cell : Replica → String → Cell
cell r id = cell_of (shown id r.shapes) (JsMap.get r.tombstones id)

-- No id is shown and buried, and the list is what a merge returned: each id once, with metadata.
pub record IsReplica (r : Replica) : Type 0 where
  pub maps : IsValid (loaded r)
  pub listed : JsMap.values (load_shapes r.shapes) ≡ r.shapes

-- The events of an id in a series of snapshots.
abbrev pub events_of : String → List Snapshot → List Event
events_of id [] = []
events_of id (m ∷ ms) = events_at id m.incoming m.deletions ++ events_of id ms

perm_exchange {ℓ} : {A : Type ℓ} (xs ys zs : List A) → Permᴰ (xs ++ (ys ++ zs)) (ys ++ (xs ++ zs))
perm_exchange xs ys zs =
    rw (← append_assoc xs ys zs, ← append_assoc ys xs zs)
      (Permᴰ.append_right zs (Permᴰ.append_comm xs ys))

events_perm :
    (id : String) {ms ns : List Snapshot} → Permᴰ ms ns → Permᴰ (events_of id ms) (events_of id ns)
events_perm id Permᴰ.nil = Permᴰ.nil
events_perm id (Permᴰ.cons p q) = rw p (Permᴰ.append_left _ (events_perm id q))
events_perm id (Permᴰ.swap {a' = m} {b' = n} {l = l} p q) =
    rw (p, q)
      (perm_exchange (events_at id n.incoming n.deletions) (events_at id m.incoming m.deletions)
        (events_of id l))
events_perm id (Permᴰ.trans p q) = Permᴰ.trans (events_perm id p) (events_perm id q)

module _ (collator : Collator) where
  unfoldable pub receive : Replica → Snapshot → Replica
  receive r m =
      let (shapes, tombstones) =
        merge_canvas_crdt_snapshot collator r.shapes m.incoming m.deletions r.tombstones in
      record { shapes = shapes; tombstones = tombstones }

  abbrev pub receive_all : Replica → List Snapshot → Replica
  receive_all = foldl receive

  after : Replica → Snapshot → MergeState
  after r m = merge_state collator r.shapes m.incoming m.deletions r.tombstones

  after-IsValid : (r : Replica) (m : Snapshot) → IsValid (loaded r) → IsValid (after r m)
  unfolding after merge_state
  after-IsValid r m v =
      incoming-IsValid collator _ m.incoming (deletions-IsValid collator _ m.deletions v)

  -- A merge keeps a replica well formed: each id once, with metadata, and no id both shown and
  -- buried.
  pub receive-IsReplica : (r : Replica) (m : Snapshot) → IsReplica r → IsReplica (receive r m)
  unfolding receive merge_canvas_crdt_snapshot after
  receive-IsReplica r m v =
      let w : IsValid (after r m) = after-IsValid r m v.maps in
      let back = load_shapes-values (after r m).merged w.merged_map w.entries in
      record { maps = rw back w; listed = ap JsMap.values back }

  cell-loaded : (r : Replica) (id : String) → IsReplica r → cell_at (loaded r) id ≡ cell r id
  cell-loaded r id v =
      ap (λ (o : Option Shape). cell_of o (JsMap.get r.tombstones id))
        (sym (shown-values (load_shapes r.shapes) id v.maps.entries) ∙ ap (shown id) v.listed)

  cell-after :
      (r : Replica) (m : Snapshot) (id : String)
      → IsValid (loaded r)
      → cell_at (after r m) id
        ≡ run collator (cell_at (loaded r) id) (events_at id m.incoming m.deletions)
  unfolding after merge_state
  cell-after r m id v =
      cell_at-incoming collator _ m.incoming id (deletions-IsValid collator _ m.deletions v)
      ∙ ap (λ (c : Cell). run collator c (shapes_at id m.incoming))
          (cell_at-deletions collator (loaded r) m.deletions id v)
      ∙ sym (
          foldl-append (step collator) (cell_at (loaded r) id) (deletions_at id m.deletions)
            (shapes_at id m.incoming))

  -- In a well-formed replica, what a client sees of an id after a merge is what the register of
  -- that id comes to by the deletions and then the shapes of the snapshot that carry the id.
  pub cell-receive :
      (r : Replica) (m : Snapshot) (id : String)
      → IsReplica r
      → cell (receive r m) id ≡ run collator (cell r id) (events_at id m.incoming m.deletions)
  unfolding receive merge_canvas_crdt_snapshot after
  cell-receive r m id v =
      ap (λ (o : Option Shape). cell_of o (JsMap.get (after r m).tombstones id))
        (shown-values (after r m).merged id (after-IsValid r m v.maps).entries)
      ∙ cell-after r m id v.maps
      ∙ ap (λ (c : Cell). run collator c (events_at id m.incoming m.deletions)) (cell-loaded r id v)

  cell-receive_all :
      (r : Replica) (ms : List Snapshot) (id : String)
      → IsReplica r
      → cell (receive_all r ms) id ≡ run collator (cell r id) (events_of id ms)
  cell-receive_all r [] id v = refl
  cell-receive_all r (m ∷ ms) id v =
      cell-receive_all (receive r m) ms id (receive-IsReplica r m v)
      ∙ ap (λ (c : Cell). run collator c (events_of id ms)) (cell-receive r m id v)
      ∙ sym (
          foldl-append (step collator) (cell r id) (events_at id m.incoming m.deletions)
            (events_of id ms))

  -- Replicas that start from the same well-formed state and take in the same snapshots, in
  -- whatever order, show the same shape or the same tombstone at every id of which no two
  -- different puts, and no two different deletes, tie.
  pub convergence :
      (r : Replica) (ms ns : List Snapshot) (id : String)
      → IsReplica r
      → Perm ms ns
      → ((e f : Event)
          → Mem e (events_of id ms)
          → Mem f (events_of id ms)
          → Compatible collator e f)
      → cell (receive_all r ms) id ≡ cell (receive_all r ns) id
  convergence r ms ns id v p h =
      cell-receive_all r ms id v
      ∙ run-perm collator (∥∥₁_map p (events_perm id)) h (cell r id)
      ∙ sym (cell-receive_all r ns id v)
