-- ===== src/Crdt/Cell.antt =====
-- What one shape id goes through, without the maps: a register that a put or a delete may win.
use canvassync.Prelude.{Option, none, some, List, foldl, if◌then◌else◌, ◌≡◌, refl}
use canvassync.Collation.{Collator}
use canvassync.Crdt.{
  CanvasCrdtMetadata, Shape, get_canvas_crdt_metadata, with_canvas_crdt_metadata, restamp,
  is_canvas_crdt_newer_or_equal,
}

pub data Cell : Type 0 where
  absent : Cell
  alive : Shape → Cell
  dead : CanvasCrdtMetadata → Cell

pub data Event : Type 0 where
  put : Shape → Event
  del : CanvasCrdtMetadata → Event

abbrev pub cell_of : Option Shape → Option CanvasCrdtMetadata → Cell
cell_of (some s) grave = alive s
cell_of none (some stamp) = dead stamp
cell_of none none = absent

-- Reading the metadata that was written gives it back.
pub get-with_canvas_crdt_metadata :
    (s : Shape) (stamp : CanvasCrdtMetadata)
    → get_canvas_crdt_metadata (with_canvas_crdt_metadata s stamp) ≡ stamp
unfolding get_canvas_crdt_metadata with_canvas_crdt_metadata
get-with_canvas_crdt_metadata s stamp = refl

pub get-restamp : (s : Shape) → get_canvas_crdt_metadata (restamp s) ≡ get_canvas_crdt_metadata s
unfolding restamp
get-restamp s = refl

pub restamp-restamp : (s : Shape) → restamp (restamp s) ≡ restamp s
unfolding restamp
restamp-restamp s = refl

pub id-restamp : (s : Shape) → (restamp s).id ≡ s.id
unfolding restamp
id-restamp s = refl

module _ (collator : Collator) where
  -- The later stamp wins; on a tie a put replaces a put, and a delete beats a put.
  unfoldable pub step : Cell → Event → Cell
  step absent (put s) = alive (restamp s)
  step absent (del d) = dead d
  step (alive t) (put s) =
      if is_canvas_crdt_newer_or_equal collator (get_canvas_crdt_metadata s)
        (get_canvas_crdt_metadata t)
      then alive (restamp s)
      else alive t
  step (alive t) (del d) =
      if is_canvas_crdt_newer_or_equal collator d (get_canvas_crdt_metadata t)
      then dead d
      else alive t
  step (dead g) (put s) =
      if is_canvas_crdt_newer_or_equal collator g (get_canvas_crdt_metadata s)
      then dead g
      else alive (restamp s)
  step (dead g) (del d) = if is_canvas_crdt_newer_or_equal collator d g then dead d else dead g

  abbrev pub run : Cell → List Event → Cell
  run = foldl step
