-- ===== src/Engine/History.antt =====
-- state.ts: edits, undo, redo and read-only states over a series of steps.
use canvassync.Prelude.{
  ℕ, zero, suc, true, false, List, [], ◌∷◌, ◌≡◌, refl, arith, foldl, length, ◌∙◌, ap, sym,
}
use canvassync.Engine.Shapes.{Number, Shape}
use canvassync.Engine.State.{CanvasState, notify_change, undo, redo, set_shapes, hydrate_shapes}

pub data Move : Type 0 where
  undoing redoing : Move

module _ {N : Type 0} where
  abbrev pub move : CanvasState N → Move → CanvasState N
  move s undoing = undo s
  move s redoing = redo s

  -- All the states that undo and redo reach, the oldest first.
  abbrev after : List (List (Shape N)) → List (List (Shape N)) → List (List (Shape N))
  after [] later = later
  after (state ∷ past) later = after past (state ∷ later)

  abbrev pub timeline : CanvasState N → List (List (Shape N))
  timeline s = after s.past (s.present ∷ s.future)

  move-timeline : (s : CanvasState N) (m : Move) → timeline (move s m) ≡ timeline s
  unfolding undo redo notify_change
  move-timeline s undoing = ground arith
  move-timeline s redoing = ground arith

  -- Whatever series of undos and redos, the states that undo and redo reach, the present one among
  -- them, stay the same in the same order.
  pub timeline-moves :
      (s : CanvasState N) (ms : List Move) → timeline (foldl move s ms) ≡ timeline s
  timeline-moves s [] = refl
  timeline-moves s (m ∷ ms) = timeline-moves (move s m) ms ∙ move-timeline s m

module _ {N : Type 0} where
  abbrev pub undo_times : ℕ → CanvasState N → CanvasState N
  undo_times zero s = s
  undo_times (suc n) s = undo (undo_times n s)

  abbrev pub redo_times : ℕ → CanvasState N → CanvasState N
  redo_times zero s = s
  redo_times (suc n) s = redo (redo_times n s)

module _ {N : Type 0} (num : Number N) where
  abbrev pub set_all : List (List (Shape N)) → CanvasState N → CanvasState N
  set_all edits s = foldl (λ t shapes. set_shapes num shapes t) s edits

  -- The same shapes, and the same way back from them.
  pub record IsBack (s t : CanvasState N) : Type 0 where
    pub past : t.past ≡ s.past
    pub present : t.present ≡ s.present
    pub read_only : t.read_only ≡ s.read_only

  undo_lem :
      (t : CanvasState N) (prev : List (Shape N)) (past : List (List (Shape N)))
      → t.read_only ≡ false
      → t.past ≡ prev ∷ past
      → ((undo t).past ≡ past) × ((undo t).present ≡ prev) × ((undo t).read_only ≡ false)
  unfolding undo notify_change
  undo_lem t prev past writable e = rw (undo, writable) (rw e (refl, refl, refl))

  set_shapes_lem :
      (s : CanvasState N) (shapes : List (Shape N))
      → s.read_only ≡ false
      → ((set_shapes num shapes s).past ≡ s.present ∷ s.past)
        × ((set_shapes num shapes s).read_only ≡ false)
  unfolding set_shapes notify_change
  set_shapes_lem s shapes writable = rw (set_shapes, writable) (refl, refl)

  undo_set :
      (s t : CanvasState N) (shapes : List (Shape N))
      → s.read_only ≡ false
      → IsBack (set_shapes num shapes s) t
      → IsBack s (undo t)
  undo_set s t shapes writable back =
      let (set_past, set_open) = set_shapes_lem s shapes writable in
      let (past, present, same) =
        undo_lem t s.present s.past (back.read_only ∙ set_open) (back.past ∙ set_past) in
      record { past = past; present = present; read_only = same ∙ sym writable }

  -- After any edits of a state that is not read-only, as many undos give back its shapes and its
  -- past.
  pub undo_times-IsBack :
      (edits : List (List (Shape N))) (s : CanvasState N)
      → s.read_only ≡ false
      → IsBack s (undo_times (length edits) (set_all edits s))
  undo_times-IsBack [] s writable = record { past = refl; present = refl; read_only = refl }
  undo_times-IsBack (shapes ∷ edits) s writable =
      undo_set s (undo_times (length edits) (set_all edits (set_shapes num shapes s))) shapes
        writable
        (undo_times-IsBack edits (set_shapes num shapes s) (set_shapes_lem s shapes writable).1)

-- What a user does to a state, in a read-only view as well.
pub data Edit (N : Type 0) : Type 0 where
  setting : List (Shape N) → Edit N
  moving : Move → Edit N

module _ {N : Type 0} (num : Number N) where
  abbrev pub apply_edit : CanvasState N → Edit N → CanvasState N
  apply_edit s (setting shapes) = set_shapes num shapes s
  apply_edit s (moving m) = move s m

  apply_edit_shut : (s : CanvasState N) (e : Edit N) → s.read_only ≡ true → apply_edit s e ≡ s
  unfolding set_shapes undo redo
  apply_edit_shut s (setting shapes) shut = rw shut refl
  apply_edit_shut s (moving undoing) shut = rw shut refl
  apply_edit_shut s (moving redoing) shut = rw shut refl

  -- A read-only state ignores any series of edits, undos and redos.
  pub read_only-edits :
      (s : CanvasState N) (edits : List (Edit N))
      → s.read_only ≡ true
      → foldl apply_edit s edits ≡ s
  read_only-edits s [] shut = refl
  read_only-edits s (e ∷ edits) shut =
      ap (λ t. foldl apply_edit t edits) (apply_edit_shut s e shut) ∙ read_only-edits s edits shut

  -- After hydrateShapes, undo and redo change nothing.
  pub hydrate_shapes_forgets :
      (s : CanvasState N) (shapes : List (Shape N))
      → (undo (hydrate_shapes num shapes s) ≡ hydrate_shapes num shapes s)
        × (redo (hydrate_shapes num shapes s) ≡ hydrate_shapes num shapes s)
  unfolding hydrate_shapes undo redo notify_change
  hydrate_shapes_forgets s shapes = (ground arith, ground arith)
