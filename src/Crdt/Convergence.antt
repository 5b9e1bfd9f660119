-- ===== src/Crdt/Convergence.antt =====
-- canvas-crdt.ts: the events of an id in different orders.
use mathlib.Core.List.{Permᴰ, Perm, Mem, mem-cons_self, mem-cons_of_mem}
use mathlib.Core.List.Permᴰ
use mathlib.Core.Logic.{∥∥₁_elim}
use canvassync.Prelude.{◌≡◌, refl, List, arith, ◌∙◌, ap}
use mathlib.Core.Path.{ap₂}
use text.Mathlib.TextEquality.{IsScalar-prop}
use canvassync.Collation.{Collator}
use canvassync.Crdt.{CanvasCrdtMetadata, Shape, get_canvas_crdt_metadata, restamp}
use canvassync.Crdt.Order.{Newer, Newer-total, Newer-laws}
use canvassync.Crdt.Cell.{Cell, absent, alive, dead, Event, put, del, step, run, get-restamp}

module _ (collator : Collator) where
  -- Two puts, or two deletes, whose stamps tie are the same.
  abbrev pub Compatible : Event → Event → Type 0
  Compatible (put s) (put t) =
      Newer collator (get_canvas_crdt_metadata s) (get_canvas_crdt_metadata t)
      → Newer collator (get_canvas_crdt_metadata t) (get_canvas_crdt_metadata s)
      → restamp s ≡ restamp t
  Compatible (del d) (del g) = Newer collator d g → Newer collator g d → d ≡ g
  Compatible _ _ = Unit

  abbrev stamp_of : Shape → CanvasCrdtMetadata
  stamp_of = get_canvas_crdt_metadata

  step_comm :
      (c : Cell) (e f : Event)
      → Compatible e f
      → step collator (step collator c e) f ≡ step collator (step collator c f) e
  unfolding step
  step_comm absent (put s) (put t) h =
      ground
        (arith, get-restamp s, get-restamp t, Newer-total collator (stamp_of s) (stamp_of t), h)
  step_comm absent (put s) (del g) h = ground (arith, get-restamp s)
  step_comm absent (del d) (put t) h = ground (arith, get-restamp t)
  step_comm absent (del d) (del g) h = ground (arith, Newer-total collator d g, h)
  step_comm (alive c) (put s) (put t) h = ground (
    arith,
    get-restamp s,
    get-restamp t,
    Newer-laws collator (stamp_of c) (stamp_of s) (stamp_of t),
    h,
  )
  step_comm (alive c) (put s) (del g) h =
      ground (arith, get-restamp s, Newer-laws collator (stamp_of c) (stamp_of s) g)
  step_comm (alive c) (del d) (put t) h =
      ground (arith, get-restamp t, Newer-laws collator (stamp_of c) d (stamp_of t))
  step_comm (alive c) (del d) (del g) h = ground (arith, Newer-laws collator (stamp_of c) d g, h)
  step_comm (dead c) (put s) (put t) h =
      ground
        (arith, get-restamp s, get-restamp t, Newer-laws collator c (stamp_of s) (stamp_of t), h)
  step_comm (dead c) (put s) (del g) h =
      ground (arith, get-restamp s, Newer-laws collator c (stamp_of s) g)
  step_comm (dead c) (del d) (put t) h =
      ground (arith, get-restamp t, Newer-laws collator c d (stamp_of t))
  step_comm (dead c) (del d) (del g) h = ground (arith, Newer-laws collator c d g, h)

  run-permᴰ :
      {xs ys : List Event}
      → Permᴰ xs ys
      → ((e f : Event) → Mem e xs → Mem f xs → Compatible e f)
      → (c : Cell) → run collator c xs ≡ run collator c ys
  run-permᴰ Permᴰ.nil h c = refl
  run-permᴰ (Permᴰ.cons {a = a} {l₂ = l} p q) h c =
      run-permᴰ q (λ e f m n. h e f (mem-cons_of_mem a m) (mem-cons_of_mem a n)) (step collator c a)
      ∙ ap (λ (z : Event). run collator (step collator c z) l) p
  run-permᴰ (Permᴰ.swap {a = a} {b = b} {a' = a'} {l = l} p q) h c =
      ap (λ (z : Cell). run collator z l)
        (step_comm c a b (h a b mem-cons_self (mem-cons_of_mem a mem-cons_self)))
      ∙ ap₂ (λ (y z : Event). run collator (step collator (step collator c y) z) l) q p
  run-permᴰ (Permᴰ.trans p q) h c =
      run-permᴰ p h c
      ∙ run-permᴰ q (λ e f m n. h e f (Permᴰ.mem (Permᴰ.symm p) m) (Permᴰ.mem (Permᴰ.symm p) n)) c

Cell-set : IsSet Cell
Cell-set = hlevel IsScalar-prop

module _ (collator : Collator) where
  -- Whatever the order of the puts and deletes of an id, the register ends the same, if those
  -- whose stamps tie are the same.
  pub run-perm :
      {xs ys : List Event}
      → Perm xs ys
      → ((e f : Event) → Mem e xs → Mem f xs → Compatible collator e f)
      → (c : Cell) → run collator c xs ≡ run collator c ys
  run-perm p h c = ∥∥₁_elim p (Cell-set _ _) (λ d. run-permᴰ collator d h c)
