-- ===== src/Crdt/Order.antt =====
-- canvas-crdt.ts: the order of the metadata of shapes, for any locale.
use canvassync.Prelude.{◌≡◌, ◌⊎◌, true, false, arith, ◌<◌}
use canvassync.Collation.{Collator}
use canvassync.Crdt.{CanvasCrdtMetadata, is_canvas_crdt_newer_or_equal}

module _ (collator : Collator) where
  abbrev pub Newer : CanvasCrdtMetadata → CanvasCrdtMetadata → Type 0
  Newer a b = is_canvas_crdt_newer_or_equal collator a b ≡ true

  pub Newer-total : (a b : CanvasCrdtMetadata) → Newer a b ⊎ Newer b a
  unfolding is_canvas_crdt_newer_or_equal
  Newer-total a b = ground (arith, collator.total a.client_id b.client_id)

  pub Newer-trans : (a b c : CanvasCrdtMetadata) → Newer a b → Newer b c → Newer a c
  unfolding is_canvas_crdt_newer_or_equal
  Newer-trans a b c h k = ground (arith, collator.trans a.client_id b.client_id c.client_id)

  -- The laws at three stamps, for case splits.
  pub Newer-laws :
      (x y z : CanvasCrdtMetadata)
      → (Newer x y ⊎ Newer y x)
        × (Newer x z ⊎ Newer z x)
        × (Newer y z ⊎ Newer z y)
        × (Newer x y → Newer y z → Newer x z)
        × (Newer x z → Newer z y → Newer x y)
        × (Newer y x → Newer x z → Newer y z)
        × (Newer y z → Newer z x → Newer y x)
        × (Newer z x → Newer x y → Newer z y)
        × (Newer z y → Newer y x → Newer z x)
  Newer-laws x y z = (
    Newer-total x y,
    Newer-total x z,
    Newer-total y z,
    Newer-trans x y z,
    Newer-trans x z y,
    Newer-trans y x z,
    Newer-trans y z x,
    Newer-trans z x y,
    Newer-trans z y x,
  )

  pub Newer-refl : (a : CanvasCrdtMetadata) → Newer a a
  Newer-refl a = ground (arith, Newer-total a a)

  pub Newer-of_lt : (a b : CanvasCrdtMetadata) → b.clock < a.clock → Newer a b
  unfolding is_canvas_crdt_newer_or_equal
  Newer-of_lt a b h = ground arith

  pub not-Newer-of_lt :
      (a b : CanvasCrdtMetadata)
      → a.clock < b.clock
      → is_canvas_crdt_newer_or_equal collator a b ≡ false
  unfolding is_canvas_crdt_newer_or_equal
  not-Newer-of_lt a b h = ground arith
