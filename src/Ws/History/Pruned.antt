-- ===== src/Ws/History/Pruned.antt =====
-- Which snapshots the pruning of a room's history keeps: apps/ws-backend/src/ws/roomSync.ts.
use canvassync.Prelude.{
  ℕ, zero, suc, ◌<◌, Bool, true, false, not, some, List, [], ◌∷◌, ◌≡◌, refl, ap, ◌∙◌, inl, inr, any,
  find, select, All, All-select, nat_beq, string_key, Bool-cases, arith,
}
use canvassync.Rooms.Table.{delete_many, Once, any-of_found, find-passes, Once-delete}
use canvassync.Ws.History.{RoomSnapshot, drop, of_room, is_among, prune_history}

abbrev pub row_has_id : ℕ → RoomSnapshot → Bool
row_has_id i row = nat_beq row.id i

pub any-select :
    (p q : RoomSnapshot → Bool) (rows : List RoomSnapshot)
    → any p rows ≡ false
    → any p (select q rows) ≡ false
any-select p q [] h = refl
any-select p q (y ∷ rows) h = ground (arith, any-select p q rows)

-- The only row with an id is not of another room.
no_double :
    (i : ℕ) (p q : RoomSnapshot → Bool) (rows : List RoomSnapshot) {x : RoomSnapshot}
    → Once (row_has_id i) rows
    → find p rows ≡ some x
    → row_has_id i x ≡ true
    → q x ≡ false
    → any (row_has_id i) (select q rows) ≡ false
no_double i p q [] o f h n = cc
no_double i p q (y ∷ rows) {x} (alone, o) f h n = elim (Bool-cases (p y)) [
  | inl here ↦
      let same : y ≡ x = ground (arith, here) in
      rw (ap q same ∙ n) (any-select (row_has_id i) q rows (alone (ap (row_has_id i) same ∙ h)))
  | inr later ↦
      ground (arith, no_double i p q rows {x = x}, any-of_found p (row_has_id i) rows {x = x})
]

any-drop :
    (i n : ℕ) (rows : List RoomSnapshot)
    → any (row_has_id i) rows ≡ false
    → any (row_has_id i) (drop n rows) ≡ false
any-drop i zero rows h = h
any-drop i (suc n) [] h = h
any-drop i (suc n) (y ∷ rows) h = any-drop i n rows (ground arith)

-- A row that the pruning keeps is found as before.
find-kept :
    (p gone : RoomSnapshot → Bool) (rows : List RoomSnapshot) {x : RoomSnapshot}
    → find p rows ≡ some x
    → gone x ≡ false
    → find p (delete_many gone rows) ≡ some x
find-kept p gone [] f k = cc
find-kept p gone (y ∷ rows) {x} f k = ground (arith, find-kept p gone rows {x = x})

pub unused_id :
    (next : ℕ) (rows : List RoomSnapshot)
    → All (λ row. row.id < next) rows
    → any (row_has_id next) rows ≡ false
unused_id next [] h = refl
unused_id next (row ∷ rows) (below, h) = ground (arith, unused_id next rows h)

module _ (m room : ℕ) (new : RoomSnapshot) (rows : List RoomSnapshot) where
  stale-eq :
      new.room_id ≡ room
      → drop (suc m) (select (of_room room) (new ∷ rows)) ≡ drop m (select (of_room room) rows)
  stale-eq own = ground (arith, own)

  pub found_first : new.room_id ≡ room → find (of_room room) (new ∷ rows) ≡ some new
  found_first own = ground (arith, own)

  pub found_later :
      (r : ℕ) (x : RoomSnapshot)
      → new.room_id ≡ room
      → nat_beq r room ≡ false
      → find (of_room r) rows ≡ some x
      → find (of_room r) (new ∷ rows) ≡ some x
  found_later r x own apart f = ground (arith, own, apart, f)

  elsewhere :
      (r : ℕ) (x : RoomSnapshot)
      → nat_beq r room ≡ false
      → of_room r x ≡ true
      → of_room room x ≡ false
  elsewhere r x apart here = ground (arith, apart, here)

  -- Of the pruned room the new row is the youngest, of another one the row that was.
  pub prune-own :
      All (λ row. row.id < new.id) rows
      → new.room_id ≡ room
      → find (of_room room) (prune_history (suc m) room (new ∷ rows)) ≡ some new
  unfolding prune_history
  prune-own fresh own =
      find-kept (of_room room) (is_among (drop (suc m) (select (of_room room) (new ∷ rows))))
        (new ∷ rows) (found_first own)
        (ap (λ gone. is_among gone new) (stale-eq own)
          ∙ any-drop new.id m (select (of_room room) rows)
              (any-select (row_has_id new.id) (of_room room) rows (unused_id new.id rows fresh)))

  pub prune-other :
      (r : ℕ) (x : RoomSnapshot)
      → ((i : ℕ) → Once (row_has_id i) rows)
      → new.room_id ≡ room
      → nat_beq r room ≡ false
      → find (of_room r) rows ≡ some x
      → find (of_room r) (prune_history (suc m) room (new ∷ rows)) ≡ some x
  unfolding prune_history
  prune-other r x once own apart f =
      find-kept (of_room r) (is_among (drop (suc m) (select (of_room room) (new ∷ rows))))
        (new ∷ rows) (found_later r x own apart f)
        (ap (λ gone. is_among gone x) (stale-eq own)
          ∙ any-drop x.id m (select (of_room room) rows) (
              no_double x.id (of_room r) (of_room room) rows (once x.id) f (ground arith)
                (elsewhere r x apart (find-passes (of_room r) rows f))))

module _ (max room : ℕ) where
  pub prune-All {κ} :
      (P : RoomSnapshot → Type κ) (all_rows : List RoomSnapshot)
      → All P all_rows
      → All P (prune_history max room all_rows)
  unfolding prune_history
  prune-All P all_rows h =
      All-select P P (λ row. not (is_among (drop max (select (of_room room) all_rows)) row))
        all_rows (λ x kept p. p) h

  pub prune-Once :
      (i : ℕ) (all_rows : List RoomSnapshot)
      → Once (row_has_id i) all_rows
      → Once (row_has_id i) (prune_history max room all_rows)
  unfolding prune_history
  prune-Once i all_rows o =
      Once-delete (row_has_id i) (is_among (drop max (select (of_room room) all_rows))) all_rows o
