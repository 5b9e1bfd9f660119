-- ===== src/Rooms/Deck.antt =====
-- What replacing a room's slides and shapes leaves in the tables: `replaceRoomSlides` and
-- `replaceShapes` of apps/http-backend/src/controllers/room.controller.ts.
use canvassync.Prelude.{
  ℕ, ◌+◌, String, Bool, true, false, Option, some, List, [], ◌∷◌, ◌++◌, ◌≡◌, refl, ap, map, select,
  ◌==◌, nat_key, matches_refl, arith,
}
use mathlib.Core.List.{append-nil}
use canvassync.Rooms.Reply.{
  done, require_user_id, Returns, Returns-done, Returns->>=, Returns->>, done_lem,
}
use canvassync.Rooms.Table.{delete_many}
use canvassync.Rooms.Database.{Database}
use canvassync.Rooms.Access.{can_edit_room, has_room_access}
use canvassync.Rooms.Content.{
  Slide, StoredSlide, slide_in, numbered, insert_slide, order_slides, slides_of, write_slides,
  list_room_slides, replace_room_slides,
}

module _ {ℓ} {A : Type ℓ} where
  pub select-append :
      (test : A → Bool) (xs ys : List A) → select test (xs ++ ys) ≡ select test xs ++ select test ys
  select-append test [] ys = refl
  select-append test (x ∷ xs) ys = ground (arith, select-append test xs ys)

  pub select-delete : (test : A → Bool) (xs : List A) → select test (delete_many test xs) ≡ []
  select-delete test [] = refl
  select-delete test (x ∷ xs) = ground (arith, select-delete test xs)

  pub select-delete_other :
      (test gone : A → Bool) (xs : List A)
      → ((x : A) → test x ≡ true → gone x ≡ false)
      → select test (delete_many gone xs) ≡ select test xs
  select-delete_other test gone [] apart = refl
  select-delete_other test gone (x ∷ xs) apart =
      ground (arith, apart x, select-delete_other test gone xs apart)

select-numbered :
    (room_id i : ℕ) (slides : List Slide)
    → select (slide_in room_id) (numbered room_id i slides) ≡ numbered room_id i slides
unfolding numbered
select-numbered room_id i [] = refl
select-numbered room_id i (slide ∷ slides) =
    rw (matches_refl room_id) (rw (select-numbered room_id (i + 1) slides) refl)

select-numbered_other :
    (other room_id i : ℕ) (slides : List Slide)
    → (room_id == other) ≡ false
    → select (slide_in other) (numbered room_id i slides) ≡ []
unfolding numbered
select-numbered_other other room_id i [] apart = refl
select-numbered_other other room_id i (slide ∷ slides) apart =
    rw apart (select-numbered_other other room_id (i + 1) slides apart)

insert-numbered :
    (room_id i : ℕ) (slide : Slide) (slides : List Slide)
    → insert_slide
        (record { room_id = room_id; position = i; slide = slide })
        (numbered room_id (i + 1) slides)
      ≡ record { room_id = room_id; position = i; slide = slide } ∷ numbered room_id (i + 1) slides
unfolding insert_slide numbered
insert-numbered room_id i slide [] = refl
insert-numbered room_id i slide (next ∷ slides) = ground arith

order-numbered :
    (room_id i : ℕ) (slides : List Slide)
    → order_slides (numbered room_id i slides) ≡ numbered room_id i slides
unfolding order_slides numbered
order-numbered room_id i [] = refl
order-numbered room_id i (slide ∷ slides) =
    rw (order-numbered room_id (i + 1) slides) (insert-numbered room_id i slide slides)

titles-numbered :
    (room_id i : ℕ) (slides : List Slide)
    → map (λ row. row.slide) (numbered room_id i slides) ≡ slides
unfolding numbered
titles-numbered room_id i [] = refl
titles-numbered room_id i (slide ∷ slides) =
    ap (λ r. slide ∷ r) (titles-numbered room_id (i + 1) slides)

own_deck :
    (room_id : ℕ) (slides : List Slide) (rows : List StoredSlide)
    → slides_of room_id (write_slides room_id slides rows) ≡ slides
unfolding slides_of
own_deck room_id slides rows =
    rw
      (
        select-append (slide_in room_id) (delete_many (slide_in room_id) rows)
            (numbered room_id 0 slides),
        select-delete (slide_in room_id) rows,
        select-numbered room_id 0 slides,
        order-numbered room_id 0 slides,
      )
      (titles-numbered room_id 0 slides)

other_deck :
    (other room_id : ℕ) (slides : List Slide) (rows : List StoredSlide)
    → (room_id == other) ≡ false
    → slides_of other (write_slides room_id slides rows) ≡ slides_of other rows
unfolding slides_of
other_deck other room_id slides rows apart =
    rw
      (
        select-append (slide_in other) (delete_many (slide_in room_id) rows)
            (numbered room_id 0 slides),
        select-delete_other (slide_in other) (slide_in room_id) rows (λ row here. ground arith),
        select-numbered_other other room_id 0 slides apart,
      )
      (rw (append-nil (select (slide_in other) rows)) refl)

listed_as :
    (db : Database) (rows : List StoredSlide) (reader : Option String) (room_id : ℕ)
    (slides : List Slide)
    → slides_of room_id rows ≡ slides
    → Returns (λ answer. answer ≡ slides) (list_room_slides db rows reader (some room_id))
unfolding list_room_slides
listed_as db rows reader room_id slides e = Returns->>= (require_user_id reader) λ user_id e'.
    Returns->> (has_room_access db room_id user_id) 403
      λ may. done_lem {a = slides_of room_id rows} e

listed_alike :
    (db : Database) (rows rows' : List StoredSlide) (reader : Option String) (room_id : ℕ)
    → slides_of room_id rows ≡ slides_of room_id rows'
    → list_room_slides db rows reader (some room_id)
      ≡ list_room_slides db rows' reader (some room_id)
unfolding list_room_slides
listed_alike db rows rows' reader room_id e = rw e refl

-- What a written deck looks like.
pub record IsDeck (room_id : ℕ) (slides : List Slide) (rows rows' : List StoredSlide)
    (answer : List Slide) : Type 0 where
  pub answered : answer ≡ slides
  pub listed :
      (db : Database) (reader : Option String) (answer' : List Slide)
      → list_room_slides db rows' reader (some room_id) ≡ done answer'
      → answer' ≡ slides
  pub apart :
      (db : Database) (reader : Option String) (other : ℕ)
      → (room_id == other) ≡ false
      → list_room_slides db rows' reader (some other) ≡ list_room_slides db rows reader (some other)

replaced :
    (db : Database) (rows : List StoredSlide) (user : Option String) (room_id : ℕ)
    (slides : List Slide)
    → Returns
        (λ (r : List StoredSlide × List Slide). IsDeck room_id slides rows r.0 r.1)
        (replace_room_slides db rows user (some room_id) (some slides))
unfolding replace_room_slides
replaced db rows user room_id slides = Returns->>= (require_user_id user) λ user_id e.
    Returns->> (can_edit_room db room_id user_id) 403 λ may.
      done_lem
        {a = (
          write_slides room_id slides rows,
          slides_of room_id (write_slides room_id slides rows),
        )}
        record {
          answered = own_deck room_id slides rows;
          listed = λ db reader answer' e.
              Returns-done
                (listed_as db (write_slides room_id slides rows) reader room_id slides
                  (own_deck room_id slides rows))
                e;
          apart = λ db reader other apart.
              listed_alike db (write_slides room_id slides rows) rows reader other
                (other_deck other room_id slides rows apart);
        }

-- After replaceRoomSlides was answered, the answer, and whatever listRoomSlides answers for the
-- room, is the slides of the body in their order; listRoomSlides answers for every other room as
-- before.
pub replace_room_slides-IsDeck :
    (db : Database) (rows rows' : List StoredSlide) (user : Option String) (room_id : ℕ)
    (slides answer : List Slide)
    → replace_room_slides db rows user (some room_id) (some slides) ≡ done (rows', answer)
    → IsDeck room_id slides rows rows' answer
replace_room_slides-IsDeck db rows rows' user room_id slides answer e =
    Returns-done (replaced db rows user room_id slides) e
