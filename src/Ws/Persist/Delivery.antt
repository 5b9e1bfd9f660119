-- ===== src/Ws/Persist/Delivery.antt =====
-- roomSync.ts: the debounce, the single write in flight and the restart after it, interleaved.
use mathlib.Core.Path.{subst}
use native.Mathlib.Nat.{one-le-pow, pow-le-pow_right}
use canvassync.Prelude.{
  ℕ, ◌+◌, ◌-◌, ◌≤◌, ◌≡◌, ◌⊎◌, inl, inr, Bool, true, false, Option, none, some, List, [], ◌∷◌, foldl,
  arith, nat_beq, nat_beq_iff, Bool-cases, if◌then◌else◌, all, All,
}
use canvassync.Crdt.{Shape}
use canvassync.Ws.Persist.{
  Persist, finish_persist, schedule_room_persist, fire_persist_timer, unique_shapes,
  get_durable_persist_cooldown_ms, is_persistable,
}

pub data Event : Type 0 where
  schedule : ℕ → List Shape → Event
  timer : ℕ → Event
  written : (accepted : Bool) → ℕ → Event

unfoldable pub handle : Persist → Event → Persist
handle p (schedule room shapes) = schedule_room_persist room shapes p
handle p (timer room) = fire_persist_timer room p
handle p (written accepted room) = finish_persist accepted room p

-- The shapes that were scheduled last for the room, and not yet overtaken.
abbrev pub latest : ℕ → Option (List Shape) → Event → Option (List Shape)
latest room last (schedule r shapes) = if nat_beq room r then some shapes else last
latest room last _ = last

abbrev is_busy : Option (List Shape) → Bool
is_busy none = false
is_busy (some s) = true

-- Where the last scheduled shapes are: waiting behind a timer or a write in flight, being written,
-- or written.
abbrev pub Tracks : ℕ → Persist → Option (List Shape) → Type 0
Tracks room p none = Unit
Tracks room p (some s) =
    (all is_persistable s ≡ true)
    × (((p.pending_shapes room ≡ some s)
          × ((p.pending_timer room ≡ true) ⊎ (is_busy (p.in_flight room) ≡ true)))
        ⊎ ((p.pending_shapes room ≡ none) × (p.in_flight room ≡ some s))
        ⊎ ((p.pending_shapes room ≡ none)
            × (p.in_flight room ≡ none)
            × (p.rows room ≡ unique_shapes s)))

-- What is scheduled passes the checks, and the database refuses no write.
abbrev pub IsFine : Event → Type 0
IsFine (schedule room shapes) = all is_persistable shapes ≡ true
IsFine (timer room) = Unit
IsFine (written accepted room) = accepted ≡ true

handle-Tracks :
    (room : ℕ) (p : Persist) (e : Event) (last : Option (List Shape))
    → IsFine e
    → Tracks room p last
    → Tracks room (handle p e) (latest room last e)
unfolding handle schedule_room_persist fire_persist_timer finish_persist
handle-Tracks room p (schedule r shapes) none fine h = elim (Bool-cases (nat_beq room r)) [
  | inl here ↦ rw here (fine, inl (ground arith, inl (ground arith)))
  | inr there ↦ rw there tt
]
handle-Tracks room p (schedule r shapes) (some s) fine h = elim (Bool-cases (nat_beq room r)) [
  | inl here ↦ rw here (fine, inl (ground arith, inl (ground arith)))
  | inr there ↦ rw there (ground arith)
]
handle-Tracks room p (timer r) none fine h = tt
handle-Tracks room p (timer r) (some s) fine h = ground (arith, nat_beq_iff room r)
handle-Tracks room p (written accepted r) none fine h = tt
handle-Tracks room p (written accepted r) (some s) fine h = ground (arith, nat_beq_iff room r)

abbrev pub run : Persist → List Event → Persist
run = foldl handle

-- The last shapes that a series of events schedules for the room.
abbrev pub last_scheduled : ℕ → Option (List Shape) → List Event → Option (List Shape)
last_scheduled room = foldl (latest room)

abbrev pub AllFine : List Event → Type 0
AllFine = All IsFine

run-Tracks :
    (room : ℕ) (p : Persist) (es : List Event) (last : Option (List Shape))
    → AllFine es
    → Tracks room p last
    → Tracks room (run p es) (last_scheduled room last es)
run-Tracks room p [] last fine h = h
run-Tracks room p (e ∷ es) last (f, fine) h =
    run-Tracks room (handle p e) es (latest room last e) fine (handle-Tracks room p e last f h)

settled :
    (room : ℕ) (p : Persist) (s : List Shape)
    → Tracks room p (some s)
    → p.pending_timer room ≡ false
    → p.in_flight room ≡ none
    → p.rows room ≡ unique_shapes s
settled room p s h idle free = ground arith

-- However schedules, timers and writes of the rooms interleave, if what is scheduled passes the
-- checks and the database takes every write, a room with no timer and no write in flight has as
-- rows the shapes scheduled last, without duplicates.
pub rows-run :
    (room : ℕ) (p : Persist) (es : List Event) (shapes : List Shape)
    → AllFine es
    → last_scheduled room none es ≡ some shapes
    → (run p es).pending_timer room ≡ false
    → (run p es).in_flight room ≡ none
    → (run p es).rows room ≡ unique_shapes shapes
rows-run room p es shapes fine e idle free =
    settled room (run p es) shapes
      (subst (Tracks room (run p es)) e (run-Tracks room p es none fine tt)) idle free

-- The pause after a failure of the durable queue is at least two seconds, at most thirty, and does
-- not shrink with one more failure.
pub cooldown_bounds :
    (failure_count : ℕ)
    → (2000 ≤ get_durable_persist_cooldown_ms failure_count)
      × (get_durable_persist_cooldown_ms failure_count ≤ 30000)
      × (get_durable_persist_cooldown_ms failure_count
          ≤ get_durable_persist_cooldown_ms (failure_count + 1))
unfolding get_durable_persist_cooldown_ms
cooldown_bounds n = omega (
  arith,
  one-le-pow (n - 1) 2 (omega arith),
  pow-le-pow_right {n = 2} (omega arith) {i = n - 1} {j = n + 1 - 1} (omega arith),
)
