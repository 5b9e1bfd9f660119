-- ===== src/Queue/Routing.antt =====
-- packages/queue-sync/src/index.ts: the partition of a room.
use canvassync.Prelude.{ℕ, ◌%◌, Option, none, some}

-- The settings are numbers of the language: none is one that is not finite or not positive, and a
-- fraction is given by its whole part.
unfoldable pub normalize_positive_int : Option ℕ → (fallback : ℕ) → ℕ
normalize_positive_int none fallback = fallback
normalize_positive_int (some value) fallback = value

unfoldable pub room_partition : (partitions : Option ℕ) → (room : ℕ) → ℕ
unfolding normalize_positive_int
room_partition partitions room = room % normalize_positive_int partitions 16
