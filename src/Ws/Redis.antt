-- ===== src/Ws/Redis.antt =====
-- packages/redis-sync/src/index.ts: room versions and snapshots in Redis, shared by the nodes.
-- Redis itself is a third party's. A key that was written holds what was written (the snapshot as
-- the value of its JSON text), and a WATCHed transaction is undone if the key was touched: what
-- the other nodes do between WATCH and EXEC is the parameter `interfere`, which gives the store
-- that EXEC finds and whether it finds the version key touched.
pub mod Commit
use canvassync.Prelude.{
  ℕ, zero, suc, ◌+◌, String, Bool, not, Option, none, some, List, [], ◌∷◌, ◌++◌, nat_beq,
  if◌then◌else◌, nat_key, leb, ◌-◌, max,
}
use canvassync.JsMap
use canvassync.JsMap.{JsMap}
use canvassync.Crdt.{CanvasCrdtMetadata, Shape}

pub record RoomSyncState : Type 0 where
  pub room_id : ℕ
  pub version : ℕ
  pub shapes : List Shape

pub record RedisRoomEvent : Type 0 where
  pub room_id : ℕ
  pub origin_node_id : String
  pub version : ℕ
  pub shapes : List Shape
  pub sender_id : Option String
  pub deleted_shape_ids : Option (List String)
  pub deletion_meta : Option CanvasCrdtMetadata
  pub action_id : String
  pub published_at_ms : ℕ

-- The fields that a caller of `commitRoomSnapshot` hands over.
pub record CommitEvent : Type 0 where
  pub origin_node_id : String
  pub sender_id : Option String
  pub action_id : String
  pub deleted_shape_ids : Option (List String)
  pub deletion_meta : Option CanvasCrdtMetadata

pub record Redis : Type 0 where
  pub versions : JsMap ℕ ℕ
  pub snapshots : JsMap ℕ RoomSyncState
  pub published : List RedisRoomEvent

abbrev pub or_zero : Option ℕ → ℕ
or_zero none = 0
or_zero (some n) = n

unfoldable pub get_room_version : ℕ → Redis → ℕ
get_room_version room r = or_zero (JsMap.get r.versions room)

abbrev pub version_or : Option ℕ → ℕ → ℕ
version_or none v = v
version_or (some n) v = n

-- Two GETs, of the version and then of the snapshot: the stores that they find.
unfoldable pub get_room_snapshot : ℕ → (at_version at_snapshot : Redis) → Option RoomSyncState
get_room_snapshot room r r' = elim (JsMap.get r'.snapshots room) [
  | none ↦ none
  | some blob ↦ some (record {
    room_id = room;
    version = version_or (JsMap.get r.versions room) blob.version;
    shapes = blob.shapes;
  })
]

unfoldable pub set_room_snapshot : ℕ → List Shape → ℕ → Redis → Redis
set_room_snapshot room shapes version r = record r {
  versions = JsMap.set r.versions room version;
  snapshots =
      JsMap.set r.snapshots room (record { room_id = room; version = version; shapes = shapes });
}

unfoldable pub bump_room_version : ℕ → Redis → ℕ × Redis
unfolding get_room_version
bump_room_version room r =
    let next = get_room_version room r + 1 in
    (next, record r { versions = JsMap.set r.versions room next })

module _ (now : ℕ) (interfere : ℕ → Redis → Redis × Bool) (room expected : ℕ) (shapes : List Shape)
    (event : CommitEvent) where
  abbrev pub payload : ℕ → RedisRoomEvent
  payload next = record {
    room_id = room;
    origin_node_id = event.origin_node_id;
    version = next;
    shapes = shapes;
    sender_id = event.sender_id;
    deleted_shape_ids = event.deleted_shape_ids;
    deletion_meta = event.deletion_meta;
    action_id = event.action_id;
    published_at_ms = now;
  }

  -- The transaction: INCR, SET, PUBLISH.
  unfoldable pub transaction : ℕ → Redis → Redis
  unfolding bump_room_version
  transaction next r =
      let (_, r') = bump_room_version room r in
      record r' {
        snapshots =
            JsMap.set r'.snapshots room
              (record { room_id = room; version = next; shapes = shapes });
        published = r'.published ++ payload next ∷ [];
      }

  -- The loop, with the attempts that are left and the number of this one.
  unfoldable pub commit_attempts : ℕ → ℕ → Redis → Option ℕ × Redis
  unfolding get_room_version transaction
  commit_attempts zero attempt r = (none, r)
  commit_attempts (suc left) attempt r =
      let current = get_room_version room r in
      let (found, touched) = interfere attempt r in
      let again = commit_attempts left (attempt + 1) found in
      if not (nat_beq current expected)
      then (none, r)
      else if touched
      then again
      else (some (current + 1), transaction (current + 1) found)

  unfoldable pub commit_room_snapshot : Redis → Option ℕ × Redis
  unfolding commit_attempts
  commit_room_snapshot r = commit_attempts 3 0 r

pub record RateLimitResult : Type 0 where
  pub allowed : Bool
  pub current : ℕ
  pub limit : ℕ
  pub remaining : ℕ
  pub reset_at_ms : ℕ
  pub retry_after_ms : ℕ

-- checkRedisRateLimit after the script has answered: `answer` is the counter and the time to live.
-- Limits and windows are natural numbers, as the callers pass them.
unfoldable pub check_redis_rate_limit : (now limit window_ms : ℕ) → Option (ℕ × ℕ) → RateLimitResult
check_redis_rate_limit now limit window_ms answer =
    let safe_limit = max 1 limit in
    let safe_window_ms = max 1 window_ms in
    let current : ℕ = elim answer [ none ↦ 0 | some (n, ttl) ↦ n ] in
    let ttl_ms : ℕ = elim answer [ none ↦ safe_window_ms | some (n, ttl) ↦ ttl ] in
    let allowed = leb current safe_limit in
    record {
      allowed = allowed;
      current = current;
      limit = safe_limit;
      remaining = safe_limit - current;
      reset_at_ms = now + ttl_ms;
      retry_after_ms = if allowed then 0 else ttl_ms;
    }
