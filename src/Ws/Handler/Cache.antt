-- ===== src/Ws/Handler/Cache.antt =====
-- messageHandler.ts, canvas_snapshot: what a snapshot that is taken up leaves in the cache.
use mathlib.Core.Path.{subst, sym}
use canvassync.Prelude.{
  ℕ, nat_key, String, true, Option, none, some, List, ◌≡◌, refl, ◌∙◌, arith, inl, inr, Option-cases,
}
use canvassync.JsMap
use canvassync.JsMap.{JsMap}
use canvassync.JsMap.Laws.{get-set_self}
use canvassync.Crdt.{Shape, CanvasCrdtMetadata}
use canvassync.Ws.Protocol.{SnapshotMessage}
use canvassync.Ws.Redis.{
  Redis, RoomSyncState, get_room_snapshot, set_room_snapshot, commit_room_snapshot,
}
use canvassync.Ws.Redis.Commit.{Watches, Outcome, commit_room_snapshot-Outcome}
use canvassync.Ws.Node.{
  Await, second_get, snapshot_read, snapshot_stored, committed, Node, send, cache_room_sync_state,
  initialize_room_sync,
}
use canvassync.Ws.Env.{Env}
use canvassync.Ws.Handler.Snapshot.{
  merged_snapshot, commit_event, snapshot_refused, snapshot_accepted, conclude_snapshot,
  commit_snapshot,
}

-- The node's cached state of a room is the one that the shared store has.
abbrev pub Agrees : ℕ → Node → Type 0
Agrees room n = JsMap.get n.room_sync_state room ≡ get_room_snapshot room n.redis n.redis

-- While the handler waits, nobody else writes the keys of the room in the store, nor the room's
-- cached state once it is there.
pub record IsQuiet (room : ℕ) (meanwhile : Await → Node → Node) : Type 0 where
  pub versions :
      (a : Await) (n : Node)
      → JsMap.get (meanwhile a n).redis.versions room ≡ JsMap.get n.redis.versions room
  pub snapshots :
      (a : Await) (n : Node)
      → JsMap.get (meanwhile a n).redis.snapshots room ≡ JsMap.get n.redis.snapshots room
  pub cached :
      (n : Node)
      → JsMap.get (meanwhile snapshot_stored n).room_sync_state room
        ≡ JsMap.get n.room_sync_state room

-- What the GETs find depends on the keys of the room alone.
snapshot_by_keys :
    (room : ℕ) (r r' s s' : Redis)
    → JsMap.get r.versions room ≡ JsMap.get s.versions room
    → JsMap.get r'.snapshots room ≡ JsMap.get s'.snapshots room
    → get_room_snapshot room r r' ≡ get_room_snapshot room s s'
unfolding get_room_snapshot
snapshot_by_keys room r r' s s' e e' = ground (arith, e, e')

set_room_snapshot_lem :
    (room version : ℕ) (shapes : List Shape) (r : Redis)
    → get_room_snapshot room
        (set_room_snapshot room shapes version r)
        (set_room_snapshot room shapes version r)
      ≡ some (record { room_id = room; version = version; shapes = shapes })
unfolding get_room_snapshot set_room_snapshot
set_room_snapshot_lem room version shapes r = ground (
  arith,
  get-set_self r.versions room version,
  get-set_self r.snapshots room (record { room_id = room; version = version; shapes = shapes }),
)

get_room_snapshot_room :
    (room : ℕ) (r r' : Redis) (s : RoomSyncState)
    → get_room_snapshot room r r' ≡ some s
    → s.room_id ≡ room
unfolding get_room_snapshot
get_room_snapshot_room room r r' s e = ground arith

cache_room_sync_state_lem :
    (room : ℕ) (s : RoomSyncState) (n : Node)
    → s.room_id ≡ room
    → JsMap.get (cache_room_sync_state s n).room_sync_state room ≡ some s
unfolding cache_room_sync_state
cache_room_sync_state_lem room s n e =
    subst (λ k. JsMap.get (JsMap.set n.room_sync_state s.room_id s) k ≡ some s) e
      (get-set_self n.room_sync_state s.room_id s)

module _ (meanwhile : Await → Node → Node) (room : ℕ) (quiet : IsQuiet room meanwhile) where
  still-Agrees : (n : Node) → Agrees room n → Agrees room (meanwhile snapshot_stored n)
  still-Agrees n h =
      quiet.cached n
      ∙ h
      ∙ sym (
          snapshot_by_keys room (meanwhile snapshot_stored n).redis
            (meanwhile snapshot_stored n).redis n.redis n.redis (quiet.versions snapshot_stored n)
            (quiet.snapshots snapshot_stored n))

  -- After two awaits the GETs find what they found.
  twice :
      (a b : Await) (n : Node)
      → let n' = meanwhile b (meanwhile a n) in
        get_room_snapshot room n'.redis n'.redis
        ≡ get_room_snapshot room n.redis (meanwhile a n).redis
  twice a b n =
      let n' = meanwhile b (meanwhile a n) in
      snapshot_by_keys room n'.redis n'.redis n.redis (meanwhile a n).redis
        (quiet.versions b (meanwhile a n) ∙ quiet.versions a n) (quiet.snapshots b (meanwhile a n))

  loaded-Agrees :
      (stored : Option (List Shape)) (n : Node) (s : RoomSyncState)
      → get_room_snapshot room n.redis (meanwhile second_get n).redis ≡ none
      → (initialize_room_sync stored meanwhile room n).0 ≡ some s
      → Agrees room (initialize_room_sync stored meanwhile room n).1
  unfolding initialize_room_sync cache_room_sync_state
  loaded-Agrees none n s missing e = ground arith
  loaded-Agrees (some shapes) n s missing e =
      rw (initialize_room_sync, missing)
        (still-Agrees _ (get-set_self _ room _ ∙ sym (set_room_snapshot_lem room _ shapes _)))

  -- Loading a room makes the cache agree with the store, unless the database throws.
  initialize_room_sync-Agrees :
      (stored : Option (List Shape)) (n : Node) (s : RoomSyncState)
      → (initialize_room_sync stored meanwhile room n).0 ≡ some s
      → Agrees room (initialize_room_sync stored meanwhile room n).1
  unfolding initialize_room_sync cache_room_sync_state
  initialize_room_sync-Agrees stored n s e =
      let n1 = meanwhile second_get n in
      elim (Option-cases (get_room_snapshot room n.redis n1.redis)) [
        | inl missing ↦ loaded-Agrees stored n s missing e
        | inr (state, found) ↦
            let same = get_room_snapshot_room room n.redis n1.redis state found in
            rw (initialize_room_sync, found)
              (cache_room_sync_state_lem room state (meanwhile snapshot_read n1) same
                ∙ sym (twice second_get snapshot_read n ∙ found))
      ]

module _ (env : Env) (ws : ℕ) (user : String) where
  -- A snapshot whose commit loses against another one leaves the room as the store has it.
  snapshot_refused-Agrees :
      (room : ℕ) (n : Node)
      → IsQuiet room env.meanwhile
      → (snapshot_refused env ws user room n).0 ≡ true
      → Agrees room (snapshot_refused env ws user room n).1
  unfolding snapshot_refused send
  snapshot_refused-Agrees room n quiet e =
      elim (Option-cases (initialize_room_sync (env.stored room) env.meanwhile room n).0) [
        | inl missing ↦ ground arith
        | inr (s, found) ↦
            rw (snapshot_refused, found)
              (initialize_room_sync-Agrees env.meanwhile room quiet (env.stored room) n s found)
      ]

  conclude_snapshot-Agrees :
      (m : SnapshotMessage) (shapes : List Shape) (version : Option ℕ) (n : Node)
      → IsQuiet m.room_id env.meanwhile
      → ((v : ℕ)
          → version ≡ some v
          → get_room_snapshot m.room_id n.redis n.redis
            ≡ some (record { room_id = m.room_id; version = v; shapes = shapes }))
      → (conclude_snapshot env ws user m shapes version n).0 ≡ true
      → Agrees m.room_id (conclude_snapshot env ws user m shapes version n).1
  unfolding conclude_snapshot snapshot_accepted cache_room_sync_state
  conclude_snapshot-Agrees m shapes none n quiet done e =
      snapshot_refused-Agrees m.room_id n quiet e
  conclude_snapshot-Agrees m shapes (some v) n quiet done e =
      get-set_self n.room_sync_state m.room_id _ ∙ sym (done v refl)

  -- Whatever the others have done, an accepted snapshot is what the node caches.
  conclude_snapshot-cached :
      (m : SnapshotMessage) (shapes : List Shape) (v : ℕ) (version : Option ℕ) (n : Node)
      → version ≡ some v
      → JsMap.get (conclude_snapshot env ws user m shapes version n).1.room_sync_state m.room_id
        ≡ some (record { room_id = m.room_id; version = v; shapes = shapes })
  unfolding conclude_snapshot snapshot_accepted cache_room_sync_state
  conclude_snapshot-cached m shapes v version n won =
      rw (won, conclude_snapshot) (get-set_self n.room_sync_state m.room_id _)

module _ (env : Env) (ws : ℕ) (user : String) (m : SnapshotMessage) (state : RoomSyncState)
    (n : Node) where
  abbrev merge : List Shape × JsMap String CanvasCrdtMetadata
  merge = merged_snapshot env state m n

  abbrev pub commit : Option ℕ × Redis
  commit =
      commit_room_snapshot env.now env.interfere m.room_id state.version merge.0
        (commit_event env user m) n.redis

  abbrev after_commit : Node
  after_commit = record n {
    room_crdt_tombstones = JsMap.set n.room_crdt_tombstones m.room_id merge.1;
    redis = commit.1;
  }

  commit-snapshot :
      Watches env.now env.interfere m.room_id state.version merge.0 (commit_event env user m)
      → (v : ℕ) → commit.0 ≡ some v
      → get_room_snapshot m.room_id commit.1 commit.1
        ≡ some (record { room_id = m.room_id; version = v; shapes = merge.0 })
  commit-snapshot w v won =
      (subst
        (λ o.
          Outcome env.now env.interfere m.room_id state.version merge.0 (commit_event env user m)
            n.redis o commit.1)
        won
        (commit_room_snapshot-Outcome env.now env.interfere m.room_id state.version merge.0
          (commit_event env user m) n.redis w)).snapshot

  -- If WATCH reports every touched version key, then whatever the node's other sockets and the
  -- other nodes do between EXEC and its answer, a snapshot whose commit returns a version leaves in
  -- the node's cache what EXEC left of the room in the store.
  pub commit_snapshot-cached :
      (v : ℕ)
      → Watches env.now env.interfere m.room_id state.version merge.0 (commit_event env user m)
      → commit.0 ≡ some v
      → JsMap.get (commit_snapshot env ws user m state n).1.room_sync_state m.room_id
        ≡ get_room_snapshot m.room_id commit.1 commit.1
  unfolding commit_snapshot
  commit_snapshot-cached v w won =
      conclude_snapshot-cached env ws user m merge.0 v commit.0
        (env.meanwhile committed after_commit) won
      ∙ sym (commit-snapshot w v won)

  -- If WATCH reports every touched version key, and nobody else writes the room's keys in the
  -- store while the handler waits, nor the room's cached state while setRoomSnapshot runs, a
  -- snapshot that gets past the checks, committed or refused, leaves the node's cached state of
  -- the room equal to the one in the shared store, unless the handler throws.
  pub commit_snapshot-Agrees :
      Watches env.now env.interfere m.room_id state.version merge.0 (commit_event env user m)
      → IsQuiet m.room_id env.meanwhile
      → (commit_snapshot env ws user m state n).0 ≡ true
      → Agrees m.room_id (commit_snapshot env ws user m state n).1
  unfolding commit_snapshot
  commit_snapshot-Agrees w quiet e =
      let n' = env.meanwhile committed after_commit in
      conclude_snapshot-Agrees env ws user m merge.0 commit.0 n' quiet
        (λ v won.
          snapshot_by_keys m.room_id n'.redis n'.redis commit.1 commit.1
            (quiet.versions committed after_commit) (quiet.snapshots committed after_commit)
          ∙ commit-snapshot w v won)
        e
