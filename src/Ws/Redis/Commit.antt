-- ===== src/Ws/Redis/Commit.antt =====
-- redis-sync, commitRoomSnapshot: what a commit may come to, for any moves of the other nodes.
use mathlib.Core.Path.{subst⁻¹}
use canvassync.Prelude.{
  ◌∙◌, ℕ, zero, suc, ◌+◌, ◌≡◌, refl, Bool, false, none, some, List, [], ◌∷◌, ◌++◌, arith, nat_beq,
  nat_beq_iff, Bool-cases, inl, inr, nat_key, Option,
}
use canvassync.JsMap.Laws.{get-set_self}
use canvassync.Crdt.{Shape}
use canvassync.Ws.Redis.{
  Redis, CommitEvent, get_room_version, get_room_snapshot, payload, transaction, commit_attempts,
  commit_room_snapshot,
}

-- Everything that a call may return, for the store that the last EXEC finds.
module _ (now : ℕ) (interfere : ℕ → Redis → Redis × Bool) (room expected : ℕ) (shapes : List Shape)
    (event : CommitEvent) where
  -- Stores that the other nodes alone make of one.
  pub data Interfered (r : Redis) : Redis → Type 0 where
    untouched : Interfered r r
    later : {s : Redis} (attempt : ℕ) → Interfered r s → Interfered r (interfere attempt s).0

  -- WATCH: where the key was not touched, the version is still what it was.
  abbrev pub Watches : Type 0
  Watches =
      (attempt : ℕ) (r : Redis)
      → (interfere attempt r).1 ≡ false
      → get_room_version room (interfere attempt r).0 ≡ get_room_version room r

  -- A commit that returns a version found the expected one, and leaves the next version, the
  -- snapshot and the event.
  pub record IsCommitted (r : Redis) (v : ℕ) (s : Redis) : Type 0 where
    pub before : Redis
    pub reached : Interfered r before
    pub found : get_room_version room before ≡ expected
    pub next : v ≡ expected + 1
    pub version : get_room_version room s ≡ v
    pub snapshot :
        get_room_snapshot room s s ≡ some (record { room_id = room; version = v; shapes = shapes })
    pub published :
        s.published ≡ before.published ++ payload now interfere room expected shapes event v ∷ []

  -- What a commit comes to: done, or nothing of its own.
  abbrev pub Outcome : Redis → Option ℕ → Redis → Type 0
  Outcome r (some v) s = IsCommitted r v s
  Outcome r none s = Interfered r s

  transaction_lem :
      (r b : Redis)
      → Interfered r b
      → get_room_version room b ≡ expected
      → IsCommitted r
          (expected + 1)
          (transaction now interfere room expected shapes event (expected + 1) b)
  unfolding transaction get_room_snapshot get_room_version
  transaction_lem r b reached e = record {
    before = b;
    reached = reached;
    found = e;
    next = refl;
    version = ground (arith, get-set_self b.versions room (get_room_version room b + 1));
    snapshot = ground (
      arith,
      get-set_self b.versions room (get_room_version room b + 1),
      get-set_self b.snapshots room
          (record { room_id = room; version = expected + 1; shapes = shapes }),
    );
    published = refl;
  }

  commit_attempts-Outcome :
      (left attempt : ℕ) (r b : Redis)
      → Watches
      → Interfered r b
      → Outcome r
          (commit_attempts now interfere room expected shapes event left attempt b).0
          (commit_attempts now interfere room expected shapes event left attempt b).1
  unfolding commit_attempts
  commit_attempts-Outcome zero attempt r b w reached = reached
  commit_attempts-Outcome (suc left) attempt r b w reached =
      elim (Bool-cases (nat_beq (get_room_version room b) expected)) [
        | inr stale ↦ rw stale reached
        | inl fresh ↦ rw fresh (elim (Bool-cases (interfere attempt b).1) [
          | inl touched ↦ rw touched (
              commit_attempts-Outcome left (attempt + 1) r (interfere attempt b).0 w
                (later attempt reached))
          | inr kept ↦
              let same : get_room_version room b ≡ expected = (nat_beq_iff _ expected).0 fresh in
              rw kept (
                subst⁻¹
                  (λ n. Outcome r (some (n + 1)) (
                    transaction now interfere room expected shapes event (n + 1)
                      (interfere attempt b).0))
                  same
                  (transaction_lem r (interfere attempt b).0 (later attempt reached)
                    (w attempt b kept ∙ same)))
        ])
      ]

  -- If WATCH reports every touched version key, commitRoomSnapshot is a compare-and-set: a
  -- returned version means that a store the other nodes left had the expected version and became
  -- the next version with the snapshot and one event; null leaves what the other nodes left.
  pub commit_room_snapshot-Outcome :
      (r : Redis)
      → Watches
      → Outcome r
          (commit_room_snapshot now interfere room expected shapes event r).0
          (commit_room_snapshot now interfere room expected shapes event r).1
  unfolding commit_room_snapshot
  commit_room_snapshot-Outcome r w = commit_attempts-Outcome 3 0 r r w untouched

  -- A commit on a store with the expected version, whose first transaction nobody disturbs,
  -- returns the next version.
  pub commit_room_snapshot_quiet :
      (r : Redis)
      → get_room_version room r ≡ expected
      → (interfere 0 r).1 ≡ false
      → (commit_room_snapshot now interfere room expected shapes event r).0 ≡ some (expected + 1)
  unfolding commit_room_snapshot
  commit_room_snapshot_quiet r e quiet =
      ground (arith, nat_beq_iff (get_room_version room r) expected)
