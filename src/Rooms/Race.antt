-- ===== src/Rooms/Race.antt =====
-- Two decisions on one request that were both checked before either was written:
-- `decideRoomAccessRequest` of apps/http-backend/src/controllers/room.controller.ts reads the
-- status outside its transaction.
use canvassync.Prelude.{
  ℕ, String, true, false, Option, some, ◌≡◌, refl, ap, ◌∙◌, matches_refl, find, string_key, nat_key,
  arith,
}
use canvassync.Rooms.Reply.{done, Returns-done}
use canvassync.Rooms.Table.{find-map, find-Once}
use canvassync.Rooms.Database.{Database, RoomAccessRequest, request_is, request_of, rejected}
use canvassync.Rooms.Requests.{
  approve, reject, Decision, load_request, commit_decision, decided_status, keep_or,
}
use canvassync.Rooms.Invariant.{is_member, is_approved, status_approved, IsSound, update_keeps_pair}
use canvassync.Rooms.Grants.{any-after, both_refl}
use canvassync.Rooms.Deciding.{load_request-IsLoaded}

-- The request of a pair after a decision on its row, whether or not it is pending still.
status-commit :
    (now : ℕ) (db : Database) (d : Decision) (q row : RoomAccessRequest) (r : ℕ) (u : String)
    → find (request_of r u) db.requests ≡ some row
    → row.id ≡ q.id
    → (row' : RoomAccessRequest) × (find (request_of r u) (commit_decision now db d q).requests
        ≡ some row')
      × (row'.id ≡ q.id)
      × (row'.status ≡ decided_status d.action)
unfolding commit_decision
status-commit now db d q row r u found same = (
  change row,
  find-map (request_of r u) _ db.requests (update_keeps_pair q.id r u change (λ x. refl))
      ∙ rw (found, same, matches_refl q.id) refl,
  same,
  refl,
)
  where
    change : RoomAccessRequest → RoomAccessRequest
    change x = record x {
      status = decided_status d.action;
      responded_at = some now;
      decision_note = keep_or x.decision_note d.note;
    }

refused : (row : RoomAccessRequest) → row.status ≡ rejected → status_approved (some row) ≡ false
refused row e = ground arith

-- From tables as requests leave them, if two decisions on one request are both checked before
-- either is written, and the approval is written before the refusal, the user ends as a member of
-- the room without an approved request.
pub decide_race :
    (now now' : ℕ) (db : Database) (user user' : Option String) (d d' : Decision)
    (q : RoomAccessRequest)
    → IsSound db
    → load_request db user (some d) ≡ done (d, q)
    → load_request db user' (some d') ≡ done (d', q)
    → d.action ≡ approve
    → d'.action ≡ reject
    → (is_member (commit_decision now' (commit_decision now db d q) d' q) q.room_id q.requester_id
        ≡ true)
      × (is_approved
            (commit_decision now' (commit_decision now db d q) d' q)
            q.room_id
            q.requester_id
          ≡ false)
unfolding commit_decision
decide_race now now' db user user' d d' q sound loaded loaded' approves rejects =
    let l = Returns-done (load_request-IsLoaded db user (some d)) loaded in
    let found =
      find-Once (request_is q.id) (request_of q.room_id q.requester_id) db.requests
        (sound.keys.requests q.room_id q.requester_id) l.stored
        (both_refl q.room_id q.requester_id) in
    let (row, found', same, status) =
      status-commit now db d q q q.room_id q.requester_id found refl in
    let (row', found'', same', status') =
      status-commit now' (commit_decision now db d q) d' q row q.room_id q.requester_id found'
        same in
    (
      rw (rejects, approves)
          (any-after approve db.members q.room_id q.room_id q.requester_id q.requester_id d.role
            ∙ rw (both_refl q.room_id q.requester_id) refl),
      ap status_approved found'' ∙ refused row' (status' ∙ ap decided_status rejects),
    )
