-- ===== src/Rooms/Deciding.antt =====
-- What the checks of `decideRoomAccessRequest` of
-- apps/http-backend/src/controllers/room.controller.ts find out, and what its transaction keeps.
use canvassync.Prelude.{ℕ, String, true, Option, some, ◌≡◌, refl, find, string_key, nat_key}
use mathlib.Core.Path.{subst⁻¹}
use canvassync.Rooms.Reply.{
  done, parsed, require_user_id, Returns, Returns->>=, Returns->>, done_lem, Returns-done,
  parsed-eq,
}
use canvassync.Rooms.Database.{Database, RoomAccessRequest, request_is, is_pending}
use canvassync.Rooms.Table.{find-passes}
use canvassync.Rooms.Access.{is_owner}
use canvassync.Rooms.Requests.{Decision, decide_room_access_request, load_request, commit_decision}
use canvassync.Rooms.Invariant.{IsSound}
use canvassync.Rooms.Keys.{commit_decision-HasKeys}
use canvassync.Rooms.Grants.{commit_decision-IsGranted}
use canvassync.Rooms.Asking.{asked-update}

pub commit-IsSound :
    (now : ℕ) (db : Database) (d : Decision) (q : RoomAccessRequest)
    → IsSound db
    → find (request_is q.id) db.requests ≡ some q
    → is_pending q.status ≡ true
    → IsSound (commit_decision now db d q)
unfolding commit_decision
commit-IsSound now db d q sound found waits = record {
  keys = commit_decision-HasKeys now db d q sound.keys;
  rooms = record {
    fresh = sound.rooms.fresh;
    asked = asked-update db q.id _ (λ row. refl) sound.rooms.asked;
  };
  granted = commit_decision-IsGranted now db d q sound.keys sound.granted found waits;
}

-- What the checks before a decision have found out.
pub record IsLoaded (db : Database) (user : Option String) (decision : Option Decision)
    (loaded : Decision × RoomAccessRequest) : Type 0 where
  pub sent : decision ≡ some loaded.0
  pub named : loaded.1.id ≡ loaded.0.request_id
  pub stored : find (request_is loaded.1.id) db.requests ≡ some loaded.1
  pub waits : is_pending loaded.1.status ≡ true
  pub owner : String
  pub signed_in : require_user_id user ≡ done owner
  pub owns : is_owner db loaded.1.room_id owner ≡ true

pub load_request-IsLoaded :
    (db : Database) (user : Option String) (decision : Option Decision)
    → Returns (IsLoaded db user decision) (load_request db user decision)
unfolding load_request is_owner
load_request-IsLoaded db user decision = Returns->>= (parsed decision 400) λ d e.
    Returns->>= (require_user_id user) λ owner_id e'.
      Returns->>= (parsed (find (request_is d.request_id) db.requests) 404) λ q e''.
        let found = parsed-eq (find (request_is d.request_id) db.requests) 404 e'' in
        let same : q.id ≡ d.request_id =
          (nat_key.matches_iff q.id d.request_id).0
            (find-passes (request_is d.request_id) db.requests found) in
        Returns->> _ 403 λ owns. Returns->> (is_pending q.status) 409 λ waits.
          done_lem {a = (d, q)} record {
            sent = parsed-eq decision 400 e;
            named = same;
            stored = subst⁻¹ (λ n. find (request_is n) db.requests ≡ some q) same found;
            waits = waits;
            owner = owner_id;
            signed_in = e';
            owns = owns;
          }

pub decide-IsSound :
    (now : ℕ) (db : Database) (user : Option String) (decision : Option Decision)
    → IsSound db
    → Returns IsSound (decide_room_access_request now db user decision)
unfolding decide_room_access_request
decide-IsSound now db user decision sound = Returns->>= (load_request db user decision) λ loaded e.
    let l = Returns-done (load_request-IsLoaded db user decision) e in
    done_lem (commit-IsSound now db loaded.0 loaded.1 sound l.stored l.waits)
