-- ===== src/Rooms/Safety.antt =====
-- Who becomes a member, and what a decision, a removal and a role do to a user's rights, in
-- apps/http-backend/src/controllers/room.controller.ts.
use canvassync.Prelude.{
  ℕ, String, true, false, Option, some, ◌≡◌, refl, ap, sym, ◌∙◌, matches_refl, inl, inr, find,
  Bool-cases, string_key, nat_key,
}
use canvassync.Rooms.Reply.{
  done, api_error, require_user_id, Returns-done, Reply-cases, ◌>>=◌, done_injective,
}
use canvassync.Rooms.Table.{find-map}
use canvassync.Rooms.Database.{Database, RoomAccessRequest, request_is, is_pending}
use canvassync.Rooms.Access.{is_owner}
use canvassync.Rooms.Requests.{
  DecisionAction, approve, reject, Decision, decide_room_access_request, load_request,
  commit_decision, decided_status, keep_or,
}
use canvassync.Rooms.Invariant.{is_member}
use mathlib.Core.Path.{subst}
use canvassync.Rooms.Deciding.{load_request-IsLoaded}
use canvassync.Rooms.Series.{Call, create, rename, request, decide, set_role, remove, step}
use canvassync.Rooms.Admission.{
  OwnerApproval, create-admits, rename-admits, request-admits, set_role-admits, remove-admits,
  grows, decided-admits, kept_after, kept_after_with,
}

-- Whatever request is made, if a user who is not a member of a room is one afterwards, the request
-- was the signed-in owner's decision to approve that user's pending request for that room.
pub step_admits :
    (db : Database) (call : Call) (room_id : ℕ) (user_id : String)
    → is_member db room_id user_id ≡ false
    → is_member (step db call) room_id user_id ≡ true
    → OwnerApproval db call room_id user_id
unfolding step
step_admits db (create user slug) r u outside inside = absurd (
    grows db r u (step db (create user slug)) outside inside
      (kept_after_with db r u _ (create-admits db r u user slug)))
step_admits db (rename user room_id slug) r u outside inside = absurd (
    grows db r u (step db (rename user room_id slug)) outside inside
      (kept_after db r u _ (rename-admits db r u user room_id slug)))
step_admits db (request user body) r u outside inside = absurd (
    grows db r u (step db (request user body)) outside inside
      (kept_after_with db r u _ (request-admits db r u user body)))
step_admits db (decide now user decision) r u outside inside =
    decided-admits db r u now user decision outside inside
step_admits db (set_role user params role) r u outside inside = absurd (
    grows db r u (step db (set_role user params role)) outside inside
      (kept_after db r u _ (set_role-admits db r u user params role)))
step_admits db (remove user params) r u outside inside = absurd (
    grows db r u (step db (remove user params)) outside inside
      (kept_after db r u _ (remove-admits db r u user params)))

-- A decision that is loaded can be made only while the request is pending.
commit-status :
    (now : ℕ) (db : Database) (d : Decision) (q : RoomAccessRequest)
    → find (request_is q.id) db.requests ≡ some q
    → (row : RoomAccessRequest) × (find (request_is q.id) (commit_decision now db d q).requests
        ≡ some row)
      × (row.status ≡ decided_status d.action)
      × (row.room_id ≡ q.room_id)
unfolding commit_decision
commit-status now db d q found = (
  record q {
    status = decided_status d.action;
    responded_at = some now;
    decision_note = keep_or q.decision_note d.note;
  },
  find-map (request_is q.id) _ db.requests
        (λ row. elim (Bool-cases (request_is q.id row)) [ inl e ↦ rw e e | inr e ↦ rw e e ])
      ∙ rw found (rw (matches_refl q.id) refl),
  refl,
  refl,
)

settled : (action : DecisionAction) → is_pending (decided_status action) ≡ false
settled approve = refl
settled reject = refl

committed :
    (now : ℕ) (db db' : Database) (user : Option String) (d d₀ : Decision) (q : RoomAccessRequest)
    → load_request db user (some d) ≡ done (d₀, q)
    → decide_room_access_request now db user (some d) ≡ done db'
    → commit_decision now db d₀ q ≡ db'
unfolding decide_room_access_request
committed now db db' user d d₀ q loaded e =
    done_injective (sym (ap (λ m. m >>= λ x. done (commit_decision now db x.0 x.1)) loaded) ∙ e)

failed_decision :
    (now : ℕ) (db : Database) (user : Option String) (d : Decision) {status : ℕ}
    → load_request db user (some d) ≡ api_error status
    → decide_room_access_request now db user (some d) ≡ api_error status
unfolding decide_room_access_request
failed_decision now db user d failed =
    ap (λ m. m >>= λ x. done (commit_decision now db x.0 x.1)) failed

commit_owner :
    (now : ℕ) (db : Database) (d : Decision) (q : RoomAccessRequest) (r : ℕ) (u : String)
    → is_owner (commit_decision now db d q) r u ≡ is_owner db r u
unfolding commit_decision is_owner
commit_owner now db d q r u = refl

resolved :
    (now : ℕ) (db : Database) (user : Option String) (d : Decision) (row : RoomAccessRequest)
    (owner : String)
    → require_user_id user ≡ done owner
    → find (request_is d.request_id) db.requests ≡ some row
    → is_owner db row.room_id owner ≡ true
    → is_pending row.status ≡ false
    → decide_room_access_request now db user (some d) ≡ api_error 409
unfolding decide_room_access_request load_request is_owner
resolved now db user d row owner signed_in found owns closed =
    rw (signed_in, found, owns, closed) refl

-- After a decision that was made, another decision on the same request by the same user, with
-- whatever action, is refused with 409.
pub decide_twice :
    (now now' : ℕ) (db db' : Database) (user : Option String) (d d' : Decision)
    → decide_room_access_request now db user (some d) ≡ done db'
    → d'.request_id ≡ d.request_id
    → decide_room_access_request now' db' user (some d') ≡ api_error 409
unfolding decide_room_access_request load_request
decide_twice now now' db db' user d d' e same = elim (Reply-cases (load_request db user (some d))) [
  | inl ((d₀, q), loaded) ↦
      let l = Returns-done (load_request-IsLoaded db user (some d)) loaded in
      let (row, found, status, room) = commit-status now db d₀ q l.stored in
      let here : commit_decision now db d₀ q ≡ db' = committed now db db' user d d₀ q loaded e in
      let sent : d ≡ d₀ = cc l.sent in
      let name : q.id ≡ d'.request_id =
        l.named ∙ sym (ap (λ (x : Decision). x.request_id) sent) ∙ sym same in
      resolved now' db' user d' row l.owner l.signed_in
        (subst (λ n. find (request_is n) db'.requests ≡ some row) name
          (subst (λ x. find (request_is q.id) x.requests ≡ some row) here found))
        (subst (λ x. is_owner x row.room_id l.owner ≡ true) here
          (rw room (commit_owner now db d₀ q q.room_id l.owner ∙ l.owns)))
        (rw status (settled d₀.action))
  | inr (status, failed) ↦ cc (failed_decision now db user d failed, e)
]
