-- ===== src/Rooms/Admission.antt =====
-- Which handlers of apps/http-backend/src/controllers/room.controller.ts leave a user outside a
-- room, and what a decision must be to let the user in.
use canvassync.Prelude.{
  ℕ, String, true, false, not, Option, none, some, List, ◌≡◌, refl, ap, sym, ◌∙◌, inl, inr, any,
  find, ◌==◌, string_key, nat_key, arith,
}
use canvassync.Rooms.Reply.{
  Reply, done, api_error, parsed, require_user_id, Returns, Returns-done, Returns->>=, Returns->>,
  done_lem, Reply-cases,
}
use canvassync.Rooms.Table.{any-map, any-of_delete}
use canvassync.Rooms.Database.{
  slug_of, Database, Room, RoomAccessRequest, RoomMemberRole, RoomMember, member_is, request_is,
  request_of, is_pending,
}
use canvassync.Rooms.Access.{
  RoomMemberParams, is_owner, assert_owner_room_access, update_room_member_role, remove_room_member,
}
use canvassync.Rooms.Requests.{
  DecisionAction, approve, reject, Decision, request_room_access, decide_room_access_request,
  load_request, commit_decision, answer_request, named_room, AccessReply, AccessRequestCreate,
  members_after,
}
use canvassync.Rooms.Naming.{create_room, rename_room_slug, with_slug}
use canvassync.Rooms.Invariant.{is_member, member_keeps_pair, same_pair}
use mathlib.Core.Path.{subst}
use canvassync.Rooms.Grants.{any-after, place_members}
use canvassync.Rooms.Deciding.{load_request-IsLoaded}
use canvassync.Rooms.Series.{Call, decide, after, after_with}

-- The owner of the room signs a decision that approves the user's pending request.
pub record OwnerApproval (db : Database) (call : Call) (room_id : ℕ) (user_id : String)
    : Type 0 where
  pub now : ℕ
  pub user : Option String
  pub decision : Decision
  pub asked : RoomAccessRequest
  pub decided : call ≡ decide now user (some decision)
  pub approves : decision.action ≡ approve
  pub named : asked.id ≡ decision.request_id
  pub stored : find (request_is asked.id) db.requests ≡ some asked
  pub waits : is_pending asked.status ≡ true
  pub own : request_of room_id user_id asked ≡ true
  pub owner : String
  pub signed_in : require_user_id user ≡ done owner
  pub owns : is_owner db room_id owner ≡ true

module _ (db : Database) (r : ℕ) (u : String) where
  -- Nobody is a member who was not.
  abbrev pub AdmitsNobody : Database → Type 0
  AdmitsNobody db' = is_member db' r u ≡ true → is_member db r u ≡ true

  pub create-admits :
      (user slug : Option String)
      → Returns (λ (x : Database × Room). AdmitsNobody x.0) (create_room db user slug)
  unfolding create_room
  create-admits user slug = Returns->>= (parsed slug 400) λ slug' e.
      Returns->>= (require_user_id user) λ user_id e'.
        Returns->> (not (any (slug_of user_id slug') db.rooms)) 409 λ free. done_lem (λ h. h)

  pub rename-admits :
      (user : Option String) (room_id : Option ℕ) (slug : Option String)
      → Returns AdmitsNobody (rename_room_slug db user room_id slug)
  unfolding rename_room_slug assert_owner_room_access
  rename-admits user room_id slug = Returns->>= (parsed room_id 400) λ room_id' e.
      Returns->>= (parsed slug 400) λ slug' e'. Returns->>= (require_user_id user) λ user_id e''.
        Returns->> (is_owner db room_id' user_id) 403
          λ owner. Returns->> _ 409 λ free. done_lem {a = with_slug db room_id' slug'} (λ h. h)

  answer-admits :
      (room_id : ℕ) (user_id : String) (note : Option String)
      → AdmitsNobody (answer_request db room_id user_id note).0
  unfolding answer_request
  answer-admits room_id user_id text h = ground (arith, place_members db room_id user_id text)

  pub request-admits :
      (user : Option String) (body : Option AccessRequestCreate)
      → Returns
          (λ (x : Database × AccessReply). AdmitsNobody x.0)
          (request_room_access db user body)
  unfolding request_room_access
  request-admits user body = Returns->>= (parsed body 400) λ body' e.
      Returns->>= (require_user_id user) λ requester_id e'.
        Returns->>= (parsed (find (named_room db body') db.rooms) 404) λ room e''.
          Returns->> (not (room.admin_id == requester_id)) 400
            λ stranger. done_lem (answer-admits room.id requester_id body'.note)

  pub set_role-admits :
      (user : Option String) (params : Option RoomMemberParams) (role : Option RoomMemberRole)
      → Returns AdmitsNobody (update_room_member_role db user params role)
  unfolding update_room_member_role assert_owner_room_access
  set_role-admits user params role = Returns->>= (parsed params 400) λ p e.
      Returns->>= (parsed role 400) λ role' e'. Returns->>= (require_user_id user) λ user_id e''.
        Returns->> (is_owner db p.room_id user_id) 403 λ owner.
          Returns->> (any (member_is p.room_id p.user_id) db.members) 404 λ there. done_lem (λ h.
            sym (
              any-map (member_is r u) _ db.members
                (member_keeps_pair p.room_id r p.user_id u (λ m. role')))
            ∙ h)

  pub remove-admits :
      (user : Option String) (params : Option RoomMemberParams)
      → Returns AdmitsNobody (remove_room_member db user params)
  unfolding remove_room_member assert_owner_room_access
  remove-admits user params = Returns->>= (parsed params 400) λ p e.
      Returns->>= (require_user_id user) λ user_id e''.
        Returns->> (is_owner db p.room_id user_id) 403 λ owner.
          done_lem (any-of_delete (member_is r u) (member_is p.room_id p.user_id) db.members)

  approval :
      (action : DecisionAction) (members : List RoomMember) (asked : RoomAccessRequest)
      (role : Option RoomMemberRole)
      → any (member_is r u) members ≡ false
      → any (member_is r u) (members_after action members asked.room_id asked.requester_id role)
        ≡ true
      → (action ≡ approve) × (request_of r u asked ≡ true)
  approval approve members asked role outside inside =
      (refl, ground (arith, any-after approve members asked.room_id r asked.requester_id u role))
  approval reject members asked role outside inside = cc

  decide-admits :
      (now : ℕ) (user : Option String) (d : Decision)
      → is_member db r u ≡ false
      → Returns
          (λ db'. is_member db' r u ≡ true → OwnerApproval db (decide now user (some d)) r u)
          (decide_room_access_request now db user (some d))
  unfolding decide_room_access_request commit_decision
  decide-admits now user d outside = Returns->>= (load_request db user (some d)) λ loaded e.
      done_lem λ inside.
        let l = Returns-done (load_request-IsLoaded db user (some d)) e in
        let same : d ≡ loaded.0 = cc l.sent in
        let (a, own) = approval loaded.0.action db.members loaded.1 loaded.0.role outside inside in
        record {
          now = now;
          user = user;
          decision = d;
          asked = loaded.1;
          decided = refl;
          approves = ap (λ (x : Decision). x.action) same ∙ a;
          named = l.named ∙ sym (ap (λ (x : Decision). x.request_id) same);
          stored = l.stored;
          waits = l.waits;
          own = own;
          owner = l.owner;
          signed_in = l.signed_in;
          owns =
              subst (λ n. is_owner db n l.owner ≡ true)
                ((same_pair loaded.1.room_id r loaded.1.requester_id u own).0) l.owns;
        }

  pub grows :
      (db' : Database) → is_member db r u ≡ false → is_member db' r u ≡ true → AdmitsNobody db' → ⊥
  grows db' outside inside kept = cc (kept inside)

  pub decided-admits :
      (now : ℕ) (user : Option String) (decision : Option Decision)
      → is_member db r u ≡ false
      → is_member (after db (decide_room_access_request now db user decision)) r u ≡ true
      → OwnerApproval db (decide now user decision) r u
  unfolding decide_room_access_request load_request
  decided-admits now user none outside inside = cc
  decided-admits now user (some d) outside inside =
      elim (Reply-cases (decide_room_access_request now db user (some d))) [
        | inl (db', e) ↦
            Returns-done (decide-admits now user d outside) e
              (sym (ap (λ m. is_member (after db m) r u) e) ∙ inside)
        | inr (status, e) ↦ cc (sym (ap (λ m. is_member (after db m) r u) e) ∙ inside)
      ]

  pub kept_after : (m : Reply Database) → Returns AdmitsNobody m → AdmitsNobody (after db m)
  kept_after (done db') kept = Returns-done kept refl
  kept_after (api_error status) kept = λ h. h

  pub kept_after_with {ℓ} :
      {A : Type ℓ} (m : Reply (Database × A))
      → Returns (λ (x : Database × A). AdmitsNobody x.0) m
      → AdmitsNobody (after_with db m)
  kept_after_with (done x) kept = Returns-done kept refl
  kept_after_with (api_error status) kept = λ h. h
