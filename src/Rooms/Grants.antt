-- ===== src/Rooms/Grants.antt =====
-- Who is a member, and whose request is approved, under the writes of the handlers of
-- apps/http-backend/src/controllers/room.controller.ts.
use canvassync.Prelude.{
  ℕ, String, Bool, true, false, ◌&&◌, Option, none, some, List, ◌≡◌, refl, ap, sym, ◌∙◌, inl, inr,
  any, find, Bool-cases, Option-cases, ◌==◌, string_key, nat_key, if◌then◌else◌, arith,
  matches_refl,
}
use mathlib.Core.Path.{subst⁻¹}
use canvassync.Rooms.Table.{
  update_many, delete_many, find-Once, find-passes, any-of_find, find-append_one, find-delete,
  find-deleted, any-deleted, any-kept, find-of_any, any-delete, any-map,
}
use canvassync.Rooms.Database.{
  Database, RoomMember, RoomMemberRole, RoomAccessRequest, pending, member_is, request_is,
  request_of, is_pending,
}
use canvassync.Rooms.Access.{is_owner}
use canvassync.Rooms.Requests.{
  DecisionAction, approve, reject, Decision, members_after, commit_decision, place_request, keep_or,
  decided_status,
}
use canvassync.Rooms.Invariant.{
  HasKeys, IsGranted, is_member, is_approved, status_approved, member_keeps_pair, same_pair,
  find-update, any-upsert,
}

abbrev pub admits : DecisionAction → Bool
admits approve = true
admits reject = false

-- Who is a member after a decision.
pub any-after :
    (action : DecisionAction) (members : List RoomMember) (r' r : ℕ) (u' u : String)
    (role : Option RoomMemberRole)
    → any (member_is r u) (members_after action members r' u' role)
      ≡ (if admits action && (r' == r && u' == u) then true else any (member_is r u) members)
any-after approve members r' r u' u role = any-upsert members r' r u' u role
any-after reject members r' r u' u role = refl

status-decided :
    (action : DecisionAction) (request : RoomAccessRequest) (at : Option ℕ) (text : Option String)
    → (if admits action && true then true else false)
      ≡ status_approved (
          some (record request {
            status = decided_status action;
            responded_at = at;
            decision_note = text;
          }))
status-decided approve request at text = refl
status-decided reject request at text = refl

module _ (now : ℕ) (db : Database) (decision : Decision) (request : RoomAccessRequest)
    (keys : HasKeys db) (granted : IsGranted db)
    (found : find (request_is request.id) db.requests ≡ some request)
    (open_still : is_pending request.status ≡ true) where
  -- The pair of the decided request is the only one whose request changes.
  lookup-commit :
      (r : ℕ) (u : String)
      → find (request_of r u) (commit_decision now db decision request).requests ≡ (
          if request_of r u request
          then some (record request {
            status = decided_status decision.action;
            responded_at = some now;
            decision_note = keep_or request.decision_note decision.note;
          })
          else find (request_of r u) db.requests)
  unfolding commit_decision
  lookup-commit r u =
      find-update request.id r u _ db.requests request (λ row. refl) (keys.ids request.id)
        (keys.requests r u) found

  own_request :
      (r : ℕ) (u : String)
      → request_of r u request ≡ true
      → find (request_of r u) db.requests ≡ some request
  own_request r u own =
      find-Once (request_is request.id) (request_of r u) db.requests (keys.requests r u) found own

  was_outside : (r : ℕ) (u : String) → request_of r u request ≡ true → is_member db r u ≡ false
  was_outside r u own = granted.matched r u ∙ rw (own_request r u own) (ground arith)

  matched-commit :
      (r : ℕ) (u : String)
      → is_member (commit_decision now db decision request) r u
        ≡ is_approved (commit_decision now db decision request) r u
  unfolding commit_decision
  matched-commit r u = elim (Bool-cases (request_of r u request)) [
    | inl own ↦
        rw (lookup-commit r u, own)
          (any-after decision.action db.members request.room_id r request.requester_id u
              decision.role
            ∙ rw (own, was_outside r u own)
                (status-decided decision.action request (some now)
                  (keep_or request.decision_note decision.note)))
    | inr other ↦
        rw (lookup-commit r u, other)
          (any-after decision.action db.members request.room_id r request.requester_id u
              decision.role
            ∙ rw other (ground (arith, granted.matched r u)))
  ]

  pub commit_decision-IsGranted : IsGranted (commit_decision now db decision request)
  unfolding is_owner commit_decision
  commit_decision-IsGranted = record {
    matched = matched-commit;
    apart = λ r u owner. elim (Bool-cases (request_of r u request)) [
      | inl own ↦ cc (own_request r u own, granted.apart r u owner)
      | inr other ↦ lookup-commit r u ∙ rw other (granted.apart r u owner)
    ];
  }

keep_found :
    (found : Option RoomAccessRequest) (own : Bool) (row : RoomAccessRequest)
    → own ≡ false
    → (elim found as (λ _. Option RoomAccessRequest) [
      | none ↦ if own then some row else none
      | some y ↦ some y
    ])
      ≡ found
keep_found none own row e = rw e refl
keep_found (some y) own row e = refl

waiting : (row : RoomAccessRequest) → row.status ≡ pending → status_approved (some row) ≡ false
waiting row e = ground arith

module _ (db : Database) (r' : ℕ) (u' : String) (note : Option String) (keys : HasKeys db) where
  own_row :
      (existing : RoomAccessRequest)
      → find (request_of r' u') db.requests ≡ some existing
      → find (request_is existing.id) db.requests ≡ some existing
  own_row existing there =
      find-Once (request_of r' u') (request_is existing.id) db.requests (keys.ids existing.id) there
        (matches_refl existing.id)

  pub place_own :
      (row : RoomAccessRequest) × (find (request_of r' u') (place_request db r' u' note).requests
        ≡ some row)
      × (row.status ≡ pending)
  unfolding place_request
  place_own = elim (Option-cases (find (request_of r' u') db.requests)) [
    | inl absent ↦ (
      record {
        id = db.next_request_id;
        room_id = r';
        requester_id = u';
        status = pending;
        responded_at = none;
        decision_note = note;
      },
      rw (absent, place_request)
          (find-append_one (request_of r' u') db.requests _
            ∙ rw absent (ground (arith, matches_refl r', matches_refl u'))),
      refl,
    )
    | inr (existing, there) ↦ (
      record existing {
        status = pending;
        responded_at = none;
        decision_note = keep_or existing.decision_note note;
      },
      rw (there, place_request)
          (find-update existing.id r' u' _ db.requests existing (λ row. refl) (keys.ids existing.id)
              (keys.requests r' u') (own_row existing there)
            ∙ rw (find-passes (request_of r' u') db.requests there) refl),
      refl,
    )
  ]

  pub place_other :
      (r : ℕ) (u : String)
      → (r' == r && u' == u) ≡ false
      → find (request_of r u) (place_request db r' u' note).requests
        ≡ find (request_of r u) db.requests
  unfolding place_request
  place_other r u other = elim (Option-cases (find (request_of r' u') db.requests)) [
    | inl absent ↦
        rw (absent, place_request)
          (find-append_one (request_of r u) db.requests _
            ∙ keep_found (find (request_of r u) db.requests) _ _ other)
    | inr (existing, there) ↦
        let (er, eu) =
          same_pair existing.room_id r' existing.requester_id u'
            (find-passes (request_of r' u') db.requests there) in
        rw (there, place_request)
          (find-update existing.id r u _ db.requests existing (λ row. refl) (keys.ids existing.id)
              (keys.requests r u) (own_row existing there)
            ∙ rw (er, eu, other) refl)
  ]

  place_owner : (r : ℕ) (u : String) → is_owner (place_request db r' u' note) r u ≡ is_owner db r u
  unfolding place_request is_owner
  place_owner r u = elim (Option-cases (find (request_of r' u') db.requests)) [
    | inl e ↦ rw (e, place_request) refl
    | inr (existing, e) ↦ rw (e, place_request) refl
  ]

  pub place_members : (place_request db r' u' note).members ≡ db.members
  unfolding place_request
  place_members = elim (Option-cases (find (request_of r' u') db.requests)) [
    | inl e ↦ rw (e, place_request) refl
    | inr (existing, e) ↦ rw (e, place_request) refl
  ]

  place_matched :
      is_member db r' u' ≡ false
      → is_member (place_request db r' u' note) r' u'
        ≡ is_approved (place_request db r' u' note) r' u'
  place_matched outside =
      let (row, found, waits) = place_own in
      ap (any (member_is r' u')) place_members
      ∙ outside
      ∙ sym (ap status_approved found ∙ waiting row waits)

  pub place_request-IsGranted :
      IsGranted db
      → is_owner db r' u' ≡ false
      → is_member db r' u' ≡ false
      → IsGranted (place_request db r' u' note)
  place_request-IsGranted granted stranger outside = record {
    matched = λ r u. elim (Bool-cases (r' == r && u' == u)) [
      | inl same ↦
          let (er, eu) = same_pair r' r u' u same in rw (← er, ← eu) (place_matched outside)
      | inr other ↦
          ap (any (member_is r u)) place_members
          ∙ granted.matched r u
          ∙ sym (ap status_approved (place_other r u other))
    ];
    apart = λ r u owner. elim (Bool-cases (r' == r && u' == u)) [
      | inl same ↦
          let (er, eu) = same_pair r' r u' u same in
          cc (stranger, sym (place_owner r u) ∙ owner, er, eu)
      | inr other ↦ place_other r u other ∙ granted.apart r u (sym (place_owner r u) ∙ owner)
    ];
  }

pub both_refl : (a : ℕ) (b : String) → (a == a && b == b) ≡ true
both_refl a b = rw (matches_refl a, matches_refl b) refl

pub pairs_apart :
    (a r r' : ℕ) (b u u' : String)
    → (r' == r && u' == u) ≡ false
    → (a == r && b == u) ≡ true
    → (a == r' && b == u') ≡ false
pairs_apart a r r' b u u' other here = elim (Bool-cases (a == r' && b == u')) [
  | inl same ↦
      let (ar, bu) = same_pair a r b u here in
      let (ar', bu') = same_pair a r' b u' same in
      let refuted : (a == a && b == b) ≡ false =
        subst⁻¹ (λ n. (n == a && b == b) ≡ false) ar'
          (subst⁻¹ (λ n. (r' == n && b == b) ≡ false) ar
            (subst⁻¹ (λ t. (r' == r && t == b) ≡ false) bu'
              (subst⁻¹ (λ t. (r' == r && u' == t) ≡ false) bu other))) in
      cc (both_refl a b, refuted)
  | inr e ↦ e
]

pub remove-IsGranted :
    (db : Database) (r' : ℕ) (u' : String)
    → IsGranted db
    → IsGranted (record db {
      members = delete_many (member_is r' u') db.members;
      requests = delete_many (request_of r' u') db.requests;
    })
unfolding is_owner
remove-IsGranted db r' u' granted = record {
  matched = λ r u. elim (Bool-cases (r' == r && u' == u)) [
    | inl same ↦
        let (er, eu) = same_pair r' r u' u same in
        rw (← er, ← eu)
          (any-deleted (member_is r' u') (member_is r' u') db.members (λ x h. h)
            ∙ sym (
                ap status_approved
                  (find-deleted (request_of r' u') (request_of r' u') db.requests (λ x h. h))))
    | inr other ↦
        any-kept (member_is r u) (member_is r' u') db.members
          (λ x. pairs_apart x.room_id r r' x.user_id u u' other)
        ∙ granted.matched r u
        ∙ sym (
            ap status_approved (
              find-delete (request_of r u) (request_of r' u') db.requests
                (λ x. pairs_apart x.room_id r r' x.requester_id u u' other)))
  ];
  apart = λ r u owner. find-of_any (request_of r u) _ (
      any-delete (request_of r u) (request_of r' u') db.requests
        (any-of_find (request_of r u) db.requests (granted.apart r u owner)));
}

pub set_role-IsGranted :
    (db : Database) (r' : ℕ) (u' : String) (role : RoomMemberRole)
    → IsGranted db
    → IsGranted (record db {
      members = update_many (member_is r' u') (λ member. record member { role = role }) db.members;
    })
unfolding is_owner
set_role-IsGranted db r' u' role granted = record {
  matched = λ r u.
      any-map (member_is r u) _ db.members (member_keeps_pair r' r u' u (λ m. role))
      ∙ granted.matched r u;
  apart = granted.apart;
}
