-- ===== src/Ws/Roles.antt =====
-- messageHandler.ts, canEditRoom: the role that a decision rests on.
use canvassync.Prelude.{
  ℕ, ◌+◌, ◌≤◌, String, true, false, Option, some, ◌≡◌, arith, nat_beq_iff, List, [], ◌∷◌, ap, inl,
  inr, Bool-cases, refl, sym, ◌∙◌,
}
use canvassync.Ws.Connections.{Socket, Hub}
use canvassync.Ws.Node.{RoomRow, get_room_role, can_edit, is_stale, can_edit_room}

-- The socket's role is what the database said of the user in the room at a time, not after `now`.
pub record IsRead (db : ℕ → ℕ → Option RoomRow) (room : ℕ) (user : String) (now : ℕ) (s : Socket)
    : Type 0 where
  pub read_at : ℕ
  pub checked : s.role_checked_at_ms ≡ some read_at
  pub role_then : s.role ≡ get_room_role (db read_at) room user
  pub past : read_at ≤ now

fresh_lem :
    (now read_at : ℕ) (s : Socket)
    → s.role_checked_at_ms ≡ some read_at
    → is_stale now s ≡ false
    → now ≤ read_at + 10000
unfolding is_stale
fresh_lem now read_at s checked e = ground (arith, checked)

-- `db` is what the database says at each time.
module _ (db : ℕ → ℕ → Option RoomRow) (ws room : ℕ) (user : String) where
  -- The calls of canEditRoom at these times.
  unfoldable pub checks : List ℕ → Hub → Hub
  unfolding can_edit_room
  checks [] h = h
  checks (now ∷ times) h = checks times (can_edit_room now (db now) ws room user h).1

  -- The times go on from one to another.
  abbrev pub Forward : ℕ → List ℕ → ℕ → Type 0
  Forward from [] last = from ≤ last
  Forward from (now ∷ times) last = (from ≤ now) × Forward now times last

  checked-IsRead :
      (before now : ℕ) (h : Hub)
      → before ≤ now
      → IsRead db room user before (h.sockets ws)
      → IsRead db room user now ((can_edit_room now (db now) ws room user h).1.sockets ws)
  unfolding can_edit_room
  checked-IsRead before now h later r = elim (Bool-cases (is_stale now (h.sockets ws))) [
    | inl stale ↦
        rw (can_edit_room, stale)
          record {
            read_at = now;
            checked = ground (arith, (nat_beq_iff ws ws).1 refl);
            role_then = ground (arith, (nat_beq_iff ws ws).1 refl);
            past = omega arith;
          }
    | inr recent ↦
        rw (can_edit_room, recent)
          record {
            read_at = r.read_at;
            checked = r.checked;
            role_then = r.role_then;
            past = omega (arith, r.past);
          }
  ]

  checks-IsRead :
      (times : List ℕ) (from last : ℕ) (h : Hub)
      → Forward from times last
      → IsRead db room user from (h.sockets ws)
      → IsRead db room user last ((checks times h).sockets ws)
  unfolding checks
  checks-IsRead [] from last h later r = record {
    read_at = r.read_at;
    checked = r.checked;
    role_then = r.role_then;
    past = omega (arith, r.past);
  }
  checks-IsRead (now ∷ times) from last h (later, rest) r =
      checks-IsRead times now last (can_edit_room now (db now) ws room user h).1 rest
        (checked-IsRead from now h later r)

  answered_by :
      (now : ℕ) (h : Hub)
      → IsRead db room user now (h.sockets ws)
      → (can_edit_room now (db now) ws room user h).0 ≡ true
      → (at : ℕ) × (at ≤ now)
        × (now ≤ at + 10000)
        × (can_edit (get_room_role (db at) room user) ≡ true)
  unfolding can_edit_room
  answered_by now h r e = elim (Bool-cases (is_stale now (h.sockets ws))) [
    | inl stale ↦ (now, omega arith, omega arith, ground (arith, e, stale))
    | inr recent ↦ (
      r.read_at,
      r.past,
      fresh_lem now r.read_at (h.sockets ws) r.checked recent,
      ap can_edit (sym r.role_then) ∙ ground (arith, e, recent),
    )
  ]

  -- A socket has a role that was read from the database for the user and the room. After any
  -- series of calls of canEditRoom for that user and room, while the database changes, if one more
  -- call answers yes, the database gave the user the right to edit at some time at most ten
  -- seconds ago.
  pub can_edit_room_sound :
      (times : List ℕ) (from now : ℕ) (h : Hub)
      → Forward from times now
      → IsRead db room user from (h.sockets ws)
      → (can_edit_room now (db now) ws room user (checks times h)).0 ≡ true
      → (at : ℕ) × (at ≤ now)
        × (now ≤ at + 10000)
        × (can_edit (get_room_role (db at) room user) ≡ true)
  can_edit_room_sound times from now h later r e =
      answered_by now (checks times h) (checks-IsRead times from now h later r) e
