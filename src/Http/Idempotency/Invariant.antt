-- ===== src/Http/Idempotency/Invariant.antt =====
-- idempotency.middleware.ts: what holds of the store, the exchanges and the waiting requests
-- between two events.
use canvassync.Prelude.{
  ℕ, ◌≤◌, ◌<◌, String, true, false, none, some, All-impl, ◌==◌, nat_key, string_key, ◌≡◌, refl,
  arith, All, Bool-cases, inl, inr,
}
use canvassync.JsMap
use canvassync.JsMap.{JsMap, IsMap}
use canvassync.JsMap.Laws.{get-set, set-IsMap, All-set}
use canvassync.Http.Idempotency.Store.{PendingEntry, IdempotencyState}
use canvassync.Http.Idempotency.Middleware.{
  Exchange, Reply, replayed, refused, Server, Found, cached_found, pending_found, nothing_found,
  reply, pending_state, new_exchange, start_exchange, answer_found,
}

module _ {B : Type 0} where
  -- The request's exchange is open, and its promise is not settled.
  abbrev pub Live : JsMap ℕ (Exchange B) → ℕ → Type 0
  Live exchanges p = (x : Exchange B) × (JsMap.get exchanges p ≡ some x) × (x.captured ≡ false)

  abbrev pub LiveAt : JsMap ℕ (Exchange B) → String → ℕ → Type 0
  LiveAt exchanges k p =
      (x : Exchange B) × (JsMap.get exchanges p ≡ some x) × (x.captured ≡ false) × (x.store_key ≡ k)

  pub record IsServer (s : Server B) : Type 0 where
    pub store_map : IsMap s.store
    pub pending_live :
        (k : String) (st : IdempotencyState B) (p : PendingEntry)
        → JsMap.get s.store k ≡ some st
        → st.pending ≡ some p
        → LiveAt s.exchanges k p.promise
    pub waiting_live : All (λ w. Live s.exchanges w.1) s.waiting
    pub fresh : (id : ℕ) → s.arrivals ≤ id → JsMap.get s.exchanges id ≡ none

  -- An exchange is written that was not there, or that stays as live as it was.
  pub LiveAt-set :
      (m : JsMap ℕ (Exchange B)) (id p : ℕ) (k : String) (y : Exchange B)
      → ((x : Exchange B)
          → JsMap.get m id ≡ some x
          → (y.captured ≡ x.captured) × (y.store_key ≡ x.store_key))
      → LiveAt m k p
      → LiveAt (JsMap.set m id y) k p
  LiveAt-set m id p k y same (x, g, live, at_k) = elim (Bool-cases (id == p)) [
    | inl own ↦
        (y, ground (arith, get-set m id p y), ground (arith, same x), ground (arith, same x))
    | inr other ↦ (x, ground (arith, get-set m id p y), live, at_k)
  ]

  pub LiveAt-set_other :
      (m : JsMap ℕ (Exchange B)) (id p : ℕ) (k : String) (y : Exchange B)
      → (id == p) ≡ false
      → LiveAt m k p
      → LiveAt (JsMap.set m id y) k p
  LiveAt-set_other m id p k y other (x, g, live, at_k) =
      (x, ground (arith, get-set m id p y), live, at_k)

  pub Live-set_other :
      (m : JsMap ℕ (Exchange B)) (id p : ℕ) (y : Exchange B)
      → (id == p) ≡ false
      → Live m p
      → Live (JsMap.set m id y) p
  Live-set_other m id p y other (x, g, live) = (x, ground (arith, get-set m id p y), live)

  fresh_other :
      (m : JsMap ℕ (Exchange B)) (id p : ℕ) → JsMap.get m id ≡ none → Live m p → (id == p) ≡ false
  fresh_other m id p gone (x, g, live) = ground (arith, nat_key.matches_iff id p)

  started_live :
      (m : JsMap ℕ (Exchange B)) (id : ℕ) (k fp k' : String) (st : IdempotencyState B)
      (p : PendingEntry)
      → (k == k') ≡ true
      → pending_state id fp ≡ st
      → st.pending ≡ some p
      → LiveAt (JsMap.set m id (new_exchange k fp)) k' p.promise
  started_live m id k fp k' st p own new q =
      let same : p.promise ≡ id = ground arith in
      (
        new_exchange k fp,
        ground
            (arith, get-set m id p.promise (new_exchange k fp), nat_key.matches_iff id p.promise),
        refl,
        (string_key.matches_iff k k').0 own,
      )

  pub reply-IsServer : (id : ℕ) (r : Reply B) (s : Server B) → IsServer s → IsServer (reply id r s)
  reply-IsServer id r s v = record {
    store_map = v.store_map;
    pending_live = v.pending_live;
    waiting_live = v.waiting_live;
    fresh = v.fresh;
  }

  wait-IsServer :
      (s : Server B) (id p : ℕ)
      → IsServer s
      → Live s.exchanges p
      → IsServer (record s { waiting = JsMap.set s.waiting id p })
  wait-IsServer s id p v live = record {
    store_map = v.store_map;
    pending_live = v.pending_live;
    waiting_live = All-set (λ w. Live s.exchanges w.1) s.waiting id p v.waiting_live live;
    fresh = v.fresh;
  }

  start-IsServer :
      (s : Server B) (id : ℕ) (k fp : String)
      → IsServer s
      → JsMap.get s.exchanges id ≡ none
      → id < s.arrivals
      → IsServer (start_exchange id k fp s)
  unfolding start_exchange
  start-IsServer s id k fp v gone counted = record {
    store_map = set-IsMap s.store k _ v.store_map;
    pending_live = λ k' st p g q. elim (Bool-cases (k == k')) [
      | inl own ↦
          started_live s.exchanges id k fp k' st p own
            (ground (arith, get-set s.store k k' (pending_state id fp))) q
      | inr other ↦
          let (x, at, live, here) =
            v.pending_live k' st p (ground (arith, get-set s.store k k' (pending_state id fp))) q in
          LiveAt-set_other s.exchanges id p.promise k' _
            (fresh_other s.exchanges id p.promise gone (x, at, live)) (x, at, live, here)
    ];
    waiting_live =
        All-impl (λ w. Live s.exchanges w.1) _ s.waiting
          (λ w l. Live-set_other s.exchanges id w.1 _ (fresh_other s.exchanges id w.1 gone l) l)
          v.waiting_live;
    fresh = λ j h.
        ground (
          arith,
          get-set s.exchanges id j (new_exchange k fp),
          v.fresh j,
          nat_key.matches_iff id j,
        );
  }

  pub answer-IsServer :
      (f : Found B) (s : Server B) (id : ℕ) (k fp : String)
      → IsServer s
      → JsMap.get s.exchanges id ≡ none
      → id < s.arrivals
      → ((p : PendingEntry) → f ≡ pending_found p → Live s.exchanges p.promise)
      → IsServer (answer_found f id k fp s)
  unfolding answer_found
  answer-IsServer (cached_found c) s id k fp v gone counted live =
      elim (Bool-cases (c.fingerprint == fp)) [
        | inl same ↦ rw same (reply-IsServer id (replayed c) s v)
        | inr different ↦ rw different (reply-IsServer id (refused 409) s v)
      ]
  answer-IsServer (pending_found p) s id k fp v gone counted live =
      elim (Bool-cases (p.fingerprint == fp)) [
        | inl same ↦ rw same (wait-IsServer s id p.promise v (live p refl))
        | inr different ↦ rw different (reply-IsServer id (refused 409) s v)
      ]
  answer-IsServer nothing_found s id k fp v gone counted live =
      start-IsServer s id k fp v gone counted
