-- ===== src/Http/Idempotency/Exclusion.antt =====
-- idempotency.middleware.ts: which exchange an entry in flight belongs to.
use canvassync.Prelude.{
  ℕ, ◌+◌, ◌≤◌, String, true, false, some, List, ◌==◌, nat_key, string_key, ◌≡◌, refl, arith,
  Bool-cases, Option-cases, inl, inr,
}
use canvassync.JsMap
use canvassync.JsMap.{JsMap, IsMap}
use canvassync.JsMap.Laws.{get-set, get-delete}
use canvassync.Http.Request.{Request}
use canvassync.Http.Idempotency.Store.{
  BodyKind, HeaderValue, CachedResponse, IdempotencyState, prune_expired_entries,
  is_replayable_status,
}
use canvassync.Http.Idempotency.Sorting.{pendings}
use canvassync.Http.Idempotency.Pruning.{prune_expired_entries-IsPruned}
use canvassync.Http.Idempotency.Middleware.{
  IdempotencyConfig, Exchange, Reply, replayed, refused, rethrown, Server, Found, cached_found,
  pending_found, nothing_found, found, cached_state, pending_state, new_exchange, start_exchange,
  answer_found, settle, capture, abandon, keep, fail_pending, capture_body, store_key_of,
  fingerprint_of, asks, look_up, idempotency_middleware, finalize, response_of, Event, arrived,
  wrote, finished, closed, threw, step,
}
use canvassync.Http.Idempotency.Invariant.{IsServer}

module _ {B : Type 0} where
  -- The entry of every request whose exchange is open is the one that it put there.
  abbrev pub Runs : Server B → Type 0
  Runs s =
      (id : ℕ) (x : Exchange B)
      → JsMap.get s.exchanges id ≡ some x
      → x.captured ≡ false
      → JsMap.get s.store x.store_key ≡ some (pending_state id x.fingerprint)

  start-Runs :
      (s : Server B) (id : ℕ) (k fp : String)
      → Runs s
      → found (JsMap.get s.store k) ≡ nothing_found
      → Runs (start_exchange id k fp s)
  unfolding start_exchange
  start-Runs s id k fp v free j x g runs = ground (
    arith,
    get-set s.exchanges id j (new_exchange k fp),
    get-set s.store k x.store_key (pending_state id fp),
    v j x,
    nat_key.matches_iff id j,
    string_key.matches_iff k x.store_key,
  )

  answer-Runs :
      (f : Found B) (s : Server B) (id : ℕ) (k fp : String)
      → Runs s
      → found (JsMap.get s.store k) ≡ f
      → Runs (answer_found f id k fp s)
  unfolding answer_found
  answer-Runs (cached_found c) s id k fp v e = elim (Bool-cases (c.fingerprint == fp)) [
    | inl same ↦ rw same v
    | inr different ↦ rw different v
  ]
  answer-Runs (pending_found p) s id k fp v e = elim (Bool-cases (p.fingerprint == fp)) [
    | inl same ↦ rw same v
    | inr different ↦ rw different v
  ]
  answer-Runs nothing_found s id k fp v e = start-Runs s id k fp v e

  -- An exchange ends and its key is written or freed; the other keys stay.
  end-Runs :
      (s : Server B) (id : ℕ) (x : Exchange B) (r : Reply B)
      (store : JsMap String (IdempotencyState B))
      → Runs s
      → JsMap.get s.exchanges id ≡ some x
      → x.captured ≡ false
      → ((k : String) → (x.store_key == k) ≡ false → JsMap.get store k ≡ JsMap.get s.store k)
      → Runs (settle id r (record (capture id x s) { store = store }))
  unfolding settle
  end-Runs s id x r store v here open' same j y g runs = ground (
    arith,
    get-set s.exchanges id j (record x { captured = true }),
    same y.store_key,
    v j y,
    v id x,
    nat_key.matches_iff id j,
    string_key.matches_iff x.store_key y.store_key,
  )

  keep-Runs :
      (s : Server B) (id : ℕ) (x : Exchange B) (c : CachedResponse B)
      → Runs s
      → JsMap.get s.exchanges id ≡ some x
      → x.captured ≡ false
      → Runs (keep id x c s)
  unfolding keep
  keep-Runs s id x c v here open' =
      end-Runs s id x (replayed c) (JsMap.set s.store x.store_key (cached_state c)) v here open'
        (λ k other. ground (arith, get-set s.store x.store_key k (cached_state c)))

  abandon-Runs :
      (s : Server B) (id : ℕ) (x : Exchange B) (r : Reply B)
      → IsMap s.store
      → Runs s
      → JsMap.get s.exchanges id ≡ some x
      → x.captured ≡ false
      → Runs (abandon id x r s)
  unfolding abandon
  abandon-Runs s id x r w v here open' =
      end-Runs s id x r (JsMap.delete s.store x.store_key) v here open'
        (λ k other. ground (arith, get-delete s.store x.store_key k w))

  fail-Runs :
      (s : Server B) (id : ℕ) (r : Reply B) → IsMap s.store → Runs s → Runs (fail_pending id r s)
  unfolding fail_pending
  fail-Runs s id r w v = elim (Option-cases (JsMap.get s.exchanges id)) [
    | inl gone ↦ rw (fail_pending, gone) v
    | inr (x, here) ↦ elim (Bool-cases x.captured) [
      | inl ended ↦ rw (fail_pending, here, ended) v
      | inr open' ↦ rw (fail_pending, here, open') (abandon-Runs s id x r w v here open')
    ]
  ]

  write-Runs :
      (s : Server B) (id : ℕ) (kind : BodyKind) (body : B)
      → Runs s
      → Runs (capture_body id kind body s)
  unfolding capture_body
  write-Runs s id kind body v = elim (Option-cases (JsMap.get s.exchanges id)) [
    | inl gone ↦ rw (capture_body, gone) v
    | inr (x, here) ↦
        let y : Exchange B = record x { captured_body = some body; captured_body_kind = kind } in
        rw (capture_body, here)
          (λ j x' g runs.
            ground (arith, get-set s.exchanges id j y, v j x', v id x, nat_key.matches_iff id j))
  ]

module _ {B : Type 0} (cfg : IdempotencyConfig) where
  finish-Runs :
      (s : Server B) (id now status_code : ℕ) (headers : List (String × HeaderValue))
      → IsMap s.store
      → Runs s
      → Runs (finalize cfg id now status_code headers s)
  unfolding finalize
  finish-Runs s id now status_code headers w v = elim (Option-cases (JsMap.get s.exchanges id)) [
    | inl gone ↦ rw (finalize, gone) v
    | inr (x, here) ↦ elim (Bool-cases x.captured) [
      | inl ended ↦ rw (finalize, here, ended) v
      | inr runs ↦ elim (Bool-cases (is_replayable_status status_code)) [
        | inl replayable ↦
            rw (finalize, here, runs, replayable)
              (keep-Runs s id x (response_of cfg now status_code headers x) v here runs)
        | inr broken ↦
            rw (finalize, here, runs, broken)
              (abandon-Runs s id x (refused status_code) w v here runs)
      ]
    ]
  ]

  look_up-Runs :
      (s : Server B) (now id : ℕ) (req : Request)
      → IsMap s.store
      → pendings s.store ≤ cfg.max_entries
      → Runs s
      → Runs (look_up cfg now id req s)
  unfolding look_up
  look_up-Runs s now id req w few v =
      let pruned = prune_expired_entries-IsPruned cfg.max_entries now s.store w in
      let s' : Server B = record s { store = prune_expired_entries cfg.max_entries now s.store } in
      let k = store_key_of req in
      answer-Runs (found (JsMap.get s'.store k)) s' id k (fingerprint_of cfg req)
        (λ j x g runs.
          pruned.in_flight x.store_key (pending_state j x.fingerprint) _ few (v j x g runs) refl
            refl)
        refl

  arrive-Runs :
      (s : Server B) (now : ℕ) (req : Request)
      → IsMap s.store
      → pendings s.store ≤ cfg.max_entries
      → Runs s
      → Runs (idempotency_middleware cfg now req s)
  unfolding idempotency_middleware
  arrive-Runs s now req w few v =
      let s' : Server B = record s { arrivals = s.arrivals + 1 } in
      elim (Bool-cases (asks req)) [
        | inl asked ↦ rw asked (look_up-Runs s' now s.arrivals req w few v)
        | inr not_asked ↦ rw not_asked v
      ]

  pub step-Runs :
      (s : Server B) (e : Event B)
      → IsServer s
      → pendings s.store ≤ cfg.max_entries
      → Runs s
      → Runs (step cfg s e)
  unfolding step
  step-Runs s (arrived now req) w few v = arrive-Runs s now req w.store_map few v
  step-Runs s (wrote id kind body) w few v = write-Runs s id kind body v
  step-Runs s (finished id now status_code headers) w few v =
      finish-Runs s id now status_code headers w.store_map v
  step-Runs s (closed id true) w few v = v
  step-Runs s (closed id false) w few v = fail-Runs s id (refused 499) w.store_map v
  step-Runs s (threw id) w few v = fail-Runs s id rethrown w.store_map v
