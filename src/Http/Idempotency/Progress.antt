-- ===== src/Http/Idempotency/Progress.antt =====
-- idempotency.middleware.ts: every event keeps what the store promises to who waits.
use canvassync.Prelude.{
  ℕ, ◌+◌, ◌<◌, String, true, false, not, none, some, List, All-impl, All-select, ◌==◌, nat_key,
  string_key, ◌≡◌, refl, arith, Bool-cases, Option-cases, inl, inr,
}
use canvassync.JsMap
use canvassync.JsMap.{JsMap, IsMap}
use canvassync.JsMap.Laws.{get-set, get-delete, set-IsMap, delete-IsMap}
use canvassync.Http.Request.{Request}
use canvassync.Http.Idempotency.Store.{
  BodyKind, HeaderValue, CachedResponse, PendingEntry, IdempotencyState, prune_expired_entries,
  is_replayable_status,
}
use canvassync.Http.Idempotency.Pruning.{prune_expired_entries-IsPruned}
use canvassync.Http.Idempotency.Middleware.{
  IdempotencyConfig, Exchange, Reply, passed_on, replayed, refused, rethrown, Server, found,
  cached_state, settle, capture, abandon, keep, fail_pending, capture_body, store_key_of,
  fingerprint_of, asks, look_up, idempotency_middleware, finalize, response_of, Event, arrived,
  wrote, finished, closed, threw, step,
}
use canvassync.Http.Idempotency.Invariant.{
  Live, IsServer, LiveAt-set, LiveAt-set_other, Live-set_other, reply-IsServer, answer-IsServer,
}

module _ {B : Type 0} where
  -- The store of an exchange that ends, where nothing is in flight at its key any more.
  abbrev Clears :
      Exchange B → JsMap String (IdempotencyState B) → JsMap String (IdempotencyState B) → Type 0
  Clears x before after =
      (k : String) (st : IdempotencyState B) (p : PendingEntry)
      → JsMap.get after k ≡ some st
      → st.pending ≡ some p
      → (JsMap.get before k ≡ some st) × ((x.store_key == k) ≡ false)

  end-IsServer :
      (s : Server B) (id : ℕ) (x : Exchange B) (r : Reply B)
      (store : JsMap String (IdempotencyState B))
      → IsServer s
      → JsMap.get s.exchanges id ≡ some x
      → IsMap store
      → Clears x s.store store
      → IsServer (settle id r (record (capture id x s) { store = store }))
  unfolding settle
  end-IsServer s id x r store v here w clears =
      let y : Exchange B = record x { captured = true } in
      record {
        store_map = w;
        pending_live = λ k st p g q.
            let (old, other) = clears k st p g q in
            let (x', at, live, key) = v.pending_live k st p old q in
            LiveAt-set_other s.exchanges id p.promise k y
              (ground
                (arith, nat_key.matches_iff id p.promise, string_key.matches_iff x.store_key k))
              (x', at, live, key);
        waiting_live =
            All-select (λ w. Live s.exchanges w.1) (λ w. Live (JsMap.set s.exchanges id y) w.1)
              (λ w. not (w.1 == id)) s.waiting
              (λ w kept l.
                Live-set_other s.exchanges id w.1 y
                  (ground (arith, nat_key.matches_iff id w.1, nat_key.matches_iff w.1 id)) l)
              v.waiting_live;
        fresh =
            λ j h. ground (arith, get-set s.exchanges id j y, v.fresh j, nat_key.matches_iff id j);
      }

  keep-IsServer :
      (s : Server B) (id : ℕ) (x : Exchange B) (c : CachedResponse B)
      → IsServer s
      → JsMap.get s.exchanges id ≡ some x
      → IsServer (keep id x c s)
  unfolding keep
  keep-IsServer s id x c v here =
      end-IsServer s id x (replayed c) (JsMap.set s.store x.store_key (cached_state c)) v here
        (set-IsMap s.store x.store_key (cached_state c) v.store_map)
        (λ k st p g q. ground (arith, get-set s.store x.store_key k (cached_state c)))

  abandon-IsServer :
      (s : Server B) (id : ℕ) (x : Exchange B) (r : Reply B)
      → IsServer s
      → JsMap.get s.exchanges id ≡ some x
      → IsServer (abandon id x r s)
  unfolding abandon
  abandon-IsServer s id x r v here =
      end-IsServer s id x r (JsMap.delete s.store x.store_key) v here
        (delete-IsMap s.store x.store_key v.store_map)
        (λ k st p g q. ground (arith, get-delete s.store x.store_key k v.store_map))

  fail-IsServer :
      (s : Server B) (id : ℕ) (r : Reply B) → IsServer s → IsServer (fail_pending id r s)
  unfolding fail_pending
  fail-IsServer s id r v = elim (Option-cases (JsMap.get s.exchanges id)) [
    | inl gone ↦ rw (fail_pending, gone) v
    | inr (x, here) ↦ elim (Bool-cases x.captured) [
      | inl ended ↦ rw (fail_pending, here, ended) v
      | inr open' ↦ rw (fail_pending, here, open') (abandon-IsServer s id x r v here)
    ]
  ]

  write-IsServer :
      (s : Server B) (id : ℕ) (kind : BodyKind) (body : B)
      → IsServer s
      → IsServer (capture_body id kind body s)
  unfolding capture_body
  write-IsServer s id kind body v = elim (Option-cases (JsMap.get s.exchanges id)) [
    | inl gone ↦ rw (capture_body, gone) v
    | inr (x, here) ↦
        let y : Exchange B = record x { captured_body = some body; captured_body_kind = kind } in
        let same : (x' : Exchange B)
            → JsMap.get s.exchanges id ≡ some x'
            → (y.captured ≡ x'.captured) × (y.store_key ≡ x'.store_key) =
          λ x' g. ground arith in
        rw (capture_body, here)
          (record {
            store_map = v.store_map;
            pending_live = λ k st p g q.
                LiveAt-set s.exchanges id p.promise k y same (v.pending_live k st p g q);
            waiting_live =
                All-impl (λ w. Live s.exchanges w.1) (λ w. Live (JsMap.set s.exchanges id y) w.1)
                  s.waiting
                  (λ w l.
                    let (x1, g1, live1) = l in
                    let (x', g, live, key) =
                      LiveAt-set s.exchanges id w.1 x1.store_key y same (x1, g1, live1, refl) in
                    (x', g, live))
                  v.waiting_live;
            fresh = λ j h.
                ground (arith, get-set s.exchanges id j y, v.fresh j, nat_key.matches_iff id j);
          })
  ]

module _ {B : Type 0} (cfg : IdempotencyConfig) where
  finish-IsServer :
      (s : Server B) (id now status_code : ℕ) (headers : List (String × HeaderValue))
      → IsServer s
      → IsServer (finalize cfg id now status_code headers s)
  unfolding finalize
  finish-IsServer s id now status_code headers v = elim (Option-cases (JsMap.get s.exchanges id)) [
    | inl gone ↦ rw (finalize, gone) v
    | inr (x, here) ↦ elim (Bool-cases x.captured) [
      | inl ended ↦ rw (finalize, here, ended) v
      | inr runs ↦ elim (Bool-cases (is_replayable_status status_code)) [
        | inl replayable ↦
            rw (finalize, here, runs, replayable)
              (keep-IsServer s id x (response_of cfg now status_code headers x) v here)
        | inr broken ↦
            rw (finalize, here, runs, broken) (abandon-IsServer s id x (refused status_code) v here)
      ]
    ]
  ]

  prune-IsServer :
      (s : Server B) (now : ℕ)
      → IsServer s
      → IsServer (record s { store = prune_expired_entries cfg.max_entries now s.store })
  prune-IsServer s now v =
      let pruned = prune_expired_entries-IsPruned cfg.max_entries now s.store v.store_map in
      record {
        store_map = pruned.is_map;
        pending_live = λ k st p g q. v.pending_live k st p (pruned.unchanged k st g).0 q;
        waiting_live = v.waiting_live;
        fresh = v.fresh;
      }

  look_up-IsServer :
      (s : Server B) (now id : ℕ) (req : Request)
      → IsServer s
      → JsMap.get s.exchanges id ≡ none
      → id < s.arrivals
      → IsServer (look_up cfg now id req s)
  unfolding look_up
  look_up-IsServer s now id req v gone counted =
      let pruned = prune_expired_entries-IsPruned cfg.max_entries now s.store v.store_map in
      let s' : Server B = record s { store = prune_expired_entries cfg.max_entries now s.store } in
      let k = store_key_of req in
      let v' = prune-IsServer s now v in
      answer-IsServer (found (JsMap.get s'.store k)) s' id k (fingerprint_of cfg req) v' gone
        counted
        (λ p e. elim (Option-cases (JsMap.get s'.store k)) [
          | inl none_there ↦ absurd (ground arith)
          | inr (st, there) ↦
              let (x, g, live, key) = v'.pending_live k st p there (ground arith) in (x, g, live)
        ])

  arrive-IsServer :
      (s : Server B) (now : ℕ) (req : Request)
      → IsServer s
      → IsServer (idempotency_middleware cfg now req s)
  unfolding idempotency_middleware
  arrive-IsServer s now req v =
      let s' : Server B = record s { arrivals = s.arrivals + 1 } in
      let v' : IsServer s' = record {
        store_map = v.store_map;
        pending_live = v.pending_live;
        waiting_live = v.waiting_live;
        fresh = λ j h. v.fresh j (omega arith);
      } in
      elim (Bool-cases (asks req)) [
        | inl asked ↦ rw asked (
            look_up-IsServer s' now s.arrivals req v' (v.fresh s.arrivals (omega arith))
              (omega arith))
        | inr not_asked ↦ rw not_asked (reply-IsServer s.arrivals passed_on s' v')
      ]

  pub step-IsServer : (s : Server B) (e : Event B) → IsServer s → IsServer (step cfg s e)
  unfolding step
  step-IsServer s (arrived now req) v = arrive-IsServer s now req v
  step-IsServer s (wrote id kind body) v = write-IsServer s id kind body v
  step-IsServer s (finished id now status_code headers) v =
      finish-IsServer s id now status_code headers v
  step-IsServer s (closed id true) v = v
  step-IsServer s (closed id false) v = fail-IsServer s id (refused 499) v
  step-IsServer s (threw id) v = fail-IsServer s id rethrown v
