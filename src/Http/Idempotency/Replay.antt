-- ===== src/Http/Idempotency/Replay.antt =====
-- idempotency.middleware.ts: what a request meets after an earlier one with its key has ended.
use mathlib.Core.List.{
  ◌++◌ as ◌++ᴸ◌, Mem, mem-cast, mem-cons_self, mem-cons_of_mem, mem-append_right,
}
use mathlib.Core.Path.{subst⁻¹}
use canvassync.Prelude.{
  ℕ, ◌+◌, ◌≤◌, ◌<◌, String, true, false, not, some, List, [], ◌∷◌, select, map, ltb, if◌then◌else◌,
  ◌==◌, nat_key, string_key, ◌≡◌, refl, sym, ap, arith, All, Bool-cases, inl, inr,
}
use canvassync.JsMap
use canvassync.JsMap.{JsMap, IsMap}
use canvassync.JsMap.Laws.{get-set_self, set-IsMap, size-set}
use canvassync.Http.Request.{Request}
use canvassync.Http.Idempotency.Store.{
  HeaderValue, CachedResponse, is_replayable_status, is_expired, is_empty,
}
use canvassync.Http.Idempotency.Pruning.{prune_expired_entries-IsPruned, size-drop}
use canvassync.Http.Idempotency.Middleware.{
  IdempotencyConfig, Exchange, Reply, replayed, refused, Server, cached_state, answer_found, settle,
  capture, abandon, keep, store_key_of, fingerprint_of, asks, look_up, idempotency_middleware,
  finalize, response_of,
}

none_left :
    (promise : ℕ) (ws : JsMap ℕ ℕ)
    → All (λ w. (w.1 == promise) ≡ false) (select (λ w. not (w.1 == promise)) ws)
none_left promise [] = tt
none_left promise (w ∷ ws) = elim (Bool-cases (w.1 == promise)) [
  | inl awaits ↦ rw awaits (none_left promise ws)
  | inr busy ↦ rw busy (busy, none_left promise ws)
]

module _ {B : Type 0} where
  Mem-answered :
      (promise request : ℕ) (r : Reply B) (ws : JsMap ℕ ℕ)
      → JsMap.get ws request ≡ some promise
      → Mem {A = ℕ × Reply B} (request, r) (map (λ w. (w.0, r)) (select (λ w. w.1 == promise) ws))
  unfolding JsMap.get
  Mem-answered promise request r [] g = absurd (ground arith)
  Mem-answered promise request r (w ∷ ws) g = elim (Bool-cases (w.0 == request)) [
    | inl own ↦
        let awaits : (w.1 == promise) ≡ true =
          ground (arith, own, nat_key.matches_iff w.1 promise) in
        let head =
          ap {B = ℕ × Reply B} (λ q. (q, r)) (sym ((nat_key.matches_iff w.0 request).0 own)) in
        rw awaits (mem-cast head mem-cons_self)
    | inr other ↦
        let rest = Mem-answered promise request r ws (ground (arith, other)) in
        elim (Bool-cases (w.1 == promise)) [
          | inl awaits ↦ rw awaits (mem-cons_of_mem (w.0, r) rest)
          | inr busy ↦ rw busy rest
        ]
  ]

  settle_answers :
      (promise : ℕ) (r : Reply B) (s : Server B) (request : ℕ)
      → JsMap.get s.waiting request ≡ some promise
      → Mem {A = ℕ × Reply B} (request, r) (settle promise r s).replies
        × All (λ w. (w.1 == promise) ≡ false) (settle promise r s).waiting
  unfolding settle
  settle_answers promise r s request g = (
    mem-append_right s.replies (Mem-answered promise request r s.waiting g),
    none_left promise s.waiting,
  )

module _ {B : Type 0} (cfg : IdempotencyConfig) where
  -- The store that keep leaves.
  kept_store :
      (s : Server B) (id : ℕ) (x : Exchange B) (c : CachedResponse B)
      → (keep id x c s).store ≡ JsMap.set s.store x.store_key (cached_state c)
  unfolding keep
  kept_store s id x c = refl

  finalize-keep :
      (s : Server B) (id now status_code : ℕ) (headers : List (String × HeaderValue))
      (x : Exchange B)
      → JsMap.get s.exchanges id ≡ some x
      → x.captured ≡ false
      → status_code < 500
      → finalize cfg id now status_code headers s
        ≡ keep id x (response_of cfg now status_code headers x) s
  unfolding finalize is_replayable_status
  finalize-keep s id now status_code headers x here runs fine = ground (arith, here, runs)

  -- A store that has the response for the key, and room.
  replay :
      (s : Server B) (later : ℕ) (req : Request) (c : CachedResponse B)
      → asks req ≡ true
      → IsMap s.store
      → JsMap.get s.store (store_key_of req) ≡ some (cached_state c)
      → later < c.expires_at
      → JsMap.size s.store ≤ cfg.max_entries
      → (idempotency_middleware cfg later req s).replies
        ≡ s.replies
          ++ᴸ (
            s.arrivals,
            if c.fingerprint == fingerprint_of cfg req then replayed c else refused 409,
          )
            ∷ []
  unfolding idempotency_middleware look_up answer_found is_expired is_empty
  replay s later req c asked w there early room =
      let pruned = prune_expired_entries-IsPruned cfg.max_entries later s.store w in
      ground (arith, asked, pruned.with_room (store_key_of req), size-drop later s.store)

  -- After a request whose exchange is still open ends with a status below 500, and with room for
  -- one entry, a request with its key that comes before the window ends meets that response if its
  -- body has the same fingerprint, and a 409 if not; its handler does not run.
  pub finalize-replay :
      (s : Server B) (id now later status_code : ℕ) (headers : List (String × HeaderValue))
      (x : Exchange B) (req : Request)
      → IsMap s.store
      → JsMap.size s.store < cfg.max_entries
      → JsMap.get s.exchanges id ≡ some x
      → x.captured ≡ false
      → status_code < 500
      → asks req ≡ true
      → store_key_of req ≡ x.store_key
      → later < now + cfg.window_ms
      → let s' = finalize cfg id now status_code headers s in
        let c = response_of cfg now status_code headers x in
        (idempotency_middleware cfg later req s').replies
        ≡ s'.replies
          ++ᴸ (
            s'.arrivals,
            if x.fingerprint == fingerprint_of cfg req then replayed c else refused 409,
          )
            ∷ []
  unfolding keep
  finalize-replay s id now later status_code headers x req w room here runs fine asked same early =
      let c = response_of cfg now status_code headers x in
      subst⁻¹
        (λ s'.
          (idempotency_middleware cfg later req s').replies
          ≡ s'.replies
            ++ᴸ (
              s'.arrivals,
              if x.fingerprint == fingerprint_of cfg req then replayed c else refused 409,
            )
              ∷ [])
        (finalize-keep s id now status_code headers x here runs fine)
        (replay (keep id x c s) later req c asked (set-IsMap s.store x.store_key (cached_state c) w)
          (rw same (get-set_self s.store x.store_key (cached_state c))) early
          (ground (arith, size-set s.store x.store_key (cached_state c))))

  -- When a request whose exchange is still open ends, every request that waits for it is answered,
  -- with its response if the status is below 500 and an error with the status otherwise, and none
  -- waits for it any more.
  pub finalize_answers :
      (s : Server B) (id now status_code request : ℕ) (headers : List (String × HeaderValue))
      (x : Exchange B)
      → JsMap.get s.exchanges id ≡ some x
      → x.captured ≡ false
      → JsMap.get s.waiting request ≡ some id
      → let s' = finalize cfg id now status_code headers s in
        let c = response_of cfg now status_code headers x in
        Mem {A = ℕ × Reply B}
          (request, if ltb status_code 500 then replayed c else refused status_code)
          s'.replies
        × All (λ w. (w.1 == id) ≡ false) s'.waiting
  unfolding finalize is_replayable_status keep abandon
  finalize_answers s id now status_code request headers x here runs waits =
      let c = response_of cfg now status_code headers x in
      let s1 = capture id x s in
      elim (Bool-cases (ltb status_code 500)) [
        | inl fine ↦
            rw (finalize, here, runs, fine)
              (settle_answers id (replayed c)
                (record s1 { store = JsMap.set s.store x.store_key (cached_state c) }) request
                waits)
        | inr broken ↦
            rw (finalize, here, runs, broken)
              (settle_answers id (refused status_code)
                (record s1 { store = JsMap.delete s.store x.store_key }) request waits)
      ]
