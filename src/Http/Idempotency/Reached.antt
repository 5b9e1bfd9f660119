-- ===== src/Http/Idempotency/Reached.antt =====
-- idempotency.middleware.ts: what holds whatever the order of its events.
use canvassync.Prelude.{
  ℕ, ◌≤◌, false, some, List, [], ◌∷◌, nat_key, string_key, ◌≡◌, refl, arith, All, foldl,
}
use canvassync.JsMap
use canvassync.JsMap.{JsMap, IsMap}
use canvassync.Http.Idempotency.Sorting.{pendings}
use canvassync.Http.Idempotency.Middleware.{IdempotencyConfig, Exchange, Server, Event, step}
use canvassync.Http.Idempotency.Invariant.{Live, IsServer}
use canvassync.Http.Idempotency.Exclusion.{Runs, step-Runs}
use canvassync.Http.Idempotency.Progress.{step-IsServer}

abbrev pub empty_server : (B : Type 0) → Server B
empty_server B = record {
  store = JsMap.empty;
  exchanges = JsMap.empty;
  waiting = JsMap.empty;
  replies = [];
  arrivals = 0;
}

module _ {B : Type 0} (cfg : IdempotencyConfig) where
  -- The states that the events lead to while the requests in flight fit into the store.
  pub data Reached : Server B → Type 0 where
    started : Reached (empty_server B)
    then_step :
        (s : Server B) (e : Event B)
        → Reached s
        → pendings s.store ≤ cfg.max_entries
        → Reached (step cfg s e)

  empty-IsServer : IsServer (empty_server B)
  unfolding JsMap.get
  empty-IsServer = record {
    store_map = tt;
    pending_live = λ k st p g q. absurd (ground arith);
    waiting_live = tt;
    fresh = λ id h. refl;
  }

  pub Reached-IsServer : (s : Server B) → Reached s → IsServer s
  Reached-IsServer s started = empty-IsServer
  Reached-IsServer s (then_step s' e r few) = step-IsServer cfg s' e (Reached-IsServer s' r)

  pub Reached-Runs : (s : Server B) → Reached s → Runs s
  unfolding JsMap.get
  Reached-Runs s started = λ id x g runs. absurd (ground arith)
  Reached-Runs s (then_step s' e r few) =
      step-Runs cfg s' e (Reached-IsServer s' r) few (Reached-Runs s' r)

  -- However requests, writes, ends, breaks and failures follow each other from an empty store,
  -- while the entries without a response fit into the store at most one request per key has an
  -- open exchange: it has been passed on, and since then its response has not been written out,
  -- its connection has not broken and its handler has not thrown. A handler that runs on after its
  -- connection has broken is not counted.
  pub Reached-exclusive :
      (s : Server B) (i j : ℕ) (x y : Exchange B)
      → Reached s
      → JsMap.get s.exchanges i ≡ some x
      → JsMap.get s.exchanges j ≡ some y
      → x.captured ≡ false
      → y.captured ≡ false
      → x.store_key ≡ y.store_key
      → i ≡ j
  Reached-exclusive s i j x y r g h runs runs' same =
      ground (arith, Reached-Runs s r i x g runs, Reached-Runs s r j y h runs')

  run-IsServer :
      (es : List (Event B)) (s : Server B) → IsServer s → IsServer (foldl (step cfg) s es)
  run-IsServer [] s v = v
  run-IsServer (e ∷ es) s v = run-IsServer es (step cfg s e) (step-IsServer cfg s e v)

  -- After any series of events from an empty store, a waiting request waits for one whose exchange
  -- is open and whose promise is not settled.
  pub waiting-Live :
      (es : List (Event B))
      → let s = foldl (step cfg) (empty_server B) es in All (λ w. Live s.exchanges w.1) s.waiting
  waiting-Live es = (run-IsServer es (empty_server B) empty-IsServer).waiting_live
